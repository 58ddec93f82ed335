-- ===== src/Tests/Sessions.antt =====
-- The theorems on the debugger's session and on the tests that run on the processor.
use mlogv.Prelude.{
  ℕ, ◌%◌, ◌≡◌, ◌↔◌, refl, Bool, true, false, Option, none, some, List, [], ◌∷◌, ◌++◌, map, Text,
  codes, text_eq, err, if◌then◌else◌, length, All, arith, pos,
}
use mlogv.Access.{Request, Response, success, status, StatusResponse, Socket}
use mlogv.Debug.{split_lines, filtered, changed_lines, always_shown}
use mlogv.Debug.Lines.{changed_lines-cut}
use mlogv.Debug.Session.{main, out_of_fuel, stopped}
use mlogv.Debug.Session.Ends.{EndsAt, session_lines, main-EndsAt}
use mlogv.Debug.Session.History.{Recorded, main-Recorded}
use mlogv.PyInt.{parse_int_hex}
use mlogv.Riscof.{address_in, signature_lines}
use mlogv.Riscof.Run.{run_test}
use mlogv.Riscof.Session.{Settings, Job, test_failed, run_jobs, run_tests}
use mlogv.Riscof.Session.Passes.{HasRun, run_tests-HasRun}
use mlogv.Riscof.Session.Fails.{session, run_tests-stops}
use mlogv.Riscof.{symbol_not_found}
use mlogv.Riscof.Signature.{bytes_of, signature_lines-read, signature_lines-whole}
use mlogv.Config.{split}

abbrev is_reset : StatusResponse
is_reset = record {
  running = false;
  paused = false;
  state = [];
  error_output = [];
  pc = none;
  instruction = none;
  privilege_mode = none;
  registers = [];
  mscratch = pos 0;
  mtvec = pos 0;
  mepc = pos 0;
  mcause = pos 0;
  mtval = pos 0;
  mstatus = pos 0;
  mip = pos 0;
  mie = pos 0;
  mcycle = pos 0;
  minstret = pos 0;
  mtime = pos 0;
}

abbrev no_text : Request → Text
no_text request = []

abbrev any_path : Text → Bool
any_path path = true

-- an encoding of two responses
abbrev two_answers : Text → Option Response
two_answers [] = none
two_answers (c ∷ s) = elim s [ [] ↦ some (success []) | d ∷ t ↦ some (status is_reset) ]

abbrev done_line : Text
done_line = codes "k"

abbrev status_line : Text
status_line = codes "st"

abbrev stopping : Socket
stopping = record { out = []; incoming = status_line ∷ done_line ∷ done_line ∷ status_line ∷ [] }

abbrev is_busy : StatusResponse
is_busy = record {
  running = true;
  paused = true;
  state = [];
  error_output = [];
  pc = none;
  instruction = none;
  privilege_mode = none;
  registers = [];
  mscratch = pos 0;
  mtvec = pos 0;
  mepc = pos 0;
  mcause = pos 0;
  mtval = pos 0;
  mstatus = pos 0;
  mip = pos 0;
  mie = pos 0;
  mcycle = pos 0;
  minstret = pos 0;
  mtime = pos 0;
}

-- an encoding of success and of two statuses
abbrev three_answers : Text → Option Response
three_answers [] = none
three_answers (c ∷ []) = some (success [])
three_answers (c ∷ d ∷ []) = some (status is_reset)
three_answers (c ∷ d ∷ e ∷ s) = some (status is_busy)

abbrev three_lines : StatusResponse → Text
three_lines st = if st.running then codes "run" else status_line

main-EndsAt_example :
    EndsAt no_text three_answers any_path true done_line [] three_lines refl
      (status_line ∷ [])
      (is_reset ∷ ((is_busy ∷ is_busy ∷ []) ++ (is_reset ∷ [])))
      (main no_text three_answers any_path true 2 (record {
        out = [];
        incoming =
            session_lines no_text three_answers any_path true done_line [] three_lines is_reset
              (is_busy ∷ is_busy ∷ [])
              is_reset
              (status_line ∷ []);
      }))
unfolding mlogv.Debug.format_status mlogv.Debug.register_lines
main-EndsAt_example =
    main-EndsAt no_text three_answers any_path true done_line [] three_lines refl is_reset
      (is_busy ∷ is_busy ∷ []) is_reset (status_line ∷ []) 2 (omega arith) (refl, _, refl)
      ((refl, _, refl), ((refl, _, refl), tt)) (refl, _, refl) (refl, (refl, tt)) refl []

main-Recorded_example :
    Recorded no_text two_answers any_path true (main no_text two_answers any_path true 4 stopping)
unfolding main mlogv.Access.perform mlogv.Access.request_for mlogv.Access.recv_response
    mlogv.Access.matched mlogv.Access.first_line mlogv.Access.send_request mlogv.Debug.format_status
    mlogv.Debug.register_lines mlogv.Access.other_lines mlogv.Debug.Session.rounds
    mlogv.Debug.Session.next_rounds mlogv.Debug.Session.round
main-Recorded_example = main-Recorded no_text two_answers any_path true 4 stopping refl

changed_lines-cut_example :
    changed_lines 3 2 ((codes "a" ∷ []) ++ (codes "b" ∷ [])) (codes "c" ∷ [])
    ≡ changed_lines 3 2 (codes "a" ∷ []) (codes "c" ∷ [])
changed_lines-cut_example =
    changed_lines-cut 3 2 (codes "a" ∷ []) (codes "b" ∷ []) (codes "c" ∷ []) (omega arith)

abbrev answering : Socket
answering = record {
  out = [];
  incoming = done_line ∷ done_line ∷ done_line ∷ done_line ∷ done_line ∷ status_line ∷ [];
}

abbrev two_symbols : List Text
two_symbols = codes "00 t begin_signature" ∷ codes "04 t end_signature" ∷ []

signature_lines-read_example :
    map parse_int_hex (signature_lines (bytes_of (305419896 ∷ 7 ∷ [])))
    ≡ map (λ w. some (pos w)) (305419896 ∷ 7 ∷ [])
signature_lines-read_example =
    signature_lines-read (305419896 ∷ 7 ∷ []) (omega arith, (omega arith, tt))

signature_lines-whole_example :
    All (λ t. length t ≡ 8) (signature_lines (1 ∷ 2 ∷ 3 ∷ []))
    ↔ (length {A = ℕ} (1 ∷ 2 ∷ 3 ∷ []) % 2 ≡ 0)
signature_lines-whole_example = signature_lines-whole (1 ∷ 2 ∷ 3 ∷ [])

abbrev two_settings : Settings
two_settings = record {
  num_jobs = codes "1";
  plugin_path = codes "/p";
  isa_spec = [];
  platform_spec = [];
  host_repo_path = codes "/host";
  riscof_repo_path = codes "/repo";
  reloc_tests = [];
  make = codes "make";
  target_run = true;
}

abbrev two_jobs : List Job
two_jobs =
    record {
      testname = codes "a.S";
      test = record {
        work_dir = codes "/repo/a";
        test_path = codes "/repo/a.S";
        isa = [];
        macros = [];
      };
      nm_lines = two_symbols;
      out_bytes = 1 ∷ 2 ∷ 3 ∷ 4 ∷ [];
    }
    ∷ record {
      testname = codes "b.S";
      test = record {
        work_dir = codes "/repo/b";
        test_path = codes "/repo/b.S";
        isa = [];
        macros = [];
      };
      nm_lines = two_symbols;
      out_bytes = 5 ∷ 6 ∷ 7 ∷ 8 ∷ [];
    }
    ∷ []

abbrev twice_answering : Socket
twice_answering = record { out = []; incoming = answering.incoming ++ answering.incoming }

run_tests-HasRun_example :
    (two_settings.target_run ≡ true)
    × HasRun no_text two_answers any_path two_settings
        (codes "mlogv32:")
        two_jobs
        twice_answering
        (run_tests no_text two_answers any_path two_settings
          (codes "mlogv32:")
          (codes "/w")
          (codes "/e")
          (32 ∷ [])
          two_jobs
          twice_answering).socket
        (run_tests no_text two_answers any_path two_settings
          (codes "mlogv32:")
          (codes "/w")
          (codes "/e")
          (32 ∷ [])
          two_jobs
          twice_answering).files
unfolding run_tests run_jobs run_test address_in split text_eq parse_int_hex
    mlogv.Access.perform_all mlogv.Access.perform mlogv.Access.request_for
    mlogv.Access.recv_response mlogv.Access.matched mlogv.Access.first_line
    mlogv.Access.send_request mlogv.Access.absolute_only mlogv.Access.other_lines
run_tests-HasRun_example =
    run_tests-HasRun no_text two_answers any_path two_settings (codes "mlogv32:") (codes "/w")
      (codes "/e") (32 ∷ []) two_jobs twice_answering refl

-- behind the first test the processor does not answer any more
abbrev once_answering : Socket
once_answering = record { out = []; incoming = answering.incoming }

abbrev first_job : Job
first_job = record {
  testname = codes "a.S";
  test = record {
    work_dir = codes "/repo/a";
    test_path = codes "/repo/a.S";
    isa = [];
    macros = [];
  };
  nm_lines = two_symbols;
  out_bytes = 1 ∷ 2 ∷ 3 ∷ 4 ∷ [];
}

abbrev stuck_job : Job
stuck_job = record {
  testname = codes "b.S";
  test = record {
    work_dir = codes "/repo/b";
    test_path = codes "/repo/b.S";
    isa = [];
    macros = [];
  };
  nm_lines = codes "80 T end_signature" ∷ [];
  out_bytes = [];
}

run_tests-stops_example :
    ((session no_text two_answers any_path two_settings
        (codes "mlogv32:")
        (codes "/w")
        (codes "/e")
        (32 ∷ [])
        ((first_job ∷ []) ++ (stuck_job ∷ two_jobs))
        once_answering).ended
      ≡ err (test_failed (symbol_not_found (codes "begin_signature"))))
    × HasRun no_text two_answers any_path two_settings
        (codes "mlogv32:")
        (first_job ∷ [])
        once_answering
        (session no_text two_answers any_path two_settings
          (codes "mlogv32:")
          (codes "/w")
          (codes "/e")
          (32 ∷ [])
          ((first_job ∷ []) ++ (stuck_job ∷ two_jobs))
          once_answering).socket
        (session no_text two_answers any_path two_settings
          (codes "mlogv32:")
          (codes "/w")
          (codes "/e")
          (32 ∷ [])
          ((first_job ∷ []) ++ (stuck_job ∷ two_jobs))
          once_answering).files
unfolding run_tests run_jobs run_test address_in split text_eq parse_int_hex
    mlogv.Access.perform_all mlogv.Access.perform mlogv.Access.request_for
    mlogv.Access.recv_response mlogv.Access.matched mlogv.Access.first_line
    mlogv.Access.send_request mlogv.Access.absolute_only mlogv.Access.other_lines
run_tests-stops_example =
    run_tests-stops no_text two_answers any_path two_settings (codes "mlogv32:") (codes "/w")
      (codes "/e") (32 ∷ []) (first_job ∷ []) stuck_job two_jobs once_answering refl
      ((codes "80", codes "T", codes "end_signature", refl, refl), tt)
