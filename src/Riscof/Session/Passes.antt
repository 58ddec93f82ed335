-- ===== src/Riscof/Session/Passes.antt =====
-- riscof/mlogv32/riscof_mlogv32.py: what `runTests` has done where it ends without an exception.
use mlogv.Prelude.{
  ℕ, Bool, true, false, Option, List, [], ◌∷◌, ◌++◌, append-nil, append_assoc, map, Text, codes,
  Result, ok, err, ◌≡◌, refl, ap, sym, ◌∙◌, ℤ,
}
use mlogv.Access.{Request, Response, Socket}
use mlogv.Riscof.{address_in, signature_lines, TestError}
use mlogv.Riscof.Run.{TestRun, sent, Passed, frames-append, run_test-passes}
use mlogv.Access.Framing.{frames}
use mlogv.Riscof.Session.{
  Settings, host_path, Job, SessionRun, written_file, behind_test, sig_file_of, run_job, run_jobs,
  ended_by, runs_for, run_tests,
}

-- the addresses of each test's signature, which `nm` prints
abbrev pub HaveAddresses : List Job → List (ℤ × ℤ) → Type 0
HaveAddresses [] [] = Unit
HaveAddresses (job ∷ jobs) ((begin, end) ∷ addresses) =
    (address_in (codes "begin_signature") job.nm_lines ≡ ok begin)
    × (address_in (codes "end_signature") job.nm_lines ≡ ok end)
    × HaveAddresses jobs addresses
HaveAddresses _ _ = ⊥

-- the signature file of a test
abbrev pub signature_file : Text → Job → Text × List Text
signature_file name job = (sig_file_of name job.test, signature_lines job.out_bytes)

module _ (model_dump_json : Request → Text) (validate_json : Text → Option Response)
    (is_absolute : Text → Bool) where
  -- the requests of all tests, in the order of the list
  abbrev pub all_sent : Settings → List Job → List (ℤ × ℤ) → List Text
  all_sent settings [] addresses = []
  all_sent settings (job ∷ jobs) [] = []
  all_sent settings (job ∷ jobs) ((begin, end) ∷ addresses) =
      sent model_dump_json validate_json is_absolute (host_path settings job.test (codes "dut.bin"))
        (host_path settings job.test (codes "out.bin")) begin end
      ++ all_sent settings jobs addresses

  abbrev pub HasRun :
      Settings → Text → List Job → Socket → Socket → List (Text × List Text) → Type 0
  HasRun settings name jobs s socket files =
      (addresses : List (ℤ × ℤ)) × HaveAddresses jobs addresses
      × (socket.out ≡ s.out ++ frames (all_sent settings jobs addresses))
      × (files ≡ map (signature_file name) jobs)

  HasRun-next :
      (settings : Settings) (name : Text) (job : Job) (jobs : List Job) (s : Socket) (run : TestRun)
      (later : SessionRun) (begin end : ℤ)
      → Passed model_dump_json validate_json is_absolute
          (host_path settings job.test (codes "dut.bin"))
          (host_path settings job.test (codes "out.bin"))
          job.nm_lines
          job.out_bytes
          s
          run
          begin
          end
      → HasRun settings name jobs run.socket later.socket later.files
      → HasRun settings name
          (job ∷ jobs)
          s
          later.socket
          (written_file (sig_file_of name job.test) run.signature ++ later.files)
  unfolding written_file
  HasRun-next settings name job jobs s run later begin end (first, last, file, out)
        (addresses, found, rest_out, files) =
      let own =
        sent model_dump_json validate_json is_absolute
          (host_path settings job.test (codes "dut.bin"))
          (host_path settings job.test (codes "out.bin")) begin end in
      let rest = all_sent settings jobs addresses in
      (
        (begin, end) ∷ addresses,
        (first, last, found),
        rest_out
            ∙ ap (λ o. o ++ frames rest) out
            ∙ append_assoc s.out (frames own) (frames rest)
            ∙ ap (λ f. s.out ++ f) (sym (frames-append own rest)),
        rw (file, files) refl,
      )

  HasRun-behind :
      (settings : Settings) (name : Text) (job : Job) (jobs : List Job) (s : Socket) (run : TestRun)
      (rest : Socket → SessionRun) (o : Result TestError Unit)
      → (behind_test o run (sig_file_of name job.test) rest).outcome ≡ ok tt
      → (o ≡ ok tt
          → (begin : ℤ) × (end : ℤ) × Passed model_dump_json validate_json is_absolute
              (host_path settings job.test (codes "dut.bin"))
              (host_path settings job.test (codes "out.bin"))
              job.nm_lines
              job.out_bytes
              s
              run
              begin
              end)
      → ((rest run.socket).outcome ≡ ok tt
          → HasRun settings name jobs run.socket (rest run.socket).socket (rest run.socket).files)
      → HasRun settings name
          (job ∷ jobs)
          s
          (behind_test o run (sig_file_of name job.test) rest).socket
          (behind_test o run (sig_file_of name job.test) rest).files
  unfolding behind_test
  HasRun-behind settings name job jobs s run rest (err e) h passed later = cc
  HasRun-behind settings name job jobs s run rest (ok done) h passed later =
      let (begin, end, p) = passed refl in
      HasRun-next settings name job jobs s run (rest run.socket) begin end p (later h)

  run_jobs-HasRun :
      (settings : Settings) (name : Text) (jobs : List Job) (s : Socket)
      → (run_jobs model_dump_json validate_json is_absolute settings name jobs s).outcome ≡ ok tt
      → HasRun settings name jobs s
          (run_jobs model_dump_json validate_json is_absolute settings name jobs s).socket
          (run_jobs model_dump_json validate_json is_absolute settings name jobs s).files
  unfolding run_jobs run_job
  run_jobs-HasRun settings name [] s h = ([], tt, sym (append-nil s.out), refl)
  run_jobs-HasRun settings name (job ∷ jobs) s h =
      let run = run_job model_dump_json validate_json is_absolute settings name job s in
      HasRun-behind settings name job jobs s run
        (λ t. run_jobs model_dump_json validate_json is_absolute settings name jobs t) run.outcome h
        (run_test-passes model_dump_json validate_json is_absolute
          (host_path settings job.test (codes "dut.bin"))
          (host_path settings job.test (codes "out.bin")) job.nm_lines job.out_bytes s)
        (run_jobs-HasRun settings name jobs run.socket)

  ended_by-ok : (o : Result TestError Unit) → ended_by o ≡ ok tt → o ≡ ok tt
  unfolding ended_by
  ended_by-ok (err e) h = cc
  ended_by-ok (ok done) h = refl

  pub runs_for-passed :
      (target_run : Bool) (settings : Settings) (name : Text) (jobs : List Job) (s : Socket)
      → (runs_for model_dump_json validate_json is_absolute target_run settings name jobs s).0
        ≡ ok tt
      → (target_run ≡ true)
        × ((run_jobs model_dump_json validate_json is_absolute settings name jobs s).outcome
            ≡ ok tt)
        × HasRun settings name jobs s
            (run_jobs model_dump_json validate_json is_absolute settings name jobs s).socket
            (run_jobs model_dump_json validate_json is_absolute settings name jobs s).files
  unfolding runs_for
  runs_for-passed false settings name jobs s h = cc
  runs_for-passed true settings name jobs s h =
      let run = run_jobs model_dump_json validate_json is_absolute settings name jobs s in
      let passed = ended_by-ok run.outcome h in
      (refl, passed, run_jobs-HasRun settings name jobs s passed)

  runs_for-ok :
      (target_run : Bool) (settings : Settings) (name : Text) (jobs : List Job) (s : Socket)
      → (runs_for model_dump_json validate_json is_absolute target_run settings name jobs s).0
        ≡ ok tt
      → (target_run ≡ true)
        × HasRun settings name jobs s
            (runs_for model_dump_json validate_json is_absolute target_run settings name jobs s).1
            (runs_for model_dump_json validate_json is_absolute target_run settings name jobs s).2
  unfolding runs_for
  runs_for-ok false settings name jobs s h = cc
  runs_for-ok true settings name jobs s h =
      let run = run_jobs model_dump_json validate_json is_absolute settings name jobs s in
      (refl, run_jobs-HasRun settings name jobs s (ended_by-ok run.outcome h))

  -- If `runTests` ends without an exception, then the runs were not switched off, `nm` printed both
  -- addresses for every test, the processor got the six requests of each test and nothing else, test by
  -- test in the order of the list, and these are the signature files: one for each test, in that order, with
  -- the lines that are made of its dumped bytes.
  pub run_tests-HasRun :
      (settings : Settings) (name work_dir env : Text) (supported : List ℕ) (jobs : List Job)
      (s : Socket)
      → (run_tests model_dump_json validate_json is_absolute settings name work_dir env supported
          jobs s).ended
        ≡ ok tt
      → (settings.target_run ≡ true)
        × HasRun settings name jobs s
            (run_tests model_dump_json validate_json is_absolute settings name work_dir env
              supported jobs s).socket
            (run_tests model_dump_json validate_json is_absolute settings name work_dir env
              supported jobs s).files
  unfolding run_tests
  run_tests-HasRun settings name work_dir env supported jobs s h =
      runs_for-ok settings.target_run settings name jobs s h
