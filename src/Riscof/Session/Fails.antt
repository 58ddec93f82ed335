-- ===== src/Riscof/Session/Fails.antt =====
-- riscof/mlogv32/riscof_mlogv32.py: what `runTests` leaves where `nm` prints no begin of
-- the signature for a test. The connection is closed behind the session.
use mlogv.Prelude.{
  ℕ, Bool, false, Option, none, List, [], ◌∷◌, ◌++◌, append_assoc, append-nil, arith, Text, text_eq,
  codes, Result, ok, err, ◌≡◌, refl, ap, sym, ◌∙◌, subst, All,
}
use mlogv.Config.{split}
use mlogv.Access.{Request, Response, Socket}
use mlogv.Riscof.{TestError, symbol_not_found, address_in}
use mlogv.Riscof.Run.{TestRun, run_test-no_begin}
use mlogv.Riscof.Session.{
  Settings, Job, SessionRun, written_file, behind_test, sig_file_of, run_job, run_jobs, host_path,
  Session, test_failed, ended_by, runs_for, run_tests,
}
use mlogv.Riscof.Session.Passes.{HasRun, runs_for-passed}

module _ (model_dump_json : Request → Text) (validate_json : Text → Option Response)
    (is_absolute : Text → Bool) (settings : Settings) (name : Text) where
  abbrev pub jobs_run : List Job → Socket → SessionRun
  jobs_run jobs s = run_jobs model_dump_json validate_json is_absolute settings name jobs s

  abbrev pub job_run : Job → Socket → TestRun
  job_run job s = run_job model_dump_json validate_json is_absolute settings name job s

  -- the session ends with the exception, the connection as the test has left it, and these files
  abbrev pub EndsWith : SessionRun → TestError → Socket → List (Text × List Text) → Type 0
  EndsWith run e socket files = (run.outcome ≡ err e) × (run.socket ≡ socket) × (run.files ≡ files)

  abbrev pub file_of : Job → TestRun → List (Text × List Text)
  file_of job run = written_file (sig_file_of name job.test) run.signature

  first-EndsWith :
      (run : TestRun) (sig_file : Text) (rest : Socket → SessionRun) (e : TestError)
      (o : Result TestError Unit)
      → o ≡ err e
      → EndsWith
          (behind_test o run sig_file rest)
          e
          run.socket
          (written_file sig_file run.signature)
  unfolding behind_test
  first-EndsWith run sig_file rest e (err e') h = (h, refl, refl)
  first-EndsWith run sig_file rest e (ok done) h = cc

  next-EndsWith :
      (run : TestRun) (sig_file : Text) (rest rest' : Socket → SessionRun) (job : Job)
      (e : TestError) (o : Result TestError Unit)
      → (behind_test o run sig_file rest).outcome ≡ ok tt
      → (job_run job (behind_test o run sig_file rest).socket).outcome ≡ err e
      → ((rest run.socket).outcome ≡ ok tt
          → (job_run job (rest run.socket).socket).outcome ≡ err e
          → EndsWith
              (rest' run.socket)
              e
              (job_run job (rest run.socket).socket).socket
              ((rest run.socket).files ++ file_of job (job_run job (rest run.socket).socket)))
      → EndsWith
          (behind_test o run sig_file rest')
          e
          (job_run job (behind_test o run sig_file rest).socket).socket
          ((behind_test o run sig_file rest).files
            ++ file_of job (job_run job (behind_test o run sig_file rest).socket))
  unfolding behind_test
  next-EndsWith run sig_file rest rest' job e (err e') h fails ends = cc
  next-EndsWith run sig_file rest rest' job e (ok done) h fails ends =
      let (outcome, socket, files) = ends h fails in
      let own = written_file sig_file run.signature in
      (
        outcome,
        socket,
        ap (λ f. own ++ f) files
            ∙ sym (
                append_assoc own (rest run.socket).files
                  (file_of job (job_run job (rest run.socket).socket))),
      )

  -- the loop over the tests where a test raises an exception behind tests that raise none
  run_jobs-EndsWith :
      (front : List Job) (job : Job) (back : List Job) (s : Socket) (e : TestError)
      → (jobs_run front s).outcome ≡ ok tt
      → (job_run job (jobs_run front s).socket).outcome ≡ err e
      → EndsWith
          (jobs_run (front ++ (job ∷ back)) s)
          e
          (job_run job (jobs_run front s).socket).socket
          ((jobs_run front s).files ++ file_of job (job_run job (jobs_run front s).socket))
  unfolding run_jobs
  run_jobs-EndsWith [] job back s e h fails =
      first-EndsWith (job_run job s) (sig_file_of name job.test) (λ t. jobs_run back t) e
        (job_run job s).outcome fails
  run_jobs-EndsWith (first ∷ front) job back s e h fails =
      let run = job_run first s in
      next-EndsWith run (sig_file_of name first.test) (λ t. jobs_run front t)
        (λ t. jobs_run (front ++ (job ∷ back)) t) job e run.outcome h fails
        (run_jobs-EndsWith front job back run.socket e)

-- No line of `nm`, each of three parts, has the symbol as its name.
abbrev pub Lacks : Text → List Text → Type 0
Lacks symbol lines =
    All
      (λ line.
        (address : Text) × (kind : Text) × (named : Text) × (split b' ' line
          ≡ address ∷ kind ∷ named ∷ [])
        × (text_eq named symbol ≡ false))
      lines

address_in-Lacks :
    (symbol : Text) (lines : List Text)
    → Lacks symbol lines
    → address_in symbol lines ≡ err (symbol_not_found symbol)
unfolding address_in
address_in-Lacks symbol [] h = refl
address_in-Lacks symbol (line ∷ lines) ((address, kind, named, parts, other), h) =
    ground (arith, parts, other, address_in-Lacks symbol lines h)

module _ (model_dump_json : Request → Text) (validate_json : Text → Option Response)
    (is_absolute : Text → Bool) where
  -- What `runTests` leaves of the list of tests.
  abbrev pub session : Settings → Text → Text → Text → List ℕ → List Job → Socket → Session
  session settings name work_dir env supported jobs s =
      run_tests model_dump_json validate_json is_absolute settings name work_dir env supported jobs
        s

  ended_by-err :
      (o : Result TestError Unit) (e : TestError) → o ≡ err e → ended_by o ≡ err (test_failed e)
  unfolding ended_by
  ended_by-err (err e') e h = cc
  ended_by-err (ok done) e h = cc

  run_job-Lacks :
      (settings : Settings) (name : Text) (job : Job) (s : Socket)
      → Lacks (codes "begin_signature") job.nm_lines
      → run_job model_dump_json validate_json is_absolute settings name job s ≡ record {
        outcome = err (symbol_not_found (codes "begin_signature"));
        socket = s;
        signature = none;
      }
  unfolding run_job
  run_job-Lacks settings name job s h =
      run_test-no_begin model_dump_json validate_json is_absolute
        (host_path settings job.test (codes "dut.bin"))
        (host_path settings job.test (codes "out.bin")) job.nm_lines job.out_bytes s
        (symbol_not_found (codes "begin_signature"))
        (address_in-Lacks (codes "begin_signature") job.nm_lines h)

  -- If the session of the tests in front ends without an exception, and `nm` prints no begin of the
  -- signature for the next test, then `runTests` ends with the error of this symbol, whatever tests are
  -- behind: the processor has got the six requests of each test in front and nothing else, and the
  -- signature files are those of the tests in front, so that nothing is sent or written for this test and
  -- those behind it.
  pub run_tests-stops :
      (settings : Settings) (name work_dir env : Text) (supported : List ℕ) (front : List Job)
      (job : Job) (back : List Job) (s : Socket)
      → (session settings name work_dir env supported front s).ended ≡ ok tt
      → Lacks (codes "begin_signature") job.nm_lines
      → ((session settings name work_dir env supported (front ++ (job ∷ back)) s).ended
          ≡ err (test_failed (symbol_not_found (codes "begin_signature"))))
        × HasRun model_dump_json validate_json is_absolute settings name front s
            (session settings name work_dir env supported (front ++ (job ∷ back)) s).socket
            (session settings name work_dir env supported (front ++ (job ∷ back)) s).files
  unfolding run_tests
  run_tests-stops settings name work_dir env supported front job back s h lacks =
      let jobs = front ++ (job ∷ back) in
      let before = run_jobs model_dump_json validate_json is_absolute settings name front s in
      let all = run_jobs model_dump_json validate_json is_absolute settings name jobs s in
      let (on, ended, done) =
        runs_for-passed model_dump_json validate_json is_absolute settings.target_run settings name
          front s h in
      let failing = run_job-Lacks settings name job before.socket lacks in
      let (outcome, socket, files) =
        run_jobs-EndsWith model_dump_json validate_json is_absolute settings name front job back s
          (symbol_not_found (codes "begin_signature")) ended (ap (λ r. r.outcome) failing) in
      let same_socket : all.socket ≡ before.socket = socket ∙ ap (λ r. r.socket) failing in
      let same_files : all.files ≡ before.files =
        files
        ∙ ap
            (λ r.
              before.files ++ file_of model_dump_json validate_json is_absolute settings name job r)
            failing
        ∙ (unfold written_file in append-nil before.files) in
      subst
        (λ on.
          ((runs_for model_dump_json validate_json is_absolute on settings name jobs s).0
            ≡ err (test_failed (symbol_not_found (codes "begin_signature"))))
          × HasRun model_dump_json validate_json is_absolute settings name front s
              (runs_for model_dump_json validate_json is_absolute on settings name jobs s).1
              (runs_for model_dump_json validate_json is_absolute on settings name jobs s).2)
        (sym on)
        (unfold runs_for in
          (
            ended_by-err all.outcome (symbol_not_found (codes "begin_signature")) outcome,
            subst
                (λ t.
                  HasRun model_dump_json validate_json is_absolute settings name front s t
                    all.files)
                (sym same_socket)
                (subst
                  (λ f.
                    HasRun model_dump_json validate_json is_absolute settings name front s
                      before.socket f)
                  (sym same_files) done),
          ))
