-- ===== src/Riscof/Run.antt =====
-- riscof/mlogv32/riscof_mlogv32.py: `run_test`, the run of a test on the processor.
use mlogv.Prelude.{
  ℕ, take, append_assoc, Bool, true, false, Option, none, some, List, [], ◌∷◌, ◌++◌, Text, codes,
  Result, ok, err, ℤ, ◌-ℤ◌, ◌≡◌, refl, ap, sym, ◌∙◌,
}
use mlogv.Access.{
  Request, Response, Socket, Call, flash, dump, start, wait, stop, get_status, Reply, status_reply,
  success_reply, socket_reply, AccessError, perform, perform_all,
}
use mlogv.Access.Framing.{lines, frames, perform_all-Framed, perform-Sends}
use mlogv.Riscof.{TestError, access_error, execution_failed, address_in, signature_lines}

pub frames-append : (ts us : List Text) → frames (ts ++ us) ≡ frames ts ++ frames us
frames-append [] us = refl
frames-append (t ∷ ts) us =
    ap (λ r. t ++ (b'\n' ∷ r)) (frames-append ts us)
    ∙ sym (append_assoc t (b'\n' ∷ frames ts) (frames us))

-- what `run_test` leaves: the outcome, the socket, and the signature file where it was written
pub record TestRun : Type 0 where
  pub outcome : Result TestError Unit
  pub socket : Socket
  pub signature : Option (List Text)

-- `if msg := processor.status().error_output`
failed_if : Text → Result TestError Unit
failed_if [] = ok tt
failed_if (c ∷ message) = err (execution_failed (c ∷ message))

-- behind the test's calls: the status decides
judged : Result AccessError Reply × Socket → List Text → TestRun
judged (err e, s) lines = record {
  outcome = err (access_error e);
  socket = s;
  signature = some lines;
}
judged (ok (status_reply status), s) lines = record {
  outcome = failed_if status.error_output;
  socket = s;
  signature = some lines;
}
judged (ok reply, s) lines = record { outcome = ok tt; socket = s; signature = some lines }

-- the calls up to the dump; `begin` is the address of the signature, `size` its length
abbrev pub test_calls : Text → Text → ℤ → ℤ → List Call
test_calls binary_file out_file begin size =
    stop
    ∷ flash binary_file true
    ∷ start false
    ∷ wait true false
    ∷ dump out_file (some begin) (some size) true
    ∷ []

module _ (model_dump_json : Request → Text) (validate_json : Text → Option Response)
    (is_absolute : Text → Bool) where
  written : Result AccessError (List Reply) × Socket → List Text → TestRun
  unfolding judged failed_if
  written (err e, s) lines = record { outcome = err (access_error e); socket = s; signature = none }
  written (ok replies, s) lines =
      judged (perform model_dump_json validate_json is_absolute get_status s) lines

  between :
      (binary_file out_file : Text)
      → Result TestError ℤ
      → Result TestError ℤ
      → List ℕ
      → Socket
      → TestRun
  unfolding written
  between binary_file out_file (err e) end out_bytes s = record {
    outcome = err e;
    socket = s;
    signature = none;
  }
  between binary_file out_file (ok begin) (err e) out_bytes s = record {
    outcome = err e;
    socket = s;
    signature = none;
  }
  between binary_file out_file (ok begin) (ok end) out_bytes s =
      written
        (perform_all model_dump_json validate_json is_absolute
          (test_calls binary_file out_file begin (end -ℤ begin)) s)
        (signature_lines out_bytes)

  -- `binary_file` and `out_file` are the paths on the host, `nm_lines` the output of `nm`, and
  -- `out_bytes` what the file holds behind the dump
  unfoldable pub run_test :
      (binary_file out_file : Text) (nm_lines : List Text) (out_bytes : List ℕ) → Socket → TestRun
  unfolding between
  run_test binary_file out_file nm_lines out_bytes s =
      between binary_file out_file (address_in (codes "begin_signature") nm_lines)
        (address_in (codes "end_signature") nm_lines) out_bytes s

  -- where `nm` does not print the first address, nothing is sent and no file is written
  pub run_test-no_begin :
      (binary_file out_file : Text) (nm_lines : List Text) (out_bytes : List ℕ) (s : Socket)
      (e : TestError)
      → address_in (codes "begin_signature") nm_lines ≡ err e
      → run_test binary_file out_file nm_lines out_bytes s
        ≡ record { outcome = err e; socket = s; signature = none }
  unfolding run_test between
  run_test-no_begin binary_file out_file nm_lines out_bytes s e h = rw h refl

  judged-file :
      (answer : Result AccessError Reply × Socket) (lines : List Text)
      → ((judged answer lines).signature ≡ some lines) × ((judged answer lines).socket ≡ answer.1)
  unfolding judged
  judged-file (err e, s) lines = (refl, refl)
  judged-file (ok (success_reply message), s) lines = (refl, refl)
  judged-file (ok socket_reply, s) lines = (refl, refl)
  judged-file (ok (status_reply status), s) lines = (refl, refl)

  abbrev status_of : Socket → Result AccessError Reply × Socket
  status_of s = perform model_dump_json validate_json is_absolute get_status s

  written-ok :
      (done : Result AccessError (List Reply) × Socket) (lines : List Text)
      → (written done lines).outcome ≡ ok tt
      → (replies : List Reply) × (done.0 ≡ ok replies)
        × ((written done lines).signature ≡ some lines)
        × ((written done lines).socket ≡ (status_of done.1).1)
  unfolding written
  written-ok (err e, s) lines h = cc
  written-ok (ok replies, s) lines h =
      (replies, refl, (judged-file (status_of s) lines).0, (judged-file (status_of s) lines).1)

  -- Everything that the calls up to the dump and the last one send.
  abbrev pub sent : Text → Text → ℤ → ℤ → List Text
  sent binary_file out_file begin end =
      lines model_dump_json validate_json is_absolute
        (test_calls binary_file out_file begin (end -ℤ begin) ++ (get_status ∷ []))

  abbrev pub Passed :
      (binary_file out_file : Text) (nm_lines : List Text) (out_bytes : List ℕ)
      → Socket
      → TestRun
      → ℤ
      → ℤ
      → Type 0
  Passed binary_file out_file nm_lines out_bytes s run begin end =
      (address_in (codes "begin_signature") nm_lines ≡ ok begin)
      × (address_in (codes "end_signature") nm_lines ≡ ok end)
      × (run.signature ≡ some (signature_lines out_bytes))
      × (run.socket.out ≡ s.out ++ frames (sent binary_file out_file begin end))

  between-passes :
      (binary_file out_file : Text) (nm_lines : List Text) (out_bytes : List ℕ) (s : Socket)
      (first last : Result TestError ℤ)
      → address_in (codes "begin_signature") nm_lines ≡ first
      → address_in (codes "end_signature") nm_lines ≡ last
      → (between binary_file out_file first last out_bytes s).outcome ≡ ok tt
      → (begin : ℤ) × (end : ℤ) × Passed binary_file out_file nm_lines out_bytes s
          (between binary_file out_file first last out_bytes s)
          begin
          end
  unfolding between
  between-passes binary_file out_file nm_lines out_bytes s (err e) last hf hl h = cc
  between-passes binary_file out_file nm_lines out_bytes s (ok begin) (err e) hf hl h = cc
  between-passes binary_file out_file nm_lines out_bytes s (ok begin) (ok end) hf hl h =
      let calls = test_calls binary_file out_file begin (end -ℤ begin) in
      let done = perform_all model_dump_json validate_json is_absolute calls s in
      let (replies, all, file, socket) = written-ok done (signature_lines out_bytes) h in
      let (n, (out, whole)) =
        perform_all-Framed model_dump_json validate_json is_absolute calls s in
      let texts = lines model_dump_json validate_json is_absolute in
      let all_lines : frames (texts (take n calls)) ≡ frames (texts calls) =
        ap (λ k. frames (texts (take k calls))) (whole replies all) in
      (
        begin,
        end,
        (
          hf,
          hl,
          file,
          ap (λ q. q.out) socket
              ∙ perform-Sends model_dump_json validate_json is_absolute get_status done.1 refl
              ∙ ap (λ o. o ++ frames (texts (get_status ∷ [])))
                  (out ∙ ap (λ f. s.out ++ f) all_lines)
              ∙ append_assoc s.out (frames (texts calls)) (frames (texts (get_status ∷ [])))
              ∙ ap (λ f. s.out ++ f) (sym (frames-append (texts calls) (texts (get_status ∷ [])))),
        ),
      )

  -- If `run_test` ends without an exception, then `nm` printed both addresses, the signature file holds
  -- the lines that are made of the dumped bytes, and these requests were sent in this order: stop, flash,
  -- start, wait, the dump of the bytes from the one address to the other, and the status.
  pub run_test-passes :
      (binary_file out_file : Text) (nm_lines : List Text) (out_bytes : List ℕ) (s : Socket)
      → (run_test binary_file out_file nm_lines out_bytes s).outcome ≡ ok tt
      → (begin : ℤ) × (end : ℤ) × Passed binary_file out_file nm_lines out_bytes s
          (run_test binary_file out_file nm_lines out_bytes s)
          begin
          end
  unfolding run_test
  run_test-passes binary_file out_file nm_lines out_bytes s h =
      between-passes binary_file out_file nm_lines out_bytes s
        (address_in (codes "begin_signature") nm_lines)
        (address_in (codes "end_signature") nm_lines) refl refl h
