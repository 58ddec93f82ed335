-- ===== src/Debug/Session/History.antt =====
-- python/src/mlogv32/scripts/debug.py: what the session writes to `json_output`.
use mlogv.Prelude.{
  ℕ, zero, suc, ◌≡◌, refl, subst, ◌∙◌, Bool, true, false, Option, some, List, [], ◌∷◌, ◌++◌,
  append_assoc, Text, All, Result, ok, err,
}
use mlogv.Access.{
  Request, Response, StatusResponse, Socket, unpause, get_status, wait, Reply, status_reply,
  success_reply, socket_reply, AccessError, perform,
}
use mlogv.Debug.{DebugError, format_status}
use mlogv.Debug.Session.{
  Session, Ended, stopped, behind_unpause, behind_log, behind_format, behind_status, behind_wait,
  round, next_rounds, rounds, noted, written, main, begun, shown, connected, at_socket,
}

-- The part fails, or it ends the results with a status that says whether the loop goes on.
abbrev Sees : List StatusResponse → Result DebugError Bool × Session → Type 0
Sees before (err e, s) = Unit
Sees before (ok more, s) =
    (status : StatusResponse) × (s.results ≡ before ++ (status ∷ [])) × (status.running ≡ more)

-- The results are those of before, running ones, and the last that does not run.
abbrev pub IsHistory : List StatusResponse → List StatusResponse → Type 0
IsHistory before results =
    (seen : List StatusResponse) × (last : StatusResponse) × (results
      ≡ before ++ (seen ++ (last ∷ [])))
    × All (λ status. status.running ≡ true) seen
    × (last.running ≡ false)

IsHistory-cons :
    (before : List StatusResponse) (status : StatusResponse) (results : List StatusResponse)
    → status.running ≡ true
    → IsHistory (before ++ (status ∷ [])) results
    → IsHistory before results
IsHistory-cons before status results h (seen, last, e, running, end) = (
  status ∷ seen,
  last,
  e ∙ append_assoc before (status ∷ []) (seen ++ (last ∷ [])),
  (h, running),
  end,
)

module _ (model_dump_json : Request → Text) (validate_json : Text → Option Response)
    (is_absolute : Text → Bool) (sail : Bool) where
  behind_unpause-Sees :
      (before : List StatusResponse) (status : StatusResponse)
      (answer : Result AccessError Reply × Socket) (s : Session)
      → s.results ≡ before ++ (status ∷ [])
      → status.running ≡ true
      → Sees before (behind_unpause model_dump_json validate_json is_absolute sail answer s)
  unfolding behind_unpause
  behind_unpause-Sees before status (err e, socket) s h r = tt
  behind_unpause-Sees before status (ok reply, socket) s h r = (status, h, r)

  behind_log-Sees :
      (before : List StatusResponse) (status : StatusResponse) (running : Bool) (s : Session)
      → s.results ≡ before ++ (status ∷ [])
      → status.running ≡ running
      → Sees before (behind_log model_dump_json validate_json is_absolute sail running s)
  unfolding behind_log
  behind_log-Sees before status false s h r = (status, h, r)
  behind_log-Sees before status true s h r =
      behind_unpause-Sees before status
        (perform model_dump_json validate_json is_absolute unpause s.socket) s h r

  behind_format-Sees :
      (before : List StatusResponse) (status : StatusResponse) (text : Result DebugError Text)
      (s : Session)
      → s.results ≡ before ++ (status ∷ [])
      → Sees before
          (behind_format model_dump_json validate_json is_absolute sail status.running text s)
  unfolding behind_format written
  behind_format-Sees before status (err e) s h = tt
  behind_format-Sees before status (ok formatted) s h =
      behind_log-Sees before status status.running (written sail s formatted) h refl

  behind_status-Sees :
      (answer : Result AccessError Reply × Socket) (s : Session)
      → Sees s.results (behind_status model_dump_json validate_json is_absolute sail answer s)
  unfolding behind_status noted
  behind_status-Sees (err e, socket) s = tt
  behind_status-Sees (ok (success_reply message), socket) s = tt
  behind_status-Sees (ok socket_reply, socket) s = tt
  behind_status-Sees (ok (status_reply status), socket) s =
      behind_format-Sees s.results status (format_status sail status) _ refl

  behind_wait-Sees :
      (answer : Result AccessError Reply × Socket) (s : Session)
      → Sees s.results (behind_wait model_dump_json validate_json is_absolute sail answer s)
  unfolding behind_wait
  behind_wait-Sees (err e, socket) s = tt
  behind_wait-Sees (ok reply, socket) s =
      behind_status-Sees (perform model_dump_json validate_json is_absolute get_status socket) _

  next_rounds-IsHistory :
      (fuel : ℕ) (before : List StatusResponse) (r : Result DebugError Bool × Session)
      → Sees before r
      → (next_rounds model_dump_json validate_json is_absolute sail fuel r).0 ≡ stopped
      → IsHistory before
          (next_rounds model_dump_json validate_json is_absolute sail fuel r).1.results
  unfolding next_rounds
  next_rounds-IsHistory fuel before (err e, s) k h = cc
  next_rounds-IsHistory fuel before (ok false, s) (status, e, running) h =
      ([], status, e, tt, running)
  next_rounds-IsHistory zero before (ok true, s) k h = cc
  next_rounds-IsHistory (suc fuel) before (ok true, s) (status, e, running) h =
      let next = round model_dump_json validate_json is_absolute sail s in
      let sees : Sees (before ++ (status ∷ [])) next =
        subst (λ l. Sees l next) e
          (unfold round in
            behind_wait-Sees
              (perform model_dump_json validate_json is_absolute (wait true true) s.socket) s) in
      IsHistory-cons before status _ running
        (next_rounds-IsHistory fuel (before ++ (status ∷ [])) next sees h)

  rounds-IsHistory :
      (fuel : ℕ) (s : Session)
      → (rounds model_dump_json validate_json is_absolute sail fuel s).0 ≡ stopped
      → IsHistory s.results (rounds model_dump_json validate_json is_absolute sail fuel s).1.results
  unfolding rounds
  rounds-IsHistory fuel s h =
      next_rounds-IsHistory fuel s.results (round model_dump_json validate_json is_absolute sail s)
        (unfold round in
          behind_wait-Sees
            (perform model_dump_json validate_json is_absolute (wait true true) s.socket) s)
        h

  -- what is written, where the session stopped
  abbrev pub Recorded : Ended × Session × Option (List StatusResponse) → Type 0
  Recorded run =
      (first : StatusResponse) × (results : List StatusResponse) × (run.2 ≡ some results)
      × IsHistory (first ∷ []) results

  begun-Recorded :
      (fuel : ℕ) (answer : Result AccessError Reply × Socket) (s : Session) (first : StatusResponse)
      → s.results ≡ first ∷ []
      → (begun model_dump_json validate_json is_absolute sail fuel answer s).0 ≡ stopped
      → Recorded (begun model_dump_json validate_json is_absolute sail fuel answer s)
  unfolding begun
  begun-Recorded fuel (err e, socket) s first r h = cc
  begun-Recorded fuel (ok reply, socket) s first r h =
      let done = rounds model_dump_json validate_json is_absolute sail fuel (at_socket s socket) in
      (
        first,
        done.1.results,
        refl,
        subst (λ l. IsHistory l done.1.results) r (rounds-IsHistory fuel (at_socket s socket) h),
      )

  shown-Recorded :
      (fuel : ℕ) (first : StatusResponse) (text : Result DebugError Text) (socket : Socket)
      → (shown model_dump_json validate_json is_absolute sail fuel first text socket).0 ≡ stopped
      → Recorded (shown model_dump_json validate_json is_absolute sail fuel first text socket)
  unfolding shown
  shown-Recorded fuel first (err e) socket h = cc
  shown-Recorded fuel first (ok formatted) socket h = begun-Recorded fuel _ _ first refl h

  connected-Recorded :
      (fuel : ℕ) (answer : Result AccessError Reply × Socket)
      → (connected model_dump_json validate_json is_absolute sail fuel answer).0 ≡ stopped
      → Recorded (connected model_dump_json validate_json is_absolute sail fuel answer)
  unfolding connected
  connected-Recorded fuel (err e, socket) h = cc
  connected-Recorded fuel (ok (success_reply message), socket) h = cc
  connected-Recorded fuel (ok socket_reply, socket) h = cc
  connected-Recorded fuel (ok (status_reply status), socket) h =
      shown-Recorded fuel status _ socket h

  -- If the session stops, then `json_output` holds the first status, then statuses in which the processor
  -- runs, and as the last one the only later status in which it does not run.
  pub main-Recorded :
      (fuel : ℕ) (socket : Socket)
      → (main model_dump_json validate_json is_absolute sail fuel socket).0 ≡ stopped
      → Recorded (main model_dump_json validate_json is_absolute sail fuel socket)
  unfolding main
  main-Recorded fuel socket h =
      connected-Recorded fuel (perform model_dump_json validate_json is_absolute get_status socket)
        h
