-- ===== src/Debug/Session.antt =====
-- python/src/mlogv32/scripts/debug.py: the session of `main` over the client of the processor. The fuel
-- bounds the rounds of `while True`.
pub mod Ends
pub mod History
use mlogv.Prelude.{
  ℕ, zero, suc, ◌+◌, ◌-◌, ◌≤◌, ◌<◌, ◌≡◌, ◌≢◌, ◌⊎◌, refl, sym, ap, subst, ◌∙◌, inl, inr, Bool, true,
  false, not, ◌&&◌, ◌||◌, Option, none, some, List, [], ◌∷◌, ◌++◌, append_assoc, Text, text_eq,
  length, arith, All, Result, ok, err, if◌then◌else◌, ℤ,
}
use mlogv.Access.{
  Request, Response, StatusResponse, Socket, Call, start, wait, unpause, get_status, Reply,
  status_reply, success_reply, socket_reply, AccessError, invalid_response, perform, other_lines,
  first_line, matched, success_expected, status_expected, Expected, request_for, recv_response,
  send_request,
}
use mlogv.Debug.{DebugError, access_error, format_status, filtered}

pub record Session : Type 0 where
  pub socket : Socket
  pub results : List StatusResponse
  pub log : Text
  pub warnings : List Text
  pub prev_formatted : Text
  pub prev_output : Text

-- how the loop ends
pub data Ended : Type 0 where
  stopped : Ended
  failed : DebugError → Ended
  out_of_fuel : Ended

abbrev at_socket : Session → Socket → Session
at_socket s socket = record {
  socket = socket;
  results = s.results;
  log = s.log;
  warnings = s.warnings;
  prev_formatted = s.prev_formatted;
  prev_output = s.prev_output;
}

-- `if status.error_output and status.error_output != prev_output`
warned : Text → Text → List Text → List Text
warned [] prev_output warnings = warnings
warned (c ∷ s) prev_output warnings =
    if text_eq (c ∷ s) prev_output then warnings else warnings ++ ((c ∷ s) ∷ [])

noted : Session → StatusResponse → Session
unfolding warned
noted s status = record {
  socket = s.socket;
  results = s.results ++ (status ∷ []);
  log = s.log;
  warnings = warned status.error_output s.prev_output s.warnings;
  prev_formatted = s.prev_formatted;
  prev_output = status.error_output;
}

written : Bool → Session → Text → Session
written sail s formatted = record {
  socket = s.socket;
  results = s.results;
  log = s.log ++ filtered sail formatted s.prev_formatted;
  warnings = s.warnings;
  prev_formatted = formatted;
  prev_output = s.prev_output;
}

module _ (model_dump_json : Request → Text) (validate_json : Text → Option Response)
    (is_absolute : Text → Bool) (sail : Bool) where
  abbrev call : Call → Socket → Result AccessError Reply × Socket
  call c s = perform model_dump_json validate_json is_absolute c s

  -- the loop, each part behind the one before
  behind_unpause : Result AccessError Reply × Socket → Session → Result DebugError Bool × Session
  behind_unpause (err e, socket) s = (err (access_error e), at_socket s socket)
  behind_unpause (ok reply, socket) s = (ok true, at_socket s socket)

  -- `if not status.running: break`
  behind_log : Bool → Session → Result DebugError Bool × Session
  unfolding behind_unpause
  behind_log false s = (ok false, s)
  behind_log true s = behind_unpause (call unpause s.socket) s

  behind_format : Bool → Result DebugError Text → Session → Result DebugError Bool × Session
  unfolding behind_log written
  behind_format running (err e) s = (err e, s)
  behind_format running (ok formatted) s = behind_log running (written sail s formatted)

  -- `status()` returns a status or raises
  behind_status : Result AccessError Reply × Socket → Session → Result DebugError Bool × Session
  unfolding behind_format noted
  behind_status (err e, socket) s = (err (access_error e), at_socket s socket)
  behind_status (ok (status_reply status), socket) s =
      behind_format status.running (format_status sail status) (noted (at_socket s socket) status)
  behind_status (ok reply, socket) s = (err (access_error invalid_response), at_socket s socket)

  behind_wait : Result AccessError Reply × Socket → Session → Result DebugError Bool × Session
  unfolding behind_status
  behind_wait (err e, socket) s = (err (access_error e), at_socket s socket)
  behind_wait (ok reply, socket) s = behind_status (call get_status socket) (at_socket s socket)

  -- a round of `while True`; the result says whether there is a next one
  unfoldable pub round : Session → Result DebugError Bool × Session
  unfolding behind_wait
  round s = behind_wait (call (wait true true) s.socket) s

  -- the next rounds are computed only where the flag says so
  unfoldable pub next_rounds : ℕ → Result DebugError Bool × Session → Ended × Session
  next_rounds fuel (err e, s) = (failed e, s)
  next_rounds fuel (ok false, s) = (stopped, s)
  next_rounds zero (ok true, s) = (out_of_fuel, s)
  next_rounds (suc fuel) (ok true, s) = next_rounds fuel (round s)

  -- the `try` block; the session that it leaves has the statuses that `finally` writes
  unfoldable pub rounds : ℕ → Session → Ended × Session
  rounds fuel s = next_rounds fuel (round s)

  -- `main` behind the formatting of the first status
  begun :
      ℕ
      → Result AccessError Reply × Socket
      → Session
      → Ended × Session × Option (List StatusResponse)
  begun fuel (err e, socket) s = (failed (access_error e), at_socket s socket, none)
  begun fuel (ok reply, socket) s =
      let done = rounds fuel (at_socket s socket) in (done.0, done.1, some done.1.results)

  shown :
      ℕ
      → StatusResponse
      → Result DebugError Text
      → Socket
      → Ended × Session × Option (List StatusResponse)
  unfolding begun
  shown fuel status (err e) socket = (
    failed e,
    record {
      socket = socket;
      results = status ∷ [];
      log = [];
      warnings = [];
      prev_formatted = [];
      prev_output = [];
    },
    none,
  )
  shown fuel status (ok formatted) socket =
      begun fuel (call (if status.running then unpause else start true) socket) (record {
        socket = socket;
        results = status ∷ [];
        log = formatted ++ (b'\n' ∷ []);
        warnings = [];
        prev_formatted = formatted;
        prev_output = [];
      })

  connected : ℕ → Result AccessError Reply × Socket → Ended × Session × Option (List StatusResponse)
  unfolding shown
  connected fuel (ok (status_reply status), socket) =
      shown fuel status (format_status sail status) socket
  connected fuel (ok reply, socket) = (
    failed (access_error invalid_response),
    record {
      socket = socket;
      results = [];
      log = [];
      warnings = [];
      prev_formatted = [];
      prev_output = [];
    },
    none,
  )
  connected fuel (err e, socket) = (
    failed (access_error e),
    record {
      socket = socket;
      results = [];
      log = [];
      warnings = [];
      prev_formatted = [];
      prev_output = [];
    },
    none,
  )

  -- `main` over a new connection; the last component is what is written to `json_output`
  unfoldable pub main : ℕ → Socket → Ended × Session × Option (List StatusResponse)
  unfolding connected
  main fuel socket = connected fuel (call get_status socket)
