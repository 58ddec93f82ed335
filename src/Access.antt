-- ===== src/Access.antt =====
-- python/src/mlogv32/processor_access.py: the requests and responses of the processor's control
-- protocol, and the client's methods over the state of its socket. The JSON of pydantic and the
-- paths of pathlib are parameters; logging is not modelled.
pub mod Framing
use mlogv.Prelude.{
  ℤ, ℕ, Bool, true, false, not, ◌&&◌, Option, none, some, List, [], ◌∷◌, ◌++◌, Text, Result, ok,
  err, if◌then◌else◌,
}

pub data UartDevice : Type 0 where
  uart0 uart1 uart2 uart3 : UartDevice

pub data UartDirection : Type 0 where
  both rx tx : UartDirection

-- The classes of requests, with the fields in the source's order.
pub data Request : Type 0 where
  flash_request : (path : Text) (absolute : Bool) → Request
  dump_request : (path : Text) (address bytes : Option ℤ) (absolute : Bool) → Request
  start_request : (single_step : Bool) → Request
  wait_request : (stopped paused : Bool) → Request
  unpause_request stop_request status_request : Request
  serial_request :
      (device : UartDevice) (direction : UartDirection) (stop_on_halt disconnect_on_halt : Bool)
      → Request

pub record StatusResponse : Type 0 where
  pub running : Bool
  pub paused : Bool
  pub state : Text
  pub error_output : Text
  pub pc : Option ℤ
  pub instruction : Option ℤ
  pub privilege_mode : Option ℤ
  pub registers : List ℤ
  pub mscratch : ℤ
  pub mtvec : ℤ
  pub mepc : ℤ
  pub mcause : ℤ
  pub mtval : ℤ
  pub mstatus : ℤ
  pub mip : ℤ
  pub mie : ℤ
  pub mcycle : ℤ
  pub minstret : ℤ
  pub mtime : ℤ

pub data Response : Type 0 where
  success : (message : Text) → Response
  status : StatusResponse → Response
  error : (message : Text) → Response

-- `path_not_absolute` is the ValueError of `flash` and `dump`, `invalid_response` is pydantic's
-- ValidationError.
pub data AccessError : Type 0 where
  path_not_absolute invalid_response : AccessError
  processor_error : Text → AccessError

-- what was sent over the socket, and the lines that arrive
pub record Socket : Type 0 where
  pub out : Text
  pub incoming : List Text

-- what a method returns
pub data Reply : Type 0 where
  success_reply : Text → Reply
  status_reply : StatusResponse → Reply
  socket_reply : Reply

-- the argument of `_recv_response`
pub data Expected : Type 0 where
  success_expected status_expected : Expected

-- The calls of the client's methods.
pub data Call : Type 0 where
  flash : (path : Text) (absolute : Bool) → Call
  dump : (path : Text) (address bytes : Option ℤ) (absolute : Bool) → Call
  start : (single_step : Bool) → Call
  wait : (stopped paused : Bool) → Call
  unpause stop get_status : Call
  serial : (device : UartDevice) (stop_on_halt disconnect_on_halt : Bool) → Call

-- `TypeAdapter(response_type | ErrorResponse)` accepts the expected class and the error
unfoldable pub matched : Expected → Option Response → Result AccessError Reply
matched expected none = err invalid_response
matched expected (some (error message)) = err (processor_error message)
matched success_expected (some (success message)) = ok (success_reply message)
matched success_expected (some (status response)) = err invalid_response
matched status_expected (some (success message)) = err invalid_response
matched status_expected (some (status response)) = ok (status_reply response)

-- `f.readline()`, which gives the empty text when the peer has closed the connection
unfoldable pub first_line : List Text → Text
first_line [] = []
first_line (line ∷ lines) = line

unfoldable pub other_lines : List Text → List Text
other_lines [] = []
other_lines (line ∷ lines) = lines

-- what two parts of a run give together; the second part is not reached behind an exception
pub followed_by :
    Result AccessError Reply × Socket
    → Result AccessError (List Reply) × Socket
    → Result AccessError (List Reply) × Socket
followed_by (ok reply, s) (ok replies, s') = (ok (reply ∷ replies), s')
followed_by (ok reply, s) (err e, s') = (err e, s')
followed_by (err e, s) rest = (err e, s)

module _ (model_dump_json : Request → Text) (validate_json : Text → Option Response)
    (is_absolute : Text → Bool) where
  unfoldable pub send_request : Request → Socket → Socket
  send_request request s = record {
    out = s.out ++ (model_dump_json request ++ (b'\n' ∷ []));
    incoming = s.incoming;
  }

  unfoldable pub recv_response : Expected → Socket → Result AccessError Reply × Socket
  recv_response expected s = (
    matched expected (validate_json (first_line s.incoming)),
    record { out = s.out; incoming = other_lines s.incoming },
  )

  unfoldable pub request_for : Expected → Request → Socket → Result AccessError Reply × Socket
  request_for expected request s = recv_response expected (send_request request s)

  -- `if absolute and not path.is_absolute(): raise ValueError`
  unfoldable pub absolute_only : Text → Bool → Request → Socket → Result AccessError Reply × Socket
  absolute_only path absolute request s =
      let answer = request_for success_expected request s in
      if absolute && not (is_absolute path) then (err path_not_absolute, s) else answer

  unfoldable pub perform : Call → Socket → Result AccessError Reply × Socket
  perform (flash path absolute) s = absolute_only path absolute (flash_request path absolute) s
  perform (dump path address data_length absolute) s =
      absolute_only path absolute (dump_request path address data_length absolute) s
  perform (start single_step) s = request_for success_expected (start_request single_step) s
  perform (wait stopped paused) s = request_for success_expected (wait_request stopped paused) s
  perform unpause s = request_for success_expected unpause_request s
  perform stop s = request_for success_expected stop_request s
  perform get_status s = request_for status_expected status_request s
  perform (serial device stop_on_halt disconnect_on_halt) s =
      (ok socket_reply, send_request (serial_request device both stop_on_halt disconnect_on_halt) s)

  -- calls in a row, the first exception ends them
  unfoldable pub perform_all : List Call → Socket → Result AccessError (List Reply) × Socket
  unfolding followed_by
  perform_all [] s = (ok [], s)
  perform_all (c ∷ calls) s = followed_by (perform c s) (perform_all calls (perform c s).1)
