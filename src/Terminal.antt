-- ===== src/Terminal.antt =====
-- python/src/mlogv32/scripts/terminal_server.py: the three threads, their queues and the event that
-- stops them. What a socket or the console delivers comes with an event, and an event is one step of
-- one thread, so that a list of events is any interleaving. One client is connected; a receive that
-- would block delivers the empty message. The output on the console is not modelled.
pub mod Delivery
pub mod Progress
use mlogv.Prelude.{Bool, true, false, Option, none, some, ℕ, List, [], ◌∷◌, ◌++◌, if◌then◌else◌}

-- `bytes`
abbrev pub Message : Type 0
Message = List ℕ

-- the lines of the loop of `TerminalServerHandler.handle`
pub data Handler : Type 0 where
  handler_checks handler_receives handler_sends handler_closed : Handler

-- the lines of the loop of `processor_worker`
pub data Worker : Type 0 where
  worker_checks worker_receives worker_sends_client worker_sends_input worker_finished : Worker

-- `from_processor`, `from_client` and `from_input`, then what was sent to the client and to the
-- processor so far
pub data Queues : Type 0 where
  queues : (from_processor from_client from_input to_client to_processor : List Message) → Queues

-- `shutdown`, the threads, and the queues; the last flag says that `input_worker` runs
pub data Server : Type 0 where
  server : Bool → Handler → Worker → Bool → Queues → Server

unfoldable pub started : Server
started = server false handler_checks worker_checks true (queues [] [] [] [] [])

-- `if msg := sock.recv(1024): queue.append(msg)`
unfoldable pub received : List Message → Message → List Message
received queue [] = queue
received queue (b ∷ msg) = queue ++ ((b ∷ msg) ∷ [])

unfoldable pub client_received : Message → Queues → Queues
client_received msg (queues fp fc fi tc tp) = queues fp (received fc msg) fi tc tp

unfoldable pub processor_received : Message → Queues → Queues
processor_received msg (queues fp fc fi tc tp) = queues (received fp msg) fc fi tc tp

-- `if queue: sock.sendall(queue.popleft())`, for each of the three queues
unfoldable pub client_sent : Queues → Queues
client_sent (queues [] fc fi tc tp) = queues [] fc fi tc tp
client_sent (queues (msg ∷ fp) fc fi tc tp) = queues fp fc fi (tc ++ (msg ∷ [])) tp

unfoldable pub processor_sent_client : Queues → Queues
processor_sent_client (queues fp [] fi tc tp) = queues fp [] fi tc tp
processor_sent_client (queues fp (msg ∷ fc) fi tc tp) = queues fp fc fi tc (tp ++ (msg ∷ []))

unfoldable pub processor_sent_input : Queues → Queues
processor_sent_input (queues fp fc [] tc tp) = queues fp fc [] tc tp
processor_sent_input (queues fp fc (msg ∷ fi) tc tp) = queues fp fc fi tc (tp ++ (msg ∷ []))

unfoldable pub input_read : Message → Queues → Queues
input_read line (queues fp fc fi tc tp) = queues fp fc (fi ++ ((line ++ (13 ∷ [])) ∷ [])) tc tp

unfoldable pub handle_step : Message → Server → Server
handle_step msg (server down handler_checks w r q) =
    server down (if down then handler_closed else handler_receives) w r q
handle_step msg (server down handler_receives w r q) =
    server down handler_sends w r (client_received msg q)
handle_step msg (server down handler_sends w r q) = server down handler_checks w r (client_sent q)
handle_step msg (server down handler_closed w r q) = server down handler_closed w r q

-- leaving the loop runs the `finally` block, which sets the event
unfoldable pub processor_worker_step : Message → Server → Server
processor_worker_step msg (server down h worker_checks r q) =
    if down then server true h worker_finished r q else server down h worker_receives r q
processor_worker_step msg (server down h worker_receives r q) =
    server down h worker_sends_client r (processor_received msg q)
processor_worker_step msg (server down h worker_sends_client r q) =
    server down h worker_sends_input r (processor_sent_client q)
processor_worker_step msg (server down h worker_sends_input r q) =
    server down h worker_checks r (processor_sent_input q)
processor_worker_step msg (server down h worker_finished r q) = server down h worker_finished r q

-- What an exception leaves of the queues: where `sendall` raises, the message that was popped is lost,
-- though the socket may have taken some of its bytes.
unfoldable pub client_lost : Handler → Queues → Queues
client_lost handler_sends (queues (msg ∷ fp) fc fi tc tp) = queues fp fc fi tc tp
client_lost h q = q

unfoldable pub processor_lost : Worker → Queues → Queues
processor_lost worker_sends_client (queues fp (msg ∷ fc) fi tc tp) = queues fp fc fi tc tp
processor_lost worker_sends_input (queues fp fc (msg ∷ fi) tc tp) = queues fp fc fi tc tp
processor_lost w q = q

-- an exception in `handle` ends the handler, one in `processor_worker` also sets the event
unfoldable pub handle_fails : Server → Server
handle_fails (server down h w r q) = server down handler_closed w r (client_lost h q)

unfoldable pub processor_worker_fails : Server → Server
processor_worker_fails (server down h w r q) = server true h worker_finished r (processor_lost w q)

-- the end of the console's input is an exception
unfoldable pub input_worker_step : Option Message → Server → Server
input_worker_step line (server down h w false q) = server down h w false q
input_worker_step none (server down h w true q) = server true h w false q
input_worker_step (some line) (server down h w true q) = server down h w true (input_read line q)

pub data Event : Type 0 where
  handle : Message → Event
  processor_worker : Message → Event
  handler_fails : Event
  processor_fails : Event
  input_worker : Option Message → Event

unfoldable pub step : Event → Server → Server
step (handle msg) s = handle_step msg s
step (processor_worker msg) s = processor_worker_step msg s
step handler_fails s = handle_fails s
step processor_fails s = processor_worker_fails s
step (input_worker line) s = input_worker_step line s

unfoldable pub run : List Event → Server → Server
run [] s = s
run (e ∷ events) s = run events (step e s)
