-- ===== src/Terminal/Delivery.antt =====
-- python/src/mlogv32/scripts/terminal_server.py: the messages between the sockets over a whole run.
use mlogv.Prelude.{◌+◌, ◌≤◌, ◌≡◌, true, some, List, [], ◌∷◌, ◌++◌, length}
use mlogv.Terminal.{
  Message, Handler, handler_receives, handler_sends, handler_closed, Worker, worker_receives,
  worker_sends_client, worker_sends_input, worker_finished, queues, Server, server, client_lost,
  processor_lost, Event, handle, processor_worker, handler_fails, processor_fails, input_worker,
  step,
}

abbrev pub said : Message → List Message
said [] = []
said (b ∷ msg) = (b ∷ msg) ∷ []

-- What the processor, the client and the console bring in, and what is lost of each.
pub data Flow : Type 0 where
  flow : (processor client input processor_lost client_lost input_lost : List Message) → Flow

abbrev pub no_flow : Flow
no_flow = flow [] [] [] [] [] []

-- The event's part in it: the messages that the processor sends while the worker receives, those that
-- the client sends while the handler receives, and the lines of the console; and the message at the
-- head of the queue that a thread is about to send as it fails.
abbrev pub brings : Event → Server → Flow → Flow
brings (processor_worker msg) (server down h worker_receives r q) (flow p c i l k j) =
    flow (p ++ said msg) c i l k j
brings (handle msg) (server down handler_receives w r q) (flow p c i l k j) =
    flow p (c ++ said msg) i l k j
brings (input_worker (some line)) (server down h w true q) (flow p c i l k j) =
    flow p c (i ++ ((line ++ (13 ∷ [])) ∷ [])) l k j
brings handler_fails (server down handler_sends w r (queues (m ∷ fp) fc fi tc tp))
      (flow p c i l k j) =
    flow p c i (l ++ (m ∷ [])) k j
brings processor_fails (server down h worker_sends_client r (queues fp (m ∷ fc) fi tc tp))
      (flow p c i l k j) =
    flow p c i l (k ++ (m ∷ [])) j
brings processor_fails (server down h worker_sends_input r (queues fp fc (m ∷ fi) tc tp))
      (flow p c i l k j) =
    flow p c i l k (j ++ (m ∷ []))
brings _ _ f = f

-- what a run brings in
abbrev pub flow_of : List Event → Server → Flow → Flow
flow_of [] s f = f
flow_of (e ∷ events) s f = flow_of events (step e s) (brings e s f)

-- A merge of two sequences, which keeps the order of each.
pub data Merge : List Message → List Message → List Message → Type 0 where
  merged : Merge [] [] []
  client_next :
      (a b c : List Message) (m : Message) → Merge a b c → Merge (a ++ (m ∷ [])) b (c ++ (m ∷ []))
  input_next :
      (a b c : List Message) (m : Message) → Merge a b c → Merge a (b ++ (m ∷ [])) (c ++ (m ∷ []))

abbrev pub IsNil : List Message → Type 0
IsNil [] = Unit
IsNil (m ∷ l) = ⊥

-- The handler has lost nothing, or one message, and then it has ended.
abbrev pub HandlerLost : Handler → List Message → Type 0
HandlerLost handler_closed l = length l ≤ 1
HandlerLost _ l = IsNil l

-- The worker has lost nothing, or one message of one of its two queues, and then it has ended.
abbrev pub WorkerLost : Worker → List Message → List Message → Type 0
WorkerLost worker_finished k j = length k + length j ≤ 1
WorkerLost _ k j = IsNil k × IsNil j

-- What was sent, what is lost and what waits in the queues is what came in.
abbrev pub Delivers : Server → Flow → Type 0
Delivers (server down h w r (queues fp fc fi tc tp)) (flow p c i l k j) =
    (tc ++ (l ++ fp) ≡ p)
    × (a : List Message) × (b : List Message) × Merge a b tp
    × (a ++ (k ++ fc) ≡ c)
    × (b ++ (j ++ fi) ≡ i)
    × HandlerLost h l
    × WorkerLost w k j
