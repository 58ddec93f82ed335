-- ===== src/Terminal/Progress.antt =====
-- python/src/mlogv32/scripts/terminal_server.py: what a thread that keeps running gets done, whatever the
-- other threads do in between.
use mlogv.Prelude.{
  ℕ, suc, ◌+◌, ◌*◌, ◌≤◌, ◌≡◌, refl, sym, subst, ◌∙◌, Bool, true, false, none, some, List, [], ◌∷◌,
  ◌++◌, append-nil, append_assoc, All, length, arith,
}
use mlogv.Terminal.{
  Message, Handler, handler_checks, handler_receives, handler_sends, handler_closed, Worker,
  worker_checks, worker_receives, worker_sends_client, worker_sends_input, worker_finished, Queues,
  queues, Server, server, received, client_received, processor_received, client_sent,
  processor_sent_client, processor_sent_input, input_read, handle_step, processor_worker_step,
  handle_fails, processor_worker_fails, input_worker_step, Event, handle, processor_worker,
  processor_fails, handler_fails, input_worker, step, run,
}

-- No exception comes with the event.
abbrev pub IsCalm : Event → Type 0
IsCalm handler_fails = ⊥
IsCalm processor_fails = ⊥
IsCalm (input_worker none) = ⊥
IsCalm _ = Unit

-- how many steps of the handler, and of the processor's worker
abbrev pub handles : List Event → ℕ
handles [] = 0
handles (handle msg ∷ events) = suc (handles events)
handles (_ ∷ events) = handles events

abbrev pub works : List Event → ℕ
works [] = 0
works (processor_worker msg ∷ events) = suc (works events)
works (_ ∷ events) = works events

abbrev pub to_client_of : Server → List Message
to_client_of (server down h w r (queues fp fc fi tc tp)) = tc

-- the lines of its round that the handler has behind it
passed : Handler → ℕ
passed handler_checks = 0
passed handler_receives = 1
passed handler_sends = 2
passed handler_closed = 0

abbrev IsOpen : Handler → Type 0
IsOpen handler_closed = ⊥
IsOpen _ = Unit

-- The messages have been sent to the client, behind those that were sent before.
abbrev pub HasSent : List Message → List Message → Server → Type 0
HasSent before front s = (rest : List Message) × (to_client_of s ≡ before ++ (front ++ rest))

HasSent-next :
    (before : List Message) (msg : Message) (front : List Message) (s : Server)
    → HasSent (before ++ (msg ∷ [])) front s
    → HasSent before (msg ∷ front) s
HasSent-next before msg front s (rest, e) =
    (rest, e ∙ append_assoc before (msg ∷ []) (front ++ rest))

HasSent-more :
    (before : List Message) (msg : Message) (s : Server)
    → HasSent (before ++ (msg ∷ [])) [] s
    → HasSent before [] s
HasSent-more before msg s (rest, e) = (msg ∷ rest, e ∙ append_assoc before (msg ∷ []) rest)

run-HasSent_from :
    (events : List Event) (h : Handler) (w : Worker) (r : Bool)
    (front back fc fi tc tp : List Message)
    → All IsCalm events
    → IsOpen h
    → 3 * length front ≤ handles events + passed h
    → HasSent tc front (run events (server false h w r (queues (front ++ back) fc fi tc tp)))
unfolding run step handle_step processor_worker_step input_worker_step client_received client_sent
    processor_received processor_sent_client processor_sent_input input_read received passed
run-HasSent_from [] h w r [] back fc fi tc tp a o n = ([], sym (append-nil tc))
run-HasSent_from [] handler_checks w r (m ∷ front) back fc fi tc tp a o n = ground (arith, n)
run-HasSent_from [] handler_receives w r (m ∷ front) back fc fi tc tp a o n = ground (arith, n)
run-HasSent_from [] handler_sends w r (m ∷ front) back fc fi tc tp a o n = ground (arith, n)
run-HasSent_from [] handler_closed w r (m ∷ front) back fc fi tc tp a o n = elim o [ ]
run-HasSent_from (handle msg ∷ events) handler_closed w r front back fc fi tc tp a o n = elim o [ ]
run-HasSent_from (handler_fails ∷ events) h w r front back fc fi tc tp (c, a) o n = elim c [ ]
run-HasSent_from (processor_fails ∷ events) h w r front back fc fi tc tp (c, a) o n = elim c [ ]
run-HasSent_from (input_worker none ∷ events) h w r front back fc fi tc tp (c, a) o n = elim c [ ]
run-HasSent_from (handle msg ∷ events) handler_checks w r front back fc fi tc tp (c, a) o n =
    run-HasSent_from events handler_receives w r front back fc fi tc tp a tt (omega (arith, n))
run-HasSent_from (handle msg ∷ events) handler_receives w r front back fc fi tc tp (c, a) o n =
    run-HasSent_from events handler_sends w r front back (received fc msg) fi tc tp a tt
      (omega (arith, n))
run-HasSent_from (handle msg ∷ events) handler_sends w r (m ∷ front) back fc fi tc tp (c, a) o n =
    HasSent-next tc m front
      (run events
        (server false handler_checks w r (queues (front ++ back) fc fi (tc ++ (m ∷ [])) tp)))
      (run-HasSent_from events handler_checks w r front back fc fi (tc ++ (m ∷ [])) tp a tt
        (omega (arith, n)))
run-HasSent_from (handle msg ∷ events) handler_sends w r [] [] fc fi tc tp (c, a) o n =
    run-HasSent_from events handler_checks w r [] [] fc fi tc tp a tt (omega arith)
run-HasSent_from (handle msg ∷ events) handler_sends w r [] (m ∷ back) fc fi tc tp (c, a) o n =
    HasSent-more tc m
      (run events (server false handler_checks w r (queues back fc fi (tc ++ (m ∷ [])) tp)))
      (run-HasSent_from events handler_checks w r [] back fc fi (tc ++ (m ∷ [])) tp a tt
        (omega arith))
run-HasSent_from (processor_worker msg ∷ events) h worker_checks r front back fc fi tc tp (c, a) o
      n =
    run-HasSent_from events h worker_receives r front back fc fi tc tp a o n
run-HasSent_from (processor_worker [] ∷ events) h worker_receives r front back fc fi tc tp (c, a) o
      n =
    run-HasSent_from events h worker_sends_client r front back fc fi tc tp a o n
run-HasSent_from (processor_worker (b ∷ msg) ∷ events) h worker_receives r front back fc fi tc tp
      (c, a) o n =
    subst
      (λ fp.
        HasSent tc front
          (run events (server false h worker_sends_client r (queues fp fc fi tc tp))))
      (sym (append_assoc front back ((b ∷ msg) ∷ [])))
      (run-HasSent_from events h worker_sends_client r front (back ++ ((b ∷ msg) ∷ [])) fc fi tc tp
        a o n)
run-HasSent_from (processor_worker msg ∷ events) h worker_sends_client r front back [] fi tc tp
      (c, a) o n =
    run-HasSent_from events h worker_sends_input r front back [] fi tc tp a o n
run-HasSent_from (processor_worker msg ∷ events) h worker_sends_client r front back (m ∷ fc) fi tc
      tp (c, a) o n =
    run-HasSent_from events h worker_sends_input r front back fc fi tc (tp ++ (m ∷ [])) a o n
run-HasSent_from (processor_worker msg ∷ events) h worker_sends_input r front back fc [] tc tp
      (c, a) o n =
    run-HasSent_from events h worker_checks r front back fc [] tc tp a o n
run-HasSent_from (processor_worker msg ∷ events) h worker_sends_input r front back fc (m ∷ fi) tc tp
      (c, a) o n =
    run-HasSent_from events h worker_checks r front back fc fi tc (tp ++ (m ∷ [])) a o n
run-HasSent_from (processor_worker msg ∷ events) h worker_finished r front back fc fi tc tp (c, a) o
      n =
    run-HasSent_from events h worker_finished r front back fc fi tc tp a o n
run-HasSent_from (input_worker (some line) ∷ events) h w false front back fc fi tc tp (c, a) o n =
    run-HasSent_from events h w false front back fc fi tc tp a o n
run-HasSent_from (input_worker (some line) ∷ events) h w true front back fc fi tc tp (c, a) o n =
    run-HasSent_from events h w true front back fc (fi ++ ((line ++ (13 ∷ [])) ∷ [])) tc tp a o n

-- Let no thread raise and let the event `shutdown` not be set. Then a handler that makes three steps for
-- each of the messages that wait for the client has sent them all, in their order and directly behind
-- what was sent before, whatever steps the threads make in between.
pub run-HasSent :
    (events : List Event) (w : Worker) (r : Bool) (fp fc fi tc tp : List Message)
    → All IsCalm events
    → 3 * length fp ≤ handles events
    → HasSent tc fp (run events (server false handler_checks w r (queues fp fc fi tc tp)))
run-HasSent events w r fp fc fi tc tp a n =
    subst (λ q. HasSent tc fp (run events (server false handler_checks w r (queues q fc fi tc tp))))
      (append-nil fp)
      (run-HasSent_from events handler_checks w r fp [] fc fi tc tp a tt
        (unfold passed in omega (arith, n)))

-- the lines that a thread still has to pass to the end of its loop
handler_left : Handler → ℕ
handler_left handler_checks = 1
handler_left handler_receives = 3
handler_left handler_sends = 2
handler_left handler_closed = 0

worker_left : Worker → ℕ
worker_left worker_checks = 1
worker_left worker_receives = 4
worker_left worker_sends_client = 3
worker_left worker_sends_input = 2
worker_left worker_finished = 0

-- The handler has closed the connection to the client, and the processor's worker has ended.
abbrev pub HasStopped : Server → Type 0
HasStopped (server down h w r q) = (down ≡ true) × (h ≡ handler_closed) × (w ≡ worker_finished)

run-HasStopped_from :
    (events : List Event) (h : Handler) (w : Worker) (r : Bool) (q : Queues)
    → handler_left h ≤ handles events
    → worker_left w ≤ works events
    → HasStopped (run events (server true h w r q))
unfolding run step handle_step processor_worker_step handle_fails processor_worker_fails
    input_worker_step handler_left worker_left
run-HasStopped_from [] handler_checks w r q hh hw = ground (arith, hh)
run-HasStopped_from [] handler_receives w r q hh hw = ground (arith, hh)
run-HasStopped_from [] handler_sends w r q hh hw = ground (arith, hh)
run-HasStopped_from [] handler_closed worker_checks r q hh hw = ground (arith, hw)
run-HasStopped_from [] handler_closed worker_receives r q hh hw = ground (arith, hw)
run-HasStopped_from [] handler_closed worker_sends_client r q hh hw = ground (arith, hw)
run-HasStopped_from [] handler_closed worker_sends_input r q hh hw = ground (arith, hw)
run-HasStopped_from [] handler_closed worker_finished r q hh hw = (refl, refl, refl)
run-HasStopped_from (handle msg ∷ events) handler_checks w r q hh hw =
    run-HasStopped_from events handler_closed w r q (omega arith) hw
run-HasStopped_from (handle msg ∷ events) handler_receives w r q hh hw =
    run-HasStopped_from events handler_sends w r _ (omega arith) hw
run-HasStopped_from (handle msg ∷ events) handler_sends w r q hh hw =
    run-HasStopped_from events handler_checks w r _ (omega arith) hw
run-HasStopped_from (handle msg ∷ events) handler_closed w r q hh hw =
    run-HasStopped_from events handler_closed w r q (omega arith) hw
run-HasStopped_from (processor_worker msg ∷ events) h worker_checks r q hh hw =
    run-HasStopped_from events h worker_finished r q hh (omega arith)
run-HasStopped_from (processor_worker msg ∷ events) h worker_receives r q hh hw =
    run-HasStopped_from events h worker_sends_client r _ hh (omega arith)
run-HasStopped_from (processor_worker msg ∷ events) h worker_sends_client r q hh hw =
    run-HasStopped_from events h worker_sends_input r _ hh (omega arith)
run-HasStopped_from (processor_worker msg ∷ events) h worker_sends_input r q hh hw =
    run-HasStopped_from events h worker_checks r _ hh (omega arith)
run-HasStopped_from (processor_worker msg ∷ events) h worker_finished r q hh hw =
    run-HasStopped_from events h worker_finished r q hh (omega arith)
run-HasStopped_from (handler_fails ∷ events) h w r q hh hw =
    run-HasStopped_from events handler_closed w r _ (omega arith) hw
run-HasStopped_from (processor_fails ∷ events) h w r q hh hw =
    run-HasStopped_from events h worker_finished r _ hh (omega arith)
run-HasStopped_from (input_worker line ∷ events) h w false q hh hw =
    run-HasStopped_from events h w false q hh hw
run-HasStopped_from (input_worker none ∷ events) h w true q hh hw =
    run-HasStopped_from events h w false q hh hw
run-HasStopped_from (input_worker (some line) ∷ events) h w true q hh hw =
    run-HasStopped_from events h w true _ hh hw

handler_left-bound : (h : Handler) → handler_left h ≤ 3
unfolding handler_left
handler_left-bound handler_checks = omega arith
handler_left-bound handler_receives = omega arith
handler_left-bound handler_sends = omega arith
handler_left-bound handler_closed = omega arith

worker_left-bound : (w : Worker) → worker_left w ≤ 4
unfolding worker_left
worker_left-bound worker_checks = omega arith
worker_left-bound worker_receives = omega arith
worker_left-bound worker_sends_client = omega arith
worker_left-bound worker_sends_input = omega arith
worker_left-bound worker_finished = omega arith

-- Once the event `shutdown` is set, the handler has closed its connection after three more of its steps and
-- the processor's worker has ended after four of its own, whatever the other steps are.
pub run-HasStopped :
    (events : List Event) (h : Handler) (w : Worker) (r : Bool) (q : Queues)
    → 3 ≤ handles events
    → 4 ≤ works events
    → HasStopped (run events (server true h w r q))
run-HasStopped events h w r q hh hw =
    run-HasStopped_from events h w r q (omega (arith, hh, handler_left-bound h))
      (omega (arith, hw, worker_left-bound w))
