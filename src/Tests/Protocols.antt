-- ===== src/Tests/Protocols.antt =====
-- The theorems on local variables, on the terminal, the control protocol and `logicids.dat`.
use mlogv.Prelude.{
  ℕ, ◌≤◌, ◌<◌, ◌≡◌, ◌≢◌, refl, ◌⊎◌, Bool, true, false, Option, none, some, List, [], ◌∷◌, ◌++◌,
  Text, codes, text_eq, ok, err, take, pos, arith,
}
use mlogv.Config.{split}
use mlogv.Locals.{
  Env, initial, lookup, contains, Names, single, group, declare_locals, free_locals, anonymous,
  variable_index,
}
use mlogv.Locals.Calls.{Call, declare, free, next, calls, calls_distinct}
use mlogv.Locals.Groups.{fresh, declare_locals-group}
use mlogv.Terminal.{
  Event, handle, processor_worker, handler_fails, processor_fails, input_worker, run, server,
  queues, handler_checks, handler_receives, worker_checks, worker_receives,
}
use mlogv.Terminal.Progress.{HasSent, HasStopped, run-HasSent, run-HasStopped}
use mlogv.Access.{Request, Response, AccessError, Socket, start, stop, perform_all}
use mlogv.Access.Framing.{lines, perform_all-lines}
use mlogv.Msch.{encode}
use mlogv.Msch.Utf8.{decode, encode-decode}
use mlogv.LogicIds.{read_file, content_types}
use mlogv.LogicIds.RoundTrip.{file_of, contents_of, read_file-file_of}

abbrev two_locals : List Call
two_locals = declare (single (codes "$$a") ∷ single (codes "$$b") ∷ []) (pos 1) true ∷ []

calls_distinct_example :
    ◌≢◌ {A = ℕ} 1 2
    × (contains (calls two_locals initial).freed_local_variables 1 ≡ false)
    × (1 ≤ 1)
    × (1 < (calls two_locals initial).local_variable_index)
unfolding calls contains mlogv.Locals.Calls.call text_eq declare_locals mlogv.Locals.reset_locals
    mlogv.Locals.reset_to mlogv.Locals.declare_names mlogv.Locals.declare_one
    mlogv.Locals.starts_with_two mlogv.Locals.local_variable variable_index
    mlogv.Locals.named_variable lookup mlogv.Locals.new_variable mlogv.Locals.take_index
    mlogv.Locals.take_from mlogv.Locals.store mlogv.Locals.declare_each initial
    mlogv.Locals.remove_prefix
calls_distinct_example =
    calls_distinct two_locals (codes "$a") (codes "$b") 1 2 (λ k. ground arith) refl refl

abbrev regrouped : Env
regrouped = record {
  local_variable_index = 2;
  largest_local_variable = 5;
  local_variable_cache = (codes "$b", 1) ∷ [];
  freed_local_variables = [];
}

declare_locals-group_example :
    (largest : ℕ) × (declare_locals (group (codes "$$b" ∷ []) ∷ []) (pos 1) false (fresh largest)
      ≡ (ok tt, regrouped))
unfolding declare_locals mlogv.Locals.reset_locals mlogv.Locals.reset_to mlogv.Locals.declare_names
    mlogv.Locals.declare_one mlogv.Locals.starts_with_two mlogv.Locals.local_variable variable_index
    mlogv.Locals.named_variable lookup mlogv.Locals.new_variable mlogv.Locals.take_index
    mlogv.Locals.take_from mlogv.Locals.store mlogv.Locals.declare_each initial
    mlogv.Locals.remove_prefix
declare_locals-group_example =
    declare_locals-group (single (codes "$$a") ∷ []) (codes "$$b" ∷ []) [] (pos 5) true initial
      regrouped refl

abbrev some_events : List Event
some_events =
    handle []
    ∷ processor_worker []
    ∷ handle (codes "ls")
    ∷ processor_worker (codes "hi")
    ∷ handle []
    ∷ processor_worker []
    ∷ input_worker (some (codes "cd"))
    ∷ processor_fails
    ∷ handle []
    ∷ handler_fails
    ∷ []

abbrev dump_nothing : Request → Text
dump_nothing request = codes "{}"

abbrev no_response : Text → Option Response
no_response line = none

abbrev is_slash : Text → Bool
is_slash path = text_eq path (codes "/")

abbrev new_socket : Socket
new_socket = record { out = []; incoming = [] }

perform_all-lines_example :
    (n : ℕ) × (split b'\n'
        (perform_all dump_nothing no_response is_slash (stop ∷ start true ∷ []) new_socket).1.out
      ≡ lines dump_nothing no_response is_slash (take n (stop ∷ start true ∷ [])) ++ ([] ∷ []))
    × ((n ≡ 2)
        ⊎ ((e : AccessError) × ((perform_all dump_nothing no_response is_slash
                (stop ∷ start true ∷ [])
                new_socket).0
              ≡ err e)))
perform_all-lines_example =
    perform_all-lines dump_nothing no_response is_slash (λ r. (omega arith, (omega arith, tt)))
      (stop ∷ start true ∷ []) []

-- UTF-8 of a text that has one
abbrev utf8 : Text → List ℕ
utf8 text = elim (encode text) [ ok bytes ↦ bytes | err e ↦ [] ]

abbrev accented : Text
accented = b'm' ∷ 0xFC ∷ b'n' ∷ 0x20AC ∷ []

read_file-file_of_example :
    read_file decode
      (file_of decode utf8 ((codes "wall" ∷ []) ∷ [] ∷ (codes "coal" ∷ accented ∷ []) ∷ [] ∷ []))
    ≡ ok (
        contents_of decode utf8 content_types
          ((codes "wall" ∷ []) ∷ [] ∷ (codes "coal" ∷ accented ∷ []) ∷ [] ∷ []))
unfolding encode mlogv.Msch.is_refused
read_file-file_of_example =
    read_file-file_of decode utf8 (codes "wall" ∷ []) [] (codes "coal" ∷ accented ∷ []) []
      (
        (encode-decode (codes "wall") (utf8 (codes "wall")) refl, tt),
        tt,
        (
          encode-decode (codes "coal") (utf8 (codes "coal")) refl,
          (encode-decode accented (utf8 accented) refl, tt),
        ),
        tt,
      )
      (omega arith, omega arith, omega arith, omega arith)

-- the handler's round twice, with the input's thread and the worker in between
abbrev two_rounds : List Event
two_rounds =
    handle []
    ∷ processor_worker []
    ∷ handle (7 ∷ [])
    ∷ handle []
    ∷ input_worker (some (9 ∷ []))
    ∷ handle []
    ∷ processor_worker (5 ∷ [])
    ∷ handle []
    ∷ handle []
    ∷ []

run-HasSent_example : HasSent [] ((1 ∷ []) ∷ (2 ∷ []) ∷ []) (
    run two_rounds (
      server false handler_checks worker_checks true
        (queues ((1 ∷ []) ∷ (2 ∷ []) ∷ []) [] [] [] [])))
run-HasSent_example =
    run-HasSent two_rounds worker_checks true ((1 ∷ []) ∷ (2 ∷ []) ∷ []) [] [] [] []
      (tt, (tt, (tt, (tt, (tt, (tt, (tt, (tt, (tt, tt))))))))) (omega arith)

abbrev last_steps : List Event
last_steps =
    processor_worker []
    ∷ handle []
    ∷ processor_worker []
    ∷ handle []
    ∷ processor_worker []
    ∷ handle []
    ∷ processor_worker []
    ∷ []

run-HasStopped_example :
    HasStopped
      (run last_steps (server true handler_receives worker_receives true (queues [] [] [] [] [])))
run-HasStopped_example =
    run-HasStopped last_steps handler_receives worker_receives true (queues [] [] [] [] [])
      (omega arith) (omega arith)
