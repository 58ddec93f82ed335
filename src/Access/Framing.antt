-- ===== src/Access/Framing.antt =====
-- python/src/mlogv32/processor_access.py: what a sequence of calls writes to the socket.
use mlogv.Prelude.{
  ℕ, suc, ◌≡◌, ◌≢◌, refl, sym, ap, ◌∙◌, subst, ◌⊎◌, Bool, true, false, not, ◌||◌, Bool-cases, inl,
  inr, Option, List, [], ◌∷◌, ◌++◌, append-nil, append_assoc, map, Text, Result, ok, err,
  Result-cases, arith, All, length, take,
}
use mlogv.Config.{split, split_from}
use mlogv.Config.Positional.{split_from-part, split_from-sep}
use mlogv.Access.{
  Request, flash_request, dump_request, start_request, wait_request, unpause_request, stop_request,
  status_request, serial_request, both, Response, Socket, Call, flash, dump, start, wait, unpause,
  stop, get_status, serial, AccessError, path_not_absolute, Reply, success_expected, send_request,
  recv_response, request_for, absolute_only, perform, perform_all, followed_by,
}

-- The request that a call stands for.
abbrev pub request_of : Call → Request
request_of (flash path absolute) = flash_request path absolute
request_of (dump path address data_length absolute) = dump_request path address data_length absolute
request_of (start single_step) = start_request single_step
request_of (wait stopped paused) = wait_request stopped paused
request_of unpause = unpause_request
request_of stop = stop_request
request_of get_status = status_request
request_of (serial device a b) = serial_request device both a b

-- the lines of a text that ends each of them with a newline
abbrev pub frames : List Text → Text
frames [] = []
frames (t ∷ ts) = t ++ (b'\n' ∷ frames ts)

split-frames :
    (ts : List Text) → All (All (λ c. c ≢ b'\n')) ts → split b'\n' (frames ts) ≡ ts ++ ([] ∷ [])
unfolding split split_from
split-frames [] h = refl
split-frames (t ∷ ts) h =
    let cut = split_from-part b'\n' t (b'\n' ∷ frames ts) h.0 in
    let at = split_from-sep b'\n' (frames ts) in
    ap (λ r. r.0 ∷ r.1) cut
    ∙ ap (λ r. (t ++ r.0) ∷ r.1) at
    ∙ ap (λ u. u ∷ split b'\n' (frames ts)) (append-nil t)
    ∙ ap (◌∷◌ t) (split-frames ts h.1)

module _ (model_dump_json : Request → Text) (validate_json : Text → Option Response)
    (is_absolute : Text → Bool) where
  -- a path has to be absolute where the caller asks for that
  abbrev pub is_allowed : Call → Bool
  is_allowed (flash path absolute) = not absolute || is_absolute path
  is_allowed (dump path a b absolute) = not absolute || is_absolute path
  is_allowed _ = true

  abbrev pub Sends : Call → Socket → Type 0
  Sends c s =
      (perform model_dump_json validate_json is_absolute c s).1.out
      ≡ s.out ++ (model_dump_json (request_of c) ++ (b'\n' ∷ []))

  absolute_only-allowed :
      (path : Text) (absolute : Bool) (request : Request) (s : Socket)
      → not absolute || is_absolute path ≡ true
      → absolute_only model_dump_json validate_json is_absolute path absolute request s
        ≡ request_for model_dump_json validate_json is_absolute success_expected request s
  unfolding absolute_only
  absolute_only-allowed path absolute request s h = ground (arith, h)

  pub perform-Sends : (c : Call) (s : Socket) → is_allowed c ≡ true → Sends c s
  unfolding perform absolute_only request_for recv_response send_request
  perform-Sends (flash path absolute) s h =
      ap (λ r. r.1.out) (absolute_only-allowed path absolute (flash_request path absolute) s h)
  perform-Sends (dump path a b absolute) s h =
      ap (λ r. r.1.out) (absolute_only-allowed path absolute (dump_request path a b absolute) s h)
  perform-Sends (start single_step) s h = refl
  perform-Sends (wait stopped paused) s h = refl
  perform-Sends unpause s h = refl
  perform-Sends stop s h = refl
  perform-Sends get_status s h = refl
  perform-Sends (serial device a b) s h = refl

  perform-refuses :
      (c : Call) (s : Socket)
      → is_allowed c ≡ false
      → perform model_dump_json validate_json is_absolute c s ≡ (err path_not_absolute, s)
  unfolding perform absolute_only
  perform-refuses (flash path absolute) s h = ground (arith, h)
  perform-refuses (dump path a b absolute) s h = ground (arith, h)
  perform-refuses (start single_step) s h = cc
  perform-refuses (wait stopped paused) s h = cc
  perform-refuses unpause s h = cc
  perform-refuses stop s h = cc
  perform-refuses get_status s h = cc
  perform-refuses (serial device a b) s h = cc

  abbrev pub lines : List Call → List Text
  lines calls = map (λ c. model_dump_json (request_of c)) calls

  -- A run sends the first `n` of `calls`, and all of them if it raises no exception.
  abbrev pub Framed : Text → List Call → Result AccessError (List Reply) × Socket → ℕ → Type 0
  Framed before calls done n =
      (done.1.out ≡ before ++ frames (lines (take n calls)))
      × ((replies : List Reply) → done.0 ≡ ok replies → n ≡ length calls)

  line_and_rest :
      (before : Text) (c : Call) (calls : List Call) (n : ℕ) (middle after : Text)
      → middle ≡ before ++ (model_dump_json (request_of c) ++ (b'\n' ∷ []))
      → after ≡ middle ++ frames (lines (take n calls))
      → after ≡ before ++ frames (lines (take (suc n) (c ∷ calls)))
  line_and_rest before c calls n middle after first later =
      let text = model_dump_json (request_of c) in
      let rest = frames (lines (take n calls)) in
      later
      ∙ ap (λ m. m ++ rest) first
      ∙ append_assoc before (text ++ (b'\n' ∷ [])) rest
      ∙ ap (◌++◌ before) (append_assoc text (b'\n' ∷ []) rest)

  perform_all-refused :
      (c : Call) (calls : List Call) (s : Socket)
      → is_allowed c ≡ false
      → (answer : Result AccessError Reply × Socket)
        (rest : Result AccessError (List Reply) × Socket)
      → answer ≡ (err path_not_absolute, s)
      → Framed s.out (c ∷ calls) (followed_by answer rest) 0
  unfolding followed_by
  perform_all-refused c calls s h answer rest e =
      subst (λ a. Framed s.out (c ∷ calls) (followed_by a rest) 0) (sym e)
        (sym (append-nil s.out), λ replies k. cc)

  followed_by-Framed :
      (before : Text) (c : Call) (calls : List Call) (n : ℕ)
      (answer : Result AccessError Reply × Socket) (rest : Result AccessError (List Reply) × Socket)
      → answer.1.out ≡ before ++ (model_dump_json (request_of c) ++ (b'\n' ∷ []))
      → Framed answer.1.out calls rest n
      → (m : ℕ) × Framed before (c ∷ calls) (followed_by answer rest) m
  unfolding followed_by
  followed_by-Framed before c calls n (err e, s) rest sends h = (1, (sends, λ replies k. cc))
  followed_by-Framed before c calls n (ok reply, s) (err e, s') sends (out, whole) =
      (suc n, (line_and_rest before c calls n s.out s'.out sends out, λ replies k. cc))
  followed_by-Framed before c calls n (ok reply, s) (ok replies, s') sends (out, whole) = (
    suc n,
    (line_and_rest before c calls n s.out s'.out sends out, λ all k. ap suc (whole replies refl)),
  )

  pub perform_all-Framed :
      (calls : List Call) (s : Socket)
      → (n : ℕ) × Framed s.out calls
          (perform_all model_dump_json validate_json is_absolute calls s)
          n
  unfolding perform_all
  perform_all-Framed [] s = (0, (sym (append-nil s.out), λ replies h. refl))
  perform_all-Framed (c ∷ calls) s =
      let answer = perform model_dump_json validate_json is_absolute c s in
      let rest = perform_all model_dump_json validate_json is_absolute calls answer.1 in
      elim (Bool-cases (is_allowed c)) [
        | inr h ↦ (0, perform_all-refused c calls s h answer rest (perform-refuses c s h))
        | inl h ↦
            let later = perform_all-Framed calls answer.1 in
            followed_by-Framed s.out c calls later.0 answer rest (perform-Sends c s h) later.1
      ]

  -- Let no encoded request contain a newline. Then what a sequence of calls writes to a new socket,
  -- cut at its newlines, is the encoded requests of the first `n` calls, one in each line and each
  -- line ended; and these are all calls, unless some call raises an exception.
  pub perform_all-lines :
      ((r : Request) → All (λ c. c ≢ b'\n') (model_dump_json r))
      → (calls : List Call) (incoming : List Text)
      → (n : ℕ) × (split b'\n'
            (perform_all model_dump_json validate_json is_absolute calls
              (record { out = []; incoming = incoming })).1.out
          ≡ lines (take n calls) ++ ([] ∷ []))
        × ((n ≡ length calls)
            ⊎ ((e : AccessError) × ((perform_all model_dump_json validate_json is_absolute calls
                    (record { out = []; incoming = incoming })).0
                  ≡ err e)))
  perform_all-lines no_newline calls incoming =
      let framed = perform_all-Framed calls (record { out = []; incoming = incoming }) in
      (
        framed.0,
        ap (split b'\n') framed.1.0
            ∙ split-frames (lines (take framed.0 calls)) (each (take framed.0 calls)),
        whole framed.0 framed.1.1 (
            Result-cases
              (perform_all model_dump_json validate_json is_absolute calls
                (record { out = []; incoming = incoming })).0),
      )
    where
      whole :
          (n : ℕ) {r : Result AccessError (List Reply)}
          → ((replies : List Reply) → r ≡ ok replies → n ≡ length calls)
          → ((replies : List Reply) × (r ≡ ok replies)) ⊎ ((e : AccessError) × (r ≡ err e))
          → (n ≡ length calls) ⊎ ((e : AccessError) × (r ≡ err e))
      whole n all (inl (replies, k)) = inl (all replies k)
      whole n all (inr (e, k)) = inr (e, k)

      each : (calls : List Call) → All (All (λ c. c ≢ b'\n')) (lines calls)
      each [] = tt
      each (c ∷ calls) = (no_newline (request_of c), each calls)
