-- ===== src/RamProc/Chunks.antt =====
-- Lists cut into chunks of equal length, the last one shorter.
use mlogv.Prelude.{
  ℕ, ◌+◌, ◌≤◌, ◌<◌, ◌≡◌, refl, ◌∙◌, sym, List, [], ◌∷◌, ◌++◌, arith, length, length-append, ◌==◌,
  append_assoc, append-nil, true, false, Bool-cases, inl, inr,
}

module _ {ℓ} {A : Type ℓ} where
  -- the last chunk, if there is something in it
  abbrev pub rest_chunk : List A → List (List A)
  rest_chunk [] = []
  rest_chunk (x ∷ xs) = (x ∷ xs) ∷ []

  -- chunks of `k`, of which the first has begun with `cur`
  unfoldable pub chunks_from : ℕ → List A → List A → List (List A)
  chunks_from k cur [] = rest_chunk cur
  chunks_from k cur (x ∷ xs) = elim (length cur + 1 == k) [
    | true ↦ (cur ++ x ∷ []) ∷ chunks_from k [] xs
    | false ↦ chunks_from k (cur ++ x ∷ []) xs
  ]

  unfoldable pub chunks : ℕ → List A → List (List A)
  chunks k xs = chunks_from k [] xs

  abbrev pub flatten : List (List A) → List A
  flatten [] = []
  flatten (xs ∷ xss) = xs ++ flatten xss

  flatten-rest_chunk : (cur : List A) → flatten (rest_chunk cur) ≡ cur
  flatten-rest_chunk [] = refl
  flatten-rest_chunk (x ∷ xs) = append-nil (x ∷ xs)

  flatten-chunks_from : (k : ℕ) (cur xs : List A) → flatten (chunks_from k cur xs) ≡ cur ++ xs
  unfolding chunks_from
  flatten-chunks_from k cur [] = flatten-rest_chunk cur ∙ sym (append-nil cur)
  flatten-chunks_from k cur (x ∷ xs) = ground (
    arith,
    flatten-chunks_from k [] xs,
    flatten-chunks_from k (cur ++ x ∷ []) xs,
    append_assoc cur (x ∷ []) xs,
  )

  pub chunks_from_full :
      (k : ℕ) (cur : List A) (x : A) (xs : List A)
      → (length cur + 1 == k) ≡ true
      → chunks_from k cur (x ∷ xs) ≡ (cur ++ x ∷ []) ∷ chunks_from k [] xs
  unfolding chunks_from
  chunks_from_full k cur x xs h = rw (h, chunks_from)

  pub chunks_from_short :
      (k : ℕ) (cur : List A) (x : A) (xs : List A)
      → (length cur + 1 == k) ≡ false
      → chunks_from k cur (x ∷ xs) ≡ chunks_from k (cur ++ x ∷ []) xs
  unfolding chunks_from
  chunks_from_short k cur x xs h = rw (h, chunks_from)

  rest_chunk-concat : (cur : List A) (x : A) → rest_chunk (cur ++ x ∷ []) ≡ (cur ++ x ∷ []) ∷ []
  rest_chunk-concat [] x = refl
  rest_chunk-concat (y ∷ cur) x = refl

  -- with one element to go there is one chunk to come, full or not
  pub chunks_from_last :
      (k : ℕ) (cur : List A) (x : A) → chunks_from k cur (x ∷ []) ≡ (cur ++ x ∷ []) ∷ []
  unfolding chunks_from
  chunks_from_last k cur x = ground (arith, rest_chunk-concat cur x)

  -- nothing is lost and nothing changes its place
  pub flatten-chunks : (k : ℕ) (xs : List A) → flatten (chunks k xs) ≡ xs
  unfolding chunks
  flatten-chunks k xs = flatten-chunks_from k [] xs

  -- all chunks but the last have length `k`, and the last is neither empty nor longer
  abbrev pub AreChunks : ℕ → List (List A) → Type 0
  AreChunks k [] = Unit
  AreChunks k (c ∷ []) = (0 < length c) × (length c ≤ k)
  AreChunks k (c ∷ d ∷ cs) = (length c ≡ k) × AreChunks k (d ∷ cs)

  AreChunks-cons :
      (k : ℕ) (c : List A) (cs : List (List A))
      → length c ≡ k
      → 0 < k
      → AreChunks k cs
      → AreChunks k (c ∷ cs)
  AreChunks-cons k c [] e p h = omega arith
  AreChunks-cons k c (d ∷ cs) e p h = (e, h)

  AreChunks-chunks_from :
      (k : ℕ) (cur xs : List A) → length cur < k → AreChunks k (chunks_from k cur xs)
  unfolding chunks_from
  AreChunks-chunks_from k [] [] h = tt
  AreChunks-chunks_from k (c ∷ cur) [] h = omega arith
  AreChunks-chunks_from k cur (x ∷ xs) h = elim (Bool-cases (length cur + 1 == k)) [
    | inl full ↦
        rw (full, chunks_from)
          (AreChunks-cons k (cur ++ x ∷ []) (chunks_from k [] xs)
            (ground (arith, length-append cur (x ∷ []))) (omega arith)
            (AreChunks-chunks_from k [] xs (omega arith)))
    | inr short ↦
        rw (short, chunks_from)
          (AreChunks-chunks_from k (cur ++ x ∷ []) xs (ground (arith, length-append cur (x ∷ []))))
  ]

  pub chunks-AreChunks : (k : ℕ) (xs : List A) → 0 < k → AreChunks k (chunks k xs)
  unfolding chunks
  chunks-AreChunks k xs h = AreChunks-chunks_from k [] xs h
