-- ===== src/Locals/Reuse.antt =====
-- python/src/mlogv32/preprocessor/extensions.py: the order of the freed indices.
use mlogv.Prelude.{
  ℕ, ◌≤◌, ◌≡◌, ◌≢◌, refl, subst, List, [], ◌∷◌, arith, ok, leb, Bool-cases, inl, inr, All, false,
}
use mlogv.Locals.{
  Env, pop_last, take_from, take_index, insert_desc, sort_desc, sort_freed, free_names, free_locals,
  Names, anonymous, variable_index,
}
use mlogv.Locals.Groups.{bind-eq-ok}

abbrev pub IsDescending : List ℕ → Type 0
IsDescending [] = Unit
IsDescending (x ∷ xs) = All (λ y. y ≤ x) xs × IsDescending xs

All-insert_desc :
    (b i : ℕ) (xs : List ℕ) → i ≤ b → All (λ y. y ≤ b) xs → All (λ y. y ≤ b) (insert_desc i xs)
unfolding insert_desc
All-insert_desc b i [] h a = (h, tt)
All-insert_desc b i (x ∷ xs) h (hx, a) = elim (Bool-cases (leb x i)) [
  | inl t ↦ rw t (h, (hx, a))
  | inr t ↦ rw t (hx, All-insert_desc b i xs h a)
]

All-le : (a b : ℕ) (xs : List ℕ) → a ≤ b → All (λ y. y ≤ a) xs → All (λ y. y ≤ b) xs
All-le a b [] h p = tt
All-le a b (x ∷ xs) h (px, p) = (omega arith, All-le a b xs h p)

insert_desc-IsDescending : (i : ℕ) (xs : List ℕ) → IsDescending xs → IsDescending (insert_desc i xs)
unfolding insert_desc
insert_desc-IsDescending i [] d = (tt, tt)
insert_desc-IsDescending i (x ∷ xs) (a, d) = elim (Bool-cases (leb x i)) [
  | inl t ↦ rw t ((ground arith, All-le x i xs (ground arith) a), (a, d))
  | inr t ↦ rw t (All-insert_desc x i xs (ground arith) a, insert_desc-IsDescending i xs d)
]

sort_desc-IsDescending : (xs : List ℕ) → IsDescending (sort_desc xs)
unfolding sort_desc
sort_desc-IsDescending [] = tt
sort_desc-IsDescending (x ∷ xs) =
    insert_desc-IsDescending x (sort_desc xs) (sort_desc-IsDescending xs)

-- the last of a descending list is the least, and the others still descend
pop_last-least :
    (x : ℕ) (xs : List ℕ) → IsDescending (x ∷ xs) → All (λ y. (pop_last x xs).0 ≤ y) (x ∷ xs)
unfolding pop_last
pop_last-least x [] d = (omega arith, tt)
pop_last-least x (y ∷ ys) ((yx, a), d) =
    let (py, rest) = pop_last-least y ys d in (omega arith, (py, rest))

taken :
    (freed : List ℕ) (env : Env) (i : ℕ)
    → IsDescending freed
    → freed ≢ []
    → (take_from freed env).0 ≡ ok i
    → All (λ y. i ≤ y) freed
unfolding take_from
taken [] env i d full got = absurd (full refl)
taken (x ∷ xs) env i d full got =
    let same : (pop_last x xs).0 ≡ i = cc in
    subst (λ j. All (λ y. j ≤ y) (x ∷ xs)) same (pop_last-least x xs d)

-- If a call of `free_locals` returns and leaves some freed index, then the freed indices descend, and
-- the index that the next variable without a name gets is the least of them.
free_locals-reuse :
    (names : List Names) (env env' : Env) (i : ℕ)
    → free_locals names env ≡ (ok tt, env')
    → env'.freed_local_variables ≢ []
    → (variable_index anonymous false env').0 ≡ ok i
    → IsDescending env'.freed_local_variables × All (λ y. i ≤ y) env'.freed_local_variables
unfolding free_locals variable_index take_index
free_locals-reuse names env env' i h full got =
    let (a, mid, e, k) = bind-eq-ok (free_names names) (λ _. sort_freed) env h in
    let same : sort_desc mid.freed_local_variables ≡ env'.freed_local_variables =
      unfold sort_freed in cc in
    let down : IsDescending env'.freed_local_variables =
      rw (← same) (sort_desc-IsDescending mid.freed_local_variables) in
    (down, taken env'.freed_local_variables env' i down full got)
