-- ===== src/Locals/Counts.antt =====
-- How often an index occurs, and what the lists of `LocalVariables` do to that.
use mlogv.Prelude.{ℕ, ◌+◌, ◌≡◌, refl, some, List, [], ◌∷◌, ◌++◌, Text, arith, if◌then◌else◌, ◌==◌}
use mlogv.Locals.{lookup, without, pop_last, insert_desc, sort_desc}

abbrev pub count : ℕ → List ℕ → ℕ
count k [] = 0
count k (x ∷ xs) = (if x == k then 1 else 0) + count k xs

abbrev pub indices : List (Text × ℕ) → List ℕ
indices [] = []
indices ((key, i) ∷ cache) = i ∷ indices cache

pub count-append : (k : ℕ) (xs ys : List ℕ) → count k (xs ++ ys) ≡ count k xs + count k ys
count-append k [] ys = omega arith
count-append k (x ∷ xs) ys = omega (arith, count-append k xs ys)

pub indices-append : (xs ys : List (Text × ℕ)) → indices (xs ++ ys) ≡ indices xs ++ indices ys
indices-append [] ys = refl
indices-append ((k, i) ∷ xs) ys = rw (indices-append xs ys)

pub count-pop_last :
    (k x : ℕ) (xs : List ℕ) → count k (x ∷ xs) ≡ count k ((pop_last x xs).0 ∷ (pop_last x xs).1)
unfolding pop_last
count-pop_last k x [] = refl
count-pop_last k x (y ∷ ys) = ground (arith, count-pop_last k y ys)

pub count-without :
    (k : ℕ) (cache : List (Text × ℕ)) (key : Text) (i : ℕ)
    → lookup cache key ≡ some i
    → count k (indices cache) ≡ count k (i ∷ indices (without cache key))
unfolding lookup without
count-without k [] key i h = cc
count-without k ((k', j) ∷ cache) key i h = ground (arith, count-without k cache key i)

pub count-insert_desc : (k i : ℕ) (xs : List ℕ) → count k (insert_desc i xs) ≡ count k (i ∷ xs)
unfolding insert_desc
count-insert_desc k i [] = refl
count-insert_desc k i (x ∷ xs) = ground (arith, count-insert_desc k i xs)

pub count-sort_desc : (k : ℕ) (xs : List ℕ) → count k (sort_desc xs) ≡ count k xs
unfolding sort_desc
count-sort_desc k [] = refl
count-sort_desc k (x ∷ xs) =
    ground (arith, count-insert_desc k x (sort_desc xs), count-sort_desc k xs)
