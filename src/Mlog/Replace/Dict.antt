-- ===== src/Mlog/Replace/Dict.antt =====
-- python/src/mlogv32/preprocessor/parser/mlog.py: dictionaries of labels that are made of pairs.
use mlogv.Prelude.{ℕ, ◌≡◌, ◌⊎◌, inl, inr, some, List, [], ◌∷◌, Text, text_eq_iff, arith}
use mlogv.Mlog.Replace.{lookup, insert, insert_all, dict_of}

-- The pair is one of the pairs.
abbrev pub HasEntry : List (Text × ℕ) → Text → ℕ → Type 0
HasEntry [] name n = ⊥
HasEntry ((key, m) ∷ pairs) name n = ((key ≡ name) × (m ≡ n)) ⊎ HasEntry pairs name n

lookup-insert :
    (labels : List (Text × ℕ)) (key : Text) (m : ℕ) (name : Text) (n : ℕ)
    → lookup (insert labels key m) name ≡ some n
    → ((key ≡ name) × (m ≡ n)) ⊎ (lookup labels name ≡ some n)
unfolding lookup insert
lookup-insert [] key m name n h = ground (arith, text_eq_iff key name)
lookup-insert ((k, v) ∷ labels) key m name n h = ground (
  arith,
  text_eq_iff k name,
  text_eq_iff k key,
  text_eq_iff key name,
  lookup-insert labels key m name n,
)

lookup-insert_all :
    (labels pairs : List (Text × ℕ)) (name : Text) (n : ℕ)
    → lookup (insert_all labels pairs) name ≡ some n
    → HasEntry pairs name n ⊎ (lookup labels name ≡ some n)
unfolding insert_all
lookup-insert_all labels [] name n h = inr h
lookup-insert_all labels ((key, m) ∷ pairs) name n h =
    elim (lookup-insert_all (insert labels key m) pairs name n h) [
      | inl e ↦ inl (inr e)
      | inr e ↦ elim (lookup-insert labels key m name n e) [
        | inl same ↦ inl (inl same)
        | inr old ↦ inr old
      ]
    ]

pub lookup-dict_of :
    (pairs : List (Text × ℕ)) (name : Text) (n : ℕ)
    → lookup (dict_of pairs) name ≡ some n
    → HasEntry pairs name n
unfolding dict_of
lookup-dict_of pairs name n h = elim (lookup-insert_all [] pairs name n h) [
  | inl e ↦ e
  | inr e ↦ unfold lookup in cc
]
