-- ===== src/Mlog/Unsaved/Sets.antt =====
-- Sets of names, as lists without duplicates.
use mlogv.Prelude.{
  true, false, ◌||◌, ◌≡◌, refl, inl, inr, List, [], ◌∷◌, ◌++◌, Text, arith, contains, text_eq,
  text_eq_iff, Bool-cases,
}
use mlogv.Mlog.Unsaved.{add}

pub contains-append :
    (xs ys : List Text) (v : Text) → contains (xs ++ ys) v ≡ (contains xs v || contains ys v)
unfolding contains
contains-append [] ys v = refl
contains-append (x ∷ xs) ys v = ground (arith, contains-append xs ys v)

-- `add` puts a name in, and keeps the others as they were
pub contains-add :
    (xs : List Text) (x v : Text) → contains (add xs x) v ≡ (contains xs v || text_eq x v)
unfolding add
contains-add xs x v = elim (Bool-cases (contains xs x)) [
  | inl old ↦ rw (old, add) (known xs old)
  | inr new ↦ rw (new, add) (rw contains-append (unfold contains in ground arith))
]
  where
    known : (ys : List Text) → contains ys x ≡ true → contains ys v ≡ (contains ys v || text_eq x v)
    known ys old = elim (Bool-cases (text_eq x v)) [
      | inl e ↦ ground (arith, rw ((text_eq_iff x v).0 e) at old)
      | inr e ↦ rw e (ground arith)
    ]

-- no name twice
abbrev pub IsDistinct : List Text → Type 0
IsDistinct [] = Unit
IsDistinct (x ∷ xs) = (contains xs x ≡ false) × IsDistinct xs

pub concat-IsDistinct :
    (xs : List Text) (v : Text) → contains xs v ≡ false → IsDistinct xs → IsDistinct (xs ++ v ∷ [])
unfolding contains
concat-IsDistinct [] v h d = (refl, tt)
concat-IsDistinct (x ∷ xs) v h (hx, d) = (
  ground (arith, contains-append xs (v ∷ []) x, text_eq_iff v x, text_eq_iff x v),
  concat-IsDistinct xs v (ground arith) d,
)

pub add-IsDistinct : (xs : List Text) (v : Text) → IsDistinct xs → IsDistinct (add xs v)
unfolding add
add-IsDistinct xs v d = elim (Bool-cases (contains xs v)) [
  | inl old ↦ rw (old, add) d
  | inr new ↦ rw (new, add) (concat-IsDistinct xs v new d)
]
