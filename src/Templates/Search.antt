-- ===== src/Templates/Search.antt =====
-- `pattern.search(text, pos)` for a pattern that matches only at a boundary: at the start of the
-- text, or behind a character of a class.
use mlogv.Prelude.{
  ℕ, ◌≤◌, ◌<◌, ◌≡◌, refl, sym, ap, subst, ◌⊎◌, length-append, Bool, true, false, Option, none, some,
  inl, inr, [], ◌∷◌, ◌++◌, Text, length, arith, if◌then◌else◌,
}

-- what a search finds: the text in front of the match, the match, and the text behind it
pub record Found (A : Type 0) : Type 0 where
  pub before : Text
  pub found : A
  pub after : Text

abbrev pub shifted : {A : Type 0} → ℕ → Found A → Found A
shifted c r = record { before = c ∷ r.before; found = r.found; after = r.after }

abbrev pub shift_all : {A : Type 0} → ℕ → Option (Found A) → Option (Found A)
shift_all c none = none
shift_all c (some r) = some (shifted c r)

abbrev pub here_or : {A : Type 0} → Option (A × Text) → Option (Found A) → Option (Found A)
here_or none later = later
here_or (some (a, rest)) later = some (record { before = []; found = a; after = rest })

shift_all-eq_some :
    {A : Type 0} (c : ℕ) (o : Option (Found A)) (r : Found A)
    → shift_all c o ≡ some r
    → (r' : Found A) × (o ≡ some r') × (r ≡ shifted c r')
shift_all-eq_some c none r h = cc
shift_all-eq_some c (some r') r h = (r', refl, cc)

here_or-eq_some :
    {A : Type 0} (m : Option (A × Text)) (later : Option (Found A)) (r : Found A)
    → here_or m later ≡ some r
    → ((a : A) × (rest : Text) × (m ≡ some (a, rest))
        × (r ≡ record { before = []; found = a; after = rest }))
      ⊎ (later ≡ some r)
here_or-eq_some none later r h = inr h
here_or-eq_some (some (a, rest)) later r h = inl (a, rest, refl, cc)

module _ {A : Type 0} (match_at : Text → Option (A × Text)) (is_boundary : ℕ → Bool) where
  -- the flag says that the search stands at a boundary
  unfoldable pub search_from : Bool → Text → Option (Found A)
  search_from at [] = none
  search_from at (c ∷ s) =
      let later = shift_all c (search_from (is_boundary c) s) in
      if at then here_or (match_at (c ∷ s)) later else later

  -- what is found matches somewhere
  pub search_from-matches :
      (at : Bool) (s : Text) (r : Found A)
      → search_from at s ≡ some r
      → (t : Text) × (match_at t ≡ some (r.found, r.after))
  unfolding search_from
  search_from-matches at [] r h = cc
  search_from-matches false (c ∷ s) r h =
      let (r', found, shape) = shift_all-eq_some c (search_from (is_boundary c) s) r h in
      subst (λ q. (t : Text) × (match_at t ≡ some (q.found, q.after))) (sym shape)
        (search_from-matches (is_boundary c) s r' found)
  search_from-matches true (c ∷ s) r h =
      elim (here_or-eq_some (match_at (c ∷ s)) (shift_all c (search_from (is_boundary c) s)) r h) [
        | inl (a, rest, m, shape) ↦
            subst (λ q. (t : Text) × (match_at t ≡ some (q.found, q.after))) (sym shape) (c ∷ s, m)
        | inr h' ↦
            let (r', found, shape) = shift_all-eq_some c (search_from (is_boundary c) s) r h' in
            subst (λ q. (t : Text) × (match_at t ≡ some (q.found, q.after))) (sym shape)
              (search_from-matches (is_boundary c) s r' found)
      ]

  -- A match is a part of the text, whose print is not empty.
  pub record Prints (print : A → Text) : Type 0 where
    pub prints :
        (s : Text) (a : A) (rest : Text) → match_at s ≡ some (a, rest) → s ≡ print a ++ rest
    pub not_empty : (a : A) → 1 ≤ length (print a)

  module _ (print : A → Text) (p : Prints print) where
    pub search_from-print :
        (at : Bool) (s : Text) (r : Found A)
        → search_from at s ≡ some r
        → s ≡ r.before ++ (print r.found ++ r.after)
    unfolding search_from
    search_from-print at [] r h = cc
    search_from-print false (c ∷ s) r h =
        let (r', found, shape) = shift_all-eq_some c (search_from (is_boundary c) s) r h in
        subst (λ q. c ∷ s ≡ q.before ++ (print q.found ++ q.after)) (sym shape)
          (ap (◌∷◌ c) (search_from-print (is_boundary c) s r' found))
    search_from-print true (c ∷ s) r h =
        elim (here_or-eq_some (match_at (c ∷ s)) (shift_all c (search_from (is_boundary c) s)) r
          h) [
            | inl (a, rest, m, shape) ↦
                subst (λ q. c ∷ s ≡ q.before ++ (print q.found ++ q.after)) (sym shape)
                  (p.prints (c ∷ s) a rest m)
            | inr h' ↦
                let (r', found, shape) = shift_all-eq_some c (search_from (is_boundary c) s) r h' in
                subst (λ q. c ∷ s ≡ q.before ++ (print q.found ++ q.after)) (sym shape)
                  (ap (◌∷◌ c) (search_from-print (is_boundary c) s r' found))
          ]

    -- the text behind a match is shorter
    pub search_from-shorter :
        (at : Bool) (s : Text) (r : Found A) → search_from at s ≡ some r → length r.after < length s
    search_from-shorter at s r h =
        let whole = ap length (search_from-print at s r h) in
        omega (
          arith,
          whole,
          length-append r.before (print r.found ++ r.after),
          length-append (print r.found) r.after,
          p.not_empty r.found,
        )
