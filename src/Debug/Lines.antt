-- ===== src/Debug/Lines.antt =====
-- python/src/mlogv32/scripts/debug.py: which lines of a status go to the log.
use mlogv.Prelude.{
  ℕ, suc, ◌-◌, ◌≤◌, ◌≡◌, refl, sym, ap, subst, ◌∙◌, inl, inr, Bool, true, false, not, ◌||◌,
  Bool-cases, List, [], ◌∷◌, ◌++◌, Text, text_eq, join, length, drop, arith, leb, leb→le,
  if◌then◌else◌,
}
use mlogv.Debug.{changed_lines, split_lines, filtered, always_shown}

changed_lines-all :
    (always left : ℕ) (lines prev : List Text)
    → left ≤ always
    → length lines ≤ length prev
    → changed_lines always left lines prev ≡ lines
unfolding changed_lines
changed_lines-all always left [] prev h k = refl
changed_lines-all always left (line ∷ lines) [] h k = ground (arith, k)
changed_lines-all always left (line ∷ lines) (p ∷ prev) h k =
    ground (arith, h, changed_lines-all always (left - 1) lines prev (omega arith) (omega arith))

one_more :
    (kept : Bool) (line : Text) (whole rest tail : List Text)
    → whole ≡ (if kept then line ∷ rest else rest)
    → (front : List Text) × (rest ≡ front ++ tail)
    → (front : List Text) × (whole ≡ front ++ tail)
one_more true line whole rest tail h (front, e) = (line ∷ front, h ∙ ap (◌∷◌ line) e)
one_more false line whole rest tail h (front, e) = (front, h ∙ e)

changed_lines-shows :
    (always : ℕ) (lines prev : List Text)
    → length lines ≤ length prev
    → (front : List Text) × (changed_lines always (length lines) lines prev
        ≡ front ++ drop (length lines - always) lines)
changed_lines-shows always [] prev k =
    let none_left : 0 - always ≡ 0 = omega arith in
    ([], unfold changed_lines in sym (ap (λ n. drop {A = Text} n []) none_left))
changed_lines-shows always (line ∷ lines) [] k = ground (arith, k)
changed_lines-shows always (line ∷ lines) (p ∷ prev) k =
    let n = length lines in
    elim (Bool-cases (leb (suc n) always)) [
      | inl h ↦
          let small = leb→le (suc n) always h in
          let none_cut : suc n - always ≡ 0 = omega arith in
          (
            [],
            changed_lines-all always (suc n) (line ∷ lines) (p ∷ prev) small k
                ∙ sym (ap (λ m. drop m (line ∷ lines)) none_cut),
          )
      | inr h ↦
          let cut : suc n - always ≡ suc (n - always) = ground (arith, h) in
          let one_left : suc n - 1 ≡ n = omega arith in
          subst
            (λ m.
              (front : List Text) × (changed_lines always (suc n) (line ∷ lines) (p ∷ prev)
                ≡ front ++ drop m (line ∷ lines)))
            (sym cut)
            (one_more (leb (suc n) always || not (text_eq line p) || text_eq line []) line
              (changed_lines always (suc n) (line ∷ lines) (p ∷ prev))
              (changed_lines always n lines prev) (drop (n - always) lines)
              (unfold changed_lines in
                ap
                  (λ m.
                    let rest = changed_lines always m lines prev in
                    if leb (suc n) always || not (text_eq line p) || text_eq line []
                    then line ∷ rest
                    else rest)
                  one_left)
              (changed_lines-shows always lines prev (omega (arith, k))))
    ]

-- If the new text has at most as many lines as the text before, then the last lines of the new text, three
-- or two, end what goes to the log, in their order.
filtered-shows :
    (sail : Bool) (formatted prev_formatted : Text)
    → length (split_lines formatted) ≤ length (split_lines prev_formatted)
    → (front : List Text) × (filtered sail formatted prev_formatted
        ≡ join (b'\n' ∷ []) (
            front
            ++ drop (length (split_lines formatted) - always_shown sail) (split_lines formatted))
          ++ (b'\n' ∷ []))
unfolding filtered
filtered-shows sail formatted prev_formatted h =
    let (front, e) =
      changed_lines-shows (always_shown sail) (split_lines formatted) (split_lines prev_formatted)
        h in
    (front, ap (λ l. join (b'\n' ∷ []) l ++ (b'\n' ∷ [])) e)

-- Lines of the new text that have no counterpart in the text before do not go to the log: the lines up
-- to the shorter length alone decide.
pub changed_lines-cut :
    (always left : ℕ) (lines more prev : List Text)
    → length prev ≤ length lines
    → changed_lines always left (lines ++ more) prev ≡ changed_lines always left lines prev
unfolding changed_lines
changed_lines-cut always left [] [] [] k = refl
changed_lines-cut always left [] (m ∷ more) [] k = refl
changed_lines-cut always left [] more (p ∷ prev) k = ground (arith, k)
changed_lines-cut always left (line ∷ lines) more [] k = refl
changed_lines-cut always left (line ∷ lines) more (p ∷ prev) k =
    ap
      (λ rest.
        if leb left always || not (text_eq line p) || text_eq line [] then line ∷ rest else rest)
      (changed_lines-cut always (left - 1) lines more prev (omega (arith, k)))
