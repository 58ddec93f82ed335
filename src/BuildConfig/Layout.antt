-- ===== src/BuildConfig/Layout.antt =====
-- Where `_resolve_instructions` puts the instructions.
use native.Mathlib.Nat.{div-add-mod', mod-lt, mul-mod_left}
use mlogv.Prelude.{
  ℕ, ◌+◌, ◌-◌, ◌*◌, ◌%◌, ◌≤◌, ◌<◌, ◌≡◌, refl, ap, subst, ◌∙◌, none, some, List, [], ◌∷◌, ◌++◌, sym,
  length, true, arith, ok, err, ◌>>=◌, bind-eq-ok, ltb_ℤ, ℤ, pos, All,
}
use mlogv.BuildConfig.{
  Instruction, address_before, ceil_div, place, count_at, resolve_from, resolve_instructions, to_ℕ,
}

-- what pydantic checks of the fields
abbrev pub IsChecked : Instruction → Type 0
IsChecked v = (1 ≤ v.count) × (1 ≤ v.align)

-- How a resolved entry stands to its source, if the entry before it ends at `lo` and it begins
-- at `a`: an explicit address is kept; without one the entry begins at the next multiple of `align`;
-- `up_to` is the last address, and without it the count is kept.
pub record Resolves (lo : ℕ) (v w : Instruction) (a : ℕ) : Type 0 where
  pub same_label : w.label ≡ v.label
  pub same_align : w.align ≡ v.align
  pub begins : w.address ≡ some (pos a)
  pub behind : lo ≤ a
  pub explicit : (z : ℤ) → v.address ≡ some z → z ≡ pos a
  pub implicit : v.address ≡ none → (a % v.align ≡ 0) × (a < lo + v.align)
  pub counted : 1 ≤ w.count
  pub same_count : v.up_to ≡ none → w.count ≡ v.count
  pub reaches : (z : ℤ) → v.up_to ≡ some z → (z ≡ pos (a + w.count - 1)) × (v.align ≡ 1)

-- Each entry begins where the one before it has ended, or later.
abbrev pub Laid : ℕ → List Instruction → List Instruction → Type 0
Laid lo [] [] = Unit
Laid lo [] (w ∷ ws) = ⊥
Laid lo (v ∷ vs) [] = ⊥
Laid lo (v ∷ vs) (w ∷ ws) = (a : ℕ) × Resolves lo v w a × Laid (a + w.count * w.align) vs ws

-- rounding up to a multiple
ceil_div_bounds :
    (a b : ℕ)
    → 1 ≤ b
    → (a ≤ ceil_div a b * b) × (ceil_div a b * b % b ≡ 0) × (ceil_div a b * b < a + b)
unfolding ceil_div
ceil_div_bounds a b h =
    let whole = div-add-mod' (a + b - 1) b in
    let part : (a + b - 1) % b < b = mod-lt (a + b - 1) h in
    (omega arith, mul-mod_left (ceil_div a b) b, omega arith)

place-ok :
    (i lo : ℕ) (v : Instruction) (a : ℕ)
    → 1 ≤ v.align
    → place i lo v ≡ ok a
    → (lo ≤ a)
      × ((z : ℤ) → v.address ≡ some z → z ≡ pos a)
      × (v.address ≡ none → (a % v.align ≡ 0) × (a < lo + v.align))
unfolding place
place-ok i lo v a h e = (
  ground (arith, ceil_div_bounds lo v.align h),
  λ z k. ground arith,
  λ k. (ground (arith, ceil_div_bounds lo v.align h), ground (arith, ceil_div_bounds lo v.align h)),
)

count_at-ok :
    (i a : ℕ) (v : Instruction) (c : ℕ)
    → 1 ≤ v.count
    → count_at i a v ≡ ok c
    → (1 ≤ c)
      × (v.up_to ≡ none → c ≡ v.count)
      × ((z : ℤ) → v.up_to ≡ some z → (z ≡ pos (a + c - 1)) × (v.align ≡ 1))
unfolding count_at
count_at-ok i a v c h e = (ground arith, λ k. ground arith, λ z k. (ground arith, ground arith))

-- one entry, and the entries behind it
resolve_from-cons :
    (i lo : ℕ) (v : Instruction) (vs : List Instruction) {ws : List Instruction}
    → resolve_from i lo (v ∷ vs) ≡ ok ws
    → (a : ℕ) × (c : ℕ) × (rest : List Instruction) × (place i lo v ≡ ok a)
      × (count_at i a v ≡ ok c)
      × (resolve_from (i + 1) (a + c * v.align) vs ≡ ok rest)
      × (ws ≡ record v { address = some (pos a); count = c } ∷ rest)
unfolding resolve_from
resolve_from-cons i lo v vs h =
    let (a, e, h1) = bind-eq-ok (place i lo v) _ h in
    let (c, k, h2) = bind-eq-ok (count_at i a v) _ h1 in
    let (rest, l, h3) = bind-eq-ok (resolve_from (i + 1) (a + c * v.align) vs) _ h2 in
    (a, c, rest, e, k, l, cc)

resolve_from-step :
    (i lo : ℕ) (v : Instruction) (vs : List Instruction) (a c : ℕ)
    → place i lo v ≡ ok a
    → count_at i a v ≡ ok c
    → resolve_from i lo (v ∷ vs) ≡ (
        resolve_from (i + 1) (a + c * v.align) vs >>= λ rest.
        ok (record v { address = some (pos a); count = c } ∷ rest))
unfolding resolve_from
resolve_from-step i lo v vs a c e k = rw (e, k) refl

resolve_from-Laid :
    (vs : List Instruction) (i lo : ℕ) (ws : List Instruction)
    → All IsChecked vs
    → resolve_from i lo vs ≡ ok ws
    → Laid lo vs ws
resolve_from-Laid [] i lo [] p h = tt
resolve_from-Laid [] i lo (w ∷ ws) p h = unfold resolve_from in cc h
resolve_from-Laid (v ∷ vs) i lo [] p h =
    let (a, c, rest, e, k, l, shape) = resolve_from-cons i lo v vs h in cc
resolve_from-Laid (v ∷ vs) i lo (w ∷ ws) ((pc, pa), p) h =
    let (a, c, rest, e, k, l, shape) = resolve_from-cons i lo v vs h in
    let w' : Instruction = record v { address = some (pos a); count = c } in
    let head : w' ≡ w = cc in
    let tail : rest ≡ ws = cc in
    let (lower, explicit, implicit) = place-ok i lo v a pa e in
    let (counted, same_count, reaches) = count_at-ok i a v c pc k in
    (
      a,
      subst (λ x. Resolves lo v x a) head
          (record {
            same_label = refl;
            same_align = refl;
            begins = refl;
            behind = lower;
            explicit = explicit;
            implicit = implicit;
            counted = counted;
            same_count = same_count;
            reaches = reaches;
          }),
      subst (λ x. Laid (a + x.count * x.align) vs ws) head
          (resolve_from-Laid vs (i + 1) (a + c * v.align) ws p (l ∙ ap ok tail)),
    )

-- If the validator accepts instructions whose `count` and `align` are positive, it returns as many,
-- in the same order, and they are laid out one behind the other from address 0: none begins before
-- the previous one has ended, an explicit address is kept, an instruction without one begins at the
-- next multiple of its alignment, `up_to` is the last address, and without it the count is kept.
pub resolve_instructions-Laid :
    (vs ws : List Instruction) → All IsChecked vs → resolve_instructions vs ≡ ok ws → Laid 0 vs ws
unfolding resolve_instructions
resolve_instructions-Laid vs ws p h = resolve_from-Laid vs 0 0 ws p h

-- where the last of some resolved entries ends, from `lo` if there is none
abbrev pub end_of : ℕ → List Instruction → ℕ
end_of lo [] = lo
end_of lo (w ∷ ws) = elim w.address [
  | none ↦ end_of lo ws
  | some a ↦ end_of (to_ℕ a + w.count * w.align) ws
]

place_before :
    (i lo : ℕ) (v : Instruction) (z : ℤ)
    → v.address ≡ some z
    → ltb_ℤ z (pos lo) ≡ true
    → place i lo v ≡ err (address_before i z lo)
unfolding place
place_before i lo v z e h = ground arith

resolve_from_before :
    (pre : List Instruction) (v : Instruction) (post : List Instruction) (i lo : ℕ)
    (ws : List Instruction) (z : ℤ)
    → resolve_from i lo pre ≡ ok ws
    → v.address ≡ some z
    → ltb_ℤ z (pos (end_of lo ws)) ≡ true
    → resolve_from i lo (pre ++ v ∷ post) ≡ err (address_before (i + length pre) z (end_of lo ws))
resolve_from_before [] v post i lo ws z h e before =
    let none_yet : [] ≡ ws = unfold resolve_from in cc h in
    let at : ltb_ℤ z (pos lo) ≡ true =
      subst (λ us. ltb_ℤ z (pos (end_of lo us)) ≡ true) (sym none_yet) before in
    let here : i + 0 ≡ i = omega arith in
    unfold resolve_from in rw (← none_yet, here, place_before i lo v z e at) refl
resolve_from_before (u ∷ pre) v post i lo ws z h e before =
    let (a, c, rest, pa, pc, l, shape) = resolve_from-cons i lo u pre h in
    let u' : Instruction = record u { address = some (pos a); count = c } in
    let inside : end_of lo ws ≡ end_of (a + c * u.align) rest = ap (end_of lo) shape in
    let step : i + length (u ∷ pre) ≡ i + 1 + length pre = omega arith in
    let later =
      resolve_from_before pre v post (i + 1) (a + c * u.align) rest z l e (rw inside at before) in
    resolve_from-step i lo u (pre ++ v ∷ post) a c pa pc ∙ rw later (rw (inside, step) refl)

-- If the validator accepts the instructions `pre`, it refuses any list that continues them with an
-- instruction whose explicit address lies before their end; the error names the place of that
-- instruction in the list, its address and that end.
pub resolve_instructions-overlap :
    (pre : List Instruction) (v : Instruction) (post ws : List Instruction) (z : ℤ)
    → resolve_instructions pre ≡ ok ws
    → v.address ≡ some z
    → ltb_ℤ z (pos (end_of 0 ws)) ≡ true
    → resolve_instructions (pre ++ v ∷ post) ≡ err (address_before (length pre) z (end_of 0 ws))
unfolding resolve_instructions
resolve_instructions-overlap pre v post ws z h e before =
    let start : 0 + length pre ≡ length pre = omega arith in
    rw start at (resolve_from_before pre v post 0 0 ws z h e before)
