-- ===== src/BuildConfig/Csrs.antt =====
-- python/src/mlogv32/preprocessor/models.py: what `_resolve_csrs` lets through.
use mlogv.Prelude.{
  ◌≡◌, ◌≢◌, ◌⊎◌, inl, inr, refl, sym, ap, subst, ◌∙◌, Bool, true, false, not, ◌&&◌, Option, none,
  some, Option-cases, ℕ, List, [], ◌∷◌, Text, text_eq, text_eq_iff, arith, Result, ok, err,
  bind-eq-ok, ◌>>=◌, if◌then◌else◌,
}
use mlogv.BuildConfig.{
  Csr, ConfigError, lookup, insert, format, is_readonly, is_set, located, located_write, label_word,
  resolve_csr, resolve_pair, resolve_formatted, resolve_entry, resolve_entries, resolve_csrs,
  invalid_csr_entry, invalid_csr_name, read_only_csr, write_missing,
}
use mlogv.BuildConfig.Constants.{csrs}

-- The name is that of a register, `write` is left out exactly for a read-only one, and neither place is the
-- word `LABEL`.
abbrev pub IsResolved : Text → Csr → Type 0
IsResolved name csr =
    (address : ℕ) × (lookup csrs name ≡ some address)
    × (is_readonly address ≡ not (is_set csr.write))
    × (csr.read ≢ label_word)
    × (csr.write ≢ some label_word)
    × (csr.args ≡ none)

abbrev AreResolved : List (Text × Csr) → Type 0
AreResolved result = (name : Text) (csr : Csr) → lookup result name ≡ some csr → IsResolved name csr

pub lookup-insert {ℓ} :
    {A : Type ℓ} (entries : List (Text × A)) (key : Text) (a : A) (name : Text) (b : A)
    → lookup (insert entries key a) name ≡ some b
    → ((key ≡ name) × (a ≡ b)) ⊎ (lookup entries name ≡ some b)
unfolding lookup insert
lookup-insert [] key a name b h = ground (arith, text_eq_iff key name)
lookup-insert ((k, v) ∷ entries) key a name b h = ground (
  arith,
  text_eq_iff k name,
  text_eq_iff k key,
  text_eq_iff key name,
  lookup-insert entries key a name b,
)

ok-injective :
    {a b : List (Text × Csr)}
    → ◌≡◌ {A = Result ConfigError (List (Text × Csr))} (ok a) (ok b)
    → a ≡ b
ok-injective h = cc

insert-AreResolved :
    (result : List (Text × Csr)) (name : Text) (csr : Csr)
    → AreResolved result
    → IsResolved name csr
    → AreResolved (insert result name csr)
insert-AreResolved result name csr old new name' csr' h =
    elim (lookup-insert result name csr name' csr' h) [
      | inl (same, it) ↦ subst (λ n. IsResolved n csr') same (subst (IsResolved name) it new)
      | inr there ↦ old name' csr' there
    ]

-- no register is called `LABEL`
label_word-unknown : lookup csrs label_word ≡ none
unfolding lookup csrs text_eq
label_word-unknown = refl

located-ne :
    (name location : Text) (address : ℕ)
    → lookup csrs name ≡ some address
    → located name location ≢ label_word
unfolding located
located-ne name location address known h =
    ground (arith, text_eq_iff location label_word, label_word-unknown, known, h)

located_write-ne :
    (name : Text) (write : Option Text) (address : ℕ)
    → lookup csrs name ≡ some address
    → (located_write name write ≢ some label_word)
      × (is_set (located_write name write) ≡ is_set write)
unfolding located_write is_set
located_write-ne name none address known = (λ h. cc, refl)
located_write-ne name (some location) address known =
    (λ h. located-ne name location address known (some-injective h), refl)
  where
    some-injective : {a b : Text} → some a ≡ some b → a ≡ b
    some-injective e = cc

abbrev resolved : Text → Csr → Csr
resolved name csr = record csr {
  read = located name csr.read;
  write = located_write name csr.write;
}

-- the two checks, of a register that is read-only or not and an entry that has `write` or not
abbrev checks : Bool → Bool → Text → Csr → Result ConfigError Csr
checks readonly set name csr =
    if readonly && set
    then err (read_only_csr name)
    else if not readonly && not set
    then err (write_missing name)
    else ok (resolved name csr)

checks-eq_ok :
    (readonly set : Bool) (name : Text) (csr csr' : Csr)
    → checks readonly set name csr ≡ ok csr'
    → (readonly ≡ not set) × (resolved name csr ≡ csr')
checks-eq_ok true true name csr csr' e = cc
checks-eq_ok true false name csr csr' e = (refl, cc)
checks-eq_ok false true name csr csr' e = (refl, cc)
checks-eq_ok false false name csr csr' e = cc

resolve_csr-known :
    (name : Text) (csr : Csr) (address : ℕ)
    → lookup csrs name ≡ some address
    → resolve_csr name csr ≡ checks (is_readonly address) (is_set csr.write) name csr
unfolding resolve_csr
resolve_csr-known name csr address known = rw (known, resolve_csr) refl

resolve_csr-unknown :
    (name : Text) (csr : Csr)
    → lookup csrs name ≡ none
    → resolve_csr name csr ≡ err (invalid_csr_name name)
unfolding resolve_csr
resolve_csr-unknown name csr unknown = rw (unknown, resolve_csr) refl

resolve_csr-IsResolved :
    (name : Text) (csr csr' : Csr)
    → csr.args ≡ none
    → resolve_csr name csr ≡ ok csr'
    → IsResolved name csr'
resolve_csr-IsResolved name csr csr' a h = elim (Option-cases (lookup csrs name)) [
  | inl unknown ↦ cc (h, resolve_csr-unknown name csr unknown)
  | inr (address, known) ↦
      let (agrees, it) =
        checks-eq_ok (is_readonly address) (is_set csr.write) name csr csr'
          (sym (resolve_csr-known name csr address known) ∙ h) in
      let (written, kept) = located_write-ne name csr.write address known in
      subst (IsResolved name) it (
        address,
        known,
        agrees ∙ ap not (sym kept),
        located-ne name csr.read address known,
        written,
        a,
      )
]

resolve_pair-AreResolved :
    (result : List (Text × Csr)) (name : Text) (csr : Csr) (result' : List (Text × Csr))
    → csr.args ≡ none
    → AreResolved result
    → resolve_pair result name csr ≡ ok result'
    → AreResolved result'
unfolding resolve_pair
resolve_pair-AreResolved result name csr result' a old h =
    let (csr', e, k) = bind-eq-ok (resolve_csr name csr) _ h in
    subst AreResolved (ok-injective k)
      (insert-AreResolved result name csr' old (resolve_csr-IsResolved name csr csr' a e))

formatted-none :
    (result : List (Text × Csr)) (name : Text) (csr : Csr) (arg : Text) (args : List Text)
    → format name (some arg) ≡ none
    → resolve_formatted result name csr (arg ∷ args) ≡ err (invalid_csr_entry name)
unfolding resolve_formatted
formatted-none result name csr arg args bad = rw (bad, resolve_formatted) refl

formatted-some :
    (result : List (Text × Csr)) (name : Text) (csr : Csr) (arg text : Text) (args : List Text)
    → format name (some arg) ≡ some text
    → resolve_formatted result name csr (arg ∷ args)
      ≡ (resolve_pair result text csr >>= (λ next. resolve_formatted next name csr args))
unfolding resolve_formatted
formatted-some result name csr arg text args good = rw (good, resolve_formatted) refl

resolve_formatted-AreResolved :
    (result : List (Text × Csr)) (name : Text) (csr : Csr) (args : List Text)
    (result' : List (Text × Csr))
    → csr.args ≡ none
    → AreResolved result
    → resolve_formatted result name csr args ≡ ok result'
    → AreResolved result'
unfolding resolve_formatted
resolve_formatted-AreResolved result name csr [] result' a old h =
    subst AreResolved (ok-injective h) old
resolve_formatted-AreResolved result name csr (arg ∷ args) result' a old h =
    elim (Option-cases (format name (some arg))) [
      | inl bad ↦ cc (h, formatted-none result name csr arg args bad)
      | inr (text, good) ↦
          let (next, e, k) =
            bind-eq-ok (resolve_pair result text csr) _
              (sym (formatted-some result name csr arg text args good) ∙ h) in
          resolve_formatted-AreResolved next name csr args result' a
            (resolve_pair-AreResolved result text csr next a old e) k
    ]

resolve_entry-AreResolved :
    (result : List (Text × Csr)) (name : Text) (csr : Csr) (args : Option (List Text))
    (result' : List (Text × Csr))
    → csr.args ≡ args
    → AreResolved result
    → resolve_entry result name csr args ≡ ok result'
    → AreResolved result'
unfolding resolve_entry
resolve_entry-AreResolved result name csr none result' a old h =
    resolve_pair-AreResolved result name csr result' a old h
resolve_entry-AreResolved result name csr (some args) result' a old h =
    resolve_formatted-AreResolved result name (record csr { args = none }) args result' refl old h

resolve_entries-AreResolved :
    (result entries result' : List (Text × Csr))
    → AreResolved result
    → resolve_entries result entries ≡ ok result'
    → AreResolved result'
unfolding resolve_entries
resolve_entries-AreResolved result [] result' old h = subst AreResolved (ok-injective h) old
resolve_entries-AreResolved result ((name, csr) ∷ entries) result' old h =
    let (next, e, k) = bind-eq-ok (resolve_entry result name csr csr.args) _ h in
    resolve_entries-AreResolved next entries result'
      (resolve_entry-AreResolved result name csr csr.args next refl old e) k

-- If the validator accepts the registers of a configuration, then each entry of the result, also one that
-- stands for an argument, has the name of a register; it has a place to write to exactly where the register
-- is not read-only; the word `LABEL` is resolved in both places; and no arguments are left.
pub resolve_csrs-IsResolved :
    (entries result : List (Text × Csr)) (name : Text) (csr : Csr)
    → resolve_csrs entries ≡ ok result
    → lookup result name ≡ some csr
    → IsResolved name csr
unfolding resolve_csrs
resolve_csrs-IsResolved entries result name csr h found =
    resolve_entries-AreResolved [] entries result (λ n c e. unfold lookup in cc) h name csr found
