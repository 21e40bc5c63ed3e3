-- ===== src/Export/Harmless.antt =====
-- What the defence of csv.ts comes to, in terms of the characters that a spreadsheet acts on.
use shape_and_flow.Base.{
  ℕ, ◌≤◌, ◌≡◌, refl, sym, ap, subst, ◌∙◌, ◌⊎◌, inl, inr, true, false, ◌&&◌, ◌||◌, [], ◌∷◌, arith,
  All, Bool-cases, ◌==◌,
}
use shape_and_flow.Base.Text.{Text}
use shape_and_flow.Export.Csv.{
  formula_lead, leads, is_numeral, only_numerals, some_numerals, number_tail, unsigned_number,
  plain_number, neutralise,
}

-- A text that begins with one of these is taken for a formula: the four signs, a tabulator or a
-- carriage return.
abbrev pub Runs : ℕ → Type 0
Runs c = (c ≡ b'=') ⊎ ((c ≡ b'+') ⊎ ((c ≡ b'-') ⊎ ((c ≡ b'@') ⊎ ((c ≡ 9) ⊎ (c ≡ 13)))))

abbrev pub IsDigit : ℕ → Type 0
IsDigit c = (b'0' ≤ c) × (c ≤ b'9')

abbrev pub InNumber : ℕ → Type 0
InNumber c = IsDigit c ⊎ ((c ≡ b'.') ⊎ (c ≡ b','))

-- Nothing, a text that begins with a character that runs nothing, or a negative number: a minus
-- sign, a digit, and no more than digits, points and commas.
pub data IsHarmless (text : Text) : Type 0 where
  nothing : text ≡ [] → IsHarmless text
  begins : (c : ℕ) (rest : Text) → text ≡ c ∷ rest → ¬ Runs c → IsHarmless text
  negative :
      (d : ℕ) (rest : Text)
      → text ≡ b'-' ∷ d ∷ rest
      → IsDigit d
      → All InNumber rest
      → IsHarmless text

only_numerals-InNumber : (cs : Text) → only_numerals cs ≡ true → All InNumber cs
unfolding only_numerals
only_numerals-InNumber [] h = tt
only_numerals-InNumber (c ∷ cs) h =
    (inl (ground arith, ground arith), only_numerals-InNumber cs (ground arith))

some_numerals-InNumber : (cs : Text) → some_numerals cs ≡ true → All InNumber cs
unfolding some_numerals
some_numerals-InNumber [] h = tt
some_numerals-InNumber (c ∷ cs) h =
    (inl (ground arith, ground arith), only_numerals-InNumber cs (ground arith))

number_tail-InNumber : (cs : Text) → number_tail cs ≡ true → All InNumber cs
unfolding number_tail
number_tail-InNumber [] h = tt
number_tail-InNumber (c ∷ cs) h = elim (Bool-cases (is_numeral c)) [
  | inl digit ↦
      (inl (ground arith, ground arith), number_tail-InNumber cs (rw (digit, number_tail) at h))
  | inr other ↦
      let tail : ((c == b'.' || c == b',') && some_numerals cs) ≡ true =
        rw (other, number_tail) at h in
      (inr (ground arith), some_numerals-InNumber cs (ground arith))
]

unsigned_number-negative : (cs : Text) → unsigned_number cs ≡ true → IsHarmless (b'-' ∷ cs)
unfolding unsigned_number
unsigned_number-negative [] h = absurd (cc)
unsigned_number-negative (d ∷ cs) h =
    negative d cs refl (ground arith, ground arith) (number_tail-InNumber cs (ground arith))

plain_number-IsHarmless : (text : Text) → plain_number text ≡ true → IsHarmless text
unfolding plain_number unsigned_number
plain_number-IsHarmless [] h = nothing refl
plain_number-IsHarmless (c ∷ cs) h = elim (Bool-cases (c == b'-')) [
  | inl minus ↦
      let same : c ≡ b'-' = ground arith in
      rw same (unsigned_number-negative cs (rw (minus, plain_number) at h))
  | inr unsigned ↦
      let number : (is_numeral c && number_tail cs) ≡ true = rw (unsigned, plain_number) at h in
      begins c cs refl (λ r. ground arith)
]

not_led-IsHarmless : (text : Text) → formula_lead text ≡ false → IsHarmless text
unfolding formula_lead
not_led-IsHarmless [] h = nothing refl
not_led-IsHarmless (c ∷ cs) h = begins c cs refl (λ r. ground arith)

-- What the defence does: it puts an apostrophe in front, or leaves a harmless text alone.
data Defends (value : Text) : Type 0 where
  apart : neutralise value ≡ b'\'' ∷ value → formula_lead value ≡ true → Defends value
  kept : neutralise value ≡ value → IsHarmless value → Defends value

neutralise-Defends : (value : Text) → Defends value
unfolding neutralise
neutralise-Defends value = elim (Bool-cases (plain_number value)) [
  | inl number ↦ kept (rw (neutralise, number) refl) (plain_number-IsHarmless value number)
  | inr other ↦ elim (Bool-cases (formula_lead value)) [
    | inl lead ↦ apart (rw (neutralise, other, lead) refl) lead
    | inr none_led ↦
        kept (rw (neutralise, other, none_led) refl) (not_led-IsHarmless value none_led)
  ]
]

leads-Runs : (c : ℕ) → leads c ≡ true → Runs c
leads-Runs c h = ground arith

apostrophe_kept : (value : Text) → neutralise (b'\'' ∷ value) ≡ b'\'' ∷ value
unfolding neutralise plain_number unsigned_number formula_lead
apostrophe_kept value = refl

begins_plain : (c : ℕ) (rest : Text) → ¬ Runs c → formula_lead (c ∷ rest) ≡ true → ⊥
unfolding formula_lead
begins_plain c rest n h = n (leads-Runs c h)

-- What is written of any text is harmless: it is empty, begins with a character that runs nothing,
-- or is a negative number of digits, points and commas. It is the text itself or the text behind
-- one apostrophe, the text itself where that begins with a character that runs nothing, and
-- a second export adds nothing to it.
pub neutralise-IsHarmless :
    (value : Text)
    → IsHarmless (neutralise value)
      × ((neutralise value ≡ value) ⊎ (neutralise value ≡ b'\'' ∷ value))
      × ((c : ℕ) (rest : Text) → value ≡ c ∷ rest → ¬ Runs c → neutralise value ≡ value)
      × (neutralise (neutralise value) ≡ neutralise value)
neutralise-IsHarmless value = elim (neutralise-Defends value) [
  | apart e lead ↦ (
    begins b'\'' value e (λ r. ground arith),
    inr e,
    λ c rest is n. absurd (begins_plain c rest n (ap formula_lead (sym is) ∙ lead)),
    ap neutralise e ∙ apostrophe_kept value ∙ sym e,
  )
  | kept e harmless ↦ (subst IsHarmless (sym e) harmless, inl e, λ c rest is n. e, ap neutralise e)
]
