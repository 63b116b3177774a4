-- ===== src/Text/Decimal/Parsing.antt =====
-- `strconv.Itoa` and `strconv.ParseInt` are inverses on the numbers of 63 bits.
use recipe_reader.Common.{
  ℕ, zero, suc, ◌+◌, ◌-◌, ◌*◌, ◌/◌, ◌%◌, ◌^◌, ◌<◌, ◌≡◌, refl, ap, ◌∙◌, inl, inr, pos, true, false,
  [], ◌∷◌, some, ltb, ◌==◌, Bool-cases, arith, ltb→lt,
}
use recipe_reader.Text.{Text}
use recipe_reader.Text.Decimal.{is_decimal, digits_from, positive, parse_int, show_from, itoa}

digit-step :
    (n d m : ℕ) (s : Text)
    → d < 10
    → n * 10 + d ≡ m
    → digits_from n ((b'0' + d) ∷ s) ≡ digits_from m s
unfolding digits_from
digit-step n d m s h q =
    let e : is_decimal (b'0' + d) ≡ true = ground arith in
    let k : b'0' + d - b'0' ≡ d = omega arith in
    elim (Bool-cases (is_decimal (b'0' + d))) [
      | inl t ↦ rw (t, digits_from) (rw (k, q) refl)
      | inr t ↦ cc (e, t)
    ]

-- Reading the digits of a number, in front of a text, moves the value of what has been read on.
digits_from-show_from :
    (fuel n : ℕ) (s : Text) → n < fuel → digits_from 0 (show_from fuel n s) ≡ digits_from n s
unfolding show_from
digits_from-show_from zero n s h = absurd (omega arith)
digits_from-show_from (suc fuel) n s h = elim (Bool-cases (ltb n 10)) [
  | inl e ↦ rw e (digit-step 0 n n s (ltb→lt n 10 e) (omega arith))
  | inr e ↦ rw e (
      digits_from-show_from fuel (n / 10) ((b'0' + n % 10) ∷ s) (ground arith)
      ∙ digit-step (n / 10) (n % 10) n s (omega arith) (omega arith))
]

-- What is written in front of a text begins with a digit.
abbrev Digital : Text → Type 0
Digital [] = ⊥
Digital (c ∷ s) = is_decimal c ≡ true

show_from-Digital : (fuel n : ℕ) (s : Text) → n < fuel → Digital (show_from fuel n s)
unfolding show_from
show_from-Digital zero n s h = absurd (omega arith)
show_from-Digital (suc zero) n s h = elim (Bool-cases (ltb n 10)) [
  | inl e ↦ rw e (ground arith)
  | inr e ↦ absurd (ground arith)
]
show_from-Digital (suc (suc fuel)) n s h = elim (Bool-cases (ltb n 10)) [
  | inl e ↦ rw e (ground arith)
  | inr e ↦ rw e (show_from-Digital (suc fuel) (n / 10) ((b'0' + n % 10) ∷ s) (ground arith))
]

parse_int-Digital : (s : Text) → Digital s → parse_int s ≡ positive (digits_from 0 s)
unfolding parse_int
parse_int-Digital [] h = absurd h
parse_int-Digital (c ∷ s) h =
    let m : (c == b'-') ≡ false = ground arith in
    let p : (c == b'+') ≡ false = ground arith in rw (m, p) refl

-- The text of a number of 63 bits is read as the number.
pub parse_int-itoa : (n : ℕ) → n < 2 ^ 63 → parse_int (itoa n) ≡ some (pos n)
unfolding itoa digits_from
parse_int-itoa n h =
    let e : ltb n (2 ^ 63) ≡ true = ground arith in
    parse_int-Digital (itoa n) (show_from-Digital (suc n) n [] (omega arith))
    ∙ ap positive (digits_from-show_from (suc n) n [] (omega arith))
    ∙ rw e refl
