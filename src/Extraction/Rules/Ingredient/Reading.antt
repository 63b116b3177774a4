-- ===== src/Extraction/Rules/Ingredient/Reading.antt =====
-- What `parseIngredientLine`, internal/extraction/rules.go, makes of a line with an amount, a unit
-- and a name.
use recipe_reader.Common.{
  ℕ, ◌≡◌, refl, inl, inr, Bool, true, false, ◌&&◌, not, ◌||◌, [], ◌∷◌, ◌++◌, ap, ◌==◌,
  if◌then◌else◌, some, All, arith, ltb, length, Option-cases, Bool-cases,
}
use recipe_reader.Text.{
  Text, Unicode, codes, is_empty, is_space, has_prefix, trim_left, trim_space, trim_suffix, fields,
}
use recipe_reader.Text.Tidy.{Tidy}
use recipe_reader.Text.Tidy.Trim.{trim_space-IsTidy}
use recipe_reader.Float.{Float}
use recipe_reader.Extraction.Units.{
  unit_aliases, find_alias, normalize_key, is_known_unit, normalize_unit,
}
use recipe_reader.Extraction.Units.Seeded.{find_alias-all}
use recipe_reader.Extraction.Rules.Line.{is_unit_rune, is_ascii_digit}
use recipe_reader.Extraction.Rules.Line.Runs.{IsWord, Stops}
use recipe_reader.Extraction.Rules.Line.Reading.{
  IsRest, IsAmount, whole, fraction, IsAmount-starts, line_of, ingredient_line-reads,
}
use recipe_reader.Extraction.Rules.Ingredient.{
  max_unitless_ingredient_words, dotted, amount_of, name_and_unit, checked, line_matched,
  parse_ingredient_line, is_line_noise,
}

-- A decimal number as a caption writes it, and as Go reads it: the fraction is behind a full stop.
pub data IsDecimal : Text → Text → Type 0 where
  integer : {w : Text} → IsWord is_ascii_digit w → IsDecimal w w
  decimal :
      {w f : Text} (c : ℕ)
      → IsWord is_ascii_digit w
      → ((c == b'.') || (c == b',')) ≡ true
      → IsWord is_ascii_digit f
      → (t p : Text) → t ≡ w ++ (c ∷ f)
      → p ≡ w ++ (b'.' ∷ f)
      → IsDecimal t p

IsDecimal-IsAmount : (t p : Text) → IsDecimal t p → IsAmount t
IsDecimal-IsAmount t p (integer w) = whole w
IsDecimal-IsAmount t p (decimal c w h f x y q r) = fraction c w h f x q

dotted-digits : (w : Text) → All (λ c. is_ascii_digit c ≡ true) w → dotted w ≡ w
dotted-digits [] h = refl
dotted-digits (c ∷ w) h =
    let e : (c == b',') ≡ false = ground (arith, h.0) in rw (e, dotted-digits w h.1) refl

dotted-append : (v w : Text) → dotted (v ++ w) ≡ dotted v ++ dotted w
dotted-append [] w = refl
dotted-append (c ∷ v) w = ap (λ s. (if c == b',' then b'.' else c) ∷ s) (dotted-append v w)

dotted-word : (w : Text) → IsWord is_ascii_digit w → dotted w ≡ w
dotted-word w h = rw h.shape (dotted-digits (h.first ∷ h.others) h.members)

dotted-mark : (c : ℕ) → ((c == b'.') || (c == b',')) ≡ true → (if c == b',' then b'.' else c) ≡ b'.'
dotted-mark c h = ground arith

dotted-IsDecimal : (t p : Text) → IsDecimal t p → dotted t ≡ p
dotted-IsDecimal t p (integer w) = dotted-word _ w
dotted-IsDecimal t p (decimal {w} {f} c v h g x y q r) =
    rw (q, r, dotted-append w (c ∷ f), dotted-word w v, dotted-word f g, dotted-mark c h) refl

word-filled : (w s : Text) → IsWord is_ascii_digit w → is_empty (w ++ s) ≡ false
word-filled w s h = rw h.shape refl

IsDecimal-filled : (t p : Text) → IsDecimal t p → is_empty t ≡ false
IsDecimal-filled t p (integer w) = rw w.shape refl
IsDecimal-filled t p (decimal {w} {f} c v h g x y q r) = rw q (word-filled w (c ∷ f) v)

-- The name of a line as a caption writes it: with no space around it, no full stop behind it and
-- no `#` in front.
pub record IsName (name : Text) : Type 0 where
  pub read : IsRest name
  pub trimmed : trim_space name ≡ name
  pub unstopped : trim_suffix name (codes ".") ≡ name
  pub untagged : has_prefix name (codes "#") ≡ false

unit_rune-not_space : (c : ℕ) → is_unit_rune c ≡ true → is_space c ≡ false
unit_rune-not_space c h = ground arith

unit_runes-Tidy : (s : Text) → All (λ d. is_unit_rune d ≡ true) s → Tidy false s
unit_runes-Tidy [] h = tt
unit_runes-Tidy (c ∷ s) h = inl (unit_rune-not_space c h.0, unit_runes-Tidy s h.1)

trim_space-unit : (w : Text) → IsWord is_unit_rune w → trim_space w ≡ w
trim_space-unit w h = trim_space-IsTidy w (
    inr
      (rw h.shape (unit_rune-not_space h.first h.members.0, unit_runes-Tidy h.others h.members.1)))

and_false : (a b : Bool) → (a && (false && b)) ≡ false
and_false true b = refl
and_false false b = refl

trim_left-noise :
    (p : ℕ → Bool) (lead s : Text)
    → All (λ c. p c ≡ true) lead
    → trim_left p (lead ++ s) ≡ trim_left p s
trim_left-noise p [] s h = refl
trim_left-noise p (c ∷ lead) s h = rw h.0 (trim_left-noise p lead s h.1)

trim_left-Stops : (p : ℕ → Bool) (s : Text) → Stops p s → trim_left p s ≡ s
trim_left-Stops p [] h = refl
trim_left-Stops p (c ∷ s) h = rw h refl

-- A known unit has a name of its own.
known-named :
    (u : Unicode) (unit : Text)
    → is_known_unit u unit ≡ true
    → is_empty (normalize_unit u unit) ≡ false
unfolding is_known_unit normalize_unit
known-named u unit h = elim (Option-cases (find_alias unit_aliases (normalize_key u unit))) [
  | inl e ↦ cc (rw (e, is_known_unit) at h)
  | inr (v, e) ↦
      let q : not (is_empty v) ≡ true =
        find_alias-all (λ t. not (is_empty t)) unit_aliases _ v refl e in
      rw (e, normalize_unit) (ground arith)
]

IsWord-named : (p : ℕ → Bool) (w : Text) → IsWord p w → is_empty w ≡ false
IsWord-named p w h = rw h.shape refl

IsRest-named : (w : Text) → IsRest w → is_empty w ≡ false
IsRest-named w h = rw h.shape refl

module _ {F : Type 0} (u : Unicode) (fl : Float F) where
  checked-reads :
      (amount : F) (unit name : Text)
      → is_empty name ≡ false
      → has_prefix name (codes "#") ≡ false
      → is_empty unit ≡ false
      → checked u fl amount unit name ≡ some (record { name = name; amount = amount; unit = unit })
  unfolding checked
  checked-reads amount unit name n t v =
      rw
        (
          n,
          t,
          v,
          and_false (fl.eq amount fl.zero)
              (ltb max_unitless_ingredient_words (length (fields name))),
        )
        refl

  line_matched-reads :
      (amount unit name : Text)
      → IsWord is_unit_rune unit
      → is_known_unit u unit ≡ true
      → IsName name
      → line_matched u fl (some (record { amount = amount; unit = unit; rest = name }))
        ≡ some
            (record { name = name; amount = amount_of u fl amount; unit = normalize_unit u unit })
  unfolding line_matched name_and_unit
  line_matched-reads amount unit name v k n =
      rw
        (
          trim_space-unit unit v,
          n.trimmed,
          IsWord-named is_unit_rune unit v,
          k,
          n.unstopped,
          n.trimmed,
        )
        (checked-reads _ _ name (IsRest-named name n.read) n.untagged (known-named u unit k))

  digit-not_noise : (c : ℕ) → u.is_digit c ≡ true → is_line_noise u fl c ≡ false
  digit-not_noise c h = elim (Bool-cases (u.is_letter c)) [
    | inl e ↦ rw (h, e) refl
    | inr e ↦ rw (h, e) refl
  ]

  -- A line with an amount in decimal digits, with or without a fraction behind a full stop or a
  -- comma, a known unit and a name, is read as that amount, the seeded spelling of that unit and
  -- that name, whatever noise stands in front, such as an emoji or a bullet. The name is trimmed,
  -- in one line, with no `#` in front and no full stop behind; ASCII digits count as digits.
  pub parse_ingredient_line-reads :
      (lead amount number unit name : Text)
      → ((c : ℕ) → is_ascii_digit c ≡ true → u.is_digit c ≡ true)
      → All (λ c. is_line_noise u fl c ≡ true) lead
      → IsDecimal amount number
      → IsWord is_unit_rune unit
      → is_known_unit u unit ≡ true
      → IsName name
      → parse_ingredient_line u fl (lead ++ line_of amount unit name)
        ≡ some (record { name = name; amount = fl.parse number; unit = normalize_unit u unit })
  unfolding parse_ingredient_line
  parse_ingredient_line-reads lead amount number unit name digits l d v k n =
      let a = IsDecimal-IsAmount amount number d in
      let read : amount_of u fl amount ≡ fl.parse number =
        rw (IsDecimal-filled amount number d, dotted-IsDecimal amount number d) refl in
      rw
        (
          trim_left-noise (is_line_noise u fl) lead (line_of amount unit name) l,
          trim_left-Stops (is_line_noise u fl) (line_of amount unit name) (
              IsAmount-starts amount (32 ∷ (unit ++ 32 ∷ name)) (is_line_noise u fl) a
                (λ c e. digit-not_noise c (digits c e))),
          ingredient_line-reads amount unit name a v n.read,
          ← read,
        )
        (line_matched-reads amount unit name v k n)
