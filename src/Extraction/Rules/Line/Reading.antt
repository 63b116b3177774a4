-- ===== src/Extraction/Rules/Line/Reading.antt =====
-- What `ingredientLineRe` makes of a line of the shape that it is written for.
use recipe_reader.Common.{
  ℕ, ◌≡◌, refl, Bool, true, false, ◌||◌, not, [], ◌∷◌, ◌++◌, some, ◌==◌, All, append-nil,
  append_assoc, arith,
}
use recipe_reader.Text.{Text}
use recipe_reader.Extraction.Wrap.{is_re_space}
use recipe_reader.Extraction.Rules.Line.{
  LineMatch, some_of, is_bullet, is_ascii_digit, is_unit_rune, match_rest, match_unit,
  behind_amount, match_fraction, match_amount, behind_bullet, match_bullet, ingredient_line,
}
use recipe_reader.Extraction.Rules.Line.Runs.{
  Stops, run_of-longest, some_of-longest, IsWord, some_of-word, run_of-nothing, IsWord-Stops,
}

digit_start : (c : ℕ) → is_ascii_digit c ≡ true → (is_re_space c ≡ false) × (is_bullet c ≡ false)
digit_start c h = ground arith

unit_start : (c : ℕ) → is_unit_rune c ≡ true → is_re_space c ≡ false
unit_start c h = ground arith

abbrev pub in_line : ℕ → Bool
in_line c = not (c == b'\n')

-- A name: not empty, in one line, and beginning with no space.
pub record IsRest (name : Text) : Type 0 where
  pub first : ℕ
  pub others : Text
  pub shape : name ≡ first ∷ others
  pub unspaced : is_re_space first ≡ false
  pub one_line : All (λ c. in_line c ≡ true) (first ∷ others)

-- A whole number, or one with a fraction behind a full stop or a comma.
pub data IsAmount : Text → Type 0 where
  whole : {w : Text} → IsWord is_ascii_digit w → IsAmount w
  fraction :
      {w f : Text} (c : ℕ)
      → IsWord is_ascii_digit w
      → ((c == b'.') || (c == b',')) ≡ true
      → IsWord is_ascii_digit f
      → (t : Text) → t ≡ w ++ (c ∷ f)
      → IsAmount t

match_rest-reads :
    (amount unit name : Text)
    → IsRest name
    → match_rest amount unit name ≡ some (record { amount = amount; unit = unit; rest = name })
unfolding match_rest
match_rest-reads amount unit name r =
    rw (r.shape, ← append-nil r.others)
      (some_of-longest in_line r.first r.others [] _ _ r.one_line tt
        (rw (append-nil r.others) refl))

IsRest-Stops : (name : Text) → IsRest name → Stops is_re_space name
IsRest-Stops name r = rw r.shape r.unspaced

match_unit-reads :
    (amount unit name : Text)
    → IsWord is_unit_rune unit
    → IsRest name
    → match_unit amount (unit ++ 32 ∷ name)
      ≡ some (record { amount = amount; unit = unit; rest = name })
unfolding match_unit
match_unit-reads amount unit name w r =
    let m : LineMatch = record { amount = amount; unit = unit; rest = name } in
    let reads : some_of is_unit_rune (unit ++ 32 ∷ name)
          (λ v s'. some_of is_re_space s' (λ spaces s''. match_rest amount v s''))
        ≡ some m =
      some_of-word is_unit_rune unit (32 ∷ name) _ m w refl (
        some_of-longest is_re_space 32 [] name _ m (refl, tt) (IsRest-Stops name r)
          (match_rest-reads amount unit name r)) in
    rw (reads, match_unit) refl

behind_amount-reads :
    (amount unit name : Text)
    → IsWord is_unit_rune unit
    → IsRest name
    → behind_amount amount (32 ∷ (unit ++ 32 ∷ name))
      ≡ some (record { amount = amount; unit = unit; rest = name })
unfolding behind_amount
behind_amount-reads amount unit name w r =
    run_of-longest is_re_space [] (32 ∷ []) (unit ++ 32 ∷ name) _ _ (refl, tt)
      (IsWord-Stops is_unit_rune is_re_space unit (32 ∷ name) w unit_start)
      (match_unit-reads amount unit name w r)

-- A line with an amount, a unit and a name.
abbrev pub line_of : Text → Text → Text → Text
line_of amount unit name = amount ++ 32 ∷ (unit ++ 32 ∷ name)

match_fraction-reads :
    (w f unit name : Text) (c : ℕ)
    → ((c == b'.') || (c == b',')) ≡ true
    → IsWord is_ascii_digit f
    → IsWord is_unit_rune unit
    → IsRest name
    → match_fraction w (c ∷ (f ++ 32 ∷ (unit ++ 32 ∷ name)))
      ≡ some (record { amount = w ++ c ∷ f; unit = unit; rest = name })
unfolding match_fraction
match_fraction-reads w f unit name c sep d v r =
    let m : LineMatch = record { amount = w ++ c ∷ f; unit = unit; rest = name } in
    let reads : some_of is_ascii_digit (f ++ 32 ∷ (unit ++ 32 ∷ name))
          (λ digits s'. behind_amount (w ++ c ∷ digits) s')
        ≡ some m =
      some_of-word is_ascii_digit f (32 ∷ (unit ++ 32 ∷ name)) _ m d refl
        (behind_amount-reads (w ++ c ∷ f) unit name v r) in
    rw (sep, match_fraction, reads) refl

separator-not_digit : (c : ℕ) → ((c == b'.') || (c == b',')) ≡ true → is_ascii_digit c ≡ false
separator-not_digit c h = ground arith

digits-reads :
    (w s : Text) (m : LineMatch)
    → IsWord is_ascii_digit w
    → Stops is_ascii_digit s
    → match_fraction w s ≡ some m
    → match_amount (w ++ s) ≡ some m
unfolding match_amount
digits-reads w s m d stop e =
    let reads : some_of is_ascii_digit (w ++ s) match_fraction ≡ some m =
      some_of-word is_ascii_digit w s match_fraction m d stop e in
    rw (reads, match_amount) refl

whole-reads :
    (w unit name : Text)
    → IsWord is_unit_rune unit
    → IsRest name
    → match_fraction w (32 ∷ (unit ++ 32 ∷ name))
      ≡ some (record { amount = w; unit = unit; rest = name })
unfolding match_fraction
whole-reads w unit name v r = behind_amount-reads w unit name v r

match_amount-reads :
    (amount unit name : Text)
    → IsAmount amount
    → IsWord is_unit_rune unit
    → IsRest name
    → match_amount (line_of amount unit name)
      ≡ some (record { amount = amount; unit = unit; rest = name })
match_amount-reads amount unit name (whole d) v r =
    digits-reads amount _ _ d refl (whole-reads amount unit name v r)
match_amount-reads amount unit name (fraction {w = w} {f = f} c d sep e t q) v r =
    rw (q, append_assoc w (c ∷ f) (32 ∷ (unit ++ 32 ∷ name)))
      (digits-reads w (c ∷ (f ++ 32 ∷ (unit ++ 32 ∷ name))) _ d (separator-not_digit c sep)
        (match_fraction-reads w f unit name c sep e v r))

-- An amount begins with a digit.
pub IsAmount-starts :
    (amount s : Text) (q : ℕ → Bool)
    → IsAmount amount
    → ((c : ℕ) → is_ascii_digit c ≡ true → q c ≡ false)
    → Stops q (amount ++ s)
IsAmount-starts amount s q (whole d) apart = IsWord-Stops is_ascii_digit q amount s d apart
IsAmount-starts amount s q (fraction {w = w} {f = f} c d sep e t p) apart =
    rw (p, append_assoc w (c ∷ f) s) (IsWord-Stops is_ascii_digit q w (c ∷ (f ++ s)) d apart)

match_bullet-none :
    (s : Text) (m : LineMatch)
    → Stops is_bullet s
    → behind_bullet s ≡ some m
    → match_bullet s ≡ some m
unfolding match_bullet
match_bullet-none [] m stop e = e
match_bullet-none (c ∷ s) m stop e = rw (stop, match_bullet) e

-- The expression reads a line with an amount, a unit and a name as these three.
pub ingredient_line-reads :
    (amount unit name : Text)
    → IsAmount amount
    → IsWord is_unit_rune unit
    → IsRest name
    → ingredient_line (line_of amount unit name)
      ≡ some (record { amount = amount; unit = unit; rest = name })
unfolding ingredient_line behind_bullet
ingredient_line-reads amount unit name a v r =
    let s : Text = line_of amount unit name in
    let m : LineMatch = record { amount = amount; unit = unit; rest = name } in
    let spaces : Stops is_re_space s =
      IsAmount-starts amount (32 ∷ (unit ++ 32 ∷ name)) is_re_space a
        (λ c h. (digit_start c h).0) in
    let behind : behind_bullet s ≡ some m =
      run_of-nothing is_re_space s _ m spaces (match_amount-reads amount unit name a v r) in
    run_of-nothing is_re_space s _ m spaces (
      match_bullet-none s m
        (IsAmount-starts amount (32 ∷ (unit ++ 32 ∷ name)) is_bullet a (λ c h. (digit_start c h).1))
        behind)
