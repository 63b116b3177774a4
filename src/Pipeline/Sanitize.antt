-- ===== src/Pipeline/Sanitize.antt =====
-- `sanitizeName` and the bounds on names, internal/pipeline/pipeline.go.
use recipe_reader.Common.{
  inl, inr, ℕ, ◌≤◌, ◌≡◌, refl, false, ◌||◌, [], ◌∷◌, map, arith, Bool-cases, leb, ◌==◌,
  if◌then◌else◌, leb→le, le→leb, length, take, All, All-take,
}
use recipe_reader.Text.{Text, is_control, trim_space, fields, join, rune_count}
use recipe_reader.Text.Tidy.{IsTidy, join-fields-IsTidy}
use recipe_reader.Text.Tidy.Trim.{
  trim_space-IsTidy, trim_space-take-IsTidy, length-trim_space-take-le,
}
use recipe_reader.Text.Tidy.Words.{join-fields}
use recipe_reader.Text.Tidy.Runes.{All-fields, All-join, All-trim_space}

abbrev pub max_recipe_name_runes : ℕ
max_recipe_name_runes = 200

abbrev pub max_ingredient_name_runes : ℕ
max_ingredient_name_runes = 120

abbrev pub max_unit_name_runes : ℕ
max_unit_name_runes = 32

abbrev pub max_category_name_runes : ℕ
max_category_name_runes = 64

-- The function that strings.Map applies: line breaks, tabs and control characters become spaces.
unfoldable pub blank_control : ℕ → ℕ
blank_control r = if (r == b'\n') || (r == b'\r') || (r == b'\t') || is_control r then 32 else r

-- One line of words with one space between them, from a text of any shape.
unfoldable pub clean_line : Text → Text
unfolding blank_control
clean_line name = trim_space (join (32 ∷ []) (fields (map blank_control name)))

-- `sanitizeName`
unfoldable pub sanitize_name : Text → ℕ → Text
unfolding clean_line
sanitize_name name max_runes =
    let cleaned = clean_line name in
    if leb (rune_count cleaned) max_runes then cleaned else trim_space (take max_runes cleaned)

abbrev pub IsPrintable : ℕ → Type 0
IsPrintable c = is_control c ≡ false

-- What the pipeline means by a label: one line of single-spaced words with no control character.
pub record IsLabel (t : Text) : Type 0 where
  pub tidy : IsTidy t
  pub printable : All IsPrintable t

blank_control-IsPrintable : (c : ℕ) → IsPrintable (blank_control c)
unfolding blank_control
blank_control-IsPrintable c = ground arith

map-blank_control-IsPrintable : (s : Text) → All IsPrintable (map blank_control s)
map-blank_control-IsPrintable [] = tt
map-blank_control-IsPrintable (c ∷ s) =
    (blank_control-IsPrintable c, map-blank_control-IsPrintable s)

clean_line-IsLabel : (s : Text) → IsLabel (clean_line s)
unfolding clean_line
clean_line-IsLabel s =
    let words = fields (map blank_control s) in
    record {
      tidy =
          rw (trim_space-IsTidy _ (join-fields-IsTidy (map blank_control s)))
            (join-fields-IsTidy (map blank_control s));
      printable = All-trim_space IsPrintable _ (
          All-join IsPrintable refl words
            (All-fields IsPrintable _ (map-blank_control-IsPrintable s)));
    }

-- Whatever the text and the bound, the name that is kept is a label.
pub sanitize_name-IsLabel : (name : Text) (n : ℕ) → IsLabel (sanitize_name name n)
unfolding sanitize_name
sanitize_name-IsLabel name n = elim (Bool-cases (leb (rune_count (clean_line name)) n)) [
  | inl e ↦ rw e (clean_line-IsLabel name)
  | inr e ↦ rw e (record {
    tidy = trim_space-take-IsTidy n _ (clean_line-IsLabel name).tidy;
    printable =
        All-trim_space IsPrintable _ (All-take IsPrintable n _ (clean_line-IsLabel name).printable);
  })
]

-- The name that is kept has at most as many runes as the bound says.
pub rune_count-sanitize_name-le : (name : Text) (n : ℕ) → rune_count (sanitize_name name n) ≤ n
unfolding sanitize_name
rune_count-sanitize_name-le name n = elim (Bool-cases (leb (rune_count (clean_line name)) n)) [
  | inl e ↦ rw e (leb→le _ _ e)
  | inr e ↦ rw e (length-trim_space-take-le n (clean_line name))
]

blank_control-eq : (c : ℕ) → IsPrintable c → blank_control c ≡ c
unfolding blank_control
blank_control-eq c h = ground arith

map-blank_control-eq : (s : Text) → All IsPrintable s → map blank_control s ≡ s
map-blank_control-eq [] h = refl
map-blank_control-eq (c ∷ s) h = cc (blank_control-eq c h.0, map-blank_control-eq s h.1)

-- A label within the bound is kept as it is.
pub sanitize_name-eq : (t : Text) (n : ℕ) → IsLabel t → rune_count t ≤ n → sanitize_name t n ≡ t
unfolding sanitize_name
sanitize_name-eq t n l h = rw (
  map-blank_control-eq t l.printable,
  join-fields t l.tidy,
  trim_space-IsTidy t l.tidy,
  le→leb (length t) n h,
)

-- Sanitizing a name a second time changes nothing.
pub sanitize_name_idem :
    (name : Text) (n : ℕ) → sanitize_name (sanitize_name name n) n ≡ sanitize_name name n
sanitize_name_idem name n =
    sanitize_name-eq _ n (sanitize_name-IsLabel name n) (rune_count-sanitize_name-le name n)
