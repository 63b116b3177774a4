-- ===== src/Extraction/Units.antt =====
-- internal/extraction/units.go.
pub mod Seeded
use recipe_reader.Common.{Bool, true, false, List, [], ◌∷◌, Option, none, some, if◌then◌else◌}
use recipe_reader.Text.{Text, Unicode, codes, text_eq, to_lower, trim_suffix, trim_space}

abbrev pub Aliases : Type 0
Aliases = List (Text × Text)

-- `unitAliases`
abbrev pub unit_aliases : Aliases
unit_aliases =
    (codes "g", codes "g")
    ∷ (codes "gramm", codes "g")
    ∷ (codes "gr", codes "g")
    ∷ (codes "kg", codes "kg")
    ∷ (codes "kilogramm", codes "kg")
    ∷ (codes "ml", codes "ml")
    ∷ (codes "milliliter", codes "ml")
    ∷ (codes "l", codes "l")
    ∷ (codes "liter", codes "l")
    ∷ (codes "el", codes "EL")
    ∷ (codes "esslöffel", codes "EL")
    ∷ (codes "essloeffel", codes "EL")
    ∷ (codes "tl", codes "TL")
    ∷ (codes "teelöffel", codes "TL")
    ∷ (codes "teeloeffel", codes "TL")
    ∷ (codes "stück", codes "Stück")
    ∷ (codes "stk", codes "Stück")
    ∷ (codes "stueck", codes "Stück")
    ∷ (codes "prise", codes "Prise")
    ∷ (codes "bund", codes "Bund")
    ∷ (codes "dose", codes "Dose")
    ∷ (codes "packung", codes "Packung")
    ∷ (codes "pck", codes "Packung")
    ∷ (codes "pkg", codes "Packung")
    ∷ []

unfoldable pub find_alias : Aliases → Text → Option Text
find_alias [] key = none
find_alias ((k, v) ∷ aliases) key = if text_eq k key then some v else find_alias aliases key

module _ (u : Unicode) where
  -- `normalizeKey`
  unfoldable pub normalize_key : Text → Text
  normalize_key candidate = to_lower u (trim_suffix (trim_space candidate) (codes "."))

  -- `IsKnownUnit`
  unfoldable pub is_known_unit : Text → Bool
  is_known_unit candidate = elim (find_alias unit_aliases (normalize_key candidate)) [
    | none ↦ false
    | some v ↦ true
  ]

  -- `NormalizeUnit`
  unfoldable pub normalize_unit : Text → Text
  normalize_unit candidate = elim (find_alias unit_aliases (normalize_key candidate)) [
    | none ↦ []
    | some v ↦ v
  ]
