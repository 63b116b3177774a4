-- ===== src/Extraction/Units/Seeded.antt =====
-- The units that are proposed are among those that every database starts with.
use recipe_reader.Common.{
  ◌≡◌, refl, inl, inr, Bool, true, ◌||◌, List, [], ◌∷◌, some, any, all, Bool-cases, Option-cases,
}
use recipe_reader.Text.{Text, Unicode, is_empty, text_eq}
use recipe_reader.Db.Seed.{default_units}
use recipe_reader.Extraction.Units.{
  Aliases, unit_aliases, find_alias, normalize_key, normalize_unit,
}

-- A text of a list.
abbrev pub is_one_of : List Text → Text → Bool
is_one_of ts t = any (λ s. text_eq s t) ts

pub find_alias-all :
    (p : Text → Bool) (aliases : Aliases) (key v : Text)
    → all (λ (kv : Text × Text). p kv.1) aliases ≡ true
    → find_alias aliases key ≡ some v
    → p v ≡ true
unfolding find_alias
find_alias-all p [] key v h e = cc
find_alias-all p ((k, x) ∷ aliases) key v h e = elim (Bool-cases (p x)) [
  | inr n ↦ cc (rw n at h)
  | inl n ↦ elim (Bool-cases (text_eq k key)) [
    | inl t ↦ let q : some x ≡ some v = rw t at e in cc (q, n)
    | inr t ↦ find_alias-all p aliases key v (rw n at h) (rw t at e)
  ]
]

-- A unit that is empty or is one that every database starts with.
unfoldable pub is_canonical : Text → Bool
is_canonical t = is_empty t || is_one_of default_units t

aliases-is_canonical : all (λ (kv : Text × Text). is_canonical kv.1) unit_aliases ≡ true
unfolding is_canonical
aliases-is_canonical = refl

pub no_unit-is_canonical : is_canonical [] ≡ true
unfolding is_canonical
no_unit-is_canonical = refl

pub normalize_unit-is_canonical :
    (u : Unicode) (t : Text) → is_canonical (normalize_unit u t) ≡ true
unfolding normalize_unit
normalize_unit-is_canonical u t =
    elim (Option-cases (find_alias unit_aliases (normalize_key u t))) [
      | inl e ↦ rw (e, normalize_unit) no_unit-is_canonical
      | inr (v, e) ↦
          rw (e, normalize_unit)
            (find_alias-all is_canonical unit_aliases _ v aliases-is_canonical e)
    ]
