-- ===== src/Text/Tidy/Words.antt =====
-- strings.Fields and strings.Join give a tidy text back.
use mathlib.Core.List.{append-nil, append_assoc}
use recipe_reader.Common.{
  ℕ, ◌≡◌, refl, sym, ap, ◌∙◌, inl, inr, false, List, [], ◌∷◌, ◌++◌, Bool-cases,
}
use recipe_reader.Text.Defs.{Text, is_space, fields_from, fields, join}
use recipe_reader.Text.Tidy.{Tidy, IsTidy}

abbrev IsCons : List Text → Type 0
IsCons [] = ⊥
IsCons (w ∷ ws) = Unit

-- A word that has begun will be in the list.
fields_from-IsCons : (c : ℕ) (w t : Text) → IsCons (fields_from is_space (c ∷ w) t)
unfolding fields_from
fields_from-IsCons c w [] = tt
fields_from-IsCons c w (d ∷ t) = elim (Bool-cases (is_space d)) [
  | inl e ↦ rw (e, fields_from) tt
  | inr e ↦ rw (e, fields_from) (fields_from-IsCons c (w ++ d ∷ []) t)
]

join-cons : (s w : Text) (ws : List Text) → IsCons ws → join s (w ∷ ws) ≡ w ++ (s ++ join s ws)
join-cons s w [] h = elim h [ ]
join-cons s w (v ∷ ws) h = refl

join-fields_from :
    (c : ℕ) (w t : Text)
    → Tidy false t
    → join (32 ∷ []) (fields_from is_space (c ∷ w) t) ≡ (c ∷ w) ++ t
unfolding fields_from
join-fields_from c w [] h = sym (append-nil (c ∷ w))
join-fields_from c w (d ∷ t) (inl h) =
    rw (h.0, fields_from) (join-fields_from c (w ++ d ∷ []) t h.1 ∙ append_assoc (c ∷ w) (d ∷ []) t)
join-fields_from c w (d ∷ []) (inr h) = elim h.1 [ ]
join-fields_from c w (d ∷ e ∷ t) (inr h) =
    rw (h.0, fields_from, h.1.0, fields_from)
      (join-cons (32 ∷ []) (c ∷ w) _ (fields_from-IsCons e [] t)
        ∙ ap (λ r. (c ∷ w) ++ 32 ∷ r) (join-fields_from e [] t h.1.1))

-- Splitting a tidy text into its words and joining them with a space gives the text back.
pub join-fields : (t : Text) → IsTidy t → join (32 ∷ []) (fields t) ≡ t
unfolding fields_from
join-fields t (inl e) = rw e
join-fields [] (inr h) = elim h [ ]
join-fields (c ∷ t) (inr h) = rw (h.0, fields_from) (join-fields_from c [] t h.1)
