-- ===== src/Text/Tidy/Runes.antt =====
-- A property of runes that the space has passes through splitting, joining, trimming and
-- truncation.
use recipe_reader.Common.{ℕ, inl, inr, Bool, List, [], ◌∷◌, ◌++◌, Bool-cases, All, All-append}
use recipe_reader.Text.Defs.{
  Text, is_space, trim_left, trim_right, trim_space, cons_unless, flush, fields_from, fields, join,
}

module _ (P : ℕ → Type 0) where
  All-flush : (w : Text) (ws : List Text) → All P w → All (All P) ws → All (All P) (flush w ws)
  All-flush [] ws hw h = h
  All-flush (c ∷ w) ws hw h = (hw, h)

  All-fields_from : (w s : Text) → All P w → All P s → All (All P) (fields_from is_space w s)
  unfolding fields_from
  All-fields_from w [] hw hs = All-flush w [] hw tt
  All-fields_from w (c ∷ s) hw hs = elim (Bool-cases (is_space c)) [
    | inl e ↦ rw (e, fields_from) (All-flush w _ hw (All-fields_from [] s tt hs.1))
    | inr e ↦
        rw (e, fields_from)
          (All-fields_from (w ++ c ∷ []) s (All-append P w (c ∷ []) hw (hs.0, tt)) hs.1)
  ]

  pub All-fields : (s : Text) → All P s → All (All P) (fields s)
  All-fields s h = All-fields_from [] s tt h

  pub All-join : P 32 → (ws : List Text) → All (All P) ws → All P (join (32 ∷ []) ws)
  All-join p [] h = tt
  All-join p (w ∷ []) h = h.0
  All-join p (w ∷ v ∷ ws) h = All-append P w _ h.0 (p, All-join p (v ∷ ws) h.1)

  All-trim_left : (f : ℕ → Bool) (s : Text) → All P s → All P (trim_left f s)
  All-trim_left f [] h = tt
  All-trim_left f (c ∷ s) h = elim (Bool-cases (f c)) [
    | inl e ↦ rw e (All-trim_left f s h.1)
    | inr e ↦ rw e h
  ]

  All-cons_unless : (f : ℕ → Bool) (c : ℕ) (r : Text) → P c → All P r → All P (cons_unless f c r)
  All-cons_unless f c [] p h = elim (Bool-cases (f c)) [ inl e ↦ rw e tt | inr e ↦ rw e (p, tt) ]
  All-cons_unless f c (d ∷ r) p h = (p, h)

  All-trim_right : (f : ℕ → Bool) (s : Text) → All P s → All P (trim_right f s)
  All-trim_right f [] h = tt
  All-trim_right f (c ∷ s) h = All-cons_unless f c _ h.0 (All-trim_right f s h.1)

  pub All-trim_space : (s : Text) → All P s → All P (trim_space s)
  All-trim_space s h = All-trim_right is_space _ (All-trim_left is_space s h)
