-- ===== src/Extraction/Caption.antt =====
-- internal/extraction/caption.go.
use recipe_reader.Common.{
  ℕ, zero, suc, ◌+◌, ◌≤◌, ◌≡◌, refl, ap, sym, true, false, inl, inr, [], ◌∷◌, ◌++◌, if◌then◌else◌,
  leb, ◌==◌, length, take, arith, Bool-cases, append-nil, append_assoc, leb→le,
}
use recipe_reader.Text.{Text, rune_count}

abbrev pub max_caption_runes : ℕ
max_caption_runes = 8000

-- The loop over the runes, with the bound, the number of runes it has passed and the bytes before
-- the index as the text that they are; its end is the return of the whole caption.
unfoldable pub cut_at : ℕ → ℕ → Text → Text → Text
cut_at bound runes before [] = before
cut_at bound runes before (c ∷ s) =
    let rest = cut_at bound (runes + 1) (before ++ c ∷ []) s in
    if runes == bound then before else rest

-- `capCaption`, with its bound
unfoldable pub cap_caption_at : ℕ → Text → Text
cap_caption_at bound caption =
    if leb (rune_count caption) bound then caption else cut_at bound 0 [] caption

-- `capCaption`
unfoldable pub cap_caption : Text → Text
cap_caption caption = cap_caption_at max_caption_runes caption

take-nil : (n : ℕ) → take {A = ℕ} n [] ≡ []
take-nil zero = refl
take-nil (suc n) = refl

cut_at-take :
    (bound left runes : ℕ) (before s : Text)
    → bound ≡ runes + left
    → cut_at bound runes before s ≡ before ++ take left s
unfolding cut_at
cut_at-take bound left runes before [] h = rw (take-nil left, append-nil before) refl
cut_at-take bound zero runes before (c ∷ s) h =
    let e : (runes == bound) ≡ true = ground (arith, h) in rw (e, append-nil before) refl
cut_at-take bound (suc left) runes before (c ∷ s) h =
    let e : (runes == bound) ≡ false = ground (arith, h) in
    rw (e, cut_at-take bound left (runes + 1) (before ++ c ∷ []) s (omega (arith, h)))
      (append_assoc before (c ∷ []) (take left s))

take-all : (n : ℕ) (s : Text) → length s ≤ n → take n s ≡ s
take-all zero [] h = refl
take-all zero (c ∷ s) h = absurd (omega (arith, h))
take-all (suc n) [] h = refl
take-all (suc n) (c ∷ s) h = ap (λ r. c ∷ r) (take-all n s (omega (arith, h)))

cap_caption_at-take :
    (bound : ℕ) (caption : Text) → cap_caption_at bound caption ≡ take bound caption
unfolding cap_caption_at
cap_caption_at-take bound caption = elim (Bool-cases (leb (rune_count caption) bound)) [
  | inl e ↦ rw e (sym (take-all bound caption (leb→le _ _ e)))
  | inr e ↦ rw e (cut_at-take bound bound 0 [] caption (omega arith))
]

-- The caption that the model is sent is the caption's first 8000 runes, which is all of a shorter
-- one.
pub cap_caption-take : (caption : Text) → cap_caption caption ≡ take max_caption_runes caption
unfolding cap_caption
cap_caption-take caption = cap_caption_at-take max_caption_runes caption
