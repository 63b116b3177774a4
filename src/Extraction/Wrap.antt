-- ===== src/Extraction/Wrap.antt =====
-- `wrapCaption` and the expression `captionTagRe`, internal/extraction/llm.go.
use recipe_reader.Common.{
  ℕ, zero, suc, ◌+◌, ◌-◌, ◌≡◌, refl, ap, ◌⊎◌, inl, inr, Bool, false, ◌||◌, [], ◌∷◌, ◌++◌, Option,
  none, some, if◌then◌else◌, ◌==◌, length, arith, Bool-cases, Option-cases,
}
use recipe_reader.Text.{Text, codes}
use recipe_reader.Text.Replace.{replace_from, replace_all, matches}

-- `\s`
abbrev pub is_re_space : ℕ → Bool
is_re_space c = (c == 9) || (c == 10) || (c == 12) || (c == 13) || (c == 32)

-- A small letter of ASCII other than k and s, in either case.
abbrev same_letter : ℕ → ℕ → Bool
same_letter l c = (c == l) || (c + 32 == l)

-- The places inside `<\s*/?\s*caption\s*>` once its first rune has been read: before the slash,
-- behind it, behind one letter of the word and behind more of them, up to the whole word. No two of
-- the expressions that can follow a place begin with one rune, so a place is all that a search has
-- to remember.
pub data TagPlace : Type 0 where
  opened slashed behind_c behind_ca behind_cap behind_capt behind_capti behind_captio : TagPlace
  behind_caption : TagPlace

pub data TagStep : Type 0 where
  dead accept : TagStep
  go : TagPlace → TagStep

abbrev letter : ℕ → TagPlace → ℕ → TagStep
letter l q c = if same_letter l c then go q else dead

unfoldable pub tag_step : TagPlace → ℕ → TagStep
tag_step opened c =
    if is_re_space c then go opened else if c == b'/' then go slashed else letter b'c' behind_c c
tag_step slashed c = if is_re_space c then go slashed else letter b'c' behind_c c
tag_step behind_c c = letter b'a' behind_ca c
tag_step behind_ca c = letter b'p' behind_cap c
tag_step behind_cap c = letter b't' behind_capt c
tag_step behind_capt c = letter b'i' behind_capti c
tag_step behind_capti c = letter b'o' behind_captio c
tag_step behind_captio c = letter b'n' behind_caption c
tag_step behind_caption c =
    if is_re_space c then go behind_caption else if c == b'>' then accept else dead

-- What is left behind the tag, from inside it.
unfoldable pub tag_rest : TagPlace → Text → Option Text
tag_rest q [] = none
tag_rest q (c ∷ s) = elim (tag_step q c) [ dead ↦ none | accept ↦ some s | go q' ↦ tag_rest q' s ]

-- `captionTagRe` at the beginning of a text.
unfoldable pub caption_tag : Text → Option Text
unfolding tag_rest tag_step
caption_tag [] = none
caption_tag (c ∷ s) = if c == b'<' then tag_rest opened s else none

abbrev pub open_tag : Text
open_tag = codes "<caption>\n"

abbrev pub close_tag : Text
close_tag = codes "\n</caption>"

-- What is between the tags.
unfoldable pub span_body : Text → Text
span_body caption = replace_all caption_tag (codes "[caption-tag]") caption

-- `wrapCaption`
unfoldable pub wrap_caption : Text → Text
wrap_caption caption = open_tag ++ (span_body caption ++ close_tag)

-- Inside a tag stands no beginning of another, and not that of the mark that replaces one.
tag_step-open : (q : TagPlace) → tag_step q b'<' ≡ dead
unfolding tag_step
tag_step-open opened = refl
tag_step-open _ = refl

tag_step-mark : (q : TagPlace) → tag_step q b'[' ≡ dead
unfolding tag_step
tag_step-mark opened = refl
tag_step-mark _ = refl

tag_rest-open : (q : TagPlace) (s : Text) → tag_rest q (b'<' ∷ s) ≡ none
unfolding tag_rest
tag_rest-open q s = rw (tag_step-open q, tag_rest) refl

tag_rest-mark : (q : TagPlace) (s : Text) → tag_rest q (b'[' ∷ s) ≡ none
unfolding tag_rest
tag_rest-mark q s = rw (tag_step-mark q, tag_rest) refl

caption_tag-other : (c : ℕ) (s : Text) → (c == b'<') ≡ false → caption_tag (c ∷ s) ≡ none
unfolding caption_tag
caption_tag-other c s h = rw h refl

tag_rest-close : (q : TagPlace) → tag_rest q close_tag ≡ none
unfolding tag_rest tag_step
tag_rest-close opened = refl
tag_rest-close _ = refl

-- A text with every tag replaced, and the closing tag behind it.
abbrev replaced : ℕ → Text → Text
replaced skip s = replace_from caption_tag (codes "[caption-tag]") skip s ++ close_tag

TagStep-cases : (t : TagStep) → (t ≡ dead) ⊎ ((t ≡ accept) ⊎ ((q : TagPlace) × (t ≡ go q)))
TagStep-cases dead = inl refl
TagStep-cases accept = inr (inl refl)
TagStep-cases (go q) = inr (inr (q, refl))

-- No tag that is begun in front of a text ends in what the replacement makes of it, if none ends in
-- the text itself.
tag_rest-replaced :
    (q : TagPlace) (s : Text) → tag_rest q s ≡ none → tag_rest q (replaced 0 s) ≡ none
unfolding replace_from tag_rest
tag_rest-replaced q [] h = tag_rest-close q
tag_rest-replaced q (c ∷ s) h = elim (Option-cases (caption_tag (c ∷ s))) [
  | inr (rest, e) ↦ rw (e, replace_from) (tag_rest-mark q _)
  | inl e ↦
      rw (e, replace_from)
        (elim (TagStep-cases (tag_step q c)) [
          | inl d ↦ rw (d, tag_rest) refl
          | inr (inl a) ↦ cc (rw (a, tag_rest) at h)
          | inr (inr (q', g)) ↦ rw (g, tag_rest) (tag_rest-replaced q' s (rw (g, tag_rest) at h))
        ])
]

caption_tag-replaced :
    (c : ℕ) (s : Text) → caption_tag (c ∷ s) ≡ none → caption_tag (c ∷ replaced 0 s) ≡ none
unfolding caption_tag
caption_tag-replaced c s h = elim (Bool-cases (c == b'<')) [
  | inr e ↦ rw e refl
  | inl e ↦ rw e (tag_rest-replaced opened s (rw e at h))
]

replaced-kept :
    (c : ℕ) (s : Text) → caption_tag (c ∷ s) ≡ none → replaced 0 (c ∷ s) ≡ c ∷ replaced 0 s
unfolding replace_from
replaced-kept c s e = rw (e, replace_from) refl

matches-kept :
    (c : ℕ) (s : Text)
    → caption_tag (c ∷ s) ≡ none
    → matches caption_tag (replaced 0 s) ≡ 1
    → matches caption_tag (replaced 0 (c ∷ s)) ≡ 1
matches-kept c s e h = rw (replaced-kept c s e) (rw (caption_tag-replaced c s e, matches) h)

-- The closing tag is the only one in a text with every tag replaced.
matches-replaced : (skip : ℕ) (s : Text) → matches caption_tag (replaced skip s) ≡ 1
unfolding replace_from caption_tag
matches-replaced skip [] = refl
matches-replaced (suc skip) (c ∷ s) = matches-replaced skip s
matches-replaced zero (c ∷ s) = elim (Option-cases (caption_tag (c ∷ s))) [
  | inl e ↦ matches-kept c s e (matches-replaced 0 s)
  | inr (rest, e) ↦ rw (e, replace_from) (matches-replaced (length s - length rest) s)
]

-- Whatever the caption, the text that the model is sent is an opening tag, some text and a closing
-- tag, and holds no third caption tag: what the caption says can neither close the span early nor
-- open another.
pub wrap_caption-matches :
    (caption : Text)
    → ((body : Text) × (wrap_caption caption ≡ open_tag ++ (body ++ close_tag)))
      × (matches caption_tag (wrap_caption caption) ≡ 2)
unfolding wrap_caption span_body caption_tag replace_all
wrap_caption-matches caption = ((span_body caption, refl), ap suc (matches-replaced 0 caption))

-- A caption without a tag is sent between the two tags as it is.
pub wrap_caption-untagged :
    (caption : Text)
    → matches caption_tag caption ≡ 0
    → wrap_caption caption ≡ open_tag ++ (caption ++ close_tag)
unfolding wrap_caption span_body replace_all
wrap_caption-untagged caption h = ap (λ (t : Text). open_tag ++ (t ++ close_tag)) (same caption h)
  where
    same :
        (s : Text)
        → matches caption_tag s ≡ 0
        → replace_from caption_tag (codes "[caption-tag]") 0 s ≡ s
    same [] e = refl
    same (c ∷ s) e = elim (Option-cases (caption_tag (c ∷ s))) [
      | inl n ↦ rw (n, replace_from) (ap (λ (t : Text). c ∷ t) (same s (rw (n, matches) at e)))
      | inr (rest, n) ↦ absurd (omega (arith, (rw (n, matches) at e)))
    ]
