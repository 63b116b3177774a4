-- ===== src/Config/Addresses.antt =====
-- `isLoopbackAddr` of internal/config/config.go and `net.SplitHostPort`. Whether a host that is no
-- name is an IP address of the loopback interface, as `net.ParseIP` and `IP.IsLoopback` say, is a
-- parameter.
use recipe_reader.Common.{
  ℕ, Bool, false, ◌||◌, not, [], ◌∷◌, Option, none, some, if◌then◌else◌, ◌==◌, any,
}
use recipe_reader.Text.{Text, codes, text_eq}

-- The text before the last of some rune, and the text behind it.
unfoldable pub cut_last : ℕ → Text → Option (Text × Text)
cut_last c [] = none
cut_last c (d ∷ s) = elim (cut_last c s) [
  | some (a, b) ↦ some (d ∷ a, b)
  | none ↦ if d == c then some ([], s) else none
]

-- The text before the first of some rune, and the text behind it.
unfoldable pub cut_first : ℕ → Text → Option (Text × Text)
cut_first c [] = none
cut_first c (d ∷ s) =
    if d == c
    then some ([], s)
    else elim (cut_first c s) [ some (a, b) ↦ some (d ∷ a, b) | none ↦ none ]

abbrev pub has_rune : ℕ → Text → Bool
has_rune c s = any (λ d. d == c) s

-- A host in brackets: the first closing one is followed by the last colon, and no bracket is left.
abbrev bracketed : Option (Text × Text) → Option Text
bracketed none = none
bracketed (some (host, [])) = none
bracketed (some (host, c ∷ port)) =
    if not (c == b':')
      || has_rune b':' port
      || has_rune b'[' host
      || has_rune b'[' port
      || has_rune b']' port
    then none
    else some host

-- A host without brackets, and a port: neither has a colon or a bracket.
abbrev plain : Option (Text × Text) → Option Text
plain none = none
plain (some (host, port)) =
    if has_rune b':' host
      || has_rune b'[' host
      || has_rune b'[' port
      || has_rune b']' host
      || has_rune b']' port
    then none
    else some host

-- The host of `net.SplitHostPort`; `none` is an error.
unfoldable pub split_host : Text → Option Text
unfolding cut_last cut_first
split_host [] = none
split_host (c ∷ s) =
    if c == b'[' then bracketed (cut_first b']' s) else plain (cut_last b':' (c ∷ s))

module _ (is_loopback_ip : Text → Bool) where
  -- `isLoopbackAddr`
  unfoldable pub is_loopback_addr : Text → Bool
  unfolding split_host
  is_loopback_addr addr = elim (split_host addr) [
    | none ↦ false
    | some host ↦ text_eq host (codes "localhost") || is_loopback_ip host
  ]
