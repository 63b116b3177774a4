-- ===== src/Extraction/Rules/Line/Runs.antt =====
-- The longest run of runes of a class, in a search with backtracking.
use recipe_reader.Common.{
  ℕ, ◌≡◌, refl, Bool, true, false, [], ◌∷◌, ◌++◌, some, All, append-nil, append_assoc,
}
use recipe_reader.Text.{Text}
use recipe_reader.Extraction.Rules.Line.{LineMatch, Then, run_of, some_of}

-- The text ends, or goes on with a rune outside a class.
abbrev pub Stops : (ℕ → Bool) → Text → Type 0
Stops p [] = Unit
Stops p (c ∷ s) = p c ≡ false

-- The longest run is the one that is taken if the rest of the expression matches behind it.
pub run_of-longest :
    (p : ℕ → Bool) (taken w s : Text) (then_do : Then) (m : LineMatch)
    → All (λ c. p c ≡ true) w
    → Stops p s
    → then_do (taken ++ w) s ≡ some m
    → run_of p taken (w ++ s) then_do ≡ some m
unfolding run_of
run_of-longest p taken [] [] then_do m h stop e = rw (append-nil taken) at e
run_of-longest p taken [] (c ∷ s) then_do m h stop e =
    rw (stop, run_of) (rw (append-nil taken) at e)
run_of-longest p taken (c ∷ w) s then_do m h stop e =
    rw
      (
        h.0,
        run_of,
        run_of-longest p (taken ++ c ∷ []) w s then_do m h.1 stop
            (rw (append_assoc taken (c ∷ []) w) e),
      )
      refl

pub some_of-longest :
    (p : ℕ → Bool) (c : ℕ) (w s : Text) (then_do : Then) (m : LineMatch)
    → All (λ d. p d ≡ true) (c ∷ w)
    → Stops p s
    → then_do (c ∷ w) s ≡ some m
    → some_of p (c ∷ (w ++ s)) then_do ≡ some m
unfolding some_of
some_of-longest p c w s then_do m h stop e =
    rw (h.0, some_of) (run_of-longest p (c ∷ []) w s then_do m h.1 stop e)

-- A word: not empty, of runes of a class.
pub record IsWord (p : ℕ → Bool) (w : Text) : Type 0 where
  pub first : ℕ
  pub others : Text
  pub shape : w ≡ first ∷ others
  pub members : All (λ c. p c ≡ true) (first ∷ others)

pub some_of-word :
    (p : ℕ → Bool) (w s : Text) (then_do : Then) (m : LineMatch)
    → IsWord p w
    → Stops p s
    → then_do w s ≡ some m
    → some_of p (w ++ s) then_do ≡ some m
some_of-word p w s then_do m h stop e =
    rw h.shape (some_of-longest p h.first h.others s then_do m h.members stop (rw h.shape at e))

-- A run that takes nothing.
pub run_of-nothing :
    (p : ℕ → Bool) (s : Text) (then_do : Then) (m : LineMatch)
    → Stops p s
    → then_do [] s ≡ some m
    → run_of p [] s then_do ≡ some m
run_of-nothing p s then_do m stop e = run_of-longest p [] [] s then_do m tt stop e

pub IsWord-Stops :
    (p q : ℕ → Bool) (w s : Text)
    → IsWord p w
    → ((c : ℕ) → p c ≡ true → q c ≡ false)
    → Stops q (w ++ s)
IsWord-Stops p q w s h apart = rw h.shape (apart h.first h.members.0)
