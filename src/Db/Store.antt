-- ===== src/Db/Store.antt =====
-- The tables of internal/db/migrations and one session of the program with them. Ids come from
-- sequences, which no rollback takes back. What goes wrong outside the statements, a lost
-- connection or a context that has ended, is a list of outcomes, one for each call.
pub mod Post
use recipe_reader.Common.{ℕ, Bool, List, [], ◌∷◌, Option, none, some, if◌then◌else◌, ◌==◌, any}
use recipe_reader.Text.{Text}
use recipe_reader.Errors.{Error, Result, ok, err}

-- A row of units, categories or ingredients.
pub record NamedRow : Type 0 where
  pub id : ℕ
  pub name : Text

-- A row of recipes; times are numbers.
pub record RecipeRow : Type 0 where
  pub id : ℕ
  pub name : Text
  pub instructions : Text
  pub image_url : Text
  pub source : Text
  pub status : Text
  pub created_at : ℕ
  pub updated_at : ℕ

-- A row of recipe_ingredients. Its position, a signed integer of 32 bits, is kept as its distance
-- from the least of them.
pub record LineRow (F : Type 0) : Type 0 where
  pub id : ℕ
  pub recipe_id : ℕ
  pub ingredient_id : ℕ
  pub amount : F
  pub unit_id : Option ℕ
  pub position : ℕ

-- A row of recipe_categories.
pub record FiledRow : Type 0 where
  pub recipe_id : ℕ
  pub category_id : ℕ

pub record Store (F : Type 0) : Type 0 where
  pub units : List NamedRow
  pub categories : List NamedRow
  pub ingredients : List NamedRow
  pub recipes : List RecipeRow
  pub lines : List (LineRow F)
  pub filed : List FiledRow

-- The store as a transaction sees it, the next value of the sequences, the time of `now()` and the
-- outcomes of the calls to come; a call without one goes well.
pub record Session (F : Type 0) : Type 0 where
  pub store : Store F
  pub next_unit : ℕ
  pub next_category : ℕ
  pub next_ingredient : ℕ
  pub next_recipe : ℕ
  pub next_line : ℕ
  pub now : ℕ
  pub faults : List (Option Error)

abbrev pub Action : Type 0 → Type 0 → Type 0
Action F A = Session F → Result A × Session F

module _ {F A B : Type 0} where
  abbrev pub continue : Result A → (A → Action F B) → Action F B
  continue (ok a) f s = f a s
  continue (err e) f s = (err e, s)

  infixl 10 ◌>>=◌ ◌>>◌
  unfoldable pub ◌>>=◌ : Action F A → (A → Action F B) → Action F B
  ◌>>=◌ m f s = let (r, s') = m s in continue r f s'

  abbrev pub ◌>>◌ : Action F A → Action F B → Action F B
  m >> n = m >>= λ _. n

-- `if err != nil { return fmt.Errorf("…: %w", err) }`
abbrev pub mapped : {A : Type 0} → (Error → Error) → Result A → Result A
mapped f (ok a) = ok a
mapped f (err e) = err (f e)

module _ {F A : Type 0} where
  unfoldable pub pure : A → Action F A
  pure a s = (ok a, s)

  unfoldable pub raise : Error → Action F A
  raise e s = (err e, s)

  -- A call of which the outcome is known.
  abbrev pub outcome : List (Option Error) → Action F A → Action F A
  outcome [] m s = m s
  outcome (none ∷ fs) m s = m (record s { faults = fs })
  outcome (some e ∷ fs) m s = (err e, record s { faults = fs })

  -- A call to the database: it fails if something is wrong outside it, and then changes nothing.
  unfoldable pub call : Action F A → Action F A
  call m s = outcome s.faults m s

  unfoldable pub map_error : (Error → Error) → Action F A → Action F A
  map_error f m s = let (r, s') = m s in (mapped f r, s')

-- The rows that a condition leaves.
abbrev pub without {ℓ} : {A : Type ℓ} → (A → Bool) → List A → List A
without p [] = []
without p (x ∷ xs) = if p x then without p xs else x ∷ without p xs

-- The first row that meets a condition: with a unique key, the only one.
abbrev pub find {ℓ} : {A : Type ℓ} → (A → Bool) → List A → Option A
find p [] = none
find p (x ∷ xs) = if p x then some x else find p xs

abbrev pub has_id : List NamedRow → ℕ → Bool
has_id rows id = any (λ (r : NamedRow). r.id == id) rows
