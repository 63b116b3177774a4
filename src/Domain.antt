-- ===== src/Domain.antt =====
-- internal/domain/models.go. Ids are `int64` keys that the database counts up from 1, and 0 means
-- "not resolved yet"; times are numbers. The type of `float64` is a parameter.
use recipe_reader.Common.{ℕ, Bool, ◌||◌, List, Option}
use recipe_reader.Text.{Text, codes, text_eq}

abbrev pub RecipeStatus : Type 0
RecipeStatus = Text

abbrev pub status_needs_review : RecipeStatus
status_needs_review = codes "needs_review"

abbrev pub status_published : RecipeStatus
status_published = codes "published"

-- `RecipeStatus.Valid`
unfoldable pub valid : RecipeStatus → Bool
valid s = text_eq s status_needs_review || text_eq s status_published

pub record MeasureUnit : Type 0 where
  pub id : ℕ
  pub name : Text

pub record Category : Type 0 where
  pub id : ℕ
  pub name : Text

pub record Ingredient : Type 0 where
  pub id : ℕ
  pub name : Text

pub record RecipeIngredient (F : Type 0) : Type 0 where
  pub ingredient_id : ℕ
  pub ingredient_name : Text
  pub amount : F
  pub unit_id : Option ℕ
  pub unit_name : Text

pub record Recipe (F : Type 0) : Type 0 where
  pub id : ℕ
  pub name : Text
  pub instructions : Text
  pub image_url : Text
  pub source : Text
  pub status : RecipeStatus
  pub ingredients : List (RecipeIngredient F)
  pub categories : List Category
  pub created_at : ℕ
  pub updated_at : ℕ
