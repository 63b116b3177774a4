-- ===== src/Instagram/Types.antt =====
-- `SavedPost` and `Collection`, internal/instagram/saved.go.
use recipe_reader.Text.{Text}

pub record SavedPost : Type 0 where
  pub source : Text
  pub caption : Text
  pub image_url : Text

pub record Collection : Type 0 where
  pub id : Text
  pub name : Text
