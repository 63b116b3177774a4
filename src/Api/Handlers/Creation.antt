-- ===== src/Api/Handlers/Creation.antt =====
-- `handleCreateRecipe`, internal/api/handlers_recipes.go, when no call of the database fails.
use recipe_reader.Db.Store.{Store}
