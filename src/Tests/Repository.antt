-- ===== src/Tests/Repository.antt =====
-- internal/repository at a small store.
use recipe_reader.Common.{
  ℕ, true, pos, negsuc, ◌≤◌, ◌≡◌, refl, [], ◌∷◌, none, some, leb, length, arith,
}
use recipe_reader.Text.{codes}
use recipe_reader.Errors.{ok, foreign, wrap, Sentinel, sentinel}
use recipe_reader.Domain.{Recipe, status_needs_review, valid}
use recipe_reader.Db.Store.{Store, Session, ◌>>=◌, pure, call, map_error}
use recipe_reader.Db.Statements.{
  create_recipe, update_recipe, find_or_create_category, find_or_create_ingredient,
  find_or_create_unit, delete_recipe_ingredients, delete_recipe_categories, add_recipe_ingredient,
  add_recipe_category,
}
use recipe_reader.Repository.Recipes.{
  create, update, transact, worked, committed, created, updated, associated, resolve_lookups,
  resolve_categories, resolve_category, resolve_ingredients, resolve_ingredient, resolve_unit,
  write_associations, add_lines, add_categories,
}
use recipe_reader.Db.Reads.{Locale, count_recipes, matching_recipes, contains_text}
use recipe_reader.Repository.Reads.{
  SearchQuery, search, found_page, filter_of, max_int32, assemble_page,
}
use recipe_reader.Repository.Reads.Paging.{search_unbounded, search-unbounded}
use recipe_reader.Repository.Reads.Pages.{LocaleLaws}
use recipe_reader.Repository.Reads.Clear.{assemble_each}
use recipe_reader.Repository.Reads.Assembly.{assemble_page-assemble_each}
use recipe_reader.Repository.Recipes.Writes.{IsStored}
use recipe_reader.Repository.Recipes.Duplicates.{create-duplicate}
use recipe_reader.Repository.Recipes.Atomicity.{Ended, create-Ended}

-- A store with one unit, one category and one recipe without associations.
abbrev pub small : Store ℕ
small = record {
  units = record { id = 1; name = codes "g" } ∷ [];
  categories = record { id = 1; name = codes "Backen" } ∷ [];
  ingredients = [];
  recipes =
      record {
        id = 1;
        name = codes "Suppe";
        instructions = [];
        image_url = [];
        source = codes "a";
        status = status_needs_review;
        created_at = 5;
        updated_at = 5;
      }
      ∷ [];
  lines = [];
  filed = [];
}

abbrev pub session : Session ℕ
session = record {
  store = small;
  next_unit = 2;
  next_category = 2;
  next_ingredient = 1;
  next_recipe = 2;
  next_line = 1;
  now = 7;
  faults = [];
}

-- Two lines with one ingredient, as a recipe may have them.
abbrev pub cake : Recipe ℕ
cake = record {
  id = 0;
  name = codes "Kuchen";
  instructions = codes "Backen.";
  image_url = [];
  source = codes "b";
  status = status_needs_review;
  ingredients =
      record {
        ingredient_id = 0;
        ingredient_name = codes "Zucker";
        amount = 200;
        unit_id = none;
        unit_name = codes "g";
      }
      ∷ record {
        ingredient_id = 0;
        ingredient_name = codes "Zucker";
        amount = 50;
        unit_id = none;
        unit_name = [];
      }
      ∷ [];
  categories = record { id = 0; name = codes "Backen" } ∷ [];
  created_at = 0;
  updated_at = 0;
}

abbrev stored_cake : Recipe ℕ
stored_cake = record cake {
  id = 2;
  ingredients =
      record {
        ingredient_id = 1;
        ingredient_name = codes "Zucker";
        amount = 200;
        unit_id = some 1;
        unit_name = codes "g";
      }
      ∷ record {
        ingredient_id = 1;
        ingredient_name = codes "Zucker";
        amount = 50;
        unit_id = none;
        unit_name = [];
      }
      ∷ [];
  categories = record { id = 1; name = codes "Backen" } ∷ [];
  created_at = 7;
  updated_at = 7;
}

create_runs : (create cake session).0 ≡ (none, stored_cake)
unfolding create transact worked committed created associated resolve_lookups resolve_categories
    resolve_category resolve_ingredients resolve_ingredient resolve_unit write_associations
    add_lines add_categories create_recipe find_or_create_category find_or_create_ingredient
    find_or_create_unit delete_recipe_ingredients delete_recipe_categories add_recipe_ingredient
    add_recipe_category ◌>>=◌ pure call map_error valid
create_runs = refl

create-Ended_example :
    Ended (λ r' after. IsStored cake small 2 after r') cake small (create cake session)
create-Ended_example = create-Ended cake session

-- A second recipe with the source of the first.
abbrev again : Recipe ℕ
again = record cake { source = codes "a" }

again_valid : valid again.status ≡ true
unfolding valid
again_valid = refl

create-duplicate_example :
    create again session
    ≡ ((some (sentinel Sentinel.duplicate_source), again), record session { next_recipe = 3 })
create-duplicate_example = create-duplicate again session refl again_valid refl

-- The recipe of the store with other fields.
abbrev changed : Recipe ℕ
changed = record cake { id = 1 }

-- The connection is lost behind the update of the row.
lost_runs :
    (update changed (record session { faults = none ∷ none ∷ some (foreign 1) ∷ [] })).0
    ≡ (some (wrap (foreign 1)), changed)
unfolding update transact worked committed updated associated resolve_lookups resolve_categories
    resolve_category update_recipe find_or_create_category ◌>>=◌ pure call map_error valid
lost_runs = refl

-- A second recipe with the lines of the cake, out of their order.
abbrev both : Store ℕ
both = record small {
  ingredients = record { id = 1; name = codes "Zucker" } ∷ [];
  recipes =
      record {
        id = 2;
        name = codes "Kuchen";
        instructions = codes "Backen.";
        image_url = [];
        source = codes "b";
        status = status_needs_review;
        created_at = 7;
        updated_at = 7;
      }
      ∷ small.recipes;
  lines =
      record { id = 2; recipe_id = 2; ingredient_id = 1; amount = 50; unit_id = none; position = 1 }
      ∷ record {
        id = 1;
        recipe_id = 2;
        ingredient_id = 1;
        amount = 200;
        unit_id = some 1;
        position = 0;
      }
      ∷ [];
  filed = record { recipe_id = 2; category_id = 1 } ∷ [];
}

abbrev filled : Session ℕ
filled = record session { store = both }

-- Texts in the order of their lengths.
abbrev pub by_length : Locale
by_length = record { lower = λ t. t; text_le = λ x y. leb (length x) (length y) }

by_length-LocaleLaws : LocaleLaws by_length
by_length-LocaleLaws = record { total = λ x y h. ground arith; trans = λ x y z h k. ground arith }

assemble_page-assemble_each_example :
    assemble_page by_length both.recipes filled ≡ assemble_each by_length both.recipes filled
assemble_page-assemble_each_example =
    assemble_page-assemble_each by_length by_length-LocaleLaws both.recipes filled refl

-- A page far behind the last one, of which the offset needs more than 32 bits.
abbrev far : SearchQuery
far = record {
  text = codes "uch";
  category_id = none;
  status = some status_needs_review;
  page = pos 214748366;
  page_size = negsuc 0;
}

far_runs : (search by_length far filled).0 ≡ ok ([], 1)
unfolding search found_page count_recipes matching_recipes contains_text ◌>>=◌ pure call map_error
far_runs = refl

filled_fits : length (matching_recipes by_length (filter_of far) both) ≤ max_int32
unfolding matching_recipes contains_text
filled_fits = omega arith

search-unbounded_example : search by_length far filled ≡ search_unbounded by_length far filled
search-unbounded_example =
    search-unbounded by_length by_length-LocaleLaws far filled refl filled_fits
