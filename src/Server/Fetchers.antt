-- ===== src/Server/Fetchers.antt =====
-- `newFetcher` and `alreadyImported`, internal/server/fetcher.go. The login is the client's.
pub mod Known
use recipe_reader.Common.{[], Bool, true, false, Option, none, some, if◌then◌else◌}
use recipe_reader.Text.{Text, is_empty}
use recipe_reader.Errors.{Error, Sentinel, errors_is, Result, ok, err}
use recipe_reader.Domain.{Recipe}
use recipe_reader.Repository.Interfaces.{RecipeRepository}
use recipe_reader.Instagram.Saved.{FetchOptions}
use recipe_reader.Instagram.Fetcher.{PipelineFetcher}
use recipe_reader.Config.{Config}

module _ {F W : Type 0} (recipes : RecipeRepository F W) (log_failure : Text → Error → W → W) where
  abbrev pub looked_up : Text → Result (Recipe F) → W → Bool × W
  looked_up source (ok r) w = (true, w)
  looked_up source (err e) w =
      if errors_is e Sentinel.not_found then (false, w) else (false, log_failure source e w)

  -- `alreadyImported`
  unfoldable pub already_imported : Text → W → Bool × W
  already_imported source w =
      let (found, w') = recipes.get_by_source source w in looked_up source found w'

  -- The options of the fetcher.
  unfoldable pub fetch_options : Config F → FetchOptions W
  fetch_options cfg = record {
    max_items = cfg.import.limits.max_items;
    max_pages = cfg.import.limits.max_pages;
    known = some already_imported;
  }

  -- `newFetcher`: the fetcher, if an account is configured, and the error of the login.
  unfoldable pub new_fetcher :
      (Text → Text → Text → W → Option Error × W)
      → Config F
      → W
      → (Option (PipelineFetcher × FetchOptions W) × Option Error) × W
  new_fetcher login_or_restore cfg w =
      let account = cfg.instagram in
      if is_empty account.username
      then ((none, none), w)
      else (let (e, w') =
            login_or_restore account.username account.password account.session_path w in
          let fetcher : PipelineFetcher = record {
            collection_name = account.collection;
            collection_id = [];
            resolved_at = 0;
          } in
          ((some (fetcher, fetch_options cfg), e), w'))
