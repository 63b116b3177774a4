-- ===== src/Api/Handlers/Outcomes.antt =====
-- How the writes of internal/api/handlers_recipes.go end, and what the ends of the repository's
-- `Create` and `Update` are answered with.
use recipe_reader.Common.{
  ℕ, ◌≤◌, ◌≡◌, refl, ◌∙◌, ◌⊎◌, inl, inr, false, ◌||◌, Option, some, Bool-cases, arith,
}
use recipe_reader.Text.{Text, is_empty}
use recipe_reader.Errors.{Error, Sentinel, errors_is}
use recipe_reader.Domain.{Recipe}
use recipe_reader.Db.Store.{Store, Session}
use recipe_reader.Repository.Recipes.Writes.{IsStored}
use recipe_reader.Repository.Recipes.Updates.{IsUpdated}
use recipe_reader.Repository.Recipes.Atomicity.{Ended}
use recipe_reader.Api.Http.{Request, ResponseWriter, Panic}
use recipe_reader.Api.Middleware.{write_json, write_error}
use recipe_reader.Api.Dto.{
  RecipeDto, Reply, error_reply, recipe_reply, to_recipe_dto, dto_to_recipe,
}
use recipe_reader.Api.Handlers.Carrying.{Carries, given_status}
use recipe_reader.Api.Handlers.{
  Decoded, decoded, too_long, malformed, Reader, max_recipe_body_bytes, parse_id_param, defaulted,
  refuse, write_internal_error, posted, put,
}

module _ {F S : Type 0} (out : ResponseWriter (Reply F) S) where
  -- The answer is an error, and the tables are as they were.
  pub record IsRefused (s : S) (before : Store F) (p : (Option Panic × S) × Session F)
      : Type 0 where
    pub code : ℕ
    pub message : Text
    pub failing : 400 ≤ code
    pub answer : p.0.1 ≡ write_error out error_reply code message s
    pub kept : p.1.store ≡ before

  -- The answer is the recipe with the status.
  unfoldable pub Answers : ℕ → Recipe F → S → (Option Panic × S) × Session F → Type 0
  Answers code recipe s p = p.0.1 ≡ write_json out code (recipe_reply (to_recipe_dto recipe)) s

  -- The recipe that the answer 201 carries is the one of the body, stored.
  pub record IsPosted (reader : Reader F) (r : Request) (s : S) (w : Session F)
      (p : (Option Panic × S) × Session F) : Type 0 where
    pub dto : RecipeDto F
    pub recipe : Recipe F
    pub body : reader.decode max_recipe_body_bytes r ≡ decoded dto
    pub named : (is_empty dto.name || is_empty dto.source) ≡ false
    pub answer : Answers 201 recipe s p
    pub content :
        Carries dto recipe × (recipe.source ≡ dto.source) × (recipe.status ≡ given_status dto)
    pub stored : IsStored (dto_to_recipe (defaulted dto)) (w.store) w.next_recipe (p.1.store) recipe

  -- The recipe that the answer 200 carries is the one of the body with the id of the path, stored.
  pub record IsPut (reader : Reader F) (r : Request) (s : S) (w : Session F)
      (p : (Option Panic × S) × Session F) : Type 0 where
    pub dto : RecipeDto F
    pub recipe : Recipe F
    pub id : ℕ
    pub path : parse_id_param reader r ≡ some id
    pub body : reader.decode max_recipe_body_bytes r ≡ decoded dto
    pub named : is_empty dto.name ≡ false
    pub answer : Answers 200 recipe s p
    pub content : Carries dto recipe × (recipe.status ≡ dto.status)
    pub stored : IsUpdated (record (dto_to_recipe dto) { id = id }) (w.store) (p.1.store) recipe

pub Decoded-cases :
    {F : Type 0} (d : Decoded F)
    → ((dto : RecipeDto F) × (d ≡ decoded dto)) ⊎ ((d ≡ too_long) ⊎ (d ≡ malformed))
Decoded-cases (decoded dto) = inl (dto, refl)
Decoded-cases too_long = inr (inl refl)
Decoded-cases malformed = inr (inr refl)

-- A failure that is logged leaves the tables as they are.
abbrev pub IsQuiet : {F : Type 0} → (Request → Error → Session F → Session F) → Type 0
IsQuiet {F} log = (r : Request) (e : Error) (w : Session F) → (log r e w).store ≡ w.store

pub refuse-IsRefused :
    {F S : Type 0} (out : ResponseWriter (Reply F) S)
    (log : Request → Error → Session F → Session F) (code : ℕ) (message : Text) (s : S)
    (w : Session F)
    → 400 ≤ code
    → IsRefused out s (w.store) (refuse out log code message s w)
refuse-IsRefused out log code message s w h = record {
  code = code;
  message = message;
  failing = h;
  answer = refl;
  kept = refl;
}

module _ {F S : Type 0} (out : ResponseWriter (Reply F) S)
    (log : Request → Error → Session F → Session F) (quiet : IsQuiet log) where
  internal-IsRefused :
      (r : Request) (message : Text) (e : Error) (s : S) (w : Session F) (before : Store F)
      → w.store ≡ before
      → IsRefused out s before (write_internal_error out log r message e s w)
  unfolding write_internal_error
  internal-IsRefused r message e s w before h = record {
    code = 500;
    message = message;
    failing = omega arith;
    answer = refl;
    kept = quiet r e w ∙ h;
  }

  posted-IsRefused :
      (r : Request) (e : Error) (recipe : Recipe F) (s : S) (w : Session F) (before : Store F)
      → w.store ≡ before
      → IsRefused out s before (posted out log r (some e, recipe) s w)
  posted-IsRefused r e recipe s w before h =
      elim (Bool-cases (errors_is e Sentinel.duplicate_source)) [
        | inl d ↦
            rw d
              (record { code = 409; message = _; failing = omega arith; answer = refl; kept = h })
        | inr d ↦ rw d (internal-IsRefused r _ e s w before h)
      ]

  put-IsRefused :
      (r : Request) (e : Error) (recipe : Recipe F) (s : S) (w : Session F) (before : Store F)
      → w.store ≡ before
      → IsRefused out s before (put out log r (some e, recipe) s w)
  put-IsRefused r e recipe s w before h = elim (Bool-cases (errors_is e Sentinel.not_found)) [
    | inl d ↦
        rw d (record { code = 404; message = _; failing = omega arith; answer = refl; kept = h })
    | inr d ↦ rw d (internal-IsRefused r _ e s w before h)
  ]

  pub posted-Ended :
      (Q : Recipe F → Store F → Type 0) (r : Request) (given : Recipe F) (s : S) (before : Store F)
      (p : (Option Error × Recipe F) × Session F)
      → Ended Q given before p
      → ((recipe : Recipe F) × (Answers out 201 recipe s (posted out log r p.0 s p.1)
            × Q recipe (posted out log r p.0 s p.1).1.store))
        ⊎ IsRefused out s before (posted out log r p.0 s p.1)
  unfolding Ended Answers
  posted-Ended Q r given s before p (inl (recipe, e, q)) = rw e (inl (recipe, (refl, q)))
  posted-Ended Q r given s before p (inr (e, h, k)) =
      rw h (inr (posted-IsRefused r e given s p.1 before k))

  pub put-Ended :
      (Q : Recipe F → Store F → Type 0) (r : Request) (given : Recipe F) (s : S) (before : Store F)
      (p : (Option Error × Recipe F) × Session F)
      → Ended Q given before p
      → ((recipe : Recipe F) × (Answers out 200 recipe s (put out log r p.0 s p.1)
            × Q recipe (put out log r p.0 s p.1).1.store))
        ⊎ IsRefused out s before (put out log r p.0 s p.1)
  unfolding Ended Answers
  put-Ended Q r given s before p (inl (recipe, e, q)) = rw e (inl (recipe, (refl, q)))
  put-Ended Q r given s before p (inr (e, h, k)) =
      rw h (inr (put-IsRefused r e given s p.1 before k))
