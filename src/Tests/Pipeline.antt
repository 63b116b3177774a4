-- ===== src/Tests/Pipeline.antt =====
-- internal/pipeline at concrete inputs.
use mathlib.Core.Option.{some-injective}
use recipe_reader.Common.{ℕ, ◌≡◌, refl, subst, Bool, true, false, [], ◌∷◌, none, some}
use recipe_reader.Text.{Text, codes, fields_from}
use recipe_reader.Errors.{ok, Sentinel, sentinel, errors_is, wrap, wrap2}
use recipe_reader.Pipeline.Sanitize.{sanitize_name}
use recipe_reader.Pipeline.Vocabulary.{vocabulary_of, resolve, fold_category}
use recipe_reader.Pipeline.Convert.{to_recipe}
use recipe_reader.Pipeline.Convert.Bounds.{IsBounded, to_recipe-IsBounded}
use recipe_reader.Pipeline.Failure.{classify, failure_rate_limited}
use recipe_reader.Pipeline.Run.{run, import_post, ImportLock}
use recipe_reader.Pipeline.Run.Tally.{IsTally, run-IsTally}
use recipe_reader.Pipeline.Run.Induction.{Keeps, Created}
use recipe_reader.Pipeline.Run.Locking.{LockLaws, Anything, held-run}
use recipe_reader.Db.Store.{Session}
use recipe_reader.Pipeline.Run.Storage.{contains, Grown}
use recipe_reader.Pipeline.Run.Stored.{
  stores, newest_sources, StoresRecipes, run-stores-Grown, run-stores_idle,
}
use recipe_reader.Tests.Repository.{session}
use recipe_reader.Pipeline.Run.{Pipeline}
use recipe_reader.Pipeline.Worker.{begin, new_worker, run_once}
use recipe_reader.Pipeline.Worker.Outcomes.{Reports, run_once-Reports}
use recipe_reader.Pipeline.Worker.Interleaving.{
  start, Reach, here, then_, begins, IsSound, Reach-IsSound, Reach-begins, IsCool,
}
use recipe_reader.World.{background}
use recipe_reader.Tests.Simulation.{
  ascii, hundredths, Sim, empty_sim, post_a, post_b, sample_recipe, vegan_row, create_sim,
  sim_pipeline,
}

sanitize_name_runs : sanitize_name (codes "  Omas\n Brot ") 6 ≡ codes "Omas B"
unfolding sanitize_name fields_from
sanitize_name_runs = refl

resolve_runs :
    resolve ascii (vocabulary_of ascii (ok (vegan_row ∷ []))) (codes "vegan" ∷ codes "Spam" ∷ [])
    ≡ codes "Vegan" ∷ []
unfolding resolve vocabulary_of fold_category sanitize_name fields_from
resolve_runs = refl

-- Two posts are imported, both degraded.
run_runs : (run ascii hundredths background sim_pipeline empty_sim).0 ≡ (
  record { seen = 2; imported = 2; skipped = 0; no_recipe = 0; failed = 0; degraded = 2 },
  none,
)
unfolding run to_recipe resolve vocabulary_of fold_category sanitize_name fields_from contains
    import_post
run_runs = refl

to_recipe-IsBounded_example : IsBounded ascii (vegan_row ∷ []) sample_recipe.categories (
    to_recipe ascii hundredths sim_pipeline.thresholds post_a sample_recipe
      (vocabulary_of ascii (ok (vegan_row ∷ []))))
to_recipe-IsBounded_example =
    to_recipe-IsBounded ascii hundredths sim_pipeline.thresholds post_a sample_recipe
      (vegan_row ∷ [])

run-IsTally_example : IsTally (run ascii hundredths background sim_pipeline empty_sim).0.0
run-IsTally_example = run-IsTally ascii hundredths background sim_pipeline empty_sim

only : {A : Type 0} (P : A → Type 0) {a b : A} → some a ≡ some b → P a → P b
only P {a} {b} e h = subst P (some-injective a b e) h

create_sim-held : (b : Bool) (s : Text) (w : Sim) → (create_sim b s w).1.held ≡ w.held
create_sim-held true s w = refl
create_sim-held false s w = refl

create_sim-keeps :
    (h : ℕ) (b : Bool) (n : ℕ) (s : Text) (w : Sim)
    → w.held ≡ h
    → Created (λ m v. v.held ≡ h) n (create_sim b s w).0 (create_sim b s w).1
create_sim-keeps h true n s w e = e
create_sim-keeps h false n s w e = e

-- A run over the database of the repository's tests, with nothing beside it, for a post whose source
-- is stored and one whose source is new.
abbrev stored_pipeline : Pipeline ℕ (Session ℕ × Unit)
stored_pipeline = record {
  fetch_new_posts = λ w. ((post_a ∷ post_b ∷ [], none), w);
  extract = λ caption w. (ok sample_recipe, w);
  create = stores;
  list_categories = some (λ w. (ok (vegan_row ∷ []), w));
  thresholds = record { threshold = 60; publish_threshold = 80 };
  lock = none;
}

abbrev idle_pipeline : Pipeline ℕ (Session ℕ × Unit)
idle_pipeline = record stored_pipeline { fetch_new_posts = λ w. ((post_a ∷ [], none), w) }

stored-StoresRecipes : StoresRecipes background stored_pipeline
stored-StoresRecipes = record {
  creates = λ r w. refl;
  at_ctx = λ w. refl;
  at_fetch = λ w. refl;
  at_extract = λ c w. refl;
  at_list = λ list e w. only (λ l. (l w).1.0.store.recipes ≡ w.0.store.recipes) e refl;
  at_acquire = λ lock e w. cc e;
  at_release = λ lock e w. cc e;
}

idle-StoresRecipes : StoresRecipes background idle_pipeline
idle-StoresRecipes = record {
  creates = λ r w. refl;
  at_ctx = λ w. refl;
  at_fetch = λ w. refl;
  at_extract = λ c w. refl;
  at_list = λ list e w. only (λ l. (l w).1.0.store.recipes ≡ w.0.store.recipes) e refl;
  at_acquire = λ lock e w. cc e;
  at_release = λ lock e w. cc e;
}

run-stores-Grown_example :
    let done = run ascii hundredths background stored_pipeline (session, tt) in
    Grown (codes "a" ∷ []) done.0.0.imported (newest_sources done.1)
run-stores-Grown_example =
    run-stores-Grown ascii hundredths background stored_pipeline stored-StoresRecipes (session, tt)

run-stores_idle_example :
    let done = run ascii hundredths background idle_pipeline (session, tt) in
    (done.0.0.imported ≡ 0) × (newest_sources done.1 ≡ codes "a" ∷ [])
run-stores_idle_example =
    run-stores_idle ascii hundredths background idle_pipeline idle-StoresRecipes (session, tt)
      (λ w. (refl, tt))

sim-LockLaws : (lock : ImportLock Sim) → sim_pipeline.lock ≡ some lock → LockLaws (λ w. w.held) lock
unfolding contains
sim-LockLaws lock e = only (LockLaws (λ w. w.held)) e (record {
  at_taken = λ w h. refl;
  at_held_elsewhere = λ w h. cc;
  at_unavailable = λ w x h. cc;
  at_release = λ w. refl;
})

sim_held : (h : ℕ) → Keeps background sim_pipeline Anything (λ n w. w.held ≡ h)
unfolding contains
sim_held h = record {
  at_ctx = λ n w e. e;
  at_fetch = λ n w e. e;
  at_list = λ list q n w e. only (λ l. (l w).1.held ≡ h) q e;
  at_extract = λ n c w e. e;
  at_create = λ n r w a e. create_sim-keeps h (contains w.sources r.source) n r.source w e;
}

held-run_example : (run ascii hundredths background sim_pipeline empty_sim).1.held ≡ 0
held-run_example =
    held-run ascii hundredths background sim_pipeline (λ w. w.held) sim_held sim-LockLaws empty_sim

abbrev sim_clock : Sim → ℕ × Sim
sim_clock w = (1000, w)

run_once-Reports_example :
    let done =
      (run_once sim_clock (run ascii hundredths background sim_pipeline) new_worker empty_sim).0 in
    Reports new_worker done.1 done.0.0 done.0.1
run_once-Reports_example =
    run_once-Reports sim_clock (run ascii hundredths background sim_pipeline) new_worker empty_sim

first_run :
    Reach start (record start { worker = record new_worker { running = true }; in_flight = 1 })
unfolding begin
first_run = then_ here (begins (record new_worker { running = true }) refl)

Reach-IsSound_example :
    IsSound (record start { worker = record new_worker { running = true }; in_flight = 1 })
Reach-IsSound_example = Reach-IsSound first_run

Reach-begins_example : (start.in_flight ≡ 0) × IsCool start.throttled start.now
unfolding begin
Reach-begins_example = Reach-begins {s = start} {k = record new_worker { running = true }} here refl

-- A throttled fetch is reported as such, although the fetch marker is in the chain too.
classify_throttled :
    (classify (some (wrap2 (sentinel Sentinel.fetch) (wrap (sentinel Sentinel.rate_limited))))).0
    ≡ failure_rate_limited
unfolding classify errors_is
classify_throttled = refl
