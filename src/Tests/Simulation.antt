-- ===== src/Tests/Simulation.antt =====
-- A small world that stands for the collaborators: the stored sources, the locks held and the
-- cursors sent.
use recipe_reader.Common.{
  ℕ, ◌+◌, ◌-◌, ◌*◌, ◌/◌, min, Bool, true, false, List, [], ◌∷◌, Option, none, some, if◌then◌else◌,
  ltb, leb, ◌==◌, ◌&&◌, ◌||◌, refl, arith,
}
use recipe_reader.Text.{Text, Unicode, codes}
use recipe_reader.Float.{Float, FloatLaws}
use recipe_reader.Errors.{Error, ok, Sentinel, sentinel}
use recipe_reader.Domain.{Category}
use recipe_reader.Extraction.Types.{ExtractedRecipe}
use recipe_reader.Instagram.Types.{SavedPost}
use recipe_reader.Pipeline.Run.{Pipeline, ImportLock, taken}
use recipe_reader.Pipeline.Run.Storage.{contains}

-- ASCII letters and digits.
abbrev pub ascii : Unicode
ascii = record {
  is_letter = λ c. (leb b'a' c && leb c b'z') || (leb b'A' c && leb c b'Z');
  is_digit = λ c. leb b'0' c && leb c b'9';
  is_number = λ c. leb b'0' c && leb c b'9';
  to_lower_rune = λ c. if leb b'A' c && leb c b'Z' then c + 32 else c;
}

-- The value of a text of digits, with a number in front of it.
abbrev pub decimal : ℕ → Text → ℕ
decimal n [] = n
decimal n (c ∷ s) = decimal (n * 10 + (c - b'0')) s

-- Confidences in hundredths.
abbrev pub hundredths : Float ℕ
hundredths = record {
  zero = 0;
  one = 100;
  lt = ltb;
  le = leb;
  is_nan = λ x. false;
  add = λ x y. x + y;
  mul = λ x y. x * y / 100;
  div = λ x y. x * 100 / y;
  min = min;
  of_int = λ n. n * 100;
  eq = ◌==◌;
  percent = λ n. n;
  parse = λ t. 100 * decimal 0 t;
}

pub hundredths-FloatLaws : FloatLaws hundredths
hundredths-FloatLaws = record {
  zero_number = refl;
  one_number = refl;
  zero-le-one = refl;
  zero-lt-zero = refl;
  one-lt-zero = refl;
  le_refl = λ x n. ground arith;
  le_of_not_lt = λ x y m n h. ground arith;
  lt_of_not_le = λ x y m n h. ground arith;
  le_trans = λ x y z h k. ground arith;
  min_number = λ x y m n. refl;
  min-le_left = λ x y m n. ground arith;
  min-le_right = λ x y m n. ground arith;
  half-zero = refl;
  zero-add = refl;
  zero-mul = refl;
}

pub record Sim : Type 0 where
  pub sources : List Text
  pub held : ℕ
  pub sent : List Text

abbrev pub empty_sim : Sim
empty_sim = record { sources = []; held = 0; sent = [] }

abbrev pub post_a : SavedPost
post_a = record { source = codes "a"; caption = codes "Zutaten"; image_url = [] }

abbrev pub post_b : SavedPost
post_b = record { source = codes "b"; caption = []; image_url = [] }

abbrev pub sample_recipe : ExtractedRecipe ℕ
sample_recipe = record {
  name = codes "Brot";
  ingredients = record { name = codes "Mehl"; amount = 300; unit = codes "g" } ∷ [];
  instructions = codes "Backen.";
  categories = codes "vegan" ∷ codes "Spam" ∷ [];
  confidence = 90;
  degraded = true;
}

abbrev pub vegan_row : Category
vegan_row = record { id = 7; name = codes "Vegan" }

abbrev pub create_sim : Bool → Text → Sim → Option Error × Sim
create_sim true source w = (some (sentinel Sentinel.duplicate_source), w)
create_sim false source w = (none, record w { sources = source ∷ w.sources })

abbrev pub sim_lock : ImportLock Sim
sim_lock = record {
  try_acquire = λ w. (taken, record w { held = w.held + 1 });
  release = λ w. record w { held = w.held - 1 };
}

-- Two posts, both of which hold a recipe; Create refuses a source that is stored.
abbrev pub sim_pipeline : Pipeline ℕ Sim
unfolding contains
sim_pipeline = record {
  fetch_new_posts = λ w. ((post_a ∷ post_b ∷ [], none), w);
  extract = λ caption w. (ok sample_recipe, w);
  create = λ r w. create_sim (contains w.sources r.source) r.source w;
  list_categories = some (λ w. (ok (vegan_row ∷ []), w));
  thresholds = record { threshold = 60; publish_threshold = 80 };
  lock = some sim_lock;
}
