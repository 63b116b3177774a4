-- ===== src/Tests/Instagram.antt =====
-- internal/instagram at concrete inputs.
use recipe_reader.Common.{◌≡◌, refl, subst, Bool, [], ◌∷◌, none, some, pos}
use mathlib.Core.Option.{some-injective}
use recipe_reader.Text.{Text, codes, text_eq}
use recipe_reader.Errors.{Error, ok, err, Sentinel, sentinel}
use recipe_reader.Instagram.Saved.Decode.{SavedFeedItem, permalink, decode_saved_post}
use recipe_reader.Instagram.Saved.{
  Feed, FetchOptions, SavedFeedPage, page_media, collect, is_old, advance, fetch_page, take_post,
}
use recipe_reader.Instagram.Saved.Progress.{SendLaws, Sent, page_media-Sent}
use recipe_reader.Instagram.Saved.Novelty.{IsNew, page_media-IsNew}
use recipe_reader.Instagram.Saved.Drift.{Failed, Offers, page_media-Failed}
use recipe_reader.World.{background}
use recipe_reader.Tests.Simulation.{Sim, empty_sim}

-- A feed of one page that it hands out again and again, with the same cursor.
abbrev looping_page : SavedFeedPage Text
looping_page = record { items = codes "x" ∷ codes "y" ∷ codes "x" ∷ []; next_max_id = codes "c" }

abbrev media : Text → SavedFeedItem
media c = record {
  media = none;
  media_object = record { code = c; caption = none; image_versions2 = none };
}

abbrev looping : Feed Sim Text Text
looping = record {
  request = λ endpoint m w. (ok endpoint, record w { sent = m ∷ w.sent });
  unmarshal_page = λ res. ok looping_page;
  unmarshal_item = λ raw. ok (media raw);
}

-- The same feed after a change of its items that leaves no code in them.
abbrev drifted : Feed Sim Text Text
drifted = record looping { unmarshal_item = λ raw. ok (media []) }

abbrev known_y : Text → Bool
known_y s = text_eq s (codes "https://www.instagram.com/p/y/")

abbrev options : FetchOptions Sim
options = record { max_items = pos 5; max_pages = pos 0; known = some (λ s w. (known_y s, w)) }

-- Two requests: the second answers with the first cursor, and the walk ends.
page_media_runs : (page_media background looping options (codes "feed") empty_sim) ≡ (
  (
    record { source = codes "https://www.instagram.com/p/x/"; caption = []; image_url = [] } ∷ [],
    none,
  ),
  record { sources = []; held = 0; sent = codes "c" ∷ [] ∷ [] },
)
unfolding page_media fetch_page collect decode_saved_post is_old take_post advance permalink
page_media_runs = refl

only : {A : Type 0} (P : A → Type 0) {a b : A} → some a ≡ some b → P a → P b
only P {a} {b} e h = subst P (some-injective a b e) h

looping_sends : SendLaws background looping options (λ w. w.sent)
looping_sends = record {
  at_request = λ endpoint m w. refl;
  at_ctx = λ w. refl;
  at_known = λ known e s w. only (λ (k : Text → Sim → Bool × Sim). (k s w).1.sent ≡ w.sent) e refl;
}

page_media-Sent_example :
    Sent 100 [] (page_media background looping options (codes "feed") empty_sim).1.sent
unfolding page_media
page_media-Sent_example =
    page_media-Sent background looping options (λ w. w.sent) looping_sends (codes "feed") empty_sim

known_stable :
    (known : Text → Sim → Bool × Sim)
    → options.known ≡ some known
    → (s : Text) (w : Sim) → (known s w).0 ≡ known_y s
known_stable known e s w = only (λ (k : Text → Sim → Bool × Sim). (k s w).0 ≡ known_y s) e refl

page_media-IsNew_example :
    IsNew known_y (page_media background looping options (codes "feed") empty_sim).0.0
page_media-IsNew_example =
    page_media-IsNew background looping options known_y known_stable ((λ s w. (known_y s, w)), refl)
      (codes "feed") empty_sim

no_codes : (raw : Text) → (e : Error) × (decode_saved_post (drifted.unmarshal_item raw) ≡ err e)
unfolding decode_saved_post
no_codes raw = (sentinel Sentinel.no_media_code, refl)

drifted-Offers : Offers background drifted (codes "feed") empty_sim
drifted-Offers = record {
  response = codes "feed";
  page = looping_page;
  raw = codes "x";
  raws = codes "y" ∷ codes "x" ∷ [];
  running = refl;
  answered = refl;
  decoded = refl;
  items = refl;
}

page_media-Failed_example :
    Failed (page_media background drifted options (codes "feed") empty_sim).0
page_media-Failed_example =
    page_media-Failed background drifted options no_codes (codes "feed") empty_sim drifted-Offers
