-- ===== src/Instagram/Saved/Decode.antt =====
-- `decodeSavedPost` and the shape of a feed item, internal/instagram/saved.go.
use recipe_reader.Common.{List, [], ◌∷◌, ◌++◌, Option, none, some, if◌then◌else◌}
use recipe_reader.Text.{Text, codes, is_empty}
use recipe_reader.Errors.{Result, ok, err, Sentinel, sentinel, wrap}
use recipe_reader.Instagram.Types.{SavedPost}

-- `mediaObject`: the caption's text and the candidates' addresses, absent or null being `none`.
pub record MediaObject : Type 0 where
  pub code : Text
  pub caption : Option Text
  pub image_versions2 : Option (List Text)

-- `savedFeedItem`: the wrapped media, and the embedded one.
pub record SavedFeedItem : Type 0 where
  pub media : Option MediaObject
  pub media_object : MediaObject

unfoldable pub permalink : Text → Text
permalink c = codes "https://www.instagram.com/p/" ++ (c ++ codes "/")

abbrev pub first_image : Option (List Text) → Text
first_image none = []
first_image (some []) = []
first_image (some (url ∷ urls)) = url

abbrev pub caption_text : Option Text → Text
caption_text none = []
caption_text (some t) = t

unfoldable pub media_post : MediaObject → Result SavedPost
media_post m =
    if is_empty m.code
    then err (sentinel Sentinel.no_media_code)
    else ok (record {
      source = permalink m.code;
      caption = caption_text m.caption;
      image_url = first_image m.image_versions2;
    })

abbrev pub chosen_media : SavedFeedItem → MediaObject
chosen_media item = elim item.media [ none ↦ item.media_object | some m ↦ m ]

-- `decodeSavedPost`, of what encoding/json made of the item.
unfoldable pub decode_saved_post : Result SavedFeedItem → Result SavedPost
unfolding media_post
decode_saved_post (err e) = err (wrap e)
decode_saved_post (ok item) = media_post (chosen_media item)
