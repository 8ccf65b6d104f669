-- ===== src/Tests/Normals.antt =====
-- Raw images and channels of an envelope.
use marketer.Prelude.{String, true, Option, none, some, List, [], ◌∷◌, ◌≡◌, refl, All, length}
use marketer.Value.{str, obj, arr, null, cons, nil, Fields, end, field, ok, ◌>>=◌}
use marketer.Text.{has_substring}
use marketer.Normalizer.Clean.{clean_string}
use marketer.Normalizer.Images.Allowed.{Answers}
use marketer.Normalizer.Images.Usable.{IsUsable}
use marketer.Normalizer.Sources.{
  collect_raw_images, extract_image_list_from, normalize_attachment_urls, gallery_of,
}
use marketer.Normalizer.Sources.Roles.{gallery_of-IsUsable}
use marketer.Context.{AvailableChannel}
use marketer.Normalizer.Images.{
  PathParser, Sanitized, sanitize_gallery_item, is_allowed_image, extension_from_url,
  after_last_dot, scan_gallery, sanitize_gallery,
}
use marketer.Normalizer.Images.Kept.{IsGallery, sanitize_gallery-IsGallery}
use marketer.Normalizer.Channels.{is_kept, has_kind, profile_handle, merge_channels}
use marketer.Normalizer.Channels.Merged.{given_here, kept_here, merge_channels_complete}

abbrev same : String → String
same s = s

abbrev web_path : PathParser
web_path u = ok ("https", "a.es", "/door.png")

abbrev image : String → Fields × String
image url = (field "url" (str url) end, "content")

abbrev images : List (Fields × String)
images = image "u1" ∷ image "u2" ∷ image "u1" ∷ (end, "content") ∷ []

kept_images : (g : Sanitized) × (sanitize_gallery same web_path images ≡ ok g)
unfolding sanitize_gallery scan_gallery sanitize_gallery_item
kept_images = (_, refl)

sanitize_gallery-IsGallery_example : IsGallery same web_path images kept_images.0
sanitize_gallery-IsGallery_example =
    sanitize_gallery-IsGallery same web_path images kept_images.0 kept_images.1

abbrev offered : List AvailableChannel
offered =
    (record { channel = "website"; url_or_handle = some "http://old"; label_hint = none }) ∷ []

abbrev given : List (String × Option String)
given = ("website", some "http://new") ∷ ("email", some "a@b.es") ∷ []

merge_channels_complete_example :
    All (λ c. is_kept c ≡ true) (merge_channels given offered)
    × (has_kind "dm" (merge_channels given offered) ≡ true)
    × (has_kind "link_sticker" (merge_channels given offered) ≡ true)
    × (given_here given offered "email" (profile_handle "email" given) ≡ true)
    × All (λ c. kept_here given offered c (profile_handle c.channel given) ≡ true) offered
merge_channels_complete_example = merge_channels_complete given offered "email"

abbrev image_payload : Fields
image_payload =
    field "action_execution_gates"
      (obj (
        field "gallery"
          (obj (
            field "response"
              (obj (field "data" (arr (cons (obj (field "url" (str "u1") end)) nil)) end)) end))
          end))
      (field "client_request"
        (obj (field "attachments" (arr (cons (str " u2 ") (cons (str "u1") (cons null nil)))) end))
        (field "images" (arr (cons (obj (field "url" (str "u3") end)) (cons (str "u4") nil))) end))

collects :
    collect_raw_images same image_payload
    ≡ ok (
        (field "url" (str "u1") end, "content")
        ∷ (field "url" (str "u2") end, "unknown")
        ∷ (field "url" (str "u1") end, "unknown")
        ∷ (field "url" (str "u3") end, "unknown")
        ∷ [])
unfolding collect_raw_images extract_image_list_from normalize_attachment_urls clean_string
collects = refl

-- The payload has a gallery of three images.
counted : (gallery_of same web_path image_payload >>= (λ g. ok (length g.accepted))) ≡ ok 3
unfolding collect_raw_images extract_image_list_from normalize_attachment_urls clean_string
    sanitize_gallery scan_gallery sanitize_gallery_item is_allowed_image extension_from_url
    after_last_dot has_substring
counted = refl

gallery_of-IsUsable_example :
    Answers (λ g. All IsUsable g.accepted) (gallery_of same web_path image_payload)
gallery_of-IsUsable_example = gallery_of-IsUsable same web_path image_payload
