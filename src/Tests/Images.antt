-- ===== src/Tests/Images.antt =====
-- A gallery with two free images, one of which scores.
use marketer.Prelude.{ℕ, String, Bool, false, Option, none, some, List, [], ◌∷◌, ◌≡◌, refl}
use marketer.Value.{ℤ, pos, Value, null, str, arr, obj, cons, nil, Fields, end, field, Result, ok}
use marketer.Text.{has_substring}
use marketer.Dispatch.Background.{resolve_gallery}
use marketer.Gallery.{Moment, naive, parse_dt, is_eligible}
use marketer.Gallery.Score.{TaskContext, score_image}
use marketer.Gallery.Shortlist.{
  PoolItem, rank, pool_items, eligible_items, score_items, build_shortlist,
}
use marketer.Gallery.Shortlist.Ranked.{IsShortlist, build_shortlist-IsShortlist}
use marketer.Gallery.Pool.{
  Fetch, Fetched, responded, raw_items, api_total, is_truncated, read_body, fetch_gallery_pool,
}
use marketer.Gallery.Pool.Warned.{Warned, fetch_gallery_pool-Warned}
use marketer.Gallery.Pool.Unzoned.{IsUnzoned, fetch_gallery_pool_unzoned}

abbrev same : String → String
same s = s

abbrev no_offset : String → Option Moment
no_offset s = some (naive (pos 5))

abbrev below : Result ℤ → ℕ → Bool
below r n = false

abbrev spring : TaskContext
spring = record {
  user_request = str "spring door";
  brief_keywords = [];
  brief_tone = "";
  brief_design_style = null;
}

abbrev image : String → Fields → Fields
image id rest =
    field "type" (str "img")
      (field "uuid" (str id) (field "metadata" (obj (field "subject" (str "a door") end)) rest))

abbrev plain : Fields
plain = field "type" (str "img") (field "uuid" (str "a") end)

abbrev two_images : List Value
two_images = obj plain ∷ obj (image "b" end) ∷ []

abbrev locked : Fields
locked = image "c" (field "locked_until" (str "2030-01-01T00:00:00") end)

two_shortlist :
    (items : List PoolItem) × (total : ℕ) × (build_shortlist no_offset same spring
        (pos 7)
        1
        two_images
      ≡ ok (items, total))
unfolding build_shortlist eligible_items is_eligible parse_dt score_items score_image pool_items
    rank has_substring
two_shortlist = (_, _, refl)

build_shortlist-IsShortlist_example :
    IsShortlist no_offset same spring (pos 7) 1 two_images two_shortlist.0 two_shortlist.1
build_shortlist-IsShortlist_example =
    build_shortlist-IsShortlist no_offset same spring (pos 7) 1 two_images two_shortlist.0
      two_shortlist.1 two_shortlist.2

abbrev page : Fetched
page = responded 200 (some (obj (field "results" (arr (cons (obj plain) nil)) end)))

one_pool : (r : Fetch) × (fetch_gallery_pool no_offset same below spring (pos 7) 5 50 page ≡ ok r)
unfolding fetch_gallery_pool read_body raw_items api_total is_truncated build_shortlist
    eligible_items is_eligible parse_dt score_items score_image pool_items rank
one_pool = (_, refl)

fetch_gallery_pool-Warned_example : Warned no_offset same below spring (pos 7) 5 50 one_pool.0
fetch_gallery_pool-Warned_example =
    fetch_gallery_pool-Warned no_offset same below spring (pos 7) 5 50 page one_pool.0 one_pool.1

locked-IsUnzoned : IsUnzoned no_offset same (pos 7) locked
locked-IsUnzoned = record {
  type_lem = refl;
  unused_lem = refl;
  until = "2030-01-01T00:00:00";
  until_lem = refl;
  given = refl;
  time = pos 5;
  naive_lem = refl;
}

abbrev locked_body : Value
locked_body = arr (cons (obj locked) nil)

fetch_gallery_pool_unzoned_example :
    resolve_gallery (
      fetch_gallery_pool no_offset same below spring
        (pos 7)
        5
        50
        (responded 200 (some locked_body)))
    ≡ (none, some "gallery_api_unavailable")
unfolding raw_items api_total is_truncated eligible_items
fetch_gallery_pool_unzoned_example =
    fetch_gallery_pool_unzoned no_offset same (pos 7) below spring 5 50 200 locked_body [] [] locked
      [] false locked-IsUnzoned refl refl refl refl
