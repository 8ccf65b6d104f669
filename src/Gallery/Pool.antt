-- ===== src/Gallery/Pool.antt =====
-- gallery.py: `fetch_gallery_pool`, from what the request came to. The reading of the clock is an
-- argument.
pub mod Unzoned
pub mod Warned
use marketer.Prelude.{
  ℕ, zero, String, Bool, true, false, ◌&&◌, not, Option, none, some, List, [], leb, ltb, eqb,
  length, if◌then◌else◌,
}
use marketer.Value.{
  ℤ, pos, negsuc, Value, null, str, bool, int, float, obj, arr, nil, Items, Fields, Result, ok, err,
  type_error, truthy, to_list, get, ◌>>=◌,
}
use marketer.Gallery.{Moment}
use marketer.Gallery.Score.{TaskContext}
use marketer.Gallery.Shortlist.{PoolItem, build_shortlist}

-- What `client.get` came to: an exception, or a status with the body, if that is JSON.
pub data Fetched : Type 0 where
  request_failed : Fetched
  responded : ℕ → Option Value → Fetched

pub record GalleryPool : Type 0 where
  pub shortlist : List PoolItem
  pub total_fetched : ℕ
  pub total_eligible : ℕ
  pub truncated : Bool

-- `(pool, warning_code)`
abbrev pub Fetch : Type 0
Fetch = Option GalleryPool × Option String

-- `raw_items`: a list, or the results of a page
abbrev results_in : Value → List Value
results_in (arr vs) = to_list vs
results_in _ = []

unfoldable pub raw_items : Value → List Value
raw_items (arr vs) = to_list vs
raw_items (obj fs) = results_in (get "results" fs)
raw_items _ = []

unfoldable pub api_total : Value → Value
api_total (obj fs) = get "total_items" fs
api_total _ = null

abbrev exceeds : ℤ → ℕ → Bool
exceeds (pos m) n = ltb n m
exceeds (negsuc m) n = false

-- `api_total_items > total_fetched` when there is a total; a full page otherwise. `above` compares a
-- float with a whole number.
unfoldable pub is_truncated : (Result ℤ → ℕ → Bool) → Value → ℕ → ℕ → Result Bool
is_truncated above null fetched page_size = ok (leb page_size fetched)
is_truncated above (int z) fetched page_size = ok (exceeds z fetched)
is_truncated above (bool true) fetched page_size = ok (eqb fetched 0)
is_truncated above (bool false) fetched page_size = ok false
is_truncated above (float nonzero r) fetched page_size = ok (above r fetched)
is_truncated above _ fetched page_size = err type_error

abbrev pub warning_of : Bool → ℕ → Option String
warning_of true eligible = some "gallery_pool_truncated"
warning_of false zero = some "gallery_pool_empty"
warning_of false _ = none

module _ (from_iso : String → Option Moment) (lower : String → String) (above : Result ℤ → ℕ → Bool)
    (ctx : TaskContext) (now : ℤ) (candidates page_size : ℕ) where
  abbrev pub pool_of : List Value → Bool → List PoolItem × ℕ → Fetch
  pool_of raw truncated (items, eligible) = (
    some (record {
      shortlist = items;
      total_fetched = length raw;
      total_eligible = eligible;
      truncated = truncated;
    }),
    warning_of truncated eligible,
  )

  -- what is made of a body
  unfoldable pub read_body : Value → Result Fetch
  read_body body =
      is_truncated above (api_total body) (length (raw_items body)) page_size >>= (λ truncated.
        build_shortlist from_iso lower ctx now candidates (raw_items body)
        >>= (λ r. ok (pool_of (raw_items body) truncated r)))

  abbrev pub read_parsed : Option Value → Result Fetch
  read_parsed none = ok (none, some "gallery_api_unavailable")
  read_parsed (some body) = read_body body

  unfoldable pub fetch_gallery_pool : Fetched → Result Fetch
  fetch_gallery_pool request_failed = ok (none, some "gallery_api_unavailable")
  fetch_gallery_pool (responded status body) =
      if eqb status 404
      then ok (none, some "gallery_api_not_found")
      else if leb 400 status
      then ok (none, some "gallery_api_unavailable")
      else read_parsed body
