-- ===== src/Gallery/Pool/Unzoned.antt =====
-- gallery.py and main.py: an image that is locked until a time without an offset.
use marketer.Prelude.{
  ℕ, String, Bool, false, Option, none, some, List, [], ◌∷◌, ◌++◌, ◌≡◌, refl, ◌==◌, eqb, leb,
  length, arith, if◌then◌else◌,
}
use marketer.Value.{ℤ, Value, null, str, obj, Fields, Result, ok, err, type_error, get, ◌>>=◌}
use marketer.Text.{replace_from}
use marketer.Gallery.{Moment, naive, parse_dt, is_eligible}
use marketer.Gallery.Score.{TaskContext}
use marketer.Gallery.Shortlist.{eligible_items, build_shortlist}
use marketer.Gallery.Pool.{
  responded, api_total, raw_items, is_truncated, read_body, fetch_gallery_pool,
}
use marketer.Dispatch.Background.{resolve_gallery}

module _ (from_iso : String → Option Moment) (lower : String → String) (now : ℤ) where
  -- An unused image with a lock whose time has no offset.
  pub record IsUnzoned (item : Fields) : Type 0 where
    pub type_lem : get "type" item ≡ str "img"
    pub unused_lem : get "used_at" item ≡ null
    pub until : String
    pub until_lem : get "locked_until" item ≡ str until
    pub given : (until == "") ≡ false
    pub time : ℤ
    pub naive_lem : from_iso (replace_from "Z" "+00:00" 0 until) ≡ some (naive time)

  is_eligible_raises :
      (item : Fields) → IsUnzoned item → is_eligible from_iso item now ≡ err type_error
  unfolding is_eligible parse_dt
  is_eligible_raises item u =
      rw u.type_lem
        (rw u.unused_lem (rw (u.until_lem, parse_dt) (rw u.given (rw u.naive_lem refl))))

  step_raises :
      (x : Fields) (r : Result Bool) (q q' : Result (List Fields)) (es : List Fields)
      → (r >>= (λ b. q >>= (λ ys. ok (if b then x ∷ ys else ys)))) ≡ ok es
      → ((ys : List Fields) → q ≡ ok ys → q' ≡ err type_error)
      → (r >>= (λ b. q' >>= (λ ys. ok (if b then x ∷ ys else ys)))) ≡ err type_error
  step_raises x (err e) q q' es h f = cc
  step_raises x (ok b) (err e) q' es h f = cc
  step_raises x (ok b) (ok ys) q' es h f = rw (f ys refl) refl

  eligible_items_raises :
      (before : List Value) (item : Fields) (after : List Value) (es : List Fields)
      → IsUnzoned item
      → eligible_items from_iso lower now before ≡ ok es
      → eligible_items from_iso lower now (before ++ obj item ∷ after) ≡ err type_error
  unfolding eligible_items
  eligible_items_raises [] item after es u h = rw (is_eligible_raises item u) refl
  eligible_items_raises (obj x ∷ vs) item after es u h =
      step_raises x (is_eligible from_iso x now) (eligible_items from_iso lower now vs) _ es h
        (λ ys k. eligible_items_raises vs item after ys u k)
  eligible_items_raises (v ∷ vs) item after es u h = cc

  -- One unused image that is locked until a time without an offset makes the whole pool unavailable,
  -- if the items before it can be read and the answer is otherwise good: the comparison raises, and
  -- the background task goes on without a gallery.
  pub fetch_gallery_pool_unzoned :
      (above : Result ℤ → ℕ → Bool) (ctx : TaskContext) (candidates page_size status : ℕ)
      (body : Value) (before after : List Value) (item : Fields) (es : List Fields) (b : Bool)
      → IsUnzoned item
      → raw_items body ≡ before ++ obj item ∷ after
      → eligible_items from_iso lower now before ≡ ok es
      → is_truncated above (api_total body) (length (raw_items body)) page_size ≡ ok b
      → leb 400 status ≡ false
      → resolve_gallery (
          fetch_gallery_pool from_iso lower above ctx now candidates page_size
            (responded status (some body)))
        ≡ (none, some "gallery_api_unavailable")
  unfolding resolve_gallery fetch_gallery_pool read_body build_shortlist
  fetch_gallery_pool_unzoned above ctx candidates page_size status body before after item es b u r h
        t s =
      let n : eqb status 404 ≡ false = ground arith in
      let e = eligible_items_raises before item after es u h in
      rw n (rw s (rw t (rw r (rw e refl))))
