-- ===== src/Gallery/Shortlist.antt =====
-- gallery.py: `_build_shortlist`. The sort is that of Python, stable and from the highest score down.
pub mod Ranked
use marketer.Prelude.{
  ℕ, String, Bool, true, false, Option, none, some, List, [], ◌∷◌, length, take, is_empty, ltb,
  if◌then◌else◌,
}
use marketer.Value.{
  ℤ, Value, null, str, obj, Fields, Result, ok, err, attribute_error, value_error, truthy, get,
  or_empty, ◌>>=◌,
}
use marketer.Reasoner.Clone.{find_field}
use marketer.Gallery.{Moment, is_eligible}
use marketer.Gallery.Score.{TaskContext, score_image}

-- `GalleryPoolItem`
pub record PoolItem : Type 0 where
  pub uuid : String
  pub content_url : String
  pub category : String
  pub description : Option String
  pub used_at : Option String
  pub metadata : Value
  pub score : ℕ

abbrev pub Scored : Type 0
Scored = ℕ × Fields

-- `x` before the first that does not score higher: those that score the same came later
unfoldable pub insert_ranked : Scored → List Scored → List Scored
insert_ranked x [] = x ∷ []
insert_ranked x (y ∷ ys) =
    let rest = insert_ranked x ys in if ltb x.0 y.0 then y ∷ rest else x ∷ y ∷ ys

-- `scored.sort(key=..., reverse=True)`
unfoldable pub rank : List Scored → List Scored
unfolding insert_ranked
rank [] = []
rank (x ∷ xs) = insert_ranked x (rank xs)

-- A field that pydantic takes as a text, or as a text or None.
abbrev as_text : Value → Result String
as_text (str s) = ok s
as_text v = err value_error

abbrev as_text_option : Value → Result (Option String)
as_text_option null = ok none
as_text_option (str s) = ok (some s)
as_text_option v = err value_error

-- `item.get(k, "")`
abbrev text_or_blank : Option Value → Result String
text_or_blank none = ok ""
text_or_blank (some v) = as_text v

-- `v or ""`
abbrev blank_or : Value → Value
blank_or v = if truthy v then v else str ""

abbrev as_dict : Value → Result Value
as_dict (obj fs) = ok (obj fs)
as_dict v = err value_error

unfoldable pub pool_item : Scored → Result PoolItem
unfolding find_field
pool_item (score, item) = text_or_blank (find_field "uuid" item) >>= (λ uuid.
    text_or_blank (find_field "content" item) >>= (λ url.
      as_text (blank_or (get "category" item)) >>= (λ category.
        as_text_option (get "description" item) >>= (λ description.
          as_text_option (get "used_at" item) >>= (λ used_at.
            as_dict (or_empty (get "metadata" item)) >>= (λ metadata. ok (record {
              uuid = uuid;
              content_url = url;
              category = category;
              description = description;
              used_at = used_at;
              metadata = metadata;
              score = score;
            })))))))

unfoldable pub pool_items : List Scored → Result (List PoolItem)
unfolding pool_item
pool_items [] = ok []
pool_items (x ∷ xs) = pool_item x >>= (λ i. pool_items xs >>= (λ is. ok (i ∷ is)))

module _ (from_iso : String → Option Moment) (lower : String → String) where
  -- `[item for item in raw_items if is_eligible(item, now)]`
  unfoldable pub eligible_items : ℤ → List Value → Result (List Fields)
  eligible_items now [] = ok []
  eligible_items now (obj item ∷ vs) =
      is_eligible from_iso item now
      >>= (λ b. eligible_items now vs >>= (λ es. ok (if b then item ∷ es else es)))
  eligible_items now (v ∷ vs) = err attribute_error

  unfoldable pub score_items : TaskContext → List Fields → Result (List Scored)
  score_items ctx [] = ok []
  score_items ctx (e ∷ es) =
      score_image lower ctx e >>= (λ n. score_items ctx es >>= (λ ss. ok ((n, e) ∷ ss)))

  abbrev pub shortlist_of : TaskContext → ℕ → List Fields → Result (List PoolItem × ℕ)
  shortlist_of ctx candidates es =
      if is_empty es
      then ok ([], 0)
      else score_items ctx es
        >>= (λ ss. pool_items (take candidates (rank ss)) >>= (λ l. ok (l, length es)))

  unfoldable pub build_shortlist : TaskContext → ℤ → ℕ → List Value → Result (List PoolItem × ℕ)
  build_shortlist ctx now candidates raw =
      eligible_items now raw >>= (λ es. shortlist_of ctx candidates es)
