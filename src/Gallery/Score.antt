-- ===== src/Gallery/Score.antt =====
-- gallery.py: `score_image`. The weights are whole, so that the scores are. `lower` is `str.lower`.
use Prim.Native.String.{◌++◌ as str_append}
use marketer.Prelude.{
  ℕ, ◌+◌, ◌*◌, String, Bool, ◌&&◌, ◌||◌, not, List, [], ◌∷◌, ◌++◌, map, filter, any, length,
  is_empty, contains, ◌==◌, if◌then◌else◌,
}
use marketer.Value.{
  Value, str, obj, arr, Items, cons, nil, Fields, end, field, Result, ok, err, attribute_error,
  type_error, truthy, get, get_attr, ◌>>=◌,
}
use marketer.Text.{has_substring}
use marketer.Gallery.Words.{long_words, common}

-- `task_context`, as main.py makes it: two of its values are taken from the JSON as they are.
pub record TaskContext : Type 0 where
  pub user_request : Value
  pub brief_keywords : List String
  pub brief_tone : String
  pub brief_design_style : Value

-- what `score_image` reads of it, in lower case
pub record Brief : Type 0 where
  pub user_request : String
  pub keywords : List String
  pub tone : String
  pub design_style : String

abbrev pub person_signals : List String
person_signals =
    "founder" ∷ "fundador" ∷ "team" ∷ "equipo" ∷ "persona" ∷ "person" ∷ "staff" ∷ "people" ∷ []

-- `" ".join(ws)`
unfoldable pub join_words : List String → String
join_words [] = ""
join_words (w ∷ ws) =
    let rest = join_words ws in if is_empty ws then w else str_append w (str_append " " rest)

-- the elements of `[... for t in v if isinstance(t, str)]` for a list; the characters of a text
abbrev texts_of : Items → List String
texts_of nil = []
texts_of (cons (str s) vs) = s ∷ texts_of vs
texts_of (cons v vs) = texts_of vs

abbrev keys_of : Fields → List String
keys_of end = []
keys_of (field k v fs) = k ∷ keys_of fs

abbrev characters : String → List String
characters String.[] = []
characters (String.◌∷◌ c s) = String.◌∷◌ c "" ∷ characters s

-- `for t in (v or [])`, the texts
unfoldable pub iterate_texts : Value → Result (List String)
iterate_texts (arr vs) = ok (texts_of vs)
iterate_texts (obj fs) = ok (keys_of fs)
iterate_texts (str s) = ok (characters s)
iterate_texts v = if truthy v then err type_error else ok []

-- `(v or "").lower()`
unfoldable pub lowered : (String → String) → Value → Result String
lowered lower (str s) = ok (lower s)
lowered lower v = if truthy v then err attribute_error else ok (lower "")

abbrev pub brief_of : (String → String) → TaskContext → Result Brief
brief_of lower ctx = lowered lower ctx.user_request >>= (λ request.
    lowered lower ctx.brief_design_style >>= (λ style. ok (record {
      user_request = request;
      keywords = map lower ctx.brief_keywords;
      tone = lower ctx.brief_tone;
      design_style = style;
    })))

module _ (lower : String → String) (brief : Brief) where
  unfoldable pub request_tokens : List String
  unfolding long_words
  request_tokens = long_words brief.user_request

  abbrev pub scoring_tokens : List String
  scoring_tokens = request_tokens ++ brief.keywords

  -- a tag that is a token or part of one
  abbrev pub tag_hits : String → Bool
  tag_hits tag = contains tag scoring_tokens || any (λ tok. has_substring tag tok) scoring_tokens

  abbrev pub tag_score : List String → ℕ
  tag_score tags = length (filter (λ t. tag_hits (lower t)) tags) * 3

  -- the tokens of the request that a text contains
  abbrev pub mentions : String → ℕ
  mentions text =
      if text == "" then 0 else length (filter (λ tok. has_substring tok text) request_tokens)

  abbrev pub tone_hits : String → ℕ
  tone_hits mood =
      if mood == "" || brief.tone == ""
      then 0
      else length (common (long_words brief.tone) (long_words mood))

  abbrev pub all_context : String
  all_context = str_append brief.user_request (str_append " " (join_words brief.keywords))

  abbrev pub people_score : String → ℕ
  people_score people =
      if not (people == "") && any (λ sig. has_substring sig all_context) person_signals
      then 2
      else 0

  abbrev pub category_score : String → ℕ
  category_score category =
      if not (is_empty (common (long_words category) scoring_tokens)) then 1 else 0

  abbrev pub style_score : String → ℕ
  style_score style =
      if not (is_empty (common (long_words style) (long_words brief.design_style))) then 1 else 0

  abbrev pub score_metadata : Fields → Value → Result ℕ
  score_metadata item metadata = get_attr "tags" metadata >>= (λ t. iterate_texts t >>= (λ tags.
      lowered lower (get "description" item) >>= (λ description.
        get_attr "subject" metadata >>= (λ s. lowered lower s >>= (λ subject.
          get_attr "mood" metadata >>= (λ m. lowered lower m >>= (λ mood.
            get_attr "people" metadata >>= (λ p. lowered lower p >>= (λ people.
              lowered lower (get "category" item) >>= (λ category.
                get_attr "style" metadata >>= (λ y. lowered lower y >>= (λ style. ok (
                  tag_score tags
                  + mentions description * 3
                  + mentions subject * 2
                  + tone_hits mood * 2
                  + people_score people
                  + category_score category
                  + style_score style)))))))))))))

-- An item without metadata scores 0.
unfoldable pub score_image : (String → String) → TaskContext → Fields → Result ℕ
unfolding request_tokens lowered iterate_texts join_words
score_image lower ctx item =
    if truthy (get "metadata" item)
    then brief_of lower ctx >>= (λ brief. score_metadata lower brief item (get "metadata" item))
    else ok 0
