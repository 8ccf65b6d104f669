-- ===== src/Normalizer/Clean.antt =====
-- normalizer.py: `_clean_string` and `_clean_list`. `lower` is `str.lower`.
use marketer.Prelude.{String, Option, none, some, List, [], ◌∷◌, ◌==◌, if◌then◌else◌, contains}
use marketer.Value.{Value, str, arr, Items, nil, cons}
use marketer.Text.{strip}

abbrev empty_sentinels : List String
empty_sentinels = "" ∷ "ninguno" ∷ "ninguna" ∷ "none" ∷ "n/a" ∷ "-" ∷ "null" ∷ []

module _ (lower : String → String) where
  unfoldable pub clean_string : Value → Option String
  unfolding strip
  clean_string (str s) =
      let stripped = strip s in
      if contains (lower stripped) empty_sentinels
      then none
      else if stripped == ""
      then none
      else some stripped
  clean_string _ = none

  abbrev keep_some : Option String → List String → List String
  keep_some none rest = rest
  keep_some (some s) rest = s ∷ rest

  abbrev clean_items : Items → List String
  clean_items nil = []
  clean_items (cons v vs) = keep_some (clean_string v) (clean_items vs)

  unfoldable pub clean_list : Value → List String
  clean_list (arr vs) = clean_items vs
  clean_list _ = []
