-- ===== src/Gallery/Words.antt =====
-- The texts of gallery.py: `str.split()`, the long words of a text, and sets of words.
use Prim.Native.Char.{code}
use marketer.Prelude.{String, List, [], ◌∷◌, ◌==◌, ltb, filter, contains, if◌then◌else◌}
use marketer.Text.{is_space, len}
use marketer.Reasoner.Resources.{dedup}

abbrev keep_word : String → List String → List String
keep_word w ws = if w == "" then ws else w ∷ ws

-- The word that a text begins with, if any, and the words after it.
unfoldable pub chop : String → String × List String
unfolding is_space
chop String.[] = ("", [])
chop (String.◌∷◌ c s) =
    let (w, ws) = chop s in if is_space (code c) then ("", keep_word w ws) else (String.◌∷◌ c w, ws)

-- `s.split()`
unfoldable pub split_words : String → List String
unfolding chop
split_words s = let (w, ws) = chop s in keep_word w ws

-- `{t for t in s.split() if len(t) > 2}`
unfoldable pub long_words : String → List String
unfolding split_words dedup
long_words s = dedup (filter (λ t. ltb 2 (len t)) (split_words s))

-- `a & b`
abbrev pub common : List String → List String → List String
common a b = filter (λ t. contains t b) a
