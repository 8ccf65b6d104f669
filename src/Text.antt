-- ===== src/Text.antt =====
-- Python's `str` methods, as far as the code uses them, on code points. The lower case of a text and
-- the matches of a compiled regular expression depend on tables of the Python runtime: they are
-- parameters of what uses them.
use Prim.Native.Char.{code}
use Prim.Native.String.{count, ◌++◌ as str_append}
use marketer.Prelude.{
  ℕ, zero, suc, ◌-◌, String, Bool, true, false, ◌&&◌, ◌||◌, ◌==◌, leb, eqb, if◌then◌else◌,
}

-- `str.isspace` of one code point
unfoldable pub is_space : ℕ → Bool
is_space c =
    (leb 9 c && leb c 13)
    || ((leb 28 c && leb c 32)
        || (eqb c 0x85
            || (eqb c 0xa0
                || (eqb c 0x1680
                    || ((leb 0x2000 c && leb c 0x200a)
                        || ((leb 0x2028 c && leb c 0x2029)
                            || (eqb c 0x202f || (eqb c 0x205f || eqb c 0x3000))))))))

-- `s.lstrip()` and `s.rstrip()` over a set of code points
unfoldable pub lstrip : (ℕ → Bool) → String → String
lstrip p String.[] = ""
lstrip p (String.◌∷◌ c s) = let rest = lstrip p s in if p (code c) then rest else String.◌∷◌ c s

abbrev drop_if : Bool → String → String → String
drop_if b whole rest = if b && rest == "" then "" else whole

unfoldable pub rstrip : (ℕ → Bool) → String → String
rstrip p String.[] = ""
rstrip p (String.◌∷◌ c s) = let rest = rstrip p s in drop_if (p (code c)) (String.◌∷◌ c rest) rest

-- `s.strip()`
unfoldable pub strip : String → String
unfolding is_space lstrip rstrip
strip s = rstrip is_space (lstrip is_space s)

-- `re.sub` of a class of code points by nothing
unfoldable pub delete : (ℕ → Bool) → String → String
delete p String.[] = ""
delete p (String.◌∷◌ c s) = let rest = delete p s in if p (code c) then rest else String.◌∷◌ c rest

-- `len(s)`
abbrev pub len : String → ℕ
len s = count s

-- `s.startswith(t)`
unfoldable pub begins_with : String → String → Bool
begins_with s String.[] = true
begins_with String.[] (String.◌∷◌ d t) = false
begins_with (String.◌∷◌ c s) (String.◌∷◌ d t) = eqb (code c) (code d) && begins_with s t

-- `t in s`
unfoldable pub has_substring : String → String → Bool
unfolding begins_with
has_substring t String.[] = begins_with "" t
has_substring t (String.◌∷◌ c s) = begins_with (String.◌∷◌ c s) t || has_substring t s

-- `s.replace(t, r)` for a `t` that is not empty; `skip` counts what is left of a match
unfoldable pub replace_from : String → String → ℕ → String → String
unfolding begins_with
replace_from t r skip String.[] = ""
replace_from t r (suc skip) (String.◌∷◌ c s) = replace_from t r skip s
replace_from t r zero (String.◌∷◌ c s) =
    let inside = str_append r (replace_from t r (len t - 1) s) in
    let outside = String.◌∷◌ c (replace_from t r zero s) in
    if begins_with (String.◌∷◌ c s) t then inside else outside
