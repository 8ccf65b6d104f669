-- ===== src/Gallery.antt =====
-- gallery.py: which images of an account may be used. `fromisoformat` of datetime is a parameter.
pub mod Words
pub mod Score
pub mod Shortlist
pub mod Pool
use marketer.Prelude.{
  ℕ, String, Bool, true, false, not, Option, none, some, ◌==◌, leb, ltb, if◌then◌else◌,
}
use marketer.Value.{
  ℤ, pos, negsuc, Value, null, str, bool, int, float, obj, arr, Fields, Result, ok, err,
  attribute_error, type_error, truthy, get, ◌>>=◌,
}
use marketer.Text.{replace_from}

-- A datetime, in microseconds: only one with an offset can be compared with one with an offset.
pub data Moment : Type 0 where
  aware : ℤ → Moment
  naive : ℤ → Moment

-- `m <= n` of integers
abbrev pub leb_int : ℤ → ℤ → Bool
leb_int (pos m) (pos n) = leb m n
leb_int (pos m) (negsuc n) = false
leb_int (negsuc m) (pos n) = true
leb_int (negsuc m) (negsuc n) = leb n m

module _ (from_iso : String → Option Moment) where
  -- `_parse_dt`: a text that does not parse counts as no time; what is no text has no `replace`
  unfoldable pub parse_dt : Value → Result (Option Moment)
  unfolding replace_from
  parse_dt (str s) = if s == "" then ok none else ok (from_iso (replace_from "Z" "+00:00" 0 s))
  parse_dt v = if truthy v then err attribute_error else ok none

  abbrev pub type_is_image : Value → Bool
  type_is_image (str s) = s == "img"
  type_is_image _ = false

  abbrev pub is_null : Value → Bool
  is_null null = true
  is_null _ = false

  -- `locked_until is not None and locked_until >= now`
  abbrev pub is_locked : ℤ → Option Moment → Result Bool
  is_locked now none = ok false
  is_locked now (some (aware t)) = ok (leb_int now t)
  is_locked now (some (naive t)) = err type_error

  unfoldable pub is_eligible : Fields → ℤ → Result Bool
  is_eligible item now =
      if not (type_is_image (get "type" item))
      then ok false
      else if not (is_null (get "used_at" item))
      then ok false
      else parse_dt (get "locked_until" item) >>= (λ t. is_locked now t >>= (λ b. ok (not b)))
