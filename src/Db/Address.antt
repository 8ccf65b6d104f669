-- ===== src/Db/Address.antt =====
-- pg_url.py: the address of the database for its two drivers. `lower` is `str.lower`; the functions of
-- urllib are a parameter.
pub mod Ssl
use Prim.Native.String.{◌++◌ as str_append}
use marketer.Prelude.{
  ℕ, zero, suc, String, Bool, true, false, ◌&&◌, ◌||◌, not, Option, none, some, List, [], ◌∷◌, ◌++◌,
  ◌==◌, any, filter, contains, is_empty, is_some, if◌then◌else◌,
}
use marketer.Value.{Result, ok, err, ◌>>=◌}
use marketer.Text.{strip, begins_with, len}

-- `urlparse(url).query`, `parse_qsl(query, keep_blank_values=True)`, and the URL with another query
pub record UrlLib : Type 0 where
  pub query_of : String → Result String
  pub parse_query : String → List (String × String)
  pub with_query : String → List (String × String) → String

-- `s[n:]`
abbrev drop_text : ℕ → String → String
drop_text zero s = s
drop_text (suc n) String.[] = ""
drop_text (suc n) (String.◌∷◌ c s) = drop_text n s

unfoldable pub swap_asyncpg_scheme_to_psycopg : String → String
unfolding begins_with
swap_asyncpg_scheme_to_psycopg url =
    if begins_with url "postgresql+asyncpg://"
    then str_append "postgresql+psycopg://" (drop_text (len "postgresql+asyncpg://") url)
    else if begins_with url "postgresql://"
    then str_append "postgresql+psycopg://" (drop_text (len "postgresql://") url)
    else url

unfoldable pub coerce_plain_postgresql_to_asyncpg_scheme : String → String
unfolding begins_with
coerce_plain_postgresql_to_asyncpg_scheme url =
    if begins_with url "postgresql+asyncpg://"
    then url
    else if begins_with url "postgresql://"
    then str_append "postgresql+asyncpg://" (drop_text (len "postgresql://") url)
    else url

abbrev pub Pairs : Type 0
Pairs = List (String × String)

module _ (lower : String → String) where
  -- `_ssl_query_value_to_sslmode`
  unfoldable pub ssl_query_value_to_sslmode : String → String
  unfolding strip
  ssl_query_value_to_sslmode value =
      let v = lower (strip value) in
      if contains v ("require" ∷ "true" ∷ "1" ∷ "yes" ∷ [])
      then "require"
      else if contains v ("false" ∷ "0" ∷ "no" ∷ [])
      then "disable"
      else value

  abbrev pub has_key : String → Pairs → Bool
  has_key key pairs = any (λ p. lower p.0 == key) pairs

  -- the loop of `coerce_libpq_query_for_psycopg`: whether an `sslmode` is there, and an `ssl` was read
  unfoldable pub libpq_pairs : Bool → Bool → Pairs → Pairs
  unfolding ssl_query_value_to_sslmode
  libpq_pairs has consumed [] = []
  libpq_pairs has consumed ((k, v) ∷ rest) =
      let is_ssl : Bool = lower k == "ssl" in
      let out = libpq_pairs (has || (is_ssl && not consumed)) (consumed || is_ssl) rest in
      if lower k == "sslmode"
      then (k, v) ∷ out
      else if is_ssl
      then if not has && not consumed then ("sslmode", ssl_query_value_to_sslmode v) ∷ out else out
      else (k, v) ∷ out

  abbrev pub libpq_query : Pairs → Pairs
  libpq_query pairs = libpq_pairs (has_key "sslmode" pairs) false pairs

  -- the first value of an `sslmode`
  unfoldable pub first_sslmode : Pairs → Option String
  first_sslmode [] = none
  first_sslmode ((k, v) ∷ rest) =
      let later = first_sslmode rest in if lower k == "sslmode" then some v else later

  abbrev pub add_ssl : Bool → Option String → Pairs → Pairs
  add_ssl false (some v) out = out ++ ("ssl", v) ∷ []
  add_ssl _ _ out = out

  -- the loop of `coerce_asyncpg_query` and what follows it
  abbrev pub asyncpg_query : Pairs → Pairs
  asyncpg_query pairs =
      add_ssl (has_key "ssl" pairs) (first_sslmode pairs)
        (filter (λ p. not (lower p.0 == "sslmode")) pairs)

  module _ (lib : UrlLib) where
    abbrev requery : (Pairs → Pairs) → String → String → String
    requery f url query =
        if query == "" then url else lib.with_query url (f (lib.parse_query query))

    unfoldable pub coerce_libpq_query_for_psycopg : String → Result String
    unfolding libpq_pairs
    coerce_libpq_query_for_psycopg url = lib.query_of url >>= (λ q. ok (requery libpq_query url q))

    unfoldable pub coerce_asyncpg_query : String → Result String
    unfolding first_sslmode
    coerce_asyncpg_query url = lib.query_of url >>= (λ q. ok (requery asyncpg_query url q))

    unfoldable pub normalize_sync_psycopg_url : String → Result String
    unfolding swap_asyncpg_scheme_to_psycopg coerce_libpq_query_for_psycopg
    normalize_sync_psycopg_url url =
        coerce_libpq_query_for_psycopg (swap_asyncpg_scheme_to_psycopg url)
