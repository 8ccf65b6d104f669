-- ===== src/Tests/Addresses.antt =====
-- Queries of a database address.
use marketer.Prelude.{String, false, [], ◌∷◌, ◌≡◌, refl, ◌||◌}
use marketer.Db.Address.{
  Pairs, has_key, libpq_query, asyncpg_query, libpq_pairs, ssl_query_value_to_sslmode,
  first_sslmode, swap_asyncpg_scheme_to_psycopg,
}
use marketer.Db.Address.Ssl.{query_keys}

abbrev same : String → String
same s = s

abbrev local_query : Pairs
local_query = ("timeout", "5") ∷ ("ssl", "true") ∷ ("ssl", "no") ∷ []

libpq_runs : libpq_query same local_query ≡ ("timeout", "5") ∷ ("sslmode", "require") ∷ []
unfolding libpq_pairs ssl_query_value_to_sslmode
libpq_runs = refl

asyncpg_runs :
    asyncpg_query same (("sslmode", "require") ∷ ("timeout", "5") ∷ [])
    ≡ ("timeout", "5") ∷ ("ssl", "require") ∷ []
unfolding first_sslmode
asyncpg_runs = refl

scheme_runs : swap_asyncpg_scheme_to_psycopg "postgresql://db/x" ≡ "postgresql+psycopg://db/x"
unfolding swap_asyncpg_scheme_to_psycopg
scheme_runs = refl

query_keys_example :
    (has_key same "ssl" (libpq_query same local_query) ≡ false)
    × (has_key same "sslmode" (libpq_query same local_query)
        ≡ (has_key same "sslmode" local_query || has_key same "ssl" local_query))
    × (libpq_query same (libpq_query same local_query) ≡ libpq_query same local_query)
    × (has_key same "sslmode" (asyncpg_query same local_query) ≡ false)
    × (has_key same "ssl" (asyncpg_query same local_query)
        ≡ (has_key same "ssl" local_query || has_key same "sslmode" local_query))
query_keys_example = query_keys same refl refl local_query
