-- ===== src/Catalog/Staleness.antt =====
-- db/actions_cache.py: how old the record that `get` gives may be.
use marketer.Prelude.{
  ℕ, ◌+◌, ◌≤◌, ◌<◌, String, Bool, true, false, not, ◌&&◌, Option, none, some, List, [], ◌∷◌, ◌≡◌,
  refl, arith, ◌==◌, eq_iff, if◌then◌else◌, is_empty, ltb,
}
use marketer.Value.{ok}
use marketer.Db.{ActionType, Db}
use marketer.Db.Session.{Sess, round_trip, session_scope}
use marketer.Persistence.Outcome.{calm}
use marketer.Catalog.{
  ActionRecord, snapshot, Entries, Cache, ttl, lookup, put, index_rows, refresh_locked,
  ensure_fresh, get,
}

lookup-put :
    (k j : String) (v : ActionRecord) (m : Entries)
    → lookup j (put k v m) ≡ (if k == j then some v else lookup j m)
unfolding lookup put
lookup-put k j v [] = refl
lookup-put k j v ((i, w) ∷ m) =
    ground (arith, eq_iff k j, eq_iff i k, eq_iff i j, lookup-put k j v m)

-- The record of the last row with the code, or else `old`.
abbrev pub record_of : String → Option ActionRecord → List ActionType → Option ActionRecord
record_of code old [] = old
record_of code old (r ∷ rows) =
    record_of code (if r.code == code then some (snapshot r) else old) rows

pub lookup-index_rows :
    (code : String) (m : Entries) (rows : List ActionType)
    → lookup code (index_rows m rows) ≡ record_of code (lookup code m) rows
unfolding index_rows
lookup-index_rows code m [] = refl
lookup-index_rows code m (r ∷ rows) =
    rw (lookup-index_rows code (put r.code (snapshot r) m) rows, lookup-put)

index_rows_some :
    (m : Entries) (rows : List ActionType)
    → is_empty m ≡ false
    → is_empty (index_rows m rows) ≡ false
unfolding index_rows put
index_rows_some m [] h = h
index_rows_some [] (r ∷ rows) h = cc
index_rows_some ((j, w) ∷ m) (r ∷ rows) h =
    index_rows_some (put r.code (snapshot r) ((j, w) ∷ m)) rows (ground arith)

-- the cache that a refresh at `now` leaves
abbrev pub refreshed : ℕ → Db → Cache
refreshed now d = record { entries = index_rows [] d.action_types; expires_at = now + ttl }

pub refresh_lem :
    (now : ℕ) (c : Cache) (d : Db)
    → refresh_locked now c (calm d) ≡ (ok tt, (refreshed now d, calm d))
unfolding refresh_locked session_scope round_trip
refresh_lem now c d = refl

fresh_test : (b : Bool) (t e : ℕ) → b ≡ false → t < e → (not b && ltb t e) ≡ true
fresh_test b t e h lt = ground arith

stale_test : (b : Bool) (t e : ℕ) → e ≤ t → (not b && ltb t e) ≡ false
stale_test b t e h = ground arith

-- Within 60 seconds of a refresh that found a row, `get` answers from that reading of the catalog:
-- the database is not asked, whatever it holds by then.
pub get_within_ttl :
    (now t u v : ℕ) (code : String) (d : Db) (r : ActionType) (rows : List ActionType) (s : Sess)
    → d.action_types ≡ r ∷ rows
    → t < now + ttl
    → get true t u v code (refreshed now d) s
      ≡ (ok (record_of code none d.action_types), (refreshed now d, s))
unfolding get ensure_fresh lookup put index_rows
get_within_ttl now t u v code d r rows s e lt = rw (
  fresh_test (is_empty (index_rows [] d.action_types)) t (now + ttl)
      (rw e (index_rows_some (put r.code (snapshot r) []) rows refl)) lt,
  lookup-index_rows,
)

-- From 60 seconds after a refresh on, `get` answers from the catalog as it is, if the database answers.
pub get_after_ttl :
    (now t u v : ℕ) (code : String) (old d : Db)
    → now + ttl ≤ t
    → t ≤ u
    → get true t u v code (refreshed now old) (calm d)
      ≡ (ok (record_of code none d.action_types), (refreshed v d, calm d))
unfolding get ensure_fresh lookup put index_rows
get_after_ttl now t u v code old d le lu = rw (
  stale_test (is_empty (index_rows [] old.action_types)) t (now + ttl) le,
  stale_test (is_empty (index_rows [] old.action_types)) u (now + ttl) (omega arith),
  refresh_lem v (refreshed now old) d,
  lookup-index_rows,
)
