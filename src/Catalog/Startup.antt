-- ===== src/Catalog/Startup.antt =====
-- main.py: what a successful start says of the catalog.
use marketer.Prelude.{
  ℕ, String, Bool, true, false, none, some, List, [], ◌∷◌, ◌≡◌, refl, arith, ◌==◌, eq_iff,
  if◌then◌else◌, is_empty, contains, Bool-cases, inl, inr, ◌∙◌,
}
use marketer.Value.{ok, err}
use marketer.Db.{Db}
use marketer.Persistence.Outcome.{calm}
use marketer.Catalog.{
  ActionRecord, Entries, Cache, Cached, lookup, overlays, missing, enabled_of, lifespan, refresh,
  refresh_locked, ensure_fresh, enabled_codes, index_rows, is_fresh, tolerate, check_missing,
  then_read,
}
use marketer.Catalog.Staleness.{record_of, lookup-index_rows, refreshed, refresh_lem}

enabled_of-lookup :
    (code : String) (m : Entries) (r : ActionRecord)
    → lookup code m ≡ some r
    → r.is_enabled ≡ true
    → contains code (enabled_of m) ≡ true
unfolding lookup enabled_of
enabled_of-lookup code [] r h e = cc
enabled_of-lookup code ((j, w) ∷ m) r h e =
    ground (arith, enabled_of-lookup code m r, eq_iff j code)

head_known :
    (c : String) (known cs : List String)
    → is_empty (missing known (c ∷ cs)) ≡ true
    → contains c known ≡ true
unfolding missing
head_known c known cs h = ground arith

tail_empty :
    (c : String) (known cs : List String)
    → is_empty (missing known (c ∷ cs)) ≡ true
    → is_empty (missing known cs) ≡ true
unfolding missing
tail_empty c known cs h = ground arith

missing_empty :
    (code : String) (known cs : List String)
    → is_empty (missing known cs) ≡ true
    → contains code cs ≡ true
    → contains code known ≡ true
unfolding missing
missing_empty code known [] h k = cc
missing_empty code known (c ∷ cs) h k = elim (Bool-cases (c == code)) [
  | inl same ↦ rw (← (eq_iff c code).0 same) (head_known c known cs h)
  | inr other ↦ missing_empty code known cs (tail_empty c known cs h) (rw other at k)
]

-- In both cases of the freshness test the codes are those of the catalog.
codes_after_refresh :
    (now t u v : ℕ) (d : Db)
    → (enabled_codes true t u v (refreshed now d) (calm d)).0
      ≡ ok (enabled_of (index_rows [] d.action_types))
unfolding enabled_codes ensure_fresh
codes_after_refresh now t u v d =
    at_tests (is_fresh t (refreshed now d)) (is_fresh u (refreshed now d))
  where
    at_tests :
        (a b : Bool)
        → (then_read
            (λ x. enabled_of x.entries)
            (if a
              then (ok tt, (refreshed now d, calm d))
              else if b
              then (ok tt, (refreshed now d, calm d))
              else refresh_locked v (refreshed now d) (calm d))).0
          ≡ ok (enabled_of (index_rows [] d.action_types))
    at_tests true b = refl
    at_tests false true = refl
    at_tests false false = rw (refresh_lem v (refreshed now d) d)

-- If the service starts with a database that answers, then every action that the catalog has
-- enabled has a prompt overlay.
pub lifespan-overlays :
    (now t u v : ℕ) (c : Cache) (d : Db) (code : String) (r : ActionRecord)
    → (lifespan true now t u v c (calm d)).0 ≡ ok tt
    → record_of code none d.action_types ≡ some r
    → r.is_enabled ≡ true
    → contains code overlays ≡ true
unfolding lifespan refresh lookup
lifespan-overlays now t u v c d code r started found enabled =
    missing_empty code overlays (enabled_of (index_rows [] d.action_types))
      (at_codes (enabled_codes true t u v (refreshed now d) (calm d))
        (codes_after_refresh now t u v d) (rw (refresh_lem now c d) at started))
      (enabled_of-lookup code (index_rows [] d.action_types) r
        (lookup-index_rows code [] d.action_types ∙ found) enabled)
  where
    at_codes :
        (x : Cached (List String)) {codes : List String}
        → x.0 ≡ ok codes
        → (tolerate (check_missing x)).0 ≡ ok tt
        → is_empty (missing overlays codes) ≡ true
    at_codes (ok cs, y) e h = ground arith
    at_codes (err z, y) e h = cc
