-- ===== src/Catalog.antt =====
-- db/actions_cache.py and the startup check of main.py. Times are readings of the monotonic clock
-- in milliseconds; a call takes the readings that it makes, in order.
pub mod Staleness
pub mod Startup
use marketer.Prelude.{
  ℕ, ◌+◌, String, Bool, true, false, ◌&&◌, not, Option, none, some, List, [], ◌∷◌, ◌==◌, ltb,
  is_empty, if◌then◌else◌, contains,
}
use marketer.Value.{Result, ok, err, Exc, runtime_error}
use marketer.Db.{ActionType, Db}
use marketer.Db.Session.{Sess, Session, get_db, pure, ◌>>=◌, ◌>>◌, round_trip, session_scope}

pub record ActionRecord : Type 0 where
  pub code : String
  pub surface : String
  pub mode : String
  pub prompt_overlay : String
  pub requires_prior_post : Bool
  pub is_enabled : Bool

abbrev pub snapshot : ActionType → ActionRecord
snapshot r = record {
  code = r.code;
  surface = r.surface;
  mode = r.mode;
  prompt_overlay = r.prompt_overlay;
  requires_prior_post = r.requires_prior_post;
  is_enabled = r.is_enabled;
}

abbrev pub Entries : Type 0
Entries = List (String × ActionRecord)

-- `_cache` and `_expires_at`
pub record Cache : Type 0 where
  pub entries : Entries
  pub expires_at : ℕ

abbrev pub ttl : ℕ
ttl = 60000

unfoldable pub lookup : String → Entries → Option ActionRecord
lookup k [] = none
lookup k ((j, r) ∷ m) = if j == k then some r else lookup k m

unfoldable pub put : String → ActionRecord → Entries → Entries
put k v [] = (k, v) ∷ []
put k v ((j, w) ∷ m) = if j == k then (k, v) ∷ m else (j, w) ∷ put k v m

-- the dict comprehension over the rows
unfoldable pub index_rows : Entries → List ActionType → Entries
index_rows m [] = m
index_rows m (r ∷ rows) = index_rows (put r.code (snapshot r) m) rows

-- What a call leaves: its result, the cache and the session.
abbrev pub Cached : Type 0 → Type 0
Cached A = Result A × (Cache × Sess)

abbrev select_actions : Session (List ActionType)
select_actions = do round_trip; d ← get_db; pure d.action_types

abbrev done : Result (List ActionType) → Result (Unit {0})
done (ok rows) = ok tt
done (err e) = err e

-- The cache is assigned as soon as the rows are read, before the commit, which may still fail.
abbrev store_rows :
    ℕ → Cache → Result (List ActionType) → Result (List ActionType) × Sess → Cached (Unit {0})
store_rows now c (ok rows) (r, s) =
    (done r, (record { entries = index_rows [] rows; expires_at = now + ttl }, s))
store_rows now c (err e) (r, s) = (done r, (c, s))

unfoldable pub refresh_locked : ℕ → Cache → Sess → Cached (Unit {0})
refresh_locked now c s = store_rows now c (select_actions s).0 (session_scope select_actions s)

abbrev pub is_fresh : ℕ → Cache → Bool
is_fresh now c = not (is_empty c.entries) && ltb now c.expires_at

-- with the second test under the lock
unfoldable pub ensure_fresh : Bool → ℕ → ℕ → ℕ → Cache → Sess → Cached (Unit {0})
ensure_fresh configured t u v c s =
    if configured
    then if is_fresh t c
      then (ok tt, (c, s))
      else if is_fresh u c
      then (ok tt, (c, s))
      else refresh_locked v c s
    else (ok tt, (c, s))

unfoldable pub refresh : Bool → ℕ → Cache → Sess → Cached (Unit {0})
refresh configured now c s = if configured then refresh_locked now c s else (ok tt, (c, s))

abbrev pub then_read : {A : Type 0} → (Cache → A) → Cached (Unit {0}) → Cached A
then_read f (ok _, (c, s)) = (ok (f c), (c, s))
then_read f (err e, r) = (err e, r)

unfoldable pub get : Bool → ℕ → ℕ → ℕ → String → Cache → Sess → Cached (Option ActionRecord)
get configured t u v code c s =
    then_read (λ x. lookup code x.entries) (ensure_fresh configured t u v c s)

unfoldable pub enabled_of : Entries → List String
enabled_of [] = []
enabled_of ((code, r) ∷ m) = let rest = enabled_of m in if r.is_enabled then code ∷ rest else rest

unfoldable pub enabled_codes : Bool → ℕ → ℕ → ℕ → Cache → Sess → Cached (List String)
enabled_codes configured t u v c s =
    then_read (λ x. enabled_of x.entries) (ensure_fresh configured t u v c s)

abbrev pub invalidated : Cache
invalidated = record { entries = []; expires_at = 0 }

-- the keys of `OVERLAYS` (reasoner.py)
unfoldable pub overlays : List String
overlays =
    "create_post" ∷ "edit_post" ∷ "create_web" ∷ "edit_web" ∷ "subscription_strategy"
    ∷ "create_prod_line" ∷ []

-- `enabled - set(OVERLAYS)`
unfoldable pub missing : List String → List String → List String
missing known [] = []
missing known (c ∷ cs) = let rest = missing known cs in if contains c known then rest else c ∷ rest

abbrev pub check_missing : Cached (List String) → Cached (Unit {0})
check_missing (ok codes, r) =
    (if is_empty (missing overlays codes) then ok tt else err runtime_error, r)
check_missing (err e, r) = (err e, r)

abbrev pub then_check : ℕ → ℕ → ℕ → Cached (Unit {0}) → Cached (Unit {0})
then_check t u v (ok _, (c, s)) = check_missing (enabled_codes true t u v c s)
then_check t u v (err e, r) = (err e, r)

-- `except RuntimeError: raise`, `except Exception:` go on
abbrev pub tolerate : Cached (Unit {0}) → Cached (Unit {0})
tolerate (ok _, r) = (ok tt, r)
tolerate (err runtime_error, r) = (err runtime_error, r)
tolerate (err _, r) = (ok tt, r)

-- `lifespan`, up to its `yield`: the boot fails if it raises.
unfoldable pub lifespan : Bool → ℕ → ℕ → ℕ → ℕ → Cache → Sess → Cached (Unit {0})
lifespan configured now t u v c s =
    if configured then tolerate (then_check t u v (refresh true now c s)) else (ok tt, (c, s))
