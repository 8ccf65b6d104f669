-- ===== src/Db/Repositories.antt =====
-- db/repositories.py: each function is an action of a session. A new row stands first in its
-- table; an insert checks the constraints of alembic/versions/001_initial_schema.py.
use marketer.Prelude.{
  ℕ, ◌+◌, String, Bool, true, false, ◌&&◌, ◌||◌, Option, none, some, List, [], ◌∷◌, map, ◌==◌, eqb,
  if◌then◌else◌, any, filter,
}
use marketer.Value.{Value, obj, end, db_error}
use marketer.Db.{
  User, ActionType, RawBrief, BriefStatus, received, Strategy, Job, JobStatus, running, done,
  failed, Db,
}
use marketer.Db.Session.{
  Session, pure, raise, get_db, put_db, ◌>>=◌, ◌>>◌, round_trip, check_constraint,
}

-- `scalar_one`, `scalar_one_or_none`: several rows raise.
abbrev pub scalar_one : {A : Type 0} → List A → Session A
scalar_one (a ∷ []) = pure a
scalar_one _ = raise db_error

abbrev pub scalar_one_or_none : {A : Type 0} → List A → Session (Option A)
scalar_one_or_none [] = pure none
scalar_one_or_none (a ∷ []) = pure (some a)
scalar_one_or_none _ = raise db_error

abbrev pub is_user : ℕ → User → Bool
is_user u r = eqb r.id u

abbrev pub has_code : String → ActionType → Bool
has_code c r = r.code == c

abbrev pub has_task : ℕ → RawBrief → Bool
has_task t r = eqb r.router_task_id t

abbrev pub is_active_of : ℕ → Strategy → Bool
is_active_of u r = eqb r.user_id u && r.is_active

abbrev pub is_strategy : ℕ → Strategy → Bool
is_strategy i r = eqb r.id i

abbrev pub is_brief : ℕ → RawBrief → Bool
is_brief i r = eqb r.id i

-- `brand or {}`
abbrev pub brand_or_empty : Option Value → Value
brand_or_empty none = obj end
brand_or_empty (some v) = v

abbrev pub insert_user : ℕ → Option Value → Db → Db
insert_user user_id brand d =
    if any (is_user user_id) d.users
    then d
    else record d { users = (record { id = user_id; brand = brand_or_empty brand }) ∷ d.users }

unfoldable pub upsert_user : ℕ → Option Value → Session User
upsert_user user_id brand = do
  round_trip
  d ← get_db
  put_db (insert_user user_id brand d)
  round_trip
  d' ← get_db
  scalar_one (filter (is_user user_id) d'.users)

-- the keyword arguments of `insert_raw_brief`
pub record NewBrief : Type 0 where
  pub user_id : ℕ
  pub router_task_id : ℕ
  pub action_code : String
  pub envelope : Value
  pub router_job_id : Option ℕ
  pub router_correlation_id : Option String

abbrev pub brief_row : NewBrief → Db → RawBrief
brief_row b d = record {
  id = d.next_id;
  user_id = b.user_id;
  router_task_id = b.router_task_id;
  router_job_id = b.router_job_id;
  router_correlation_id = b.router_correlation_id;
  action_code = b.action_code;
  envelope = b.envelope;
  user_profile = none;
  status = received;
  processed_at = none;
}

abbrev pub add_brief : NewBrief → Db → Db
add_brief b d = record d { raw_briefs = brief_row b d ∷ d.raw_briefs; next_id = d.next_id + 1 }

-- ON CONFLICT (router_task_id) DO NOTHING; otherwise the foreign keys are checked.
abbrev pub insert_brief : NewBrief → Db → Session (Unit {0})
insert_brief b d = if any (has_task b.router_task_id) d.raw_briefs then pure tt else do
  check_constraint (any (is_user b.user_id) d.users && any (has_code b.action_code) d.action_types)
  put_db (add_brief b d)

unfoldable pub insert_raw_brief : NewBrief → Session RawBrief
insert_raw_brief b = do
  round_trip
  d ← get_db
  insert_brief b d
  round_trip
  d' ← get_db
  scalar_one (filter (has_task b.router_task_id) d'.raw_briefs)

unfoldable pub get_action_type : String → Session (Option ActionType)
get_action_type code = do
  round_trip
  d ← get_db
  scalar_one_or_none (filter (has_code code) d.action_types)

unfoldable pub get_active_strategy : ℕ → Session (Option Strategy)
get_active_strategy user_id = do
  round_trip
  d ← get_db
  scalar_one_or_none (filter (is_active_of user_id) d.strategies)

abbrev pub strategy_row : ℕ → Value → ℕ → Db → Strategy
strategy_row user_id bi version d = record {
  id = d.next_id;
  user_id = user_id;
  version = version;
  is_active = true;
  brand_intelligence = bi;
}

abbrev pub add_strategy : Strategy → Db → Db
add_strategy row d = record d { strategies = row ∷ d.strategies; next_id = d.next_id + 1 }

-- strategies_user_version_key, strategies_one_active_per_user, and the foreign key.
abbrev pub may_add_strategy : ℕ → ℕ → Db → Bool
may_add_strategy user_id version d =
    any (is_user user_id) d.users
    && (if any (λ r. eqb r.user_id user_id && eqb r.version version) d.strategies
        then false
        else if any (is_active_of user_id) d.strategies
        then false
        else true)

unfoldable pub create_strategy : ℕ → Value → ℕ → Session Strategy
create_strategy user_id bi version = do
  round_trip
  d ← get_db
  check_constraint (may_add_strategy user_id version d)
  put_db (add_strategy (strategy_row user_id bi version d) d)
  pure (strategy_row user_id bi version d)

abbrev pub or_create : ℕ → Value → Option Strategy → Session Strategy
or_create user_id bi (some existing) = pure existing
or_create user_id bi none = create_strategy user_id bi 1

unfoldable pub ensure_strategy : ℕ → Value → Session Strategy
ensure_strategy user_id bi = do
  existing ← get_active_strategy user_id
  or_create user_id bi existing

-- the keyword arguments of `create_job`
pub record NewJob : Type 0 where
  pub user_id : ℕ
  pub raw_brief_id : Option ℕ
  pub strategy_id : ℕ
  pub action_code : String
  pub job_input : Value
  pub output : Option Value
  pub status : JobStatus
  pub latency_ms : Option ℕ
  pub error : Option Value
  pub orchestrator_agent : Option String
  pub dispatch_status : Option String
  pub callback_payload : Option Value

abbrev started : JobStatus → Bool
started running = true
started done = true
started failed = true
started _ = false

abbrev ended : JobStatus → Bool
ended done = true
ended failed = true
ended _ = false

abbrev pub job_row : NewJob → Db → Job
job_row j d = record {
  id = d.next_id;
  user_id = j.user_id;
  raw_brief_id = j.raw_brief_id;
  strategy_id = j.strategy_id;
  action_code = j.action_code;
  input = j.job_input;
  output = j.output;
  status = j.status;
  error = j.error;
  orchestrator_agent = j.orchestrator_agent;
  dispatch_status = j.dispatch_status;
  callback_payload = j.callback_payload;
  latency_ms = j.latency_ms;
  started_at = if started j.status then some d.now else none;
  completed_at = if ended j.status then some d.now else none;
}

abbrev pub add_job : NewJob → Db → Db
add_job j d = record d { jobs = job_row j d ∷ d.jobs; next_id = d.next_id + 1 }

abbrev has_brief : Option ℕ → Db → Bool
has_brief none d = true
has_brief (some i) d = any (is_brief i) d.raw_briefs

-- jobs_orchestrator_agent_check
abbrev known_agent : Option String → Bool
known_agent none = true
known_agent (some a) = a == "job-router" || a == "prod-line"

-- the foreign keys and the check of `jobs`
abbrev pub may_add_job : NewJob → Db → Bool
may_add_job j d =
    any (is_user j.user_id) d.users
    && (has_brief j.raw_brief_id d
        && (any (is_strategy j.strategy_id) d.strategies
            && (any (has_code j.action_code) d.action_types && known_agent j.orchestrator_agent)))

unfoldable pub create_job : NewJob → Session Job
create_job j = do
  round_trip
  d ← get_db
  check_constraint (may_add_job j d)
  put_db (add_job j d)
  pure (job_row j d)

abbrev pub set_dispatch : ℕ → String → Job → Job
set_dispatch job_id st r = if eqb r.id job_id then record r { dispatch_status = some st } else r

unfoldable pub update_dispatch_status : ℕ → String → Session (Unit {0})
update_dispatch_status job_id st = do
  round_trip
  d ← get_db
  put_db (record d { jobs = map (set_dispatch job_id st) d.jobs })

abbrev pub set_status : ℕ → BriefStatus → ℕ → RawBrief → RawBrief
set_status i st now r = if eqb r.id i then record r { status = st; processed_at = some now } else r

abbrev pub mark_brief : ℕ → BriefStatus → Db → Db
mark_brief i st d = record d { raw_briefs = map (set_status i st d.now) d.raw_briefs }

unfoldable pub mark_raw_brief : ℕ → BriefStatus → Session (Unit {0})
mark_raw_brief raw_brief_id st = do round_trip; d ← get_db; put_db (mark_brief raw_brief_id st d)

abbrev set_profile : ℕ → Value → RawBrief → RawBrief
set_profile i v r = if eqb r.id i then record r { user_profile = some v } else r

unfoldable pub update_raw_brief_user_profile : ℕ → Value → Session (Unit {0})
update_raw_brief_user_profile raw_brief_id v = do
  round_trip
  d ← get_db
  put_db (record d { raw_briefs = map (set_profile raw_brief_id v) d.raw_briefs })
