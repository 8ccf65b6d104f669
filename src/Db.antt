-- ===== src/Db.antt =====
-- The tables of db/models.py, and a session over them (db/engine.py). Identifiers are numbers
-- (a UUID is one); `next_id` stands for `gen_random_uuid`, which gives an unused identifier, and
-- `now` for the clock. Columns that no code under src/marketer reads or writes are left out.
pub mod Address
pub mod Session
pub mod Repositories
pub mod Triples
pub mod Consistent
pub mod Upserts
use marketer.Prelude.{ℕ, String, Bool, Option, List}
use marketer.Value.{Value}

pub record User : Type 0 where
  pub id : ℕ
  pub brand : Value

pub record ActionType : Type 0 where
  pub code : String
  pub surface : String
  pub mode : String
  pub prompt_overlay : String
  pub requires_prior_post : Bool
  pub is_enabled : Bool

-- raw_briefs_status_check
pub data BriefStatus : Type 0 where
  received processing done failed : BriefStatus

pub record RawBrief : Type 0 where
  pub id : ℕ
  pub user_id : ℕ
  pub router_task_id : ℕ
  pub router_job_id : Option ℕ
  pub router_correlation_id : Option String
  pub action_code : String
  pub envelope : Value
  pub user_profile : Option Value
  pub status : BriefStatus
  pub processed_at : Option ℕ

pub record Strategy : Type 0 where
  pub id : ℕ
  pub user_id : ℕ
  pub version : ℕ
  pub is_active : Bool
  pub brand_intelligence : Value

-- jobs_status_check
pub data JobStatus : Type 0 where
  pending running done failed : JobStatus

pub record Job : Type 0 where
  pub id : ℕ
  pub user_id : ℕ
  pub raw_brief_id : Option ℕ
  pub strategy_id : ℕ
  pub action_code : String
  pub input : Value
  pub output : Option Value
  pub status : JobStatus
  pub error : Option Value
  pub orchestrator_agent : Option String
  pub dispatch_status : Option String
  pub callback_payload : Option Value
  pub latency_ms : Option ℕ
  pub started_at : Option ℕ
  pub completed_at : Option ℕ

pub record Db : Type 0 where
  pub users : List User
  pub action_types : List ActionType
  pub raw_briefs : List RawBrief
  pub strategies : List Strategy
  pub jobs : List Job
  pub next_id : ℕ
  pub now : ℕ
