-- ===== src/Tests/Data.antt =====
-- The tables, envelopes and outputs that the examples use.
use marketer.Prelude.{ℕ, String, true, false, Option, none, some, [], ◌∷◌, ◌==◌, if◌then◌else◌}
use marketer.Value.{Value, null, str, obj, Fields, end, field}
use marketer.Schemas.{PostEnrichment, CallbackOutputData, CallbackBody, Status, SubscriptionJob}
use marketer.Db.{User, ActionType, RawBrief, BriefStatus, Strategy, Db}
use marketer.Persistence.{PersistCtx}
use marketer.Dispatch.Delivery.{Settings}

abbrev pub sample_uuid : String → Option ℕ
sample_uuid s = if s == "account" then some 1 else if s == "task" then some 2 else none

abbrev pub no_dump : CallbackBody → Value
no_dump cb = null

abbrev pub post_action : ActionType
post_action = record {
  code = "create_post";
  surface = "post";
  mode = "create";
  prompt_overlay = "create_post";
  requires_prior_post = false;
  is_enabled = true;
}

abbrev pub sample_user : User
sample_user = record { id = 1; brand = null }

abbrev pub sample_brief : RawBrief
sample_brief = record {
  id = 5;
  user_id = 1;
  router_task_id = 2;
  router_job_id = none;
  router_correlation_id = none;
  action_code = "create_post";
  envelope = null;
  user_profile = none;
  status = BriefStatus.processing;
  processed_at = none;
}

abbrev pub sample_strategy : Strategy
sample_strategy = record {
  id = 7;
  user_id = 1;
  version = 1;
  is_active = true;
  brand_intelligence = null;
}

abbrev pub new_tables : Db
new_tables = record {
  users = [];
  action_types = post_action ∷ [];
  raw_briefs = [];
  strategies = [];
  jobs = [];
  next_id = 10;
  now = 100;
}

abbrev pub used_tables : Db
used_tables = record {
  users = sample_user ∷ [];
  action_types = post_action ∷ [];
  raw_briefs = sample_brief ∷ [];
  strategies = sample_strategy ∷ [];
  jobs = [];
  next_id = 10;
  now = 100;
}

abbrev pub sample_context : PersistCtx
sample_context = record { user_id = 1; raw_brief_id = 5; action_code = "create_post" }

abbrev pub sample_envelope : Fields
sample_envelope = field "task_id" (str "task") (
    field "callback_url" (str "https://router/cb") (
      field "action_code" (str "create_post") (
        field "payload" (obj (field "context" (obj (field "account_uuid" (str "account") end)) end))
          end)))

abbrev pub sample_enrichment : PostEnrichment
sample_enrichment = record {
  surface_format = "post";
  title = "Open day";
  objective = "visits";
  brand_dna = "warm";
  visual_style_notes = "bright";
  image = record { concept = "door"; generation_prompt = "a door"; alt_text = "door" };
  caption = record { hook = "Come in"; body = "We open"; cta_line = "" };
  cta = record { channel = "email"; url_or_handle = some "a@b.es"; label = "Write" };
  hashtag_strategy = record { suggested_volume = 3; tags = "#open" ∷ [] };
  do_not = [];
  selected_images = [];
  visual_selection = record {
    recommended_asset_urls = "u1" ∷ "u2" ∷ "u9" ∷ [];
    recommended_reference_urls = [];
    avoid_asset_urls = [];
  };
  brand_intelligence = null;
  cf_post_brief = "brief";
}

abbrev pub sample_output : CallbackOutputData
sample_output = record {
  payload = record {
    total_items = 1;
    client_dna = "warm";
    client_request = "post";
    resources = [];
  };
  enrichment = sample_enrichment;
  warnings = [];
  trace = record {
    task_id = "task";
    action_code = "create_post";
    surface = "post";
    mode = "create";
    latency_ms = 12;
    gemini_model = "m";
    repair_attempted = false;
    degraded = false;
    gallery_stats = record {
      raw_count = 0;
      accepted_count = 0;
      rejected_count = 0;
      truncated = false;
    };
    input_tokens = 1;
    output_tokens = 1;
    thoughts_tokens = 0;
    job_index = none;
    job_action_key = none;
    total_jobs = none;
  };
}

abbrev pub completed_callback : CallbackBody
completed_callback = record {
  status = Status.completed;
  output_data = some sample_output;
  error_message = none;
}

abbrev pub sample_job : Option String → SubscriptionJob
sample_job agent = record {
  action_key = "create_post";
  description = some "a post";
  index = 0;
  quantity = 1;
  slug = none;
  orchestrator_agent = agent;
  product_uuid = none;
}

abbrev pub sample_settings : Settings
sample_settings = record {
  gemini_api_key = "key";
  inbound_token = "secret";
  orch_callback_api_key = "k";
  callback_retry_attempts = 3;
  orch_api_base_url = "https://orch";
  agentic_dispatcher_url = "https://agentic";
  usp_graphql_url = "";
  usp_api_key = "";
  gallery_api_url = "";
  gallery_api_key = "";
}
