-- ===== src/Schemas.antt =====
-- The pydantic models that the pipeline passes on (schemas/enrichment.py and
-- schemas/internal_context.py). `Literal` fields that the code compares as texts are texts; the
-- message of a warning and the descriptions of fields are left out, and a field that the modelled
-- code only carries along is left out too.
use marketer.Prelude.{ℕ, String, Bool, Option, List}
use marketer.Value.{Value}

pub record Warning : Type 0 where
  pub code : String
  pub about : Option String

pub record CaptionParts : Type 0 where
  pub hook : String
  pub body : String
  pub cta_line : String

pub record ImageBrief : Type 0 where
  pub concept : String
  pub generation_prompt : String
  pub alt_text : String

pub record CallToAction : Type 0 where
  pub channel : String
  pub url_or_handle : Option String
  pub label : String

pub record HashtagStrategy : Type 0 where
  pub suggested_volume : ℕ
  pub tags : List String

pub record VisualSelection : Type 0 where
  pub recommended_asset_urls : List String
  pub recommended_reference_urls : List String
  pub avoid_asset_urls : List String

pub record SelectedImage : Type 0 where
  pub uuid : String
  pub content_url : String

pub record PostEnrichment : Type 0 where
  pub surface_format : String
  pub title : String
  pub objective : String
  pub brand_dna : String
  pub visual_style_notes : String
  pub image : ImageBrief
  pub caption : CaptionParts
  pub cta : CallToAction
  pub hashtag_strategy : HashtagStrategy
  pub do_not : List String
  pub selected_images : List SelectedImage
  pub visual_selection : VisualSelection
  pub brand_intelligence : Value
  pub cf_post_brief : String

pub record GalleryStats : Type 0 where
  pub raw_count : ℕ
  pub accepted_count : ℕ
  pub rejected_count : ℕ
  pub truncated : Bool

pub record TraceInfo : Type 0 where
  pub task_id : String
  pub action_code : String
  pub surface : String
  pub mode : String
  pub latency_ms : ℕ
  pub gemini_model : String
  pub repair_attempted : Bool
  pub degraded : Bool
  pub gallery_stats : GalleryStats
  pub input_tokens : ℕ
  pub output_tokens : ℕ
  pub thoughts_tokens : ℕ
  pub job_index : Option ℕ
  pub job_action_key : Option String
  pub total_jobs : Option ℕ

pub record CfPayload : Type 0 where
  pub total_items : ℕ
  pub client_dna : String
  pub client_request : String
  pub resources : List String

pub record CallbackOutputData : Type 0 where
  pub payload : CfPayload
  pub enrichment : PostEnrichment
  pub warnings : List Warning
  pub trace : TraceInfo

pub data Status : Type 0 where
  in_progress completed failed : Status

pub record CallbackBody : Type 0 where
  pub status : Status
  pub output_data : Option CallbackOutputData
  pub error_message : Option String

-- One job of a subscription_strategy envelope, after expansion by its quantity.
pub record SubscriptionJob : Type 0 where
  pub action_key : String
  pub description : Option String
  pub index : ℕ
  pub quantity : ℕ
  pub slug : Option String
  pub orchestrator_agent : Option String
  pub product_uuid : Option String

-- `cb.status == "COMPLETED"` and `== "FAILED"`.
abbrev pub is_completed : Status → Bool
is_completed completed = Bool.true
is_completed _ = Bool.false

abbrev pub is_failed : Status → Bool
is_failed failed = Bool.true
is_failed _ = Bool.false

-- `CallbackBody(status="FAILED", error_message=m)`
abbrev pub failed_body : String → CallbackBody
failed_body m = record {
  status = Status.failed;
  output_data = Option.none;
  error_message = Option.some m;
}
