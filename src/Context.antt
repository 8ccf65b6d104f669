-- ===== src/Context.antt =====
-- schemas/internal_context.py: the normalized context, as far as validation and assembly read it.
use marketer.Prelude.{ℕ, String, Bool, Option, List}
use marketer.Value.{ℤ, Exc}
use marketer.Schemas.{Warning, SubscriptionJob}

pub record GalleryItem : Type 0 where
  pub url : String
  pub name : Option String
  pub extension : Option String
  pub mime_type : Option String
  pub size_bytes : Option ℤ
  pub width : Option ℤ
  pub height : Option ℤ
  pub tags : List String
  pub description : Option String
  pub category : Option String
  pub role : String
  pub used_previously : Option Bool

pub record AvailableChannel : Type 0 where
  pub channel : String
  pub url_or_handle : Option String
  pub label_hint : Option String

pub record BriefFacts : Type 0 where
  pub urls : List String
  pub phones : List String
  pub emails : List String
  pub prices : List String

pub record PriorPost : Type 0 where
  pub caption : Option String
  pub image_url : Option String

pub record InternalContext : Type 0 where
  pub task_id : String
  pub action_code : String
  pub surface : String
  pub mode : String
  pub attachments : List String
  pub gallery : List GalleryItem
  pub palette : List String
  pub available_channels : List AvailableChannel
  pub brief_facts : BriefFacts
  pub prior_post : Option PriorPost
  pub requested_surface_format : Option String
  pub gallery_raw_count : ℕ
  pub gallery_rejected_count : ℕ
  pub gallery_truncated : Bool
  pub subscription_jobs : Option (List SubscriptionJob)

-- What `normalize` does: it returns, raises a ValueError with a text, or raises something else.
pub data Normalized : Type 0 where
  normalized : InternalContext → List Warning → Normalized
  invalid : String → Normalized
  crashed : Exc → Normalized
