-- ===== src/Normalizer/Sources.antt =====
-- normalizer.py: where the images of a payload come from, each with the role that it has by default.
-- `lower` is `str.lower`.

pub mod Roles
use marketer.Prelude.{
  String, Bool, true, false, ◌&&◌, ◌||◌, not, Option, none, some, List, [], ◌∷◌, ◌++◌, ◌==◌,
  contains, is_empty, filter, if◌then◌else◌, map,
}
use marketer.Value.{
  Value, null, str, obj, arr, Fields, field, end, Result, ok, err, type_error, attribute_error,
  truthy, get, get_attr, or_empty, to_list, Items, nil, cons, ◌>>=◌,
}
use marketer.Normalizer.Clean.{clean_string}
use marketer.Normalizer.Images.{PathParser, Sanitized, sanitize_gallery}

abbrev pub Raw : Type 0
Raw = Fields × String

-- The dictionaries that a loop over a value meets; a loop over a text or a dictionary meets texts.
abbrev dicts_of : List Value → List Fields
dicts_of [] = []
dicts_of (obj fs ∷ rest) = fs ∷ dicts_of rest
dicts_of (v ∷ rest) = dicts_of rest

abbrev dicts_in : Value → Result (List Fields)
dicts_in (arr vs) = ok (dicts_of (to_list vs))
dicts_in (obj fs) = ok []
dicts_in (str s) = ok []
dicts_in v = if truthy v then err type_error else ok []

abbrev has_text_url : Fields → Bool
has_text_url fs = is_text (get "url" fs)
  where
    is_text : Value → Bool
    is_text (str s) = true
    is_text _ = false

abbrev with_role : String → List Fields → List Raw
with_role role dicts = map (λ fs. (fs, role)) dicts

-- the first of the keys whose value is a list
unfoldable pub first_list : List String → Fields → List Fields
first_list [] fs = []
first_list (k ∷ ks) fs = of_value (get k fs) (first_list ks fs)
  where
    of_value : Value → List Fields → List Fields
    of_value (arr vs) later = filter has_text_url (dicts_of (to_list vs))
    of_value _ later = later

-- `_extract_image_list_from`
unfoldable pub extract_image_list_from : Value → List Fields
unfolding first_list
extract_image_list_from (arr vs) = filter has_text_url (dicts_of (to_list vs))
extract_image_list_from (obj fs) = first_list ("items" ∷ "images" ∷ "assets" ∷ "media" ∷ []) fs
extract_image_list_from _ = []

abbrev image_catalog_gate_hints : List String
image_catalog_gate_hints = "image_catalog" ∷ "gallery" ∷ "images" ∷ "media" ∷ []

-- `v.get("data") if isinstance(v, dict) else None`
abbrev data_of : Value → Value
data_of (obj fs) = get "data" fs
data_of _ = null

abbrev linked_dicts : String → Value → Result (List Raw)
linked_dicts role v =
    dicts_in (if truthy v then v else arr nil)
    >>= (λ ds. ok (with_role role (filter (λ fs. truthy (get "url" fs)) ds)))

module _ (lower : String → String) where
  -- `_normalize_attachment_urls`
  abbrev attachment_url : Value → Option String
  attachment_url (str s) = clean_string lower (str s)
  attachment_url (obj fs) = clean_string lower (get "url" fs)
  attachment_url _ = none

  abbrev attachment_urls : List Value → List String
  attachment_urls [] = []
  attachment_urls (v ∷ rest) = keep (attachment_url v) (attachment_urls rest)
    where
      keep : Option String → List String → List String
      keep none urls = urls
      keep (some url) urls = url ∷ urls

  unfoldable pub normalize_attachment_urls : Value → List String
  normalize_attachment_urls (arr vs) = attachment_urls (to_list vs)
  normalize_attachment_urls _ = []

  abbrev gate_images : String → Value → List Raw
  gate_images code (obj gate) =
      let items = extract_image_list_from (data_of (or_empty (get "response" gate))) in
      let name = lower code in
      if contains name image_catalog_gate_hints || (not (is_empty items) && not (name == "brief"))
      then with_role "content" items
      else []
  gate_images code _ = []

  abbrev gates_images : Fields → List Raw
  gates_images end = []
  gates_images (field code gate rest) = gate_images code gate ++ gates_images rest

  abbrev attached_images : Value → List Raw
  attached_images v =
      with_role "unknown" (map (λ url. field "url" (str url) end) (normalize_attachment_urls v))

  abbrev nested_brief_dict : Fields → Fields
  nested_brief_dict fs = as_dict (get "brief" fs)
    where
      as_dict : Value → Fields
      as_dict (obj b) = b
      as_dict _ = end

  abbrev brand_material : Value → Result (List Raw)
  brand_material (obj account) =
      get_attr "FIELD_BRAND_MATERIAL" (or_empty (get "form_values" (nested_brief_dict account)))
      >>= (λ v. linked_dicts "brand_asset" v)
  brand_material _ = ok []

  abbrev images_from : Fields → Value → Result (List Raw)
  images_from payload (obj gates) =
      get_attr "attachments" (or_empty (get "client_request" payload)) >>= (λ attached.
        get_attr "response" (or_empty (get "brief" gates)) >>= (λ response.
          brand_material (data_of (or_empty response)) >>= (λ material.
            linked_dicts "unknown" (get "images" payload) >>= (λ images.
              ok (gates_images gates ++ (attached_images attached ++ (material ++ images)))))))
  images_from payload gates = err attribute_error

  -- `_collect_raw_images`
  unfoldable pub collect_raw_images : Fields → Result (List Raw)
  unfolding extract_image_list_from normalize_attachment_urls
  collect_raw_images payload = images_from payload (or_empty (get "action_execution_gates" payload))

  -- the gallery of a payload, as `normalize` makes it
  abbrev pub gallery_of : PathParser → Fields → Result Sanitized
  gallery_of urlparse payload =
      collect_raw_images payload >>= (λ raw. sanitize_gallery lower urlparse raw)
