-- ===== src/Normalizer/Sources/Roles.antt =====
-- normalizer.py: the roles of the collected images, and the gallery that is made of them.
use marketer.Prelude.{
  String, Bool, true, false, ◌&&◌, ◌||◌, not, List, [], ◌∷◌, ◌++◌, refl, ◌==◌, contains, is_empty,
  filter, if◌then◌else◌, All,
}
use marketer.Value.{
  Value, null, str, bool, int, float, obj, arr, Fields, field, end, ok, truthy, get, get_attr,
  or_empty, nil, ◌>>=◌,
}
use marketer.Normalizer.Images.{PathParser}
use marketer.Normalizer.Images.Allowed.{Answers, bind-Answers, anything-Answers}
use marketer.Normalizer.Images.Usable.{IsKnown, IsUsable, sanitize_gallery-IsUsable}
use marketer.Normalizer.Sources.{
  Raw, dicts_in, with_role, extract_image_list_from, image_catalog_gate_hints, data_of,
  linked_dicts, gate_images, gates_images, attached_images, nested_brief_dict, brand_material,
  images_from, collect_raw_images, gallery_of,
}

abbrev Known : List Raw → Type 0
Known raw = All (λ x. IsKnown x.1) raw

append-Known : (xs ys : List Raw) → Known xs → Known ys → Known (xs ++ ys)
append-Known [] ys hs ks = ks
append-Known (x ∷ xs) ys (h, hs) ks = (h, append-Known xs ys hs ks)

with_role-Known :
    (role : String) (dicts : List Fields) → IsKnown role → Known (with_role role dicts)
with_role-Known role [] h = tt
with_role-Known role (d ∷ dicts) h = (h, with_role-Known role dicts h)

linked_dicts-Known :
    (role : String) (v : Value) → IsKnown role → Answers Known (linked_dicts role v)
linked_dicts-Known role v h =
    bind-Answers (λ ds. Unit) Known (dicts_in (if truthy v then v else arr nil)) _
      (anything-Answers _)
      (λ ds q. with_role-Known role (filter (λ fs. truthy (get "url" fs)) ds) h)

module _ (lower : String → String) where
  gate_images-Known : (code : String) (gate : Value) → Known (gate_images lower code gate)
  gate_images-Known code (obj gate) = by_name (
      contains (lower code) image_catalog_gate_hints
      || (not (is_empty items) && not (lower code == "brief")))
    where
      items : List Fields
      items = extract_image_list_from (data_of (or_empty (get "response" gate)))

      by_name : (b : Bool) → Known (if b then with_role "content" items else [])
      by_name true = with_role-Known "content" items refl
      by_name false = tt
  gate_images-Known code (str s) = tt
  gate_images-Known code (bool b) = tt
  gate_images-Known code (int z) = tt
  gate_images-Known code (float b r) = tt
  gate_images-Known code (arr vs) = tt
  gate_images-Known code null = tt

  gates_images-Known : (gates : Fields) → Known (gates_images lower gates)
  gates_images-Known end = tt
  gates_images-Known (field code gate rest) =
      append-Known (gate_images lower code gate) (gates_images lower rest)
        (gate_images-Known code gate) (gates_images-Known rest)

  brand_material-Known : (v : Value) → Answers Known (brand_material lower v)
  brand_material-Known (obj account) =
      bind-Answers (λ v. Unit) Known
        (get_attr "FIELD_BRAND_MATERIAL"
          (or_empty (get "form_values" (nested_brief_dict lower account))))
        _ (anything-Answers _) (λ v q. linked_dicts-Known "brand_asset" v refl)
  brand_material-Known (str s) = tt
  brand_material-Known (bool b) = tt
  brand_material-Known (int z) = tt
  brand_material-Known (float b r) = tt
  brand_material-Known (arr vs) = tt
  brand_material-Known null = tt

  images_from-Known :
      (payload : Fields) (gates : Value) → Answers Known (images_from lower payload gates)
  images_from-Known payload (obj gates) =
      bind-Answers (λ v. Unit) Known
        (get_attr "attachments" (or_empty (get "client_request" payload))) _ (anything-Answers _)
        (λ attached q.
          bind-Answers (λ v. Unit) Known (get_attr "response" (or_empty (get "brief" gates))) _
            (anything-Answers _) (λ response p. joined attached (data_of (or_empty response))))
    where
      joined :
          (attached account : Value)
          → Answers Known (
              brand_material lower account >>= (λ material.
                linked_dicts "unknown" (get "images" payload) >>= (λ images. ok (
                  gates_images lower gates
                  ++ (attached_images lower attached ++ (material ++ images))))))
      joined attached account =
          bind-Answers Known Known (brand_material lower account) _ (brand_material-Known account)
            (λ material m.
              bind-Answers Known Known (linked_dicts "unknown" (get "images" payload)) _
                (linked_dicts-Known "unknown" (get "images" payload) refl)
                (λ images i. append-Known (gates_images lower gates) _ (gates_images-Known gates) (
                  append-Known (attached_images lower attached) _ (with_role-Known "unknown" _ refl)
                    (append-Known material images m i))))
  images_from-Known payload (str s) = tt
  images_from-Known payload (bool b) = tt
  images_from-Known payload (int z) = tt
  images_from-Known payload (float b r) = tt
  images_from-Known payload (arr vs) = tt
  images_from-Known payload null = tt

  -- If a gallery is made of the images of a payload, each of them has one of the four roles and an
  -- allowed extension, and its size, where one is known, is neither 0 nor above 20 MB.
  pub gallery_of-IsUsable :
      (urlparse : PathParser) (payload : Fields)
      → Answers (λ g. All IsUsable g.accepted) (gallery_of lower urlparse payload)
  unfolding collect_raw_images
  gallery_of-IsUsable urlparse payload =
      bind-Answers Known (λ g. All IsUsable g.accepted)
        (images_from lower payload (or_empty (get "action_execution_gates" payload))) _
        (images_from-Known payload (or_empty (get "action_execution_gates" payload)))
        (λ raw known. sanitize_gallery-IsUsable lower urlparse raw known)
