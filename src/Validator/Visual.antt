-- ===== src/Validator/Visual.antt =====
-- validator.py: URL containment and the correction of roles in `visual_selection`.
pub mod Containment
use marketer.Prelude.{
  String, Bool, true, false, ◌&&◌, ◌||◌, not, Option, none, some, List, [], ◌∷◌, ◌++◌, ◌≡◌, refl,
  arith, ◌==◌, eq_iff, if◌then◌else◌, filter, any, is_empty, contains, All, map, ◌⊎◌, inl, inr,
  Bool-cases,
}
use marketer.Schemas.{Warning, VisualSelection}
use marketer.Context.{GalleryItem}

abbrev pub urls_of : List GalleryItem → List String
urls_of [] = []
urls_of (g ∷ gs) = g.url ∷ urls_of gs

abbrev pub in_gallery : List GalleryItem → String → Bool
in_gallery gallery u = contains u (urls_of gallery)

-- The role that `gallery_by_url` has for a URL: that of its last item.
abbrev pub last_role : Bool → List GalleryItem → String → Bool
last_role found [] u = found
last_role found (g ∷ gs) u = last_role (if g.url == u then g.role == "reference" else found) gs u

abbrev pub is_reference : List GalleryItem → String → Bool
is_reference gallery u = last_role false gallery u

abbrev pub warn_if : Bool → String → Option String → List Warning
warn_if b code about = if b then (record { code = code; about = about }) ∷ [] else []

-- `if bad: xs = [u for u in xs if p(u)]`
abbrev pub keep_if_bad : (String → Bool) → List String → List String
keep_if_bad p xs = if is_empty (filter (λ u. not (p u)) xs) then xs else filter p xs

-- `for u in misplaced: if u not in refs: refs.append(u)`
unfoldable pub append_missing : List String → List String → List String
append_missing refs [] = refs
append_missing refs (u ∷ us) = append_missing (if contains u refs then refs else refs ++ u ∷ []) us

unfoldable pub correct_visual : List GalleryItem → VisualSelection → VisualSelection × List Warning
correct_visual gallery vs =
    let known = in_gallery gallery in
    let assets = keep_if_bad known vs.recommended_asset_urls in
    let refs = keep_if_bad known vs.recommended_reference_urls in
    let misplaced = filter (is_reference gallery) assets in
    let assets' = keep_if_bad (λ u. not (is_reference gallery u)) assets in
    let refs' = append_missing refs misplaced in
    let shared = filter (λ u. contains u refs') assets' in
    (
      record {
        recommended_asset_urls = keep_if_bad (λ u. not (contains u refs')) assets';
        recommended_reference_urls = refs';
        avoid_asset_urls = filter known vs.avoid_asset_urls;
      },
      warn_if (not (is_empty (filter (λ u. not (known u)) vs.recommended_asset_urls)))
            "visual_hallucinated" (some "visual_selection.recommended_asset_urls")
          ++ warn_if (not (is_empty (filter (λ u. not (known u)) vs.recommended_reference_urls)))
              "visual_hallucinated" (some "visual_selection.recommended_reference_urls")
          ++ warn_if (not (is_empty misplaced)) "reference_used_as_asset" none
          ++ warn_if (not (is_empty shared)) "reference_used_as_asset" none,
    )
