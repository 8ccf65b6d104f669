-- ===== src/Validator/Visual/Containment.antt =====
-- validator.py: what the corrected `visual_selection` may hold.
use marketer.Prelude.{
  String, Bool, true, ◌&&◌, ◌||◌, not, List, [], ◌∷◌, ◌++◌, ◌≡◌, refl, arith, eq_iff, if◌then◌else◌,
  filter, contains, All, inl, inr, Bool-cases,
}
use marketer.Schemas.{VisualSelection}
use marketer.Context.{GalleryItem}
use marketer.Validator.Visual.{
  in_gallery, is_reference, keep_if_bad, append_missing, correct_visual,
}

keep_if_bad-eq-filter : (p : String → Bool) (xs : List String) → keep_if_bad p xs ≡ filter p xs
keep_if_bad-eq-filter p [] = refl
keep_if_bad-eq-filter p (x ∷ xs) = ground (arith, keep_if_bad-eq-filter p xs)

-- Every element passes a Boolean test.
abbrev pub Each : (String → Bool) → List String → Type 0
Each p = All (λ u. p u ≡ true)

Each-filter : (p : String → Bool) (xs : List String) → Each p (filter p xs)
Each-filter p [] = tt
Each-filter p (x ∷ xs) = ground (arith, Each-filter p xs)

Each-filter_of_Each : (p q : String → Bool) (xs : List String) → Each p xs → Each p (filter q xs)
Each-filter_of_Each p q [] h = tt
Each-filter_of_Each p q (x ∷ xs) h = ground (arith, Each-filter_of_Each p q xs h.1)

Each-append : (p : String → Bool) (xs ys : List String) → Each p xs → Each p ys → Each p (xs ++ ys)
Each-append p [] ys h k = k
Each-append p (x ∷ xs) ys h k = (h.0, Each-append p xs ys h.1 k)

Each-append_missing :
    (p : String → Bool) (refs us : List String)
    → Each p refs
    → Each p us
    → Each p (append_missing refs us)
unfolding append_missing
Each-append_missing p refs [] h k = h
Each-append_missing p refs (u ∷ us) h k = elim (Bool-cases (contains u refs)) [
  | inl there ↦ rw there (Each-append_missing p refs us h k.1)
  | inr new ↦
      rw new
        (Each-append_missing p (refs ++ u ∷ []) us (Each-append p refs (u ∷ []) h (k.0, tt)) k.1)
]

contains-append :
    (u : String) (xs ys : List String) → contains u (xs ++ ys) ≡ (contains u xs || contains u ys)
contains-append u [] ys = refl
contains-append u (x ∷ xs) ys = ground (arith, contains-append u xs ys)

contains-append_missing :
    (u : String) (refs us : List String)
    → contains u (append_missing refs us) ≡ (contains u refs || contains u us)
unfolding append_missing
contains-append_missing u refs [] = ground arith
contains-append_missing u refs (x ∷ us) = ground (
  arith,
  contains-append_missing u (if contains x refs then refs else refs ++ x ∷ []) us,
  contains-append u refs (x ∷ []),
  eq_iff x u,
)

contains-filter :
    (p : String → Bool) (u : String) (xs : List String)
    → contains u (filter p xs) ≡ (p u && contains u xs)
contains-filter p u [] = ground arith
contains-filter p u (x ∷ xs) = ground (arith, contains-filter p u xs, eq_iff x u)

filter_id : (p : String → Bool) (xs : List String) → Each p xs → filter p xs ≡ xs
filter_id p [] h = refl
filter_id p (x ∷ xs) h = ground (arith, filter_id p xs h.1)

filter-not : (p : String → Bool) (xs : List String) → Each p xs → filter (λ u. not (p u)) xs ≡ []
filter-not p [] h = refl
filter-not p (x ∷ xs) h = ground (arith, filter-not p xs h.1)

filter_none : (p : String → Bool) (xs : List String) → Each (λ u. not (p u)) xs → filter p xs ≡ []
filter_none p [] h = refl
filter_none p (x ∷ xs) h = ground (arith, filter_none p xs h.1)

module _ (gallery : List GalleryItem) (vs : VisualSelection) where
  abbrev known : String → Bool
  known = in_gallery gallery

  abbrev ordinary : String → Bool
  ordinary u = not (is_reference gallery u)

  -- the intermediate lists, by plain filters
  abbrev known_assets : List String
  known_assets = filter known vs.recommended_asset_urls

  abbrev all_refs : List String
  all_refs =
      append_missing (filter known vs.recommended_reference_urls)
        (filter (is_reference gallery) known_assets)

  abbrev unshared : String → Bool
  unshared u = not (contains u all_refs)

  corrected_assets :
      (correct_visual gallery vs).0.recommended_asset_urls
      ≡ filter unshared (filter ordinary known_assets)
  unfolding correct_visual
  corrected_assets = simp keep_if_bad-eq-filter

  corrected_refs : (correct_visual gallery vs).0.recommended_reference_urls ≡ all_refs
  unfolding correct_visual
  corrected_refs = simp keep_if_bad-eq-filter

  all_refs-known : Each known all_refs
  all_refs-known = Each-append_missing known _ _ (Each-filter known vs.recommended_reference_urls) (
      Each-filter_of_Each known (is_reference gallery) known_assets
        (Each-filter known vs.recommended_asset_urls))

  assets_lem :
      Each known (filter unshared (filter ordinary known_assets))
      × Each ordinary (filter unshared (filter ordinary known_assets))
      × Each unshared (filter unshared (filter ordinary known_assets))
  assets_lem = (
    Each-filter_of_Each known unshared _ (
        Each-filter_of_Each known ordinary known_assets
          (Each-filter known vs.recommended_asset_urls)),
    Each-filter_of_Each ordinary unshared _ (Each-filter ordinary known_assets),
    Each-filter unshared (filter ordinary known_assets),
  )

  -- After the correction every recommended asset is in the gallery, has not the role reference there
  -- and is not recommended as a reference too; every recommended reference and every URL to avoid is
  -- in the gallery.
  pub correct_visual_contained :
      let r = (correct_visual gallery vs).0 in
      Each known r.recommended_asset_urls
      × Each ordinary r.recommended_asset_urls
      × Each (λ u. not (contains u r.recommended_reference_urls)) r.recommended_asset_urls
      × Each known r.recommended_reference_urls
      × Each known r.avoid_asset_urls
  correct_visual_contained =
      rw (corrected_assets, corrected_refs)
        (
          assets_lem.0,
          assets_lem.1,
          assets_lem.2,
          all_refs-known,
          (unfold correct_visual in Each-filter known vs.avoid_asset_urls),
        )

  -- No URL of the gallery is lost: one that was recommended, as an asset or as a reference, is still
  -- recommended after the correction, as one or the other.
  correct_visual_keeps :
      (u : String)
      → known u ≡ true
      → (contains u vs.recommended_asset_urls || contains u vs.recommended_reference_urls) ≡ true
      → (contains u (correct_visual gallery vs).0.recommended_asset_urls
          || contains u (correct_visual gallery vs).0.recommended_reference_urls)
        ≡ true
  correct_visual_keeps u k h =
      rw (corrected_assets, corrected_refs)
        (ground (
          arith,
          contains-filter unshared u (filter ordinary known_assets),
          contains-filter ordinary u known_assets,
          contains-filter known u vs.recommended_asset_urls,
          contains-append_missing u (filter known vs.recommended_reference_urls)
              (filter (is_reference gallery) known_assets),
          contains-filter (is_reference gallery) u known_assets,
          contains-filter known u vs.recommended_reference_urls,
        ))

-- A selection that is as the correction leaves it is not changed, and gives no warning.
correct_visual_fixed :
    (gallery : List GalleryItem) (vs : VisualSelection)
    → Each (in_gallery gallery) vs.recommended_asset_urls
    → Each (λ u. not (is_reference gallery u)) vs.recommended_asset_urls
    → Each (λ u. not (contains u vs.recommended_reference_urls)) vs.recommended_asset_urls
    → Each (in_gallery gallery) vs.recommended_reference_urls
    → Each (in_gallery gallery) vs.avoid_asset_urls
    → correct_visual gallery vs ≡ (vs, [])
unfolding correct_visual append_missing
correct_visual_fixed gallery vs a b c d e = rw (
  filter-not (in_gallery gallery) vs.recommended_asset_urls a,
  filter-not (in_gallery gallery) vs.recommended_reference_urls d,
  filter_none (is_reference gallery) vs.recommended_asset_urls b,
  filter-not (λ u. not (is_reference gallery u)) vs.recommended_asset_urls b,
  filter_none (λ u. contains u vs.recommended_reference_urls) vs.recommended_asset_urls c,
  filter-not (λ u. not (contains u vs.recommended_reference_urls)) vs.recommended_asset_urls c,
  filter_id (in_gallery gallery) vs.avoid_asset_urls e,
)

-- The correction is idempotent: a second run changes nothing and gives no warning.
pub correct_visual_idem :
    (gallery : List GalleryItem) (vs : VisualSelection)
    → correct_visual gallery (correct_visual gallery vs).0 ≡ ((correct_visual gallery vs).0, [])
correct_visual_idem gallery vs =
    let h = correct_visual_contained gallery vs in
    correct_visual_fixed gallery (correct_visual gallery vs).0 h.0 h.1 h.2 h.3 h.4
