-- ===== src/Reasoner/Resources.antt =====
-- reasoner.py: the resources of a callback, `list(dict.fromkeys(...))` over the attachments of the
-- user, the picks of the gallery and the recommended assets.
use marketer.Prelude.{
  ℕ, ◌≤◌, String, Bool, true, false, ◌&&◌, ◌||◌, not, List, [], ◌∷◌, ◌++◌, ◌≡◌, refl, ap, ◌∙◌, sym,
  arith, ◌==◌, if◌then◌else◌, length, map, filter, is_empty, contains, eq_iff, eq_refl,
  append_assoc, append-nil,
}
use marketer.Schemas.{PostEnrichment}
use marketer.Context.{InternalContext}

-- one key of `dict.fromkeys`: a key that is there keeps its place
abbrev pub add_key : List String → String → List String
add_key keys x = if contains x keys then keys else keys ++ x ∷ []

-- the keys of the dictionary, in the order of insertion
unfoldable pub from_keys : List String → List String → List String
from_keys keys [] = keys
from_keys keys (x ∷ xs) = from_keys (add_key keys x) xs

-- `list(dict.fromkeys(xs))`
unfoldable pub dedup : List String → List String
unfolding from_keys
dedup xs = from_keys [] xs

unfoldable pub resources_of : InternalContext → PostEnrichment → List String
resources_of ctx e = dedup (
    ctx.attachments
    ++ (map (λ img. img.content_url) e.selected_images
        ++ e.visual_selection.recommended_asset_urls))

-- `len(resources) if surface_format == "carousel" and resources else 1`
unfoldable pub total_items_of : String → List String → ℕ
total_items_of surface resources =
    if surface == "carousel" && not (is_empty resources) then length resources else 1

abbrev pub no_repeats : List String → Bool
no_repeats [] = true
no_repeats (x ∷ xs) = not (contains x xs) && no_repeats xs

-- The reference: an element, and what follows it but for its repetitions.
abbrev pub without : String → List String → List String
without x xs = filter (λ y. not (x == y)) xs

unfoldable pub first_seen : List String → List String
first_seen [] = []
first_seen (x ∷ xs) = x ∷ without x (first_seen xs)

abbrev pub unseen : List String → List String → List String
unseen keys xs = filter (λ y. not (contains y keys)) xs

contains-append :
    (k : String) (xs ys : List String) → contains k (xs ++ ys) ≡ (contains k xs || contains k ys)
contains-append k [] ys = refl
contains-append k (x ∷ xs) ys = ground (arith, contains-append k xs ys)

contains-without :
    (k x : String) (xs : List String) → contains k (without x xs) ≡ (contains k xs && not (x == k))
contains-without k x [] = refl
contains-without k x (y ∷ ys) = ground (arith, contains-without k x ys, eq_iff y k, eq_iff x y)

no_repeats-without :
    (x : String) (xs : List String) → no_repeats xs ≡ true → no_repeats (without x xs) ≡ true
no_repeats-without x [] h = refl
no_repeats-without x (y ∷ ys) h = ground (arith, no_repeats-without x ys, contains-without y x ys)

pub unseen-known :
    (x : String) (keys ys : List String)
    → contains x keys ≡ true
    → unseen keys (without x ys) ≡ unseen keys ys
unseen-known x keys [] h = refl
unseen-known x keys (y ∷ ys) h = ground (arith, unseen-known x keys ys h, eq_iff x y)

unseen-more :
    (x : String) (keys ys : List String) → unseen (keys ++ x ∷ []) ys ≡ unseen keys (without x ys)
unseen-more x keys [] = refl
unseen-more x keys (y ∷ ys) = ground (arith, unseen-more x keys ys, contains-append y keys (x ∷ []))

pub unseen_none : (xs : List String) → unseen [] xs ≡ xs
unseen_none [] = refl
unseen_none (x ∷ xs) = ap (λ r. x ∷ r) (unseen_none xs)

from_keys_known :
    (x : String) (keys ys : List String) (b : Bool)
    → contains x keys ≡ b
    → ((keys' : List String) → from_keys keys' ys ≡ keys' ++ unseen keys' (first_seen ys))
    → from_keys (if b then keys else keys ++ x ∷ []) ys
      ≡ keys
        ++ (if not b
            then x ∷ unseen keys (without x (first_seen ys))
            else unseen keys (without x (first_seen ys)))
from_keys_known x keys ys true h ih =
    ih keys ∙ ap (λ r. keys ++ r) (sym (unseen-known x keys (first_seen ys) h))
from_keys_known x keys ys false h ih =
    ih (keys ++ x ∷ [])
    ∙ (append_assoc keys (x ∷ []) _ ∙ ap (λ r. keys ++ x ∷ r) (unseen-more x keys (first_seen ys)))

from_keys_lem : (keys xs : List String) → from_keys keys xs ≡ keys ++ unseen keys (first_seen xs)
unfolding from_keys first_seen
from_keys_lem keys [] = sym (append-nil keys)
from_keys_lem keys (x ∷ xs) =
    from_keys_known x keys xs (contains x keys) refl (λ k. from_keys_lem k xs)

-- The keys of `dict.fromkeys` are the elements of the list, each at its first place.
pub dedup-first_seen : (xs : List String) → dedup xs ≡ first_seen xs
unfolding dedup
dedup-first_seen xs = from_keys_lem [] xs ∙ unseen_none (first_seen xs)

contains-first_seen : (k : String) (xs : List String) → contains k (first_seen xs) ≡ contains k xs
unfolding first_seen
contains-first_seen k [] = refl
contains-first_seen k (x ∷ xs) =
    ground (arith, contains-first_seen k xs, contains-without k x (first_seen xs))

pub no_repeats-first_seen : (xs : List String) → no_repeats (first_seen xs) ≡ true
unfolding first_seen
no_repeats-first_seen [] = refl
no_repeats-first_seen (x ∷ xs) = ground (
  arith,
  no_repeats-first_seen xs,
  contains-without x x (first_seen xs),
  no_repeats-without x (first_seen xs),
  eq_refl x,
)

contains-dedup : (k : String) (xs : List String) → contains k (dedup xs) ≡ contains k xs
contains-dedup k xs = rw (dedup-first_seen xs) (contains-first_seen k xs)

total_items_positive : (surface : String) (xs : List String) → 1 ≤ total_items_of surface xs
unfolding total_items_of
total_items_positive surface [] = ground arith
total_items_positive surface (x ∷ xs) = ground arith

-- The resources of a callback repeat no URL, and hold exactly the attachments, the picks and the
-- recommended assets; `total_items` is their number for a carousel that has some, and else 1, so
-- that it is never 0.
pub resources_of_complete :
    (ctx : InternalContext) (e : PostEnrichment)
    → (no_repeats (resources_of ctx e) ≡ true)
      × ((u : String)
          → contains u (resources_of ctx e) ≡ (
              contains u ctx.attachments
              || (contains u (map (λ img. img.content_url) e.selected_images)
                  || contains u e.visual_selection.recommended_asset_urls)))
      × (1 ≤ total_items_of e.surface_format (resources_of ctx e))
unfolding resources_of
resources_of_complete ctx e =
    let picks = map (λ img. img.content_url) e.selected_images in
    let legacy = e.visual_selection.recommended_asset_urls in
    (
      rw (dedup-first_seen (ctx.attachments ++ (picks ++ legacy))) (no_repeats-first_seen _),
      λ u.
          contains-dedup u _
          ∙ (contains-append u ctx.attachments (picks ++ legacy)
              ∙ ap (λ b. contains u ctx.attachments || b) (contains-append u picks legacy)),
      total_items_positive e.surface_format _,
    )
