-- ===== src/Gallery/Pool/Warned.antt =====
-- gallery.py: the pool and its warning, and the times that cannot be compared.
use marketer.Prelude.{
  ℕ, zero, suc, ◌≤◌, String, Bool, true, false, Option, none, some, List, [], ◌∷◌, ◌≡◌, refl, subst,
  ap, arith, ◌||◌, ◌⊎◌, inl, inr, is_some, eqb, leb, length, if_keeps, if◌then◌else◌,
}
use marketer.Value.{ℤ, Value, obj, Fields, Result, ok, err, ◌>>=◌}
use marketer.Gallery.{Moment}
use marketer.Gallery.Score.{TaskContext}
use marketer.Gallery.Shortlist.{PoolItem, Scored, pool_items, eligible_items, build_shortlist}
use marketer.Gallery.Shortlist.Ranked.{build_shortlist-IsShortlist, length-score_items}
use marketer.Gallery.Pool.{
  warning_of, read_parsed, Fetched, request_failed, responded, GalleryPool, Fetch, raw_items,
  read_body, pool_of, fetch_gallery_pool,
}

abbrev SameLength : {A : Type 0} → ℕ → Result (List A) → Type 0
SameLength n (err e) = Unit
SameLength n (ok xs) = length xs ≡ n

cons-SameLength :
    (n : ℕ) (r : Result PoolItem) (q : Result (List PoolItem))
    → SameLength n q
    → SameLength (suc n) (r >>= (λ i. q >>= (λ is. ok (i ∷ is))))
cons-SameLength n (err x) q s = tt
cons-SameLength n (ok i) (err x) s = tt
cons-SameLength n (ok i) (ok is) s = ap suc s

pool_items-SameLength : (xs : List Scored) → SameLength (length xs) (pool_items xs)
unfolding pool_items
pool_items-SameLength [] = refl
pool_items-SameLength (x ∷ xs) = cons-SameLength (length xs) _ _ (pool_items-SameLength xs)

module _ (from_iso : String → Option Moment) (lower : String → String) (above : Result ℤ → ℕ → Bool)
    (ctx : TaskContext) (now : ℤ) (candidates page_size : ℕ) where
  abbrev AtMost : ℕ → Result (List Fields) → Type 0
  AtMost n (err e) = Unit
  AtMost n (ok xs) = length xs ≤ n

  cons-AtMost :
      (n : ℕ) (item : Fields) (r : Result Bool) (q : Result (List Fields))
      → AtMost n q
      → AtMost (suc n) (r >>= (λ b. q >>= (λ es. ok (if b then item ∷ es else es))))
  cons-AtMost n item (err x) q s = tt
  cons-AtMost n item (ok b) (err x) s = tt
  cons-AtMost n item (ok true) (ok es) s = omega arith
  cons-AtMost n item (ok false) (ok es) s = omega arith

  eligible_items-AtMost :
      (raw : List Value) → AtMost (length raw) (eligible_items from_iso lower now raw)
  unfolding eligible_items
  eligible_items-AtMost [] = omega arith
  eligible_items-AtMost (obj item ∷ vs) =
      cons-AtMost (length vs) item _ _ (eligible_items-AtMost vs)
  eligible_items-AtMost (v ∷ vs) = tt

  -- A pool holds no more images than were asked for, nor than are eligible, nor those than were
  -- fetched; and it comes with a warning exactly if it is truncated or has no eligible image.
  pub record IsSound (p : GalleryPool) (w : Option String) : Type 0 where
    pub asked_lem : length p.shortlist ≤ candidates
    pub eligible_lem : length p.shortlist ≤ p.total_eligible
    pub fetched_lem : p.total_eligible ≤ p.total_fetched
    pub warned_lem : is_some w ≡ (p.truncated || eqb p.total_eligible 0)

  abbrev pub Warned : Fetch → Type 0
  Warned (none, w) = (w ≡ some "gallery_api_unavailable") ⊎ (w ≡ some "gallery_api_not_found")
  Warned (some p, w) = IsSound p w

  abbrev pub Answered : Result Fetch → Type 0
  Answered (err e) = Unit
  Answered (ok f) = Warned f

  warning_lem : (b : Bool) (n : ℕ) → is_some (warning_of b n) ≡ (b || eqb n 0)
  warning_lem true n = refl
  warning_lem false zero = refl
  warning_lem false (suc n) = ground arith

  pool_of-Warned :
      (raw : List Value) (b : Bool) (items : List PoolItem) (total : ℕ)
      → build_shortlist from_iso lower ctx now candidates raw ≡ ok (items, total)
      → Warned (pool_of from_iso lower above ctx now candidates page_size raw b (items, total))
  pool_of-Warned raw b items total h =
      let s = build_shortlist-IsShortlist from_iso lower ctx now candidates raw items total h in
      let m : length items ≡ length s.chosen =
        subst (SameLength (length s.chosen)) s.items_lem (pool_items-SameLength s.chosen) in
      let n : length s.eligible ≤ length raw =
        subst (AtMost (length raw)) s.eligible_lem (eligible_items-AtMost raw) in
      let k : length s.scored ≡ length s.eligible =
        length-score_items from_iso lower ctx now candidates raw s.eligible s.scored s.scored_lem in
      let c = s.length_lem in
      let t = s.total_lem in
      record {
        asked_lem = omega arith;
        eligible_lem = omega arith;
        fetched_lem = omega arith;
        warned_lem = warning_lem b total;
      }

  then_Answered :
      (raw : List Value) (q : Result Bool) (r : Result (List PoolItem × ℕ))
      → build_shortlist from_iso lower ctx now candidates raw ≡ r
      → Answered (
          q >>= (λ b.
            r >>= (λ l. ok (pool_of from_iso lower above ctx now candidates page_size raw b l))))
  then_Answered raw (err e) r h = tt
  then_Answered raw (ok b) (err e) h = tt
  then_Answered raw (ok b) (ok (items, total)) h = pool_of-Warned raw b items total h

  parsed-Answered :
      (body : Option Value)
      → Answered (read_parsed from_iso lower above ctx now candidates page_size body)
  unfolding read_body
  parsed-Answered none = inl refl
  parsed-Answered (some body) = then_Answered (raw_items body) _ _ refl

  fetch-Answered :
      (f : Fetched)
      → Answered (fetch_gallery_pool from_iso lower above ctx now candidates page_size f)
  unfolding fetch_gallery_pool
  fetch-Answered request_failed = inl refl
  fetch-Answered (responded status body) =
      if_keeps Answered (eqb status 404) {x = ok (none, some "gallery_api_not_found")} (inr refl) (
        if_keeps Answered (leb 400 status) {x = ok (none, some "gallery_api_unavailable")}
          (inl refl) (parsed-Answered body))

  -- A fetch that answers gives no pool and one of two warnings, or a pool that holds at most as many
  -- images as were asked for, as are eligible and as were fetched, and a warning exactly if the pool
  -- is truncated or has no eligible image.
  pub fetch_gallery_pool-Warned :
      (f : Fetched) (r : Fetch)
      → fetch_gallery_pool from_iso lower above ctx now candidates page_size f ≡ ok r
      → Warned r
  fetch_gallery_pool-Warned f r h = subst Answered h (fetch-Answered f)
