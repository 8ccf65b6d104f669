-- ===== src/Gallery/Shortlist/Ranked.antt =====
-- gallery.py: what a shortlist holds.
use marketer.Prelude.{
  ℕ, zero, suc, min, ◌≤◌, String, Bool, true, false, Option, List, [], ◌∷◌, ◌++◌, ◌≡◌, refl, sym,
  subst, ap, ◌∙◌, arith, eqb, ltb, length, length-take, take, filter, if_keeps, All, if◌then◌else◌,
}
use marketer.Value.{ℤ, Value, Fields, Result, ok, err, ◌>>=◌}
use marketer.Gallery.{Moment}
use marketer.Gallery.Score.{TaskContext}
use marketer.Gallery.Shortlist.{
  PoolItem, Scored, insert_ranked, rank, pool_items, eligible_items, score_items, shortlist_of,
  build_shortlist,
}

-- Each score is at least those after it.
abbrev pub Descending : List Scored → Type 0
Descending [] = Unit
Descending (x ∷ xs) = All (λ y. y.0 ≤ x.0) xs × Descending xs

-- The elements with a score, in their order.
abbrev pub with_score : ℕ → List Scored → List Scored
with_score n xs = filter (λ x. eqb x.0 n) xs

All-weaken : (m n : ℕ) (xs : List Scored) → m ≤ n → All (λ y. y.0 ≤ m) xs → All (λ y. y.0 ≤ n) xs
All-weaken m n [] h a = tt
All-weaken m n (x ∷ xs) h (a, as') = (omega arith, All-weaken m n xs h as')

All-insert_ranked :
    (n : ℕ) (x : Scored) (xs : List Scored)
    → x.0 ≤ n
    → All (λ y. y.0 ≤ n) xs
    → All (λ y. y.0 ≤ n) (insert_ranked x xs)
unfolding insert_ranked
All-insert_ranked n x [] h a = (h, tt)
All-insert_ranked n x (y ∷ ys) h (a, b) =
    if_keeps (All (λ y. y.0 ≤ n)) (ltb x.0 y.0) (a, All-insert_ranked n x ys h b) (h, (a, b))

insert_ranked-Descending :
    (x : Scored) (xs : List Scored) → Descending xs → Descending (insert_ranked x xs)
unfolding insert_ranked
insert_ranked-Descending x [] d = (tt, tt)
insert_ranked-Descending x (y ∷ ys) (a, d) =
    placed (ltb x.0 y.0) refl (insert_ranked-Descending x ys d)
  where
    placed :
        (b : Bool)
        → ltb x.0 y.0 ≡ b
        → Descending (insert_ranked x ys)
        → Descending (if b then y ∷ insert_ranked x ys else x ∷ y ∷ ys)
    placed true h ih = (All-insert_ranked y.0 x ys (ground arith) a, ih)
    placed false h ih = ((ground arith, All-weaken y.0 x.0 ys (ground arith) a), (a, d))

rank-Descending : (xs : List Scored) → Descending (rank xs)
unfolding rank
rank-Descending [] = tt
rank-Descending (x ∷ xs) = insert_ranked-Descending x (rank xs) (rank-Descending xs)

with_score-insert_ranked :
    (n : ℕ) (x : Scored) (xs : List Scored)
    → with_score n (insert_ranked x xs) ≡ with_score n (x ∷ xs)
unfolding insert_ranked
with_score-insert_ranked n x [] = refl
with_score-insert_ranked n x (y ∷ ys) = ground (arith, with_score-insert_ranked n x ys)

with_score-rank : (n : ℕ) (xs : List Scored) → with_score n (rank xs) ≡ with_score n xs
unfolding rank
with_score-rank n [] = refl
with_score-rank n (x ∷ xs) =
    with_score-insert_ranked n x (rank xs)
    ∙ ap (λ r. if eqb x.0 n then x ∷ r else r) (with_score-rank n xs)

abbrev drop : ℕ → List Scored → List Scored
drop zero xs = xs
drop (suc n) [] = []
drop (suc n) (x ∷ xs) = drop n xs

take-drop : (n : ℕ) (xs : List Scored) → take n xs ++ drop n xs ≡ xs
take-drop zero xs = refl
take-drop (suc n) [] = refl
take-drop (suc n) (x ∷ xs) = ap (λ r. x ∷ r) (take-drop n xs)

length-insert_ranked :
    (x : Scored) (xs : List Scored) → length (insert_ranked x xs) ≡ suc (length xs)
unfolding insert_ranked
length-insert_ranked x [] = refl
length-insert_ranked x (y ∷ ys) = ground (arith, length-insert_ranked x ys)

length-rank : (xs : List Scored) → length (rank xs) ≡ length xs
unfolding rank
length-rank [] = refl
length-rank (x ∷ xs) = length-insert_ranked x (rank xs) ∙ ap suc (length-rank xs)

module _ (from_iso : String → Option Moment) (lower : String → String) (ctx : TaskContext) (now : ℤ)
    (candidates : ℕ) (raw : List Value) where
  -- What a shortlist has to do with the items that it was made of.
  pub record IsShortlist (items : List PoolItem) (total : ℕ) : Type 0 where
    pub eligible : List Fields
    pub scored : List Scored
    pub chosen : List Scored
    pub dropped : List Scored
    pub eligible_lem : eligible_items from_iso lower now raw ≡ ok eligible
    pub scored_lem : score_items from_iso lower ctx eligible ≡ ok scored
    pub total_lem : total ≡ length scored
    pub length_lem : length chosen ≡ min candidates total
    pub descending : Descending (chosen ++ dropped)
    pub stable : (n : ℕ) → with_score n (chosen ++ dropped) ≡ with_score n scored
    pub items_lem : pool_items chosen ≡ ok items

  abbrev Listed : Result (List PoolItem × ℕ) → Type 0
  Listed (err e) = Unit
  Listed (ok (items, total)) = IsShortlist items total

  abbrev Sized : List Fields → Result (List Scored) → Type 0
  Sized es (err e) = Unit
  Sized es (ok ss) = length ss ≡ length es

  cons-Sized :
      (e : Fields) (es : List Fields) (r : Result ℕ) (q : Result (List Scored))
      → Sized es q
      → Sized (e ∷ es) (r >>= (λ n. q >>= (λ ss. ok ((n, e) ∷ ss))))
  cons-Sized e es (err x) q s = tt
  cons-Sized e es (ok n) (err x) s = tt
  cons-Sized e es (ok n) (ok ss) s = ap suc s

  score_items-Sized : (es : List Fields) → Sized es (score_items from_iso lower ctx es)
  unfolding score_items
  score_items-Sized [] = refl
  score_items-Sized (e ∷ es) = cons-Sized e es _ _ (score_items-Sized es)

  pub length-score_items :
      (es : List Fields) (ss : List Scored)
      → score_items from_iso lower ctx es ≡ ok ss
      → length ss ≡ length es
  length-score_items es ss h = subst (Sized es) h (score_items-Sized es)

  built :
      (es : List Fields) (ss : List Scored) (r : Result (List PoolItem))
      → eligible_items from_iso lower now raw ≡ ok es
      → score_items from_iso lower ctx es ≡ ok ss
      → pool_items (take candidates (rank ss)) ≡ r
      → Listed (r >>= (λ l. ok (l, length es)))
  built es ss (err e) h k m = tt
  built es ss (ok l) h k m =
      let whole = take-drop candidates (rank ss) in
      record {
        eligible = es;
        scored = ss;
        chosen = take candidates (rank ss);
        dropped = drop candidates (rank ss);
        eligible_lem = h;
        scored_lem = k;
        total_lem = sym (length-score_items es ss k);
        length_lem =
            length-take candidates (rank ss)
            ∙ ap (min candidates) (length-rank ss ∙ length-score_items es ss k);
        descending = subst Descending (sym whole) (rank-Descending ss);
        stable = λ n. ap (with_score n) whole ∙ with_score-rank n ss;
        items_lem = m;
      }

  scored_then :
      (es : List Fields) (r : Result (List Scored))
      → eligible_items from_iso lower now raw ≡ ok es
      → score_items from_iso lower ctx es ≡ r
      → Listed (r >>= (λ ss. pool_items (take candidates (rank ss)) >>= (λ l. ok (l, length es))))
  scored_then es (err e) h k = tt
  scored_then es (ok ss) h k = built es ss _ h k refl

  shortlist_of-Listed :
      (es : List Fields)
      → eligible_items from_iso lower now raw ≡ ok es
      → Listed (shortlist_of from_iso lower ctx candidates es)
  unfolding score_items pool_items
  shortlist_of-Listed [] h = record {
    eligible = [];
    scored = [];
    chosen = [];
    dropped = [];
    eligible_lem = h;
    scored_lem = refl;
    total_lem = refl;
    length_lem = omega arith;
    descending = tt;
    stable = λ n. refl;
    items_lem = refl;
  }
  shortlist_of-Listed (e ∷ es) h =
      scored_then (e ∷ es) (score_items from_iso lower ctx (e ∷ es)) h refl

  eligible-Listed :
      (r : Result (List Fields))
      → eligible_items from_iso lower now raw ≡ r
      → Listed (r >>= (λ es. shortlist_of from_iso lower ctx candidates es))
  eligible-Listed (err e) h = tt
  eligible-Listed (ok es) h = shortlist_of-Listed es h

  -- A shortlist holds, of the items that are eligible, as many as were asked for or all that there
  -- are; they are ranked by score, each chosen one at or above each one that was dropped, items of the
  -- same score keep their order, none is lost or repeated, and `total` counts the eligible ones.
  pub build_shortlist-IsShortlist :
      (items : List PoolItem) (total : ℕ)
      → build_shortlist from_iso lower ctx now candidates raw ≡ ok (items, total)
      → IsShortlist items total
  unfolding build_shortlist
  build_shortlist-IsShortlist items total h = subst Listed h (eligible-Listed _ refl)
