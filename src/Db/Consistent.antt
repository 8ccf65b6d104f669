-- ===== src/Db/Consistent.antt =====
-- What the code, with the constraints of the schema, keeps true of the tables, operation by
-- operation of db/repositories.py.
use marketer.Prelude.{
  ℕ, ◌≤◌, Bool, true, false, ◌&&◌, Option, none, some, List, [], ◌∷◌, map, ◌≡◌, refl, arith, eqb,
  eqb_refl, any, filter, length, All,
}
use marketer.Value.{Value, db_error}
use marketer.Db.{Db, Strategy, Job, RawBrief, BriefStatus}
use marketer.Db.Session.{pure, put_db, check_constraint, ◌>>◌}
use marketer.Db.Triples.{
  Triple, Triple-pure, Triple-pure_at, Triple-raise, Triple-round_trip, Triple-get, Triple-check,
  Triple-put, Triple-put_unit, Triple-bind,
}
use marketer.Db.Repositories.{
  is_active_of, has_task, scalar_one_or_none, get_active_strategy, strategy_row, add_strategy,
  may_add_strategy, create_strategy, or_create, ensure_strategy, NewJob, add_job, job_row,
  may_add_job, create_job, mark_raw_brief, set_status, mark_brief,
}

-- Strategy `i` is there and belongs to user `u`.
abbrev pub is_owned_by : ℕ → ℕ → Strategy → Bool
is_owned_by u i r = eqb r.user_id u && eqb r.id i

abbrev pub owns : ℕ → ℕ → Db → Bool
owns u i d = any (is_owned_by u i) d.strategies

-- No user has two active strategies; every job hangs on a strategy of its own user; no task has
-- two briefs.
pub record IsConsistent (d : Db) : Type 0 where
  pub one_active : (u : ℕ) → length (filter (is_active_of u) d.strategies) ≤ 1
  pub jobs_owned : All (λ (j : Job). owns j.user_id j.strategy_id d ≡ true) d.jobs
  pub one_brief : (t : ℕ) → length (filter (has_task t) d.raw_briefs) ≤ 1

active-owned :
    (u : ℕ) (l : List Strategy) {r : Strategy} {rest : List Strategy}
    → filter (is_active_of u) l ≡ r ∷ rest
    → any (is_owned_by u r.id) l ≡ true
active-owned u [] h = ground arith
active-owned u (x ∷ l) {r} {rest} h =
    ground (arith, active-owned u l {r = r} {rest = rest}, eqb_refl x.id)

any-false-filter :
    (u : ℕ) (l : List Strategy) → any (is_active_of u) l ≡ false → filter (is_active_of u) l ≡ []
any-false-filter u [] h = refl
any-false-filter u (x ∷ l) h = ground (arith, any-false-filter u l)

-- A job that had its owner keeps it when a strategy is added.
jobs_owned-weaken :
    (x : Strategy) (l : List Strategy) (js : List Job)
    → All (λ (j : Job). any (is_owned_by j.user_id j.strategy_id) l ≡ true) js
    → All (λ (j : Job). any (is_owned_by j.user_id j.strategy_id) (x ∷ l) ≡ true) js
jobs_owned-weaken x l [] h = tt
jobs_owned-weaken x l (j ∷ js) h = (ground arith, jobs_owned-weaken x l js h.1)

filter-map_status :
    (t i now : ℕ) (st : BriefStatus) (l : List RawBrief)
    → length (filter (has_task t) (map (set_status i st now) l)) ≡ length (filter (has_task t) l)
filter-map_status t i now st [] = refl
filter-map_status t i now st (b ∷ l) = ground (arith, filter-map_status t i now st l)

-- What `get_active_strategy` says of the tables by its answer.
abbrev pub Active : ℕ → Option Strategy → Db → Type 0
Active u none d = Unit
Active u (some r) d = owns u r.id d ≡ true

Active-rows :
    (u : ℕ) (d : Db) (l : List Strategy)
    → filter (is_active_of u) d.strategies ≡ l
    → IsConsistent d
    → Triple (λ x. x ≡ d) (scalar_one_or_none l) (λ o x. IsConsistent x × Active u o x)
Active-rows u d [] e c = Triple-pure_at none d (c, tt)
Active-rows u d (r ∷ []) e c = Triple-pure_at (some r) d (c, active-owned u d.strategies e)
Active-rows u d (r ∷ _ ∷ _) e c = Triple-raise db_error

pub get_active_strategy_keeps :
    (u : ℕ) → Triple IsConsistent (get_active_strategy u) (λ o d. IsConsistent d × Active u o d)
unfolding get_active_strategy
get_active_strategy_keeps u =
    Triple-round_trip _
      (Triple-get _ λ d c. Active-rows u d (filter (is_active_of u) d.strategies) refl c)

add_strategy-IsConsistent :
    (u : ℕ) (bi : Value) (v : ℕ) (d : Db)
    → may_add_strategy u v d ≡ true
    → IsConsistent d
    → IsConsistent (add_strategy (strategy_row u bi v d) d)
add_strategy-IsConsistent u bi v d ok c = record {
  one_active = λ w. ground (arith, c.one_active w, any-false-filter u d.strategies, eqb_refl u);
  jobs_owned = jobs_owned-weaken (strategy_row u bi v d) d.strategies d.jobs c.jobs_owned;
  one_brief = c.one_brief;
}

pub create_strategy_keeps :
    (u : ℕ) (bi : Value) (v : ℕ)
    → Triple IsConsistent (create_strategy u bi v) (λ r d. IsConsistent d × (owns u r.id d ≡ true))
unfolding create_strategy
create_strategy_keeps u bi v = Triple-round_trip _ (
    Triple-get _ λ d c. Triple-check _ _ λ ok.
      Triple-put (add_strategy (strategy_row u bi v d) d) (strategy_row u bi v d)
        (add_strategy-IsConsistent u bi v d ok c, ground (arith, eqb_refl u, eqb_refl d.next_id)))

or_create_keeps :
    (u : ℕ) (bi : Value) (o : Option Strategy)
    → Triple
        (λ d. IsConsistent d × Active u o d)
        (or_create u bi o)
        (λ r d. IsConsistent d × (owns u r.id d ≡ true))
or_create_keeps u bi (some r) = Triple-pure r λ d h. h
or_create_keeps u bi none = record { at = λ s h. (create_strategy_keeps u bi 1).at s h.0 }

pub ensure_strategy_keeps :
    (u : ℕ) (bi : Value)
    → Triple IsConsistent (ensure_strategy u bi) (λ r d. IsConsistent d × (owns u r.id d ≡ true))
unfolding ensure_strategy
ensure_strategy_keeps u bi = Triple-bind _ _ (get_active_strategy_keeps u) (or_create_keeps u bi)

-- A job may be created once its strategy is known to be its user's; the strategy stays owned.
pub create_job_keeps :
    (j : NewJob)
    → Triple
        (λ d. IsConsistent d × (owns j.user_id j.strategy_id d ≡ true))
        (create_job j)
        (λ r d. IsConsistent d × (owns j.user_id j.strategy_id d ≡ true))
unfolding create_job
create_job_keeps j = Triple-round_trip _ (
    Triple-get
      (λ d. check_constraint (may_add_job j d) >> (put_db (add_job j d) >> pure (job_row j d)))
      λ d h. Triple-check (may_add_job j d) _ λ ok. Triple-put (add_job j d) (job_row j d) (
        record {
          one_active = h.0.one_active;
          jobs_owned = (h.1, h.0.jobs_owned);
          one_brief = h.0.one_brief;
        },
        h.1,
      ))

pub mark_raw_brief_keeps :
    (i : ℕ) (st : BriefStatus) → Triple IsConsistent (mark_raw_brief i st) (λ _. IsConsistent)
unfolding mark_raw_brief
mark_raw_brief_keeps i st = Triple-round_trip _ (
    Triple-get (λ d. put_db (mark_brief i st d))
      λ d c. Triple-put_unit (mark_brief i st d) (record {
        one_active = c.one_active;
        jobs_owned = c.jobs_owned;
        one_brief = λ t. ground (arith, c.one_brief t, filter-map_status t i d.now st d.raw_briefs);
      }))
