-- ===== src/Persistence/Retry.antt =====
-- persistence.py: `persist_on_ingest` on a task that the router sends again.
use marketer.Prelude.{
  ap, ◌∙◌, ℕ, String, true, Option, none, some, List, [], ◌∷◌, ◌≡◌, refl, filter,
}
use marketer.Value.{Fields, Result, ok, err}
use marketer.Db.{Db, User, RawBrief, ActionType}
use marketer.Db.Session.{Sess, Session, pure, ◌>>=◌, session_scope, swallow, or_else, round_trip}
use marketer.Db.Triples.{
  Triple, Triple-from, Triple-weaken, Triple-pure, Triple-round_trip, Triple-get, Triple-bind,
  session_scope_post,
}
use marketer.Db.Consistent.{IsConsistent}
use marketer.Db.Upserts.{
  upsert_user_keeps, insert_raw_brief_keeps, Triple-scalar_one_or_none, any_of_filter,
}
use marketer.Db.Repositories.{
  is_user, has_task, has_code, scalar_one_or_none, get_action_type, upsert_user, insert_raw_brief,
  NewBrief,
}
use marketer.Persistence.{PersistCtx, ingest_rows, known_action, persist_on_ingest, ingest_read}
use marketer.Persistence.Input.{read_ingest}

abbrev pub ctx_of : NewBrief → RawBrief → PersistCtx
ctx_of b r = record { user_id = b.user_id; raw_brief_id = r.id; action_code = b.action_code }

-- The task is stored: its action, its user and its brief each have exactly one row.
pub record IsStored (b : NewBrief) (c : PersistCtx) (d : Db) : Type 0 where
  action : ActionType
  user : User
  brief : RawBrief
  one_action : filter (has_code b.action_code) d.action_types ≡ action ∷ []
  one_user : filter (is_user b.user_id) d.users ≡ user ∷ []
  one_brief : filter (has_task b.router_task_id) d.raw_briefs ≡ brief ∷ []
  same_ctx : c ≡ ctx_of b brief

abbrev pub Ingested : NewBrief → Option PersistCtx → Db → Type 0
Ingested b none d = IsConsistent d
Ingested b (some c) d = IsConsistent d × IsStored b c d

module _ (b : NewBrief) (catalog : List ActionType) where
  abbrev pub Ready : Db → Type 0
  Ready d = IsConsistent d × (d.action_types ≡ catalog)

  abbrev Matched : Option ActionType → Type 0
  Matched none = Unit
  Matched (some a) = filter (has_code b.action_code) catalog ≡ a ∷ []

  get_action_type_keeps : Triple Ready (get_action_type b.action_code) (λ o d. Ready d × Matched o)
  unfolding get_action_type
  get_action_type_keeps = Triple-round_trip _ (
      Triple-get (λ d. scalar_one_or_none (filter (has_code b.action_code) d.action_types))
        λ d p. Triple-scalar_one_or_none d _ (p, tt) λ a e. (p, rw p.1 at e))

  stored_after :
      (a : ActionType) (u : User)
      → filter (has_code b.action_code) catalog ≡ a ∷ []
      → Triple
          (λ d.
            IsConsistent d
            × (d.action_types ≡ catalog)
            × (filter (is_user b.user_id) d.users ≡ u ∷ []))
          (do brief ← insert_raw_brief b; pure (some (ctx_of b brief)))
          (Ingested b)
  stored_after a u known = Triple-from _ λ d p.
      Triple-bind _ _
        (Triple-weaken _ (insert_raw_brief_keeps b d.users catalog) (λ x e. rw e (p.0, refl, p.1))
          (λ r x q. q))
        λ r. Triple-pure _ λ x q. (
          q.0.0,
          record {
            action = a;
            user = u;
            brief = r;
            one_action = rw q.0.2 known;
            one_user = rw q.0.1 p.2;
            one_brief = q.1;
            same_ctx = refl;
          },
        )

  known_action_keeps :
      (o : Option ActionType) → Triple (λ d. Ready d × Matched o) (known_action b o) (Ingested b)
  known_action_keeps none = Triple-pure none λ d p. p.0.0
  known_action_keeps (some a) = Triple-from _ λ d p.
      Triple-bind _ _
        (Triple-weaken _ (upsert_user_keeps b.user_id none catalog) (λ x e. rw e p.0) (λ r x q. q))
        λ u. stored_after a u p.1

  pub ingest_rows_keeps : Triple Ready (ingest_rows b) (Ingested b)
  unfolding ingest_rows
  ingest_rows_keeps = Triple-bind _ _ get_action_type_keeps known_action_keeps

-- Once it is stored, the same rows are found and nothing is written.
ingest_rows_again :
    (b : NewBrief) (c : PersistCtx) (d : Db)
    → IsStored b c d
    → ingest_rows b (record { db = d; faults = [] }) ≡ (ok (some c), record { db = d; faults = [] })
unfolding ingest_rows get_action_type upsert_user insert_raw_brief round_trip
ingest_rows_again b c d h =
    rw
      (
        h.one_action,
        any_of_filter (is_user b.user_id) d.users h.one_user,
        h.one_user,
        any_of_filter (has_task b.router_task_id) d.raw_briefs h.one_brief,
        h.one_brief,
        h.same_ctx,
      )
      refl

-- the answer of a swallowed transaction, where it is not the default, is its own
swallowed_some :
    {A : Type 0} (c : A) (m : Session (Option A)) (s s' : Sess)
    → swallow none m s ≡ (some c, s')
    → m s ≡ (ok (some c), s')
unfolding swallow
swallowed_some {A} c m s s' e = at_result (m s) refl e
  where
    at_result :
        (r : Result (Option A) × Sess)
        → m s ≡ r
        → or_else none r ≡ (some c, s')
        → m s ≡ (ok (some c), s')
    at_result (ok o, x) p e = p ∙ ap (λ (y : Option A × Sess). (ok y.0, y.1)) e
    at_result (err x, y) p e = cc

ingest-IsStored :
    (b : NewBrief) (c : PersistCtx) (s s' : Sess)
    → IsConsistent s.db
    → ingest_read (ok (some b)) s ≡ (ok (some c), s')
    → IsConsistent s'.db × IsStored b c s'.db
ingest-IsStored b c s s' con e =
    session_scope_post (Ingested b) {P = Ready b s.db.action_types} (ingest_rows b) (some c) s s'
      (con, refl) (ingest_rows_keeps b s.db.action_types)
      (swallowed_some c (session_scope (ingest_rows b)) s s' (ap (or_else none) e))

-- After a task was stored, whatever failed on the way, sending it again gives the same handoff
-- and leaves the tables as they are, if no statement fails then.
pub persist_on_ingest_retry :
    (uuid : String → Option ℕ) (envelope : Fields) (c : PersistCtx) (s s' : Sess)
    → IsConsistent s.db
    → persist_on_ingest true uuid envelope s ≡ (ok (some c), s')
    → persist_on_ingest true uuid envelope (record { db = s'.db; faults = [] })
      ≡ (ok (some c), record { db = s'.db; faults = [] })
unfolding persist_on_ingest
persist_on_ingest_retry uuid envelope c s s' con e = at_read (read_ingest uuid envelope) refl e
  where
    at_read :
        (r : Result (Option NewBrief))
        → read_ingest uuid envelope ≡ r
        → ingest_read r s ≡ (ok (some c), s')
        → ingest_read r (record { db = s'.db; faults = [] })
          ≡ (ok (some c), record { db = s'.db; faults = [] })
    at_read (err x) p e = cc
    at_read (ok none) p e = cc
    at_read (ok (some b)) p e =
        unfold session_scope swallow round_trip in
        rw (ingest_rows_again b c s'.db (ingest-IsStored b c s s' con e).1) refl
