-- ===== src/Db/Upserts.antt =====
-- The two inserts of db/repositories.py that do nothing where their row is there already.
use marketer.Prelude.{
  ℕ, Bool, true, false, Option, none, some, List, [], ◌∷◌, ◌≡◌, refl, arith, if◌then◌else◌, any,
  filter, ◌&&◌, subst, sym, ap, ◌∙◌,
}
use marketer.Value.{Value, db_error}
use marketer.Db.{Db, User, RawBrief, ActionType}
use marketer.Db.Session.{Session, pure, put_db, check_constraint, ◌>>◌, get_db, round_trip, ◌>>=◌}
use marketer.Db.Triples.{
  Triple, Triple-pure_at, Triple-raise, Triple-round_trip, Triple-get, Triple-check, Triple-then,
  Triple-put_unit, Triple-bind,
}
use marketer.Db.Consistent.{IsConsistent}
use marketer.Db.Repositories.{
  is_user, has_task, has_code, scalar_one, scalar_one_or_none, insert_user, upsert_user, NewBrief,
  add_brief, insert_brief, insert_raw_brief,
}

pub any_of_filter :
    {A : Type 0} (p : A → Bool) (l : List A) {x : A} {rest : List A}
    → filter p l ≡ x ∷ rest
    → any p l ≡ true
any_of_filter p [] h = cc
any_of_filter p (y ∷ l) {x} {rest} h = ground (arith, any_of_filter p l {x = x} {rest = rest})

pub filter_of_any-false :
    {A : Type 0} (p : A → Bool) (l : List A) → any p l ≡ false → filter p l ≡ []
filter_of_any-false p [] h = refl
filter_of_any-false p (y ∷ l) h = ground (arith, filter_of_any-false p l)

-- The row that `scalar_one` gives is the only one.
pub Triple-scalar_one :
    {A : Type 0} {Q : A → Db → Type 0} (d : Db) (l : List A)
    → ((a : A) → l ≡ a ∷ [] → Q a d)
    → Triple (λ x. x ≡ d) (scalar_one l) Q
Triple-scalar_one d [] h = Triple-raise db_error
Triple-scalar_one d (a ∷ []) h = Triple-pure_at a d (h a refl)
Triple-scalar_one d (a ∷ _ ∷ _) h = Triple-raise db_error

pub Triple-scalar_one_or_none :
    {A : Type 0} {Q : Option A → Db → Type 0} (d : Db) (l : List A)
    → Q none d
    → ((a : A) → l ≡ a ∷ [] → Q (some a) d)
    → Triple (λ x. x ≡ d) (scalar_one_or_none l) Q
Triple-scalar_one_or_none d [] n h = Triple-pure_at none d n
Triple-scalar_one_or_none d (a ∷ []) n h = Triple-pure_at (some a) d (h a refl)
Triple-scalar_one_or_none d (a ∷ _ ∷ _) n h = Triple-raise db_error

if_keeps : {A : Type 0} (P : A → Type 0) (b : Bool) (x y : A) → P x → P y → P (if b then x else y)
if_keeps P true x y p q = p
if_keeps P false x y p q = q

insert_user-IsConsistent :
    (u : ℕ) (brand : Option Value) (d : Db) → IsConsistent d → IsConsistent (insert_user u brand d)
insert_user-IsConsistent u brand d c =
    if_keeps IsConsistent (any (is_user u) d.users) d _ c
      (record { one_active = c.one_active; jobs_owned = c.jobs_owned; one_brief = c.one_brief })

-- After an upsert the user has exactly one row; the catalog is as it was.
pub upsert_user_keeps :
    (u : ℕ) (brand : Option Value) (catalog : List ActionType)
    → Triple
        (λ d. IsConsistent d × (d.action_types ≡ catalog))
        (upsert_user u brand)
        (λ r d. IsConsistent d × (d.action_types ≡ catalog) × (filter (is_user u) d.users ≡ r ∷ []))
unfolding upsert_user
upsert_user_keeps u brand catalog = Triple-round_trip _ (
    Triple-get (λ d. put_db (insert_user u brand d) >> (round_trip >> reread))
      λ d p. Triple-then (insert_user u brand d) _ (
        Triple-round_trip _ (
          Triple-get (λ x. scalar_one (filter (is_user u) x.users))
            λ x e. Triple-scalar_one x _ λ r h. (
              subst IsConsistent (sym e) (insert_user-IsConsistent u brand d p.0),
              ap (λ (y : Db). y.action_types) e
                  ∙ if_keeps (λ (y : Db). y.action_types ≡ catalog) (any (is_user u) d.users) d _
                      p.1 p.1,
              h,
            ))))
  where
    reread : Session User
    reread = do x ← get_db; scalar_one (filter (is_user u) x.users)

add_brief-IsConsistent :
    (b : NewBrief) (d : Db)
    → any (has_task b.router_task_id) d.raw_briefs ≡ false
    → IsConsistent d
    → IsConsistent (add_brief b d)
add_brief-IsConsistent b d new c = record {
  one_active = c.one_active;
  jobs_owned = c.jobs_owned;
  one_brief = λ t.
      ground
        (arith, c.one_brief t, filter_of_any-false (has_task b.router_task_id) d.raw_briefs new);
}

-- What the insert of a brief keeps: users, catalog and consistency.
abbrev pub Kept : List User → List ActionType → Db → Type 0
Kept us catalog d = IsConsistent d × (d.users ≡ us) × (d.action_types ≡ catalog)

insert_brief_keeps :
    (b : NewBrief) (us : List User) (catalog : List ActionType) (d : Db)
    → Kept us catalog d
    → (old : Bool) → any (has_task b.router_task_id) d.raw_briefs ≡ old
    → Triple
        (λ x. x ≡ d)
        (if old
          then pure tt
          else (check_constraint
                (any (is_user b.user_id) d.users && any (has_code b.action_code) d.action_types)
              >> put_db (add_brief b d)))
        (λ _. Kept us catalog)
insert_brief_keeps b us catalog d p true e = Triple-pure_at tt d p
insert_brief_keeps b us catalog d p false e =
    Triple-check _ _
      λ ok. Triple-put_unit (add_brief b d) (add_brief-IsConsistent b d e p.0, p.1, p.2)

-- After an insert the task has exactly one brief.
pub insert_raw_brief_keeps :
    (b : NewBrief) (us : List User) (catalog : List ActionType)
    → Triple
        (Kept us catalog)
        (insert_raw_brief b)
        (λ r d. Kept us catalog d × (filter (has_task b.router_task_id) d.raw_briefs ≡ r ∷ []))
unfolding insert_raw_brief
insert_raw_brief_keeps b us catalog = Triple-round_trip _ (
    Triple-get (λ d. insert_brief b d >> (round_trip >> reread))
      λ d p. Triple-bind _ _ (insert_brief_keeps b us catalog d p _ refl) λ _. Triple-round_trip _ (
        Triple-get (λ x. scalar_one (filter (has_task b.router_task_id) x.raw_briefs))
          λ x q. Triple-scalar_one x _ λ r h. (q, h)))
  where
    reread : Session RawBrief
    reread = do x ← get_db; scalar_one (filter (has_task b.router_task_id) x.raw_briefs)
