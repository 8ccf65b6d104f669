-- ===== src/Db/Triples.antt =====
-- Pre- and postconditions of session actions: what holds of the tables when an action returns.
-- Nothing is asked where it raises, since `session_scope` then restores the tables.
use marketer.Prelude.{Bool, true, false, ◌≡◌, refl, sym, subst, List, [], ◌∷◌}
use marketer.Value.{Result, ok, err, Exc}
use marketer.Db.{Db}
use marketer.Db.Session.{
  Sess, Session, pure, raise, get_db, put_db, continue, ◌>>=◌, take_fault, round_trip,
  check_constraint, end_scope, close_scope, session_scope, or_else, swallow,
}

abbrev pub Post : {A : Type 0} → (A → Db → Type 0) → Result A × Sess → Type 0
Post Q (ok a, s) = Q a s.db
Post Q (err e, s) = Unit

pub record Triple {A : Type 0} (P : Db → Type 0) (m : Session A) (Q : A → Db → Type 0)
    : Type 0 where
  pub at : (s : Sess) → P s.db → Post Q (m s)

module _ {A : Type 0} {P : Db → Type 0} {Q : A → Db → Type 0} where
  pub Triple-pure : (a : A) → ((d : Db) → P d → Q a d) → Triple P (pure a) Q
  Triple-pure a h = record { at = λ s p. h s.db p }

  pub Triple-raise : (e : Exc) → Triple P (raise e) Q
  Triple-raise e = record { at = λ s p. tt }

  pub Triple-round_trip : (k : Session A) → Triple P k Q → Triple P (round_trip >>= λ _. k) Q
  unfolding round_trip
  Triple-round_trip k h = record { at = λ s p. at_faults s s.faults p }
    where
      at_faults : (s : Sess) (f : List Bool) → P s.db → Post Q (continue (take_fault f s) (λ _. k))
      at_faults s [] p = h.at s p
      at_faults s (true ∷ r) p = tt
      at_faults s (false ∷ r) p = h.at (record s { faults = r }) p

  pub Triple-get :
      (k : Db → Session A)
      → ((d : Db) → P d → Triple (λ x. x ≡ d) (k d) Q)
      → Triple P (get_db >>= k) Q
  Triple-get k h = record { at = λ s p. (h s.db p).at s refl }

  pub Triple-check :
      (b : Bool) (k : Session A)
      → (b ≡ true → Triple P k Q)
      → Triple P (check_constraint b >>= λ _. k) Q
  Triple-check true k h = record { at = λ s p. (h refl).at s p }
  Triple-check false k h = record { at = λ s p. tt }

  pub Triple-then :
      (d : Db) (k : Session A) → Triple (λ y. y ≡ d) k Q → Triple P (put_db d >>= λ _. k) Q
  Triple-then d k h = record { at = λ s p. h.at (record s { db = d }) refl }

  -- A write, and what is returned after it.
  pub Triple-put : (d : Db) (a : A) → Q a d → Triple P (put_db d >>= λ _. pure a) Q
  Triple-put d a q = record { at = λ s p. q }

pub Triple-pure_at :
    {A : Type 0} {Q : A → Db → Type 0} (a : A) (d : Db) → Q a d → Triple (λ x. x ≡ d) (pure a) Q
Triple-pure_at {Q = Q} a d q = record { at = λ s e. subst (Q a) (sym e) q }

pub Triple-put_unit :
    {P : Db → Type 0} {Q : Unit {0} → Db → Type 0} (d : Db) → Q tt d → Triple P (put_db d) Q
Triple-put_unit d q = record { at = λ s p. q }

module _ {A B : Type 0} {Q : A → Db → Type 0} {R : B → Db → Type 0} where
  Post-continue :
      (r : Result A × Sess) (f : A → Session B)
      → Post Q r
      → ((a : A) → Triple (Q a) (f a) R)
      → Post R (continue r f)
  Post-continue (ok a, s) f q h = (h a).at s q
  Post-continue (err e, s) f q h = tt

  pub Triple-bind :
      {P : Db → Type 0} (m : Session A) (f : A → Session B)
      → Triple P m Q
      → ((a : A) → Triple (Q a) (f a) R)
      → Triple P (m >>= f) R
  Triple-bind m f hm hf = record { at = λ s p. Post-continue (m s) f (hm.at s p) hf }

Post-weaken :
    {A : Type 0} {Q : A → Db → Type 0} {Q' : A → Db → Type 0} (r : Result A × Sess)
    → ((a : A) (d : Db) → Q a d → Q' a d)
    → Post Q r
    → Post Q' r
Post-weaken (ok a, s) w q = w a s.db q
Post-weaken (err e, s) w q = tt

module _ {A : Type 0} {P : Db → Type 0} {Q : A → Db → Type 0} where
  -- The precondition may be taken at the tables that the action starts from.
  pub Triple-from : (m : Session A) → ((d : Db) → P d → Triple (λ x. x ≡ d) m Q) → Triple P m Q
  Triple-from m h = record { at = λ s p. (h s.db p).at s refl }

  pub Triple-weaken :
      {P' : Db → Type 0} {Q' : A → Db → Type 0} (m : Session A)
      → Triple P m Q
      → ((d : Db) → P' d → P d)
      → ((a : A) (d : Db) → Q a d → Q' a d)
      → Triple P' m Q'
  Triple-weaken m h v w = record { at = λ s p. Post-weaken (m s) w (h.at s (v s.db p)) }

module _ {A : Type 0} (I : Db → Type 0) where
  end_scope_keeps :
      (before : Db) (a : A) (s : Sess) (f : List Bool)
      → I before
      → I s.db
      → I (end_scope before a (take_fault f s)).1.db
  unfolding take_fault
  end_scope_keeps before a s [] i q = q
  end_scope_keeps before a s (true ∷ r) i q = i
  end_scope_keeps before a s (false ∷ r) i q = q

  pub close_scope_keeps :
      (before : Db) (r : Result A × Sess)
      → I before
      → Post (λ _. I) r
      → I (close_scope before r).1.db
  unfolding round_trip
  close_scope_keeps before (ok a, s) i q = end_scope_keeps before a s s.faults i q
  close_scope_keeps before (err e, s) i q = i

  -- What an action keeps when it returns, its transaction keeps in any case.
  pub session_scope_keeps :
      (m : Session A) (s : Sess) → I s.db → Triple I m (λ _. I) → I (session_scope m s).1.db
  unfolding session_scope
  session_scope_keeps m s i h = close_scope_keeps s.db (m s) i (h.at s i)

  pub or_else_keeps : (a : A) (r : Result A × Sess) → I r.1.db → I (or_else a r).1.db
  or_else_keeps a (ok b, s) i = i
  or_else_keeps a (err e, s) i = i

  -- So does a transaction whose exceptions are swallowed.
  pub swallow_keeps :
      (a : A) (m : Session A) (s : Sess)
      → I s.db
      → Triple I m (λ _. I)
      → I (swallow a (session_scope m) s).1.db
  unfolding swallow
  swallow_keeps a m s i h = or_else_keeps a (session_scope m s) (session_scope_keeps m s i h)

module _ {A : Type 0} (Q : A → Db → Type 0) where
  end_scope_post :
      (before : Db) (a c : A) (s s' : Sess) (f : List Bool)
      → Q a s.db
      → end_scope before a (take_fault f s) ≡ (ok c, s')
      → Q c s'.db
  unfolding take_fault
  end_scope_post before a c s s' [] q e = ok_post s q e
    where
      ok_post : (x : Sess) → Q a x.db → ◌≡◌ {A = Result A × Sess} (ok a, x) (ok c, s') → Q c s'.db
      ok_post x q e = subst (Post Q) e q
  end_scope_post before a c s s' (true ∷ r) q e = cc
  end_scope_post before a c s s' (false ∷ r) q e = subst (Post Q) e q

  close_scope_post :
      (before : Db) (c : A) (r : Result A × Sess) (s' : Sess)
      → Post Q r
      → close_scope before r ≡ (ok c, s')
      → Q c s'.db
  unfolding round_trip
  close_scope_post before c (ok a, s) s' q e = end_scope_post before a c s s' s.faults q e
  close_scope_post before c (err x, s) s' q e = cc

  -- What an action establishes when it returns, its committed transaction has established.
  pub session_scope_post :
      {P : Db → Type 0} (m : Session A) (c : A) (s s' : Sess)
      → P s.db
      → Triple P m Q
      → session_scope m s ≡ (ok c, s')
      → Q c s'.db
  unfolding session_scope
  session_scope_post m c s s' p h e = close_scope_post s.db c (m s) s' (h.at s p) e
