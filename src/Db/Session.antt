-- ===== src/Db/Session.antt =====
-- db/engine.py: statements, transactions and the ways in which they fail.
use marketer.Prelude.{Bool, true, false, ◌≡◌, List, [], ◌∷◌, arith, if◌then◌else◌}
use marketer.Value.{Result, ok, err, Exc, db_error}
use marketer.Db.{Db}

-- `faults` says of each coming statement whether the driver raises; past its end none does.
pub record Sess : Type 0 where
  pub db : Db
  pub faults : List Bool

abbrev pub Session : Type 0 → Type 0
Session A = Sess → Result A × Sess

abbrev pub pure : {A : Type 0} → A → Session A
pure a s = (ok a, s)

abbrev pub raise : {A : Type 0} → Exc → Session A
raise e s = (err e, s)

abbrev pub get_db : Session Db
get_db s = (ok s.db, s)

abbrev pub put_db : Db → Session (Unit {0})
put_db d s = (ok tt, record s { db = d })

abbrev pub continue : {A B : Type 0} → Result A × Sess → (A → Session B) → Result B × Sess
continue (ok a, s) f = f a s
continue (err e, s) f = (err e, s)

infixl 5 ◌>>=◌ ◌>>◌
abbrev pub ◌>>=◌ : {A B : Type 0} → Session A → (A → Session B) → Session B
◌>>=◌ m f s = continue (m s) f

abbrev pub ◌>>◌ : {B : Type 0} → Session (Unit {0}) → Session B → Session B
m >> k = m >>= λ _. k

-- `session.execute`, `session.flush` and `session.commit`: one round trip, which may raise.
unfoldable pub take_fault : List Bool → Sess → Result (Unit {0}) × Sess
take_fault [] s = (ok tt, s)
take_fault (true ∷ rest) s = (err db_error, record s { faults = rest })
take_fault (false ∷ rest) s = (ok tt, record s { faults = rest })

unfoldable pub round_trip : Session (Unit {0})
unfolding take_fault
round_trip s = take_fault s.faults s

-- An integrity error of the database, unless the constraint holds.
abbrev pub check_constraint : Bool → Session (Unit {0})
check_constraint b s = (if b then ok tt else err db_error, s)

-- `session_scope`: commit at the end, roll back on an exception and raise it again. A rollback
-- restores the tables; the faults that were met stay met.
abbrev pub end_scope : {A : Type 0} → Db → A → Result (Unit {0}) × Sess → Result A × Sess
end_scope before a (ok _, s) = (ok a, s)
end_scope before a (err e, s) = (err e, record s { db = before })

abbrev pub close_scope : {A : Type 0} → Db → Result A × Sess → Result A × Sess
close_scope before (ok a, s) = end_scope before a (round_trip s)
close_scope before (err e, s) = (err e, record s { db = before })

unfoldable pub session_scope : {A : Type 0} → Session A → Session A
unfolding round_trip
session_scope m s = close_scope s.db (m s)

-- `try: ... except Exception: return a`.
abbrev pub or_else : {A : Type 0} → A → Result A × Sess → A × Sess
or_else a (ok b, s) = (b, s)
or_else a (err e, s) = (a, s)

unfoldable pub swallow : {A : Type 0} → A → Session A → Sess → A × Sess
swallow a m s = or_else a (m s)

-- A statement does not touch the tables.
pub db-round_trip : (s : Sess) → (round_trip s).1.db ≡ s.db
unfolding round_trip
db-round_trip s = ground arith

-- A scope that raises leaves the tables as they were.
pub session_scope_atomic :
    {A : Type 0} (m : Session A) (s : Sess) {e : Exc}
    → (session_scope m s).0 ≡ err e
    → (session_scope m s).1.db ≡ s.db
unfolding session_scope
session_scope_atomic m s h = ground arith
