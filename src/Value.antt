-- ===== src/Value.antt =====
-- The JSON values that the service receives and stores (Python's `dict[str, Any]`), with the ways
-- in which the code reads them: truth value, `dict.get`, and the exceptions that these may raise.
use marketer.Prelude.{
  ℕ, zero, String, Bool, true, false, not, Option, none, some, List, [], ◌∷◌, ◌==◌, if◌then◌else◌,
}

-- `negsuc n` is -(n + 1).
pub data ℤ : Type 0 where
  pos : ℕ → ℤ
  negsuc : ℕ → ℤ

-- The exceptions that the code raises or meets, by the classes that its handlers tell apart.
pub data Exc : Type 0 where
  attribute_error type_error overflow_error value_error runtime_error key_error db_error : Exc

pub data Result {ℓ} (A : Type ℓ) : Type ℓ where
  ok : A → Result A
  err : Exc → Result A

-- A float is known by whether it is other than 0.0 and by what `int` makes of it: an exception, if it
-- is infinite (overflow_error) or not a number (value_error).
mutual
  pub data Value : Type 0 where
    str : String → Value
    bool : Bool → Value
    int : ℤ → Value
    float : Bool → Result ℤ → Value
    obj : Fields → Value
    arr : Items → Value
    null : Value

  pub data Fields : Type 0 where
    field : String → Value → Fields → Fields
    end : Fields

  pub data Items : Type 0 where
    cons : Value → Items → Items
    nil : Items

infixl 5 ◌>>=◌
abbrev pub ◌>>=◌ {ℓ κ} : {A : Type ℓ} {B : Type κ} → Result A → (A → Result B) → Result B
ok a >>= f = f a
err e >>= f = err e

abbrev pub to_list : Items → List Value
to_list nil = []
to_list (cons v vs) = v ∷ to_list vs

abbrev pub of_list : List Value → Items
of_list [] = nil
of_list (v ∷ vs) = cons v (of_list vs)

-- `bool(v)`.
abbrev pub truthy : Value → Bool
truthy null = false
truthy (bool b) = b
truthy (int (pos zero)) = false
truthy (int _) = true
truthy (float nonzero _) = nonzero
truthy (str s) = not (s == "")
truthy (arr nil) = false
truthy (arr (cons _ _)) = true
truthy (obj end) = false
truthy (obj (field _ _ _)) = true

-- `d.get(k)` on a dictionary; a missing key gives `None`.
abbrev pub get : String → Fields → Value
get k end = null
get k (field j v fs) = if j == k then v else get k fs

-- `v.get(k)`: only a dictionary has `get`.
abbrev pub get_attr : String → Value → Result Value
get_attr k (obj fs) = ok (get k fs)
get_attr k _ = err attribute_error

-- `v or {}`.
abbrev pub or_empty : Value → Value
or_empty v = if truthy v then v else obj end

-- `isinstance(v, str)`.
abbrev pub as_str : Value → Option String
as_str (str s) = some s
as_str _ = none
