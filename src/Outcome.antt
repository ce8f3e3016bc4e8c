-- ===== src/Outcome.antt =====
-- What a step of the compiler behind the scanner ends with: a result, or the fault that the program
-- meets there.
use wxcc.Base.{◌≡◌, refl}

-- A read through a null pointer, of a variable that was never set, or through a pointer that is
-- none, or to memory that was given back; a write past an array; a failed `assert`; an exception; a fatal error that ends the process;
-- a loop whose fuel ran out.
pub data Fault : Type 0 where
  null_dereference uninitialised wild_pointer freed overflow assertion thrown : Fault
  exited out_of_fuel : Fault

pub data Outcome (A : Type 0) : Type 0 where
  fault : Fault → Outcome A
  ok : A → Outcome A

pub ok-injective : {A : Type 0} {x y : A} → ok x ≡ ok y → x ≡ y
ok-injective same = cc

module _ {A B : Type 0} where
  infixl 5 ◌>>=◌
  abbrev pub ◌>>=◌ : (first : Outcome A) (next : A → Outcome B) → Outcome B
  fault reason >>= next = fault reason
  ok result >>= next = next result

  -- When a step and the one behind it succeed, so does the first, with a result that the second
  -- takes.
  pub >>=-eq-ok :
      (first : Outcome A) (next : A → Outcome B) {b : B}
      → (first >>= next) ≡ ok b
      → (x : A) × (first ≡ ok x) × (next x ≡ ok b)
  >>=-eq-ok (fault reason) next done = cc
  >>=-eq-ok (ok result) next done = (result, refl, done)
