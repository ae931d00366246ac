-- ===== src/Outcome.antt =====
-- How a call ends: with a value, by a C++ exception, by `exit`, by a failed `assert`, by waiting for
-- a mutex that the thread holds itself, or in
-- behaviour that C++ leaves undefined. A model that counts rounds may also run out of them.
use libdwarfparser.Prelude.{String, Bool, true, false, Option, none, some}

pub data Failure : Type 0 where
  assertion : Failure
  dwarf_exception : String → Failure
  dwarf_type_exception : String → Failure
  vmi_exception : Failure
  exits : Failure
  undefined : Failure
  deadlock : Failure
  out_of_fuel : Failure

pub data Outcome {ℓ} (A : Type ℓ) : Type ℓ where
  ok : A → Outcome A
  fail : Failure → Outcome A

-- A C++ exception; the other ways end the process, or leave it waiting.
abbrev pub is_exception : Failure → Bool
is_exception (dwarf_exception reason) = true
is_exception (dwarf_type_exception reason) = true
is_exception vmi_exception = true
is_exception assertion = false
is_exception exits = false
is_exception undefined = false
is_exception deadlock = false
is_exception out_of_fuel = false

infixl 5 ◌>>=◌ ◌>>◌
abbrev pub ◌>>=◌ {ℓ κ} : {A : Type ℓ} {B : Type κ} → Outcome A → (A → Outcome B) → Outcome B
ok a >>= f = f a
fail e >>= f = fail e

abbrev pub ◌>>◌ {ℓ} : {B : Type ℓ} → Outcome (Unit {0}) → Outcome B → Outcome B
m >> k = m >>= λ _. k

-- `assert(b)`
abbrev pub require : Bool → Outcome (Unit {0})
require true = ok tt
require false = fail assertion

abbrev pub or_fail {ℓ} : {A : Type ℓ} → Option A → Failure → Outcome A
or_fail none e = fail e
or_fail (some a) e = ok a
