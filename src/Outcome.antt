-- ===== src/Outcome.antt =====
-- What a call of the program comes to: a value, a C++ exception (src/exception/Exception.h), or a
-- fault: an assertion that fails, or an access that C++ leaves undefined.
use multipath_proxy.Prelude.{◌≡◌, Bool, true, false, Option, none, some}
use multipath_proxy.Exception.{Exception}

pub data Fault : Type 0 where
  assertion : Fault  -- assert(…) aborts
  out_of_bounds : Fault  -- a read or write past the end of a buffer
  null_pointer : Fault  -- a null or uninitialised pointer is used
  blocked : Fault  -- a wait that nothing of this call can end
  terminated : Fault  -- std::terminate: an exception leaves a destructor or main
  still_running : Fault  -- the assertion that every looper of a flow has stopped

pub data Outcome {ℓ} (A : Type ℓ) : Type ℓ where
  done : A → Outcome A
  throws : Exception → Outcome A
  fault : Fault → Outcome A

infixl 5 ◌>>=◌ ◌>>◌
abbrev pub ◌>>=◌ {ℓ κ} : {A : Type ℓ} {B : Type κ} → Outcome A → (A → Outcome B) → Outcome B
done a >>= f = f a
throws e >>= f = throws e
fault x >>= f = fault x

abbrev pub ◌>>◌ {ℓ} : {B : Type ℓ} → Outcome (Unit {0}) → Outcome B → Outcome B
m >> k = m >>= λ _. k

-- assert(b)
abbrev pub assert : Bool → Outcome (Unit {0})
assert true = done tt
assert false = fault assertion

-- A value, or the fault of a step that has none.
abbrev pub or_fault {ℓ} : {A : Type ℓ} → Option A → Fault → Outcome A
or_fault none x = fault x
or_fault (some a) x = done a

pub done-injective {ℓ} : {A : Type ℓ} {a b : A} → done a ≡ done b → a ≡ b
done-injective e = cc
