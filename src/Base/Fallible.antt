-- ===== src/Base/Fallible.antt =====
-- How an instruction ends. A transaction is atomic: whatever is not `ok` leaves the accounts as
-- they were, so an outcome carries the new state in its `ok` case alone.
use Prim.Native.Nat.{ℕ, ◌+◌, ◌*◌, ◌^◌}
use mathlib.Core.Path.{◌≡◌, refl}
use mathlib.Core.Bool.{Bool, true, false}
use mathlib.Core.Option.{Option, none, some}
use mathlib.Core.Logic.{◌⊎◌, inl, inr}
use mathlib.Core.List.{List}
use sol_svm_contracts.Base.Tests.{ltb, if◌then◌else◌}
use sol_svm_contracts.Base.Lists.{get_elem?}

-- What is no error value of the programs themselves: a panic, and the refusals of the Anchor
-- framework, of the runtime and of other libraries for accounts that do not meet a constraint with no
-- error of its own.
pub data Fault : Type 0 where
  panicked : Fault
  constraint_address : Fault
  constraint_space : Fault
  constraint_seeds : Fault
  constraint_signer : Fault
  constraint_raw : Fault
  constraint_token : Fault
  account_not_initialized : Fault
  account_already_in_use : Fault
  account_did_not_serialize : Fault
  cross_program_call_failed : Fault
  library_error : Fault

-- `err` is the program's own error code.
pub data Outcome {ℓ κ} (E : Type ℓ) (A : Type κ) : Type (ℓ ⊔ κ) where
  ok : A → Outcome E A
  err : E → Outcome E A
  fault : Fault → Outcome E A

infixl 5 ◌>>=◌ ◌>>◌
abbrev pub ◌>>=◌ {ℓ κ μ} :
    {E : Type ℓ} {A : Type κ} {B : Type μ} → Outcome E A → (A → Outcome E B) → Outcome E B
fault x >>= next = fault x
err e >>= next = err e
ok value >>= next = next value

abbrev pub ◌>>◌ {ℓ κ} : {E : Type ℓ} {B : Type κ} → Outcome E (Unit {0}) → Outcome E B → Outcome E B
first >> second = first >>= λ _. second

module _ {ℓ} {E : Type ℓ} where
  -- `require!(b, e)`
  abbrev pub require : Bool → E → Outcome E (Unit {0})
  require true e = ok tt
  require false e = err e

  -- A constraint of the framework, with no error code of the program.
  abbrev pub constrain : Bool → Fault → Outcome E (Unit {0})
  constrain true x = ok tt
  constrain false x = fault x

  -- An account that has to be there already.
  abbrev pub load {κ} : {A : Type κ} → Option A → Outcome E A
  load none = fault account_not_initialized
  load (some a) = ok a

  -- An account with the constraint `init`, which has to be new.
  abbrev pub vacant {κ} : {A : Type κ} → Option A → Outcome E (Unit {0})
  vacant none = ok tt
  vacant (some a) = fault account_already_in_use

  -- `xs[i]`, which panics out of bounds.
  abbrev pub at {κ} : {A : Type κ} → List A → ℕ → Outcome E A
  at xs i = elim (get_elem? xs i) [ none ↦ fault panicked | some a ↦ ok a ]

  -- Arithmetic on w-bit integers in a build with `overflow-checks = true`.
  abbrev pub add_checked : ℕ → ℕ → ℕ → Outcome E ℕ
  add_checked w a b = if ltb (a + b) (2 ^ w) then ok (a + b) else fault panicked

  abbrev pub mul_checked : ℕ → ℕ → ℕ → Outcome E ℕ
  mul_checked w a b = if ltb (a * b) (2 ^ w) then ok (a * b) else fault panicked

-- Inversion of a successful bind, for proofs where the parts stay shut.
pub >>=-eq-ok {ℓ κ μ} :
    {E : Type ℓ} {A : Type κ} {B : Type μ} (o : Outcome E A) (next : A → Outcome E B) {result : B}
    → (o >>= next) ≡ ok result
    → (value : A) × (o ≡ ok value) × (next value ≡ ok result)
>>=-eq-ok (fault x) next same = cc
>>=-eq-ok (err e) next same = cc
>>=-eq-ok (ok value) next same = (value, refl, same)

pub require-eq-ok {ℓ} : {E : Type ℓ} (b : Bool) (e : E) → require b e ≡ ok tt → b ≡ true
require-eq-ok true e h = refl
require-eq-ok false e h = cc

pub Outcome-cases {ℓ κ} :
    {E : Type ℓ} {A : Type κ} (o : Outcome E A)
    → ((a : A) × (o ≡ ok a)) ⊎ ((e : E) × (o ≡ err e)) ⊎ ((x : Fault) × (o ≡ fault x))
Outcome-cases (ok a) = inl (a, refl)
Outcome-cases (err e) = inr (inl (e, refl))
Outcome-cases (fault x) = inr (inr (x, refl))
