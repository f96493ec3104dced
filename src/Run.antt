-- ===== src/Run.antt =====
-- Runs of the C++ code: a result with the new state, or the way in which the process ends.
-- `ASSERT` and `FATAL` are those of low-latency-components/macros.h.
pub mod Ensures
pub mod Fuel
pub mod Sequencing
use trading_ecosystem.Prelude.{Bool, true, false, not}

pub data Fault : Type 0 where
  -- `ASSERT(cond, msg)` with a false condition: `exit(EXIT_FAILURE)`
  assert_failed : Fault
  -- `FATAL(msg)`: `exit(EXIT_FAILURE)`
  fatal : Fault
  -- a dereferenced null pointer, or a call of an empty `std::function`
  null_deref : Fault
  -- an array index out of range: `at` throws, and an exception out of a `noexcept` function ends
  -- the process; for `operator[]` and `memcpy` the behaviour is undefined
  out_of_range : Fault
  -- a modelled loop has used up the rounds that it was given
  out_of_fuel : Fault

pub data Run {ℓ κ} (S : Type ℓ) (A : Type κ) : Type (ℓ ⊔ κ) where
  ok : A → S → Run S A
  fault : Fault → Run S A

abbrev pub Cmd {ℓ κ} : Type ℓ → Type κ → Type (ℓ ⊔ κ)
Cmd S A = S → Run S A

abbrev pub and_then {ℓ κ μ} :
    {S : Type ℓ} {A : Type κ} {B : Type μ} → Run S A → (A → Cmd S B) → Run S B
and_then (ok a s) k = k a s
and_then (fault e) k = fault e

infixl 5 ◌>>=◌ ◌>>◌
abbrev pub ◌>>=◌ {ℓ κ μ} :
    {S : Type ℓ} {A : Type κ} {B : Type μ} → Cmd S A → (A → Cmd S B) → Cmd S B
m >>= k = λ s. and_then (m s) k

abbrev pub ◌>>◌ {ℓ κ} : {S : Type ℓ} {B : Type κ} → Cmd S (Unit {0}) → Cmd S B → Cmd S B
m >> n = m >>= λ _. n

abbrev pub pure {ℓ κ} : {S : Type ℓ} {A : Type κ} → A → Cmd S A
pure = ok

abbrev pub halt {ℓ κ} : {S : Type ℓ} {A : Type κ} → Fault → Cmd S A
halt e s = fault e

-- Go on if the test holds, or end with the fault.
abbrev pub require {ℓ} : {S : Type ℓ} → Bool → Fault → Cmd S (Unit {0})
require true e = ok tt
require false e = halt e

-- `ASSERT`
abbrev pub assert {ℓ} : {S : Type ℓ} → Bool → Cmd S (Unit {0})
assert cond = require cond assert_failed

abbrev pub gets {ℓ κ} : {S : Type ℓ} {A : Type κ} → (S → A) → Cmd S A
gets f s = ok (f s) s

abbrev pub modify {ℓ} : {S : Type ℓ} → (S → S) → Cmd S (Unit {0})
modify f s = ok tt (f s)

-- A command on a part of the state.
abbrev pub put_back {ℓ κ μ} : {S : Type ℓ} {T : Type κ} {A : Type μ} → (T → S) → Run T A → Run S A
put_back set (ok a t) = ok a (set t)
put_back set (fault e) = fault e

abbrev pub zoom {ℓ κ μ} :
    {S : Type ℓ} {T : Type κ} {A : Type μ} → (S → T) → (T → S → S) → Cmd T A → Cmd S A
zoom get set m s = put_back (λ t. set t s) (m (get s))
