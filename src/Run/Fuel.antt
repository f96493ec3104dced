-- ===== src/Run/Fuel.antt =====
-- Runs that end by themselves, and not because a modelled loop has used up its rounds.
use trading_ecosystem.Prelude.{◌≢◌, Bool, true, false, if◌then◌else◌}
use trading_ecosystem.Run.{
  Fault, assert_failed, fatal, null_deref, out_of_range, out_of_fuel, Run, ok, fault, Cmd, and_then,
  ◌>>=◌, pure, halt, require, gets, modify, put_back, zoom,
}
use trading_ecosystem.Run.Ensures.{Ensures, returns, always}

pub data Ended {ℓ κ} {S : Type ℓ} {A : Type κ} : Run S A → Type (ℓ ⊔ κ) where
  result : {a : A} {s : S} → Ended (ok a s)
  stopped : {e : Fault} → e ≢ out_of_fuel → Ended (fault e)

-- The rest of a command may use what its first part ensures.
pub Ended-bind {ℓ κ μ ν} :
    {S : Type ℓ} {A : Type κ} {B : Type μ} {P : A → S → Type ν} {r : Run S A} {k : A → Cmd S B}
    → Ended r
    → Ensures P r
    → ((a : A) (s : S) → P a s → Ended (k a s))
    → Ended (and_then r k)
Ended-bind result (returns p) next = next _ _ p
Ended-bind (stopped ne) _ next = stopped ne

pub Ended-if {ℓ κ} :
    {S : Type ℓ} {A : Type κ} (b : Bool) (m n : Cmd S A) {s : S}
    → Ended (m s)
    → Ended (n s)
    → Ended ((if b then m else n) s)
Ended-if true m n e e' = e
Ended-if false m n e e' = e'

pub Ended-ne : {S A : Type 0} {r : Run S A} → Ended r → r ≢ fault out_of_fuel
Ended-ne result h = cc h
Ended-ne (stopped ne) h = ne (cc h)

pub record Ends {ℓ κ} {S : Type ℓ} {A : Type κ} (m : Cmd S A) : Type (ℓ ⊔ κ) where
  pub at : (s : S) → Ended (m s)

module _ {ℓ κ} {S : Type ℓ} {A : Type κ} where
  pub Ends-pure : (a : A) → Ends {S = S} (pure a)
  Ends-pure a = record { at = λ s. result }

  pub Ends-gets : (f : S → A) → Ends (gets f)
  Ends-gets f = record { at = λ s. result }

  pub Ends-halt : (e : Fault) → e ≢ out_of_fuel → Ends {S = S} {A = A} (halt e)
  Ends-halt e ne = record { at = λ s. stopped ne }

  pub Ends-if : (b : Bool) (m n : Cmd S A) → Ends m → Ends n → Ends (if b then m else n)
  Ends-if true m n em en = em
  Ends-if false m n em en = en

module _ {ℓ} {S : Type ℓ} where
  pub Ends-modify : (f : S → S) → Ends (modify f)
  Ends-modify f = record { at = λ s. result }

  pub Ends-require : (b : Bool) (e : Fault) → e ≢ out_of_fuel → Ends {S = S} (require b e)
  Ends-require true e ne = Ends-pure tt
  Ends-require false e ne = Ends-halt e ne

pub Ends-bind {ℓ κ μ} :
    {S : Type ℓ} {A : Type κ} {B : Type μ} (m : Cmd S A) (k : A → Cmd S B)
    → Ends m
    → ((a : A) → Ends (k a))
    → Ends (m >>= k)
Ends-bind m k em ek = record {
  at = λ s.
      Ended-bind (em.at s) (always {Q = λ _ _. Unit {0}} (m s) (λ _ _. tt))
        (λ a s' _. (ek a).at s');
}

Ended-put_back {ℓ κ μ} :
    {S : Type ℓ} {T : Type κ} {A : Type μ} (set : T → S) {r : Run T A}
    → Ended r
    → Ended (put_back set r)
Ended-put_back set result = result
Ended-put_back set (stopped ne) = stopped ne

pub Ends-zoom {ℓ κ μ} :
    {S : Type ℓ} {T : Type κ} {A : Type μ} (get : S → T) (set : T → S → S) (m : Cmd T A)
    → Ends m
    → Ends (zoom get set m)
Ends-zoom get set m em = record { at = λ s. Ended-put_back (λ t. set t s) (em.at (get s)) }

pub assert_failed_ne : assert_failed ≢ out_of_fuel
assert_failed_ne h = cc h

pub fatal_ne : fatal ≢ out_of_fuel
fatal_ne h = cc h

pub null_deref_ne : null_deref ≢ out_of_fuel
null_deref_ne h = cc h

pub out_of_range_ne : out_of_range ≢ out_of_fuel
out_of_range_ne h = cc h

pub ruleset ends_rules = (
  Ends-pure, Ends-gets, Ends-halt, Ends-if, Ends-modify, Ends-require, Ends-bind, Ends-zoom,
  assert_failed_ne, fatal_ne, null_deref_ne, out_of_range_ne,
)
