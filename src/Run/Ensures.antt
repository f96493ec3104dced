-- ===== src/Run/Ensures.antt =====
-- Partial correctness of a run (what a result satisfies), and what a command leaves unchanged.
use trading_ecosystem.Prelude.{◌≡◌, refl, Bool, true, false, if◌then◌else◌}
use trading_ecosystem.Run.{
  Fault, Run, ok, fault, Cmd, and_then, ◌>>=◌, pure, halt, require, assert, gets, modify, put_back,
  zoom,
}

-- If the run returns, its result and its last state are related by `Q`.
pub data Ensures {ℓ κ μ} {S : Type ℓ} {A : Type κ} (Q : A → S → Type μ)
    : Run S A → Type (ℓ ⊔ κ ⊔ μ) where
  returns : {a : A} {s : S} → Q a s → Ensures Q (ok a s)
  ends : {e : Fault} → Ensures Q (fault e)

pub bind {ℓ κ ι μ ν} :
    {S : Type ℓ} {A : Type κ} {B : Type ι} {P : A → S → Type μ} {Q : B → S → Type ν} {r : Run S A}
    {k : A → Cmd S B}
    → Ensures P r
    → ((a : A) (s : S) → P a s → Ensures Q (k a s))
    → Ensures Q (and_then r k)
bind (returns p) next = next _ _ p
bind ends next = ends

pub mono {ℓ κ μ ν} :
    {S : Type ℓ} {A : Type κ} {P : A → S → Type μ} {Q : A → S → Type ν} {r : Run S A}
    → Ensures P r
    → ((a : A) (s : S) → P a s → Q a s)
    → Ensures Q r
mono (returns p) weaken = returns (weaken _ _ p)
mono ends weaken = ends

pub of_ok {ℓ κ μ} :
    {S : Type ℓ} {A : Type κ} {Q : A → S → Type μ} {a : A} {s : S} → Ensures Q (ok a s) → Q a s
of_ok (returns q) = q

pub branch {ℓ κ μ} :
    {S : Type ℓ} {A : Type κ} {Q : A → S → Type μ} (b : Bool) {r r' : Run S A}
    → (b ≡ true → Ensures Q r)
    → (b ≡ false → Ensures Q r')
    → Ensures Q (if b then r else r')
branch true yes_case no_case = yes_case refl
branch false yes_case no_case = no_case refl

-- The same at commands.
pub branch_cmd {ℓ κ μ} :
    {S : Type ℓ} {A : Type κ} {Q : A → S → Type μ} (b : Bool) (m n : Cmd S A) {s : S}
    → (b ≡ true → Ensures Q (m s))
    → (b ≡ false → Ensures Q (n s))
    → Ensures Q ((if b then m else n) s)
branch_cmd true m n yes_case no_case = yes_case refl
branch_cmd false m n yes_case no_case = no_case refl

pub always {ℓ κ μ} :
    {S : Type ℓ} {A : Type κ} {Q : A → S → Type μ} (r : Run S A)
    → ((a : A) (s : S) → Q a s)
    → Ensures Q r
always (ok a s) q = returns (q a s)
always (fault e) q = ends

-- What a run returns is what it returns.
pub self {ℓ κ} : {S : Type ℓ} {A : Type κ} (r : Run S A) → Ensures (λ a s. r ≡ ok a s) r
self (ok a s) = returns refl
self (fault e) = ends

-- A run of which nothing is said.
pub any_way {ℓ κ} : {S : Type ℓ} {A : Type κ} (r : Run S A) → Ensures (λ _ _. Unit {0}) r
any_way r = always r (λ _ _. tt)

-- After an `ASSERT` its condition holds.
pub asserted {ℓ} : {S : Type ℓ} (b : Bool) (s : S) → Ensures (λ _ _. b ≡ true) (assert b s)
asserted true s = returns refl
asserted false s = ends

pub both {ℓ κ μ ν} :
    {S : Type ℓ} {A : Type κ} {P : A → S → Type μ} {Q : A → S → Type ν} {r : Run S A}
    → Ensures P r
    → Ensures Q r
    → Ensures (λ a s. P a s × Q a s) r
both (returns p) (returns q) = returns (p, q)
both ends ends = ends

-- A run on a part of the state, with its result.
pub put_back_both {ℓ κ ι μ} :
    {S : Type ℓ} {T : Type κ} {A : Type ι} {Q : A → S → Type μ} (set : T → S) {r : Run T A}
    → Ensures (λ a t. Q a (set t)) r
    → Ensures Q (put_back set r)
put_back_both set (returns h) = returns h
put_back_both set ends = ends

-- Every run of the command that returns keeps `P`.
pub record Keeps {ℓ κ μ} {S : Type ℓ} {A : Type κ} (P : S → Type μ) (m : Cmd S A)
    : Type (ℓ ⊔ κ ⊔ μ) where
  pub at : (s : S) → P s → Ensures (λ _ s'. P s') (m s)

module _ {ℓ κ μ} {S : Type ℓ} {A : Type κ} {P : S → Type μ} where
  pub Keeps-pure : (a : A) → Keeps P (pure a)
  Keeps-pure a = record { at = λ s h. returns h }

  pub Keeps-halt : (e : Fault) → Keeps P (halt {A = A} e)
  Keeps-halt e = record { at = λ s h. ends }

  pub Keeps-gets : (f : S → A) → Keeps P (gets f)
  Keeps-gets f = record { at = λ s h. returns h }

  pub Keeps-if : (b : Bool) (m n : Cmd S A) → Keeps P m → Keeps P n → Keeps P (if b then m else n)
  Keeps-if true m n km kn = km
  Keeps-if false m n km kn = kn

module _ {ℓ μ} {S : Type ℓ} {P : S → Type μ} where
  pub Keeps-modify : (f : S → S) → ((s : S) → P s → P (f s)) → Keeps P (modify f)
  Keeps-modify f step = record { at = λ s h. returns (step s h) }

  pub Keeps-require : (b : Bool) (e : Fault) → Keeps P (require b e)
  Keeps-require true e = Keeps-pure tt
  Keeps-require false e = Keeps-halt e

module _ {ℓ κ ι μ} {S : Type ℓ} {A : Type κ} {B : Type ι} {P : S → Type μ} where
  pub Keeps-bind :
      (m : Cmd S A) (k : A → Cmd S B) → Keeps P m → ((a : A) → Keeps P (k a)) → Keeps P (m >>= k)
  Keeps-bind m k km kk = record { at = λ s h. bind (km.at s h) (λ a s' h'. (kk a).at s' h') }

module _ {ℓ κ ι μ} {S : Type ℓ} {T : Type κ} {A : Type ι} {P : S → Type μ} where
  pub put_back-Ensures :
      (set : T → S) {r : Run T A}
      → Ensures (λ _ t. P (set t)) r
      → Ensures (λ _ s. P s) (put_back set r)
  put_back-Ensures set (returns h) = returns h
  put_back-Ensures set ends = ends

  pub Keeps-zoom :
      (get : S → T) (set : T → S → S) (m : Cmd T A)
      → ((s : S) → P s → Ensures (λ _ t. P (set t s)) (m (get s)))
      → Keeps P (zoom get set m)
  Keeps-zoom get set m step = record { at = λ s h. put_back-Ensures (λ t. set t s) (step s h) }

  -- A part of the state that the predicate does not read.
  pub Keeps-zoom_free :
      (get : S → T) (set : T → S → S) (m : Cmd T A)
      → ((t : T) (s : S) → P s → P (set t s))
      → Keeps P (zoom get set m)
  Keeps-zoom_free get set m free =
      Keeps-zoom get set m (λ s h. always (m (get s)) (λ a t. free t s h))

pub ruleset keeps_rules = (Keeps-pure, Keeps-halt, Keeps-gets, Keeps-if, Keeps-require, Keeps-bind)
