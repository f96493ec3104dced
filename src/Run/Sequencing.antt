-- ===== src/Run/Sequencing.antt =====
-- Laws of running one command after another.
use trading_ecosystem.Prelude.{◌≡◌, refl, ap, ◌∙◌}
use trading_ecosystem.Run.{Run, ok, fault, Cmd, and_then}

pub and_then_assoc {ℓ κ μ ν} :
    {S : Type ℓ} {A : Type κ} {B : Type μ} {C : Type ν} (r : Run S A) (k : A → Cmd S B)
    (l : B → Cmd S C)
    → and_then (and_then r k) l ≡ and_then r (λ a s. and_then (k a s) l)
and_then_assoc (ok a s) k l = refl
and_then_assoc (fault e) k l = refl

pub and_then_cong {ℓ κ μ} :
    {S : Type ℓ} {A : Type κ} {B : Type μ} (r : Run S A) {k l : A → Cmd S B}
    → ((a : A) (s : S) → k a s ≡ l a s)
    → and_then r k ≡ and_then r l
and_then_cong (ok a s) same = same a s
and_then_cong (fault e) same = refl

-- A command that returns, and one after it that returns.
pub then_returns {ℓ κ μ} :
    {S : Type ℓ} {A : Type κ} {B : Type μ} {r : Run S A} (k : A → Cmd S B) {a : A} {s : S} {b : B}
    {t : S}
    → r ≡ ok a s
    → k a s ≡ ok b t
    → and_then r k ≡ ok b t
then_returns k e f = ap (λ r. and_then r k) e ∙ f
