-- ===== src/Prelude/Members.antt =====
-- Membership in a list of numbers as a test, and lists with no number twice.
use trading_ecosystem.Prelude.Tests.{◌==◌}
use Prim.Native.Nat.{ℕ}
use mathlib.Core.Path.{◌≡◌, refl, ap}
use mathlib.Core.Logic.{◌≢◌}
use mathlib.Core.Bool.{Bool, true, false, ◌||◌}
use mathlib.Core.List.{List, [], ◌∷◌, ◌++◌, append-nil}
use native.Mathlib.Omega.{arith}

abbrev pub member : ℕ → List ℕ → Bool
member i [] = false
member i (j ∷ js) = (i == j) || member i js

abbrev pub IsUnique : List ℕ → Type 0
IsUnique [] = Unit {0}
IsUnique (i ∷ is) = (member i is ≡ false) × IsUnique is

pub member-append : (j : ℕ) (xs ys : List ℕ) → member j (xs ++ ys) ≡ (member j xs || member j ys)
member-append j [] ys = refl
member-append j (x ∷ xs) ys = ground (arith, member-append j xs ys)

pub append-IsUnique :
    (i : ℕ) (is : List ℕ) → member i is ≡ false → IsUnique is → IsUnique (is ++ (i ∷ []))
append-IsUnique i [] h u = (refl, tt)
append-IsUnique i (j ∷ is) h u =
    (ground (arith, member-append j is (i ∷ []), u.0), append-IsUnique i is (ground arith) u.1)

-- Taking one number out.
pub IsUnique-middle :
    (xs : List ℕ) (o : ℕ) (ys : List ℕ) → IsUnique (xs ++ (o ∷ ys)) → IsUnique (xs ++ ys)
IsUnique-middle [] o ys u = u.1
IsUnique-middle (x ∷ xs) o ys u = (
  ground (arith, member-append x xs (o ∷ ys), member-append x xs ys, u.0),
  IsUnique-middle xs o ys u.1,
)

pub insert-IsUnique :
    (x : ℕ) (xs ys : List ℕ)
    → member x (xs ++ ys) ≡ false
    → IsUnique (xs ++ ys)
    → IsUnique (xs ++ (x ∷ ys))
insert-IsUnique x [] ys h u = (h, u)
insert-IsUnique x (y ∷ xs) ys h u = (
  ground (arith, member-append y xs (x ∷ ys), member-append y xs ys, u.0),
  insert-IsUnique x xs ys (ground arith) u.1,
)

-- The two halves of a list may change places.
pub IsUnique-swap : (xs ys : List ℕ) → IsUnique (xs ++ ys) → IsUnique (ys ++ xs)
IsUnique-swap [] ys u = rw (append-nil ys) u
IsUnique-swap (x ∷ xs) ys u =
    insert-IsUnique x ys xs (ground (arith, member-append x xs ys, member-append x ys xs, u.0))
      (IsUnique-swap xs ys u.1)

pub IsUnique-disjoint :
    (xs ys : List ℕ) → IsUnique (xs ++ ys) → (z : ℕ) → member z ys ≡ true → member z xs ≡ false
IsUnique-disjoint [] ys u z m = refl
IsUnique-disjoint (x ∷ xs) ys u z m =
    let rest = IsUnique-disjoint xs ys u.1 z m in
    let other : x ≢ z = λ e. cc (u.0, member-append x xs ys, ap (λ i. member i ys) e, m) in
    ground arith
