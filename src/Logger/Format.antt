-- ===== src/Logger/Format.antt =====
-- The format of `log` in logging.h, and the arguments that it asks for.
use trading_ecosystem.Prelude.{
  ℕ, suc, ◌≡◌, ◌≢◌, refl, List, [], ◌∷◌, ◌==◌, if◌then◌else◌, length, arith, Bool-cases, inl, inr,
}
use trading_ecosystem.Run.{Run, ok, fault, fatal, Cmd}
use trading_ecosystem.Logger.{
  LogArgument, LogQueue, percent, finish, at_hole, push_char, push_value, log,
}

-- How many arguments a format asks for: `%%` is a character, any other `%` is a place for an argument.
unfoldable pub holes : List ℕ → ℕ
holes [] = 0
holes (c ∷ []) = if c == percent then 1 else 0
holes (c ∷ d ∷ s) =
    let escaped = holes s in
    let more = holes (d ∷ s) in
    if c == percent then (if d == percent then escaped else suc more) else more

pub data Outcome (n : ℕ) (args : List LogArgument) : Run LogQueue (Unit {0}) → Type 0 where
  returned : (q : LogQueue) → n ≡ length args → Outcome n args (ok tt q)
  refused : n ≢ length args → Outcome n args (fault fatal)

finish-Outcome : (args : List LogArgument) (q : LogQueue) → Outcome 0 args (finish args q)
unfolding finish
finish-Outcome [] q = returned q refl
finish-Outcome (a ∷ others) q = refused (omega arith)

Outcome-suc :
    (n : ℕ) (a : LogArgument) (others : List LogArgument) {r : Run LogQueue (Unit {0})}
    → Outcome n others r
    → Outcome (suc n) (a ∷ others) r
Outcome-suc n a others (returned q e) = returned q (omega arith)
Outcome-suc n a others (refused ne) = refused (omega arith)

at_hole-Outcome :
    (n : ℕ) (args : List LogArgument) (rest : List LogArgument → Cmd LogQueue (Unit {0}))
    (q : LogQueue)
    → ((others : List LogArgument) (q' : LogQueue) → Outcome n others (rest others q'))
    → Outcome (suc n) args (at_hole args rest q)
unfolding at_hole
at_hole-Outcome n [] rest q h = refused (omega arith)
at_hole-Outcome n (a ∷ others) rest q h = Outcome-suc n a others (h others (push_value a q))

log-Outcome :
    (s : List ℕ) (args : List LogArgument) (q : LogQueue) → Outcome (holes s) args (log s args q)
unfolding log holes push_char
log-Outcome [] args q = finish-Outcome args q
log-Outcome (c ∷ []) args q = elim (Bool-cases (c == percent)) [
  | inl h ↦ rw h (at_hole-Outcome 0 args finish q finish-Outcome)
  | inr h ↦ rw h (finish-Outcome args _)
]
log-Outcome (c ∷ d ∷ s) args q = elim (Bool-cases (c == percent)) [
  | inl h ↦ elim (Bool-cases (d == percent)) [
    | inl k ↦ rw (h, k) (log-Outcome s args _)
    | inr k ↦ rw (h, k) (at_hole-Outcome (holes (d ∷ s)) args (log (d ∷ s)) q (log-Outcome (d ∷ s)))
  ]
  | inr h ↦ rw h (log-Outcome (d ∷ s) args _)
]

-- `log` returns if the format asks for as many arguments as there are, where `%%` is a character
-- and any other `%` asks for one; otherwise it ends the process.
pub log_lem :
    (s : List ℕ) (args : List LogArgument) (q : LogQueue)
    → (holes s ≡ length args → (q' : LogQueue) × (log s args q ≡ ok tt q'))
      × (holes s ≢ length args → log s args q ≡ fault fatal)
log_lem s args q = go (log-Outcome s args q)
  where
    go :
        {r : Run LogQueue (Unit {0})}
        → Outcome (holes s) args r
        → (holes s ≡ length args → (q' : LogQueue) × (r ≡ ok tt q'))
          × (holes s ≢ length args → r ≡ fault fatal)
    go (returned q' e) = ((λ _. (q', refl)), (λ ne. absurd (ne e)))
    go (refused ne) = ((λ e. absurd (ne e)), (λ _. refl))
