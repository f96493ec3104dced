-- ===== src/Text/Words.antt =====
-- Words of a text: what stands before its first space.
use trading_ecosystem.Prelude.{sym, false, ◌≡◌, ◌≢◌, refl, ap, [], ◌∷◌, ◌++◌, arith, member, ℕ}
use trading_ecosystem.Text.{Text, space}

abbrev pub IsWord : Text → Type 0
IsWord t = member space t ≡ false

abbrev pub head_or : ℕ → Text → ℕ
head_or d [] = d
head_or d (c ∷ s) = c

abbrev pub tail : Text → Text
tail [] = []
tail (c ∷ s) = s

not_space : (c : ℕ) (t : Text) → IsWord (c ∷ t) → c ≢ space
not_space c t h e = ground arith

IsWord-tail : (c : ℕ) (t : Text) → IsWord (c ∷ t) → IsWord t
IsWord-tail c t h = ground arith

-- Two texts that are equal begin with the same word.
pub IsWord-unique :
    (a b s t : Text) → IsWord a → IsWord b → a ++ (space ∷ s) ≡ b ++ (space ∷ t) → (a ≡ b) × (s ≡ t)
IsWord-unique [] [] s t ha hb e = (refl, ap tail e)
IsWord-unique [] (d ∷ b) s t ha hb e = absurd (not_space d b hb (ap (head_or 0) (sym e)))
IsWord-unique (c ∷ a) [] s t ha hb e = absurd (not_space c a ha (ap (head_or 0) e))
IsWord-unique (c ∷ a) (d ∷ b) s t ha hb e =
    let (ab, st) = IsWord-unique a b s t (IsWord-tail c a ha) (IsWord-tail d b hb) (ap tail e) in
    ((λ i. (ap (head_or 0) e i) ∷ (ab i)), st)
