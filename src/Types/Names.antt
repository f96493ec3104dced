-- ===== src/Types/Names.antt =====
-- Conversions to text of low-latency-components/types.h that tell the values apart by a word.
use trading_ecosystem.Prelude.{
  ℕ, ◌==◌, ◌≡◌, ◌≢◌, ◌<◌, refl, sym, ap, ◌∙◌, [], ◌∷◌, ◌++◌, pos, negsuc, ℤ, eq_ℤ, Bool, true,
  false, inl, inr, ◌⊎◌, arith, suc, if◌then◌else◌,
}
use trading_ecosystem.Text.{Text, space, minus, decimal, decimal_ℤ}
use trading_ecosystem.Text.Decimal.{IsDigits, decimal-IsDigits, decimal-injective}
use trading_ecosystem.Text.Words.{IsWord, IsWord-unique, head_or, tail}
use trading_ecosystem.Types.{
  Side, order_id_invalid, client_id_invalid, ticker_id_invalid, qty_invalid, price_invalid,
}
use trading_ecosystem.Types.Text.{
  or_invalid, order_id_to_string, client_id_to_string, ticker_id_to_string, qty_to_string,
  price_to_string, side_to_string,
}

-- A conversion to words that tell the values apart.
pub record IsName {A : Type 0} (f : A → Text) : Type 0 where
  pub word : (a : A) → IsWord (f a)
  pub injective : (a b : A) → f a ≡ f b → a ≡ b

IsDigits-IsWord : (t : Text) → IsDigits t → IsWord t
IsDigits-IsWord [] h = refl
IsDigits-IsWord (c ∷ t) (lo, hi, h) = ground (arith, IsDigits-IsWord t h)

-- Digits begin with no letter, whatever text follows an empty one.
IsDigits-head : (t : Text) (c : ℕ) → IsDigits t → 57 < c → head_or 0 t ≢ c
IsDigits-head [] c h big e = omega arith
IsDigits-head (d ∷ t) c (lo, hi, h) big e = omega arith

minus-head : (t : Text) → IsDigits t → head_or 0 t ≢ minus
minus-head [] h e = omega arith
minus-head (d ∷ t) (lo, hi, h) e = omega arith

or_invalid-IsWord : (b : Bool) (t : Text) → IsWord t → IsWord (or_invalid b t)
or_invalid-IsWord true t h = refl
or_invalid-IsWord false t h = h

-- A text that does not begin with an I is not INVALID.
or_invalid-same :
    (b c : Bool) (s t : Text)
    → head_or 0 s ≢ 73
    → head_or 0 t ≢ 73
    → or_invalid b s ≡ or_invalid c t
    → ((b ≡ true) × (c ≡ true)) ⊎ (s ≡ t)
or_invalid-same true true s t hs ht e = inl (refl, refl)
or_invalid-same true false s t hs ht e = absurd (ht (sym (ap (head_or 0) e)))
or_invalid-same false true s t hs ht e = absurd (hs (ap (head_or 0) e))
or_invalid-same false false s t hs ht e = inr e

-- One value is invalid, and no other one is printed as INVALID.
or_invalid-injective :
    {A : Type 0} (test : A → Bool) (f : A → Text) (bad a b : A)
    → ((x : A) → test x ≡ true → x ≡ bad)
    → ((x : A) → head_or 0 (f x) ≢ 73)
    → (f a ≡ f b → a ≡ b)
    → or_invalid (test a) (f a) ≡ or_invalid (test b) (f b)
    → a ≡ b
or_invalid-injective test f bad a b only lead inj e =
    elim (or_invalid-same (test a) (test b) (f a) (f b) (lead a) (lead b) e) [
      | inl both ↦ only a both.0 ∙ sym (only b both.1)
      | inr same ↦ inj same
    ]

-- The six conversions of numbers that stand for identifiers and quantities have this form.
number-IsName : (bad : ℕ) → IsName (λ n. or_invalid (n == bad) (decimal n))
number-IsName bad = record {
  word = λ n.
      or_invalid-IsWord (n == bad) (decimal n) (IsDigits-IsWord (decimal n) (decimal-IsDigits n));
  injective = λ m n.
      or_invalid-injective (λ k. k == bad) decimal bad m n (λ k h. ground arith)
        (λ k. IsDigits-head (decimal k) 73 (decimal-IsDigits k) (omega arith))
        (decimal-injective m n);
}

decimal_ℤ-IsWord : (p : ℤ) → IsWord (decimal_ℤ p)
unfolding decimal_ℤ
decimal_ℤ-IsWord (pos n) = IsDigits-IsWord (decimal n) (decimal-IsDigits n)
decimal_ℤ-IsWord (negsuc n) = IsDigits-IsWord (decimal (suc n)) (decimal-IsDigits (suc n))

decimal_ℤ-injective : (p q : ℤ) → decimal_ℤ p ≡ decimal_ℤ q → p ≡ q
unfolding decimal_ℤ
decimal_ℤ-injective (pos m) (pos n) e = ap pos (decimal-injective m n e)
decimal_ℤ-injective (pos m) (negsuc n) e =
    absurd (minus-head (decimal m) (decimal-IsDigits m) (ap (head_or 0) e))
decimal_ℤ-injective (negsuc m) (pos n) e =
    absurd (minus-head (decimal n) (decimal-IsDigits n) (ap (head_or 0) (sym e)))
decimal_ℤ-injective (negsuc m) (negsuc n) e =
    let same : suc m ≡ suc n = decimal-injective (suc m) (suc n) (ap tail e) in
    ap negsuc (omega arith)

decimal_ℤ-head : (p : ℤ) → head_or 0 (decimal_ℤ p) ≢ 73
unfolding decimal_ℤ
decimal_ℤ-head (pos n) = IsDigits-head (decimal n) 73 (decimal-IsDigits n) (omega arith)
decimal_ℤ-head (negsuc n) = λ e. omega arith

eq_ℤ→≡ : (p q : ℤ) → eq_ℤ p q ≡ true → p ≡ q
eq_ℤ→≡ (pos m) (pos n) h = ap pos (ground arith)
eq_ℤ→≡ (pos m) (negsuc n) h = ground arith
eq_ℤ→≡ (negsuc m) (pos n) h = ground arith
eq_ℤ→≡ (negsuc m) (negsuc n) h = ap negsuc (ground arith)

pub order_id-IsName : IsName order_id_to_string
unfolding order_id_to_string
order_id-IsName = number-IsName order_id_invalid

pub ticker_id-IsName : IsName ticker_id_to_string
unfolding ticker_id_to_string
ticker_id-IsName = number-IsName ticker_id_invalid

pub client_id-IsName : IsName client_id_to_string
unfolding client_id_to_string
client_id-IsName = number-IsName client_id_invalid

pub qty-IsName : IsName qty_to_string
unfolding qty_to_string
qty-IsName = number-IsName qty_invalid

pub price-IsName : IsName price_to_string
unfolding price_to_string
price-IsName = record {
  word = λ p. or_invalid-IsWord (eq_ℤ p price_invalid) (decimal_ℤ p) (decimal_ℤ-IsWord p);
  injective = λ p q.
      or_invalid-injective (λ r. eq_ℤ r price_invalid) decimal_ℤ price_invalid p q
        (λ r. eq_ℤ→≡ r price_invalid) decimal_ℤ-head (decimal_ℤ-injective p q);
}

-- A list of names, in which a value is its place.
side_number : Text → Side
side_number t =
    if head_or 0 t == 66 then Side.buy else if head_or 0 t == 83 then Side.sell else Side.invalid

-- The enumeration names the value.
abbrev pub is_named_side : Side → Bool
is_named_side (Side.unnamed b) = false
is_named_side _ = true

side-number : (s : Side) → is_named_side s ≡ true → side_number (side_to_string s) ≡ s
unfolding side_to_string side_number
side-number Side.buy h = refl
side-number Side.sell h = refl
side-number Side.invalid h = refl
side-number (Side.unnamed b) h = cc h

side-IsWord : (s : Side) → IsWord (side_to_string s)
unfolding side_to_string
side-IsWord Side.buy = refl
side-IsWord Side.sell = refl
side-IsWord Side.invalid = refl
side-IsWord (Side.unnamed b) = refl

-- The words that are read back name the values among which they are.
pub left_inverse-same :
    {A : Type 0} (f : A → Text) (read : Text → A) (a b : A)
    → read (f a) ≡ a
    → read (f b) ≡ b
    → f a ≡ f b
    → a ≡ b
left_inverse-same f read a b back_a back_b e = sym back_a ∙ ap read e ∙ back_b

-- The field that a text begins with, up to the space of what follows.
pub field_same :
    {A : Type 0} {f : A → Text} {a b : A} {s t : Text}
    → IsName f
    → f a ++ (space ∷ s) ≡ f b ++ (space ∷ t)
    → (a ≡ b) × (s ≡ t)
field_same {f} {a} {b} {s} {t} name e =
    let (same, rest) = IsWord-unique (f a) (f b) s t (name.word a) (name.word b) e in
    (name.injective a b same, rest)

-- A field of words, some of which may stand for several values.
pub word_same :
    {A : Type 0} (f : A → Text) (a b : A) (s t : Text)
    → ((x : A) → IsWord (f x))
    → f a ++ (space ∷ s) ≡ f b ++ (space ∷ t)
    → (f a ≡ f b) × (s ≡ t)
word_same f a b s t word e = IsWord-unique (f a) (f b) s t (word a) (word b) e

pub side_same :
    (a b : Side) (s t : Text)
    → is_named_side a ≡ true
    → is_named_side b ≡ true
    → side_to_string a ++ (space ∷ s) ≡ side_to_string b ++ (space ∷ t)
    → (a ≡ b) × (s ≡ t)
side_same a b s t ha hb e =
    let (same, rest) = word_same side_to_string a b s t side-IsWord e in
    (
      left_inverse-same side_to_string side_number a b (side-number a ha) (side-number b hb) same,
      rest,
    )

pub decimal-IsName : IsName decimal
decimal-IsName = record {
  word = λ n. IsDigits-IsWord (decimal n) (decimal-IsDigits n);
  injective = decimal-injective;
}
