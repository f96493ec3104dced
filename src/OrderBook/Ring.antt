-- ===== src/OrderBook/Ring.antt =====
-- Rings of doubly linked nodes, as me_order_book.h makes them of orders: `next` and `prev` are the pointers of the nodes.
use trading_ecosystem.Prelude.{
  ap, ◌∙◌, ℕ, ◌≡◌, ◌≢◌, List, [], ◌∷◌, ◌++◌, Ptr, some, arith, true, false, member, IsUnique,
}

-- The last of the nodes `a ∷ bs`.
abbrev pub last_of : ℕ → List ℕ → ℕ
last_of a [] = a
last_of a (b ∷ bs) = last_of b bs

module _ (next prev : ℕ → Ptr) where
  abbrev pub IsLinked : (a b : ℕ) → Type 0
  IsLinked a b = (next a ≡ some b) × (prev b ≡ some a)

  -- From `a` through the nodes `bs` to `z`.
  abbrev pub IsPath : ℕ → List ℕ → ℕ → Type 0
  IsPath a [] z = IsLinked a z
  IsPath a (b ∷ bs) z = IsLinked a b × IsPath b bs z

  pub IsPath-split :
      (a : ℕ) (bs : List ℕ) (c : ℕ) (cs : List ℕ) (z : ℕ)
      → IsPath a (bs ++ (c ∷ cs)) z
      → IsPath a bs c × IsPath c cs z
  IsPath-split a [] c cs z p = p
  IsPath-split a (b ∷ bs) c cs z p = let (q, r) = IsPath-split b bs c cs z p.1 in ((p.0, q), r)

  pub IsPath-join :
      (a : ℕ) (bs : List ℕ) (c : ℕ) (cs : List ℕ) (z : ℕ)
      → IsPath a bs c
      → IsPath c cs z
      → IsPath a (bs ++ (c ∷ cs)) z
  IsPath-join a [] c cs z p q = (p, q)
  IsPath-join a (b ∷ bs) c cs z p q = (p.0, IsPath-join b bs c cs z p.1 q)

  pub IsPath-last : (a : ℕ) (bs : List ℕ) (z : ℕ) → IsPath a bs z → IsLinked (last_of a bs) z
  IsPath-last a [] z p = p
  IsPath-last a (b ∷ bs) z p = IsPath-last b bs z p.1

  -- The ring may be entered at any of its nodes.
  pub turn :
      (a : ℕ) (bs : List ℕ) (c : ℕ) (cs : List ℕ)
      → IsPath a (bs ++ (c ∷ cs)) a
      → IsPath c (cs ++ (a ∷ bs)) c
  turn a bs c cs p = let (q, r) = IsPath-split a bs c cs a p in IsPath-join c cs a bs c r q

pub member-last : (a : ℕ) (bs : List ℕ) → member (last_of a bs) (a ∷ bs) ≡ true
member-last a [] = ground arith
member-last a (b ∷ bs) = ground (arith, member-last b bs)

-- A path whose last link now leads to `z'`, with all other links as before.
pub retarget :
    (next prev next' prev' : ℕ → Ptr) (a : ℕ) (bs : List ℕ) (z z' : ℕ)
    → IsPath next prev a bs z
    → IsUnique (a ∷ bs)
    → ((i : ℕ) → member i (a ∷ bs) ≡ true → i ≢ last_of a bs → next' i ≡ next i)
    → next' (last_of a bs) ≡ some z'
    → ((i : ℕ) → member i bs ≡ true → prev' i ≡ prev i)
    → prev' z' ≡ some (last_of a bs)
    → IsPath next' prev' a bs z'
retarget next prev next' prev' a [] z z' p u same_next new_next same_prev new_prev =
    (new_next, new_prev)
retarget next prev next' prev' a (b ∷ bs) z z' p u same_next new_next same_prev new_prev =
    let last_in : a ≡ last_of b bs → member a (b ∷ bs) ≡ true =
      λ e. ap (λ i. member i (b ∷ bs)) e ∙ member-last b bs in
    let apart : a ≢ last_of b bs = λ e. cc (u.0, last_in e) in
    (
      (same_next a (ground arith) apart ∙ p.0.0, same_prev b (ground arith) ∙ p.0.1),
      retarget next prev next' prev' b bs z z' p.1 u.1 (λ i m. same_next i (ground arith)) new_next
          (λ i m. same_prev i (ground arith)) new_prev,
    )

pub separate : (i o : ℕ) (xs : List ℕ) → member i xs ≡ true → member o xs ≡ false → i ≢ o
separate i o xs m out e = cc (out, ap (λ j. member j xs) e, m)

-- Other pointers than those of `o` do not matter to a path that does not meet it.
pub IsPath-apart :
    (next prev next' prev' : ℕ → Ptr) (o a : ℕ) (bs : List ℕ) (z : ℕ)
    → ((i : ℕ) → i ≢ o → next' i ≡ next i)
    → ((i : ℕ) → i ≢ o → prev' i ≡ prev i)
    → member o (a ∷ bs) ≡ false
    → z ≢ o
    → IsPath next prev a bs z
    → IsPath next' prev' a bs z
IsPath-apart next prev next' prev' o a [] z same_next same_prev out end p =
    (same_next a (separate a o (a ∷ []) (ground arith) out) ∙ p.0, same_prev z end ∙ p.1)
IsPath-apart next prev next' prev' o a (b ∷ bs) z same_next same_prev out end p = (
  (
    same_next a (separate a o (a ∷ b ∷ bs) (ground arith) out) ∙ p.0.0,
    same_prev b (separate b o (a ∷ b ∷ bs) (ground arith) out) ∙ p.0.1,
  ),
  IsPath-apart next prev next' prev' o b bs z same_next same_prev (ground arith) end p.1,
)

-- The pointers after `o` is linked in between the last node `l` of a ring and its first node `x`.
pub record IsJoined (next prev next' prev' : ℕ → Ptr) (x l o : ℕ) : Type 0 where
  pub same_next : (i : ℕ) → i ≢ l → i ≢ o → next' i ≡ next i
  pub last_next : next' l ≡ some o
  pub new_next : next' o ≡ some x
  pub same_prev : (i : ℕ) → i ≢ x → i ≢ o → prev' i ≡ prev i
  pub first_prev : prev' x ≡ some o
  pub new_prev : prev' o ≡ some l

pub join-IsPath :
    (next prev next' prev' : ℕ → Ptr) (x : ℕ) (xs : List ℕ) (o : ℕ)
    → IsPath next prev x xs x
    → IsUnique (x ∷ xs)
    → member o (x ∷ xs) ≡ false
    → IsJoined next prev next' prev' x (last_of x xs) o
    → IsPath next' prev' x (xs ++ (o ∷ [])) x
join-IsPath next prev next' prev' x xs o p u out j =
    IsPath-join next' prev' x xs o [] x
      (retarget next prev next' prev' x xs x o p u
        (λ i m ne. j.same_next i ne (separate i o (x ∷ xs) m out)) j.last_next
        (λ i m. j.same_prev i (separate i x xs m u.0) (separate i o xs m (ground arith)))
        j.new_prev)
      (j.new_next, j.first_prev)

-- The pointers after `o` is linked out between its neighbours `l` and `n`.
pub record IsLeft (next prev next' prev' : ℕ → Ptr) (l o n : ℕ) : Type 0 where
  pub same_next : (i : ℕ) → i ≢ l → i ≢ o → next' i ≡ next i
  pub before_next : next' l ≡ some n
  pub same_prev : (i : ℕ) → i ≢ n → i ≢ o → prev' i ≡ prev i
  pub after_prev : prev' n ≡ some l

-- A ring without its first node.
pub leave-IsPath :
    (next prev next' prev' : ℕ → Ptr) (o n : ℕ) (ns : List ℕ)
    → IsPath next prev o (n ∷ ns) o
    → IsUnique (o ∷ n ∷ ns)
    → IsLeft next prev next' prev' (last_of n ns) o n
    → IsPath next' prev' n ns n
leave-IsPath next prev next' prev' o n ns p u j =
    retarget next prev next' prev' n ns o n p.1 u.1
      (λ i m ne. j.same_next i ne (separate i o (n ∷ ns) m u.0)) j.before_next
      (λ i m. j.same_prev i (separate i n ns m u.1.0) (separate i o ns m (ground arith)))
      j.after_prev

-- Other tables with the same pointers have the same paths.
pub IsPath-same :
    (next prev next' prev' : ℕ → Ptr) (a : ℕ) (bs : List ℕ) (z : ℕ)
    → ((i : ℕ) → next' i ≡ next i)
    → ((i : ℕ) → prev' i ≡ prev i)
    → IsPath next prev a bs z
    → IsPath next' prev' a bs z
IsPath-same next prev next' prev' a [] z same_next same_prev p =
    (same_next a ∙ p.0, same_prev z ∙ p.1)
IsPath-same next prev next' prev' a (b ∷ bs) z same_next same_prev p = (
  (same_next a ∙ p.0.0, same_prev b ∙ p.0.1),
  IsPath-same next prev next' prev' b bs z same_next same_prev p.1,
)

-- Other pointers than those along the path do not matter to it.
pub IsPath-within :
    (next prev next' prev' : ℕ → Ptr) (a : ℕ) (bs : List ℕ) (z : ℕ)
    → ((i : ℕ) → member i (a ∷ bs) ≡ true → next' i ≡ next i)
    → ((i : ℕ) → member i bs ≡ true → prev' i ≡ prev i)
    → prev' z ≡ prev z
    → IsPath next prev a bs z
    → IsPath next' prev' a bs z
IsPath-within next prev next' prev' a [] z same_next same_prev end p =
    (same_next a (ground arith) ∙ p.0, end ∙ p.1)
IsPath-within next prev next' prev' a (b ∷ bs) z same_next same_prev end p = (
  (same_next a (ground arith) ∙ p.0.0, same_prev b (ground arith) ∙ p.0.1),
  IsPath-within next prev next' prev' b bs z (λ i m. same_next i (ground arith))
      (λ i m. same_prev i (ground arith)) end p.1,
)
