-- ===== src/SocketUtils/Opening.antt =====
-- What `CreateSocket` of socket_utils.h returns, and what it does not look at.
use trading_ecosystem.Prelude.{
  ℤ, pos, eq_ℤ, ◌≡◌, ◌≢◌, refl, sym, ap, ◌∙◌, List, [], ◌∷◌, Bool, true, false, not, Option, none,
  some, if◌then◌else◌, arith,
}
use trading_ecosystem.Run.{and_then, ◌>>=◌, assert, pure}
use trading_ecosystem.Run.Ensures
use trading_ecosystem.Run.Ensures.{Ensures, returns, ends, any_way, asserted}
use trading_ecosystem.Run.Sequencing.{and_then_cong}
use trading_ecosystem.Text.{Text}
use trading_ecosystem.SocketUtils.{
  Kernel, SocketCfg, AddrInfo, Hints, minus_one, call, set_up, bind_and_listen, must_hold,
  set_non_blocking, disable_nagle, connect_unless_listening, open_one, open_all, open_found,
  create_socket, ip_of,
}

module _ {K : Type 0} where
  module _ (k : Kernel K) (cfg : SocketCfg) where
    open_one-fd : (rp : AddrInfo) (s : K) → Ensures (λ fd _. fd ≢ minus_one) (open_one k cfg rp s)
    unfolding open_one
    open_one-fd rp s =
        Ensures.bind (asserted (not (eq_ℤ (k.socket rp s).0 minus_one)) (k.socket rp s).1)
          λ _ s₁ is_socket. Ensures.bind (any_way (set_up k cfg rp (k.socket rp s).0 s₁)) λ _ s₂ _.
            returns (λ e.
              let not_one = sym is_socket ∙ ap (λ a. not (eq_ℤ a minus_one)) e in ground arith)

    open_all-fd :
        (rps : List AddrInfo) (fd : ℤ) (s : K)
        → fd ≢ minus_one
        → Ensures (λ fd _. fd ≢ minus_one) (open_all k cfg rps fd s)
    unfolding open_all
    open_all-fd [] fd s is_socket = returns is_socket
    open_all-fd (rp ∷ rps) fd s is_socket =
        Ensures.bind (open_one-fd rp s) (λ fd' s' is_socket'. open_all-fd rps fd' s' is_socket')

    open_found-fd :
        (answer : Option (List AddrInfo)) (s : K)
        → answer ≢ some []
        → Ensures (λ fd _. fd ≢ minus_one) (open_found k cfg answer s)
    unfolding open_found open_all
    open_found-fd none s some_address = ends
    open_found-fd (some []) s some_address = absurd (some_address refl)
    open_found-fd (some (rp ∷ rps)) s some_address =
        Ensures.bind (open_one-fd rp s) (λ fd' s' is_socket'. open_all-fd rps fd' s' is_socket')

    -- If `getaddrinfo` never succeeds with no address, `CreateSocket` does not return -1.
    pub create_socket-fd :
        (s : K)
        → ((ip port : Text) (hints : Hints) (s : K) → (k.getaddrinfo ip port hints s).0 ≢ some [])
        → Ensures (λ fd _. fd ≢ minus_one) (create_socket k cfg s)
    unfolding create_socket open_found
    create_socket-fd s some_address =
        Ensures.bind (any_way (ip_of k cfg cfg.ip s))
          λ ip s₁ _. open_found-fd _ _ (some_address ip _ _ s₁)

  -- The same kernel, whatever `connect` answers.
  abbrev pub answering : Kernel K → ((fd : ℤ) → AddrInfo → K → ℤ) → Kernel K
  answering k answer = record k {
    connect_to = λ fd rp s. (answer fd rp s, (k.connect_to fd rp s).1);
  }

  module _ (k : Kernel K) (cfg : SocketCfg) (answer : (fd : ℤ) → AddrInfo → K → ℤ)
      (never_one : (fd : ℤ) (rp : AddrInfo) (s : K) → eq_ℤ (answer fd rp s) (pos 1) ≡ false)
      (was_never_one : (fd : ℤ) (rp : AddrInfo) (s : K)
        → eq_ℤ (k.connect_to fd rp s).0 (pos 1) ≡ false) where
    connect-ignored :
        (fd : ℤ) (rp : AddrInfo) (s : K)
        → connect_unless_listening (answering k answer) cfg fd rp s
          ≡ connect_unless_listening k cfg fd rp s
    unfolding connect_unless_listening
    connect-ignored fd rp s = go cfg.is_listening
      where
        go :
            (b : Bool)
            → (if b
                  then pure tt
                  else call (answering k answer) ((answering k answer).connect_to fd rp) >>= λ r.
                      assert (not (eq_ℤ r (pos 1))))
                s
              ≡ (if b
                    then pure tt
                    else call k (k.connect_to fd rp) >>= λ r. assert (not (eq_ℤ r (pos 1))))
                  s
        go true = refl
        go false = rw (never_one fd rp s, was_never_one fd rp s) refl

    set_up-ignored :
        (rp : AddrInfo) (fd : ℤ) (s : K)
        → set_up (answering k answer) cfg rp fd s ≡ set_up k cfg rp fd s
    unfolding set_up
    set_up-ignored rp fd s = and_then_cong (must_hold k true (set_non_blocking k fd) s) λ _ s₁.
        and_then_cong (must_hold k (not cfg.is_udp) (disable_nagle k fd) s₁)
          λ _ s₂. ap (λ r. and_then r (λ _. bind_and_listen k cfg rp fd)) (connect-ignored fd rp s₂)

    open_one-ignored :
        (rp : AddrInfo) (s : K) → open_one (answering k answer) cfg rp s ≡ open_one k cfg rp s
    unfolding open_one
    open_one-ignored rp s =
        let fd = (k.socket rp s).0 in
        and_then_cong (assert (not (eq_ℤ fd minus_one)) (k.socket rp s).1)
          λ _ s₁. ap (λ r. and_then r (λ _. pure fd)) (set_up-ignored rp fd s₁)

    open_all-ignored :
        (rps : List AddrInfo) (fd : ℤ) (s : K)
        → open_all (answering k answer) cfg rps fd s ≡ open_all k cfg rps fd s
    unfolding open_all
    open_all-ignored [] fd s = refl
    open_all-ignored (rp ∷ rps) fd s =
        ap (λ r. and_then r (λ fd'. open_all (answering k answer) cfg rps fd'))
          (open_one-ignored rp s)
        ∙ and_then_cong (open_one k cfg rp s) (open_all-ignored rps)

    -- With two kernels that differ only in what `connect` answers, never 1, `CreateSocket` does the
    -- same: a connection that is refused, with -1, is not noticed.
    pub create_socket-ignored :
        (s : K) → create_socket (answering k answer) cfg s ≡ create_socket k cfg s
    unfolding create_socket open_found
    create_socket-ignored s = and_then_cong (ip_of k cfg cfg.ip s) λ ip s₁. go _ _
      where
        go :
            (found : Option (List AddrInfo)) (s : K)
            → open_found (answering k answer) cfg found s ≡ open_found k cfg found s
        go none s = refl
        go (some rps) s = open_all-ignored rps minus_one s
