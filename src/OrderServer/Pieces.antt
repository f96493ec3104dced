-- ===== src/OrderServer/Pieces.antt =====
-- `recvCallback` of order_server.h on bytes that come in pieces, which TCP may cut anywhere.
use trading_ecosystem.Prelude.{
  ℕ, zero, suc, ◌+◌, ◌*◌, ◌≤◌, ◌≡◌, refl, sym, ap, ◌∙◌, List, [], ◌∷◌, ◌++◌, length, length-append,
  length-drop, drop, drop-append, leb, leb→le, Bool-cases, inl, inr, true, false, arith,
}
use trading_ecosystem.Run.{and_then}
use trading_ecosystem.Run.Sequencing.{and_then_assoc, and_then_cong}
use trading_ecosystem.OrderServer.{OrderServer, handle_request, recv_loop}
use trading_ecosystem.OrderServer.Wire.{
  read_le, bits_price, read_side, read_type, decode_request, request_size,
}

read_le-append : (n : ℕ) (bs more : List ℕ) → n ≤ length bs → read_le n (bs ++ more) ≡ read_le n bs
unfolding read_le
read_le-append zero bs more h = refl
read_le-append (suc n) [] more h = absurd (omega arith)
read_le-append (suc n) (b ∷ bs) more h =
    ap (λ v. b + 256 * v) (read_le-append n bs more (omega arith))

-- A field of `n` bytes that begins at the byte `k`.
field-append :
    (n k : ℕ) (bs more : List ℕ)
    → k + n ≤ length bs
    → read_le n (drop k (bs ++ more)) ≡ read_le n (drop k bs)
field-append n k bs more h =
    ap (read_le n) (drop-append k bs more (omega arith))
    ∙ read_le-append n (drop k bs) more (omega (arith, length-drop k bs))

decode-append :
    (bs more : List ℕ) → request_size ≤ length bs → decode_request (bs ++ more) ≡ decode_request bs
unfolding decode_request
decode-append bs more h = λ i. record {
  seq_num = field-append 8 0 bs more (omega arith) i;
  me_client_request = record {
    type = read_type (field-append 1 8 bs more (omega arith) i);
    client_id = field-append 4 9 bs more (omega arith) i;
    ticker_id = field-append 4 13 bs more (omega arith) i;
    order_id = field-append 8 17 bs more (omega arith) i;
    side = read_side (field-append 1 25 bs more (omega arith) i);
    price = bits_price (field-append 8 26 bs more (omega arith) i);
    qty = field-append 4 34 bs more (omega arith) i;
  };
}

module _ (socket rx_time : ℕ) where
  -- More rounds than there are bytes make no difference.
  recv_loop-fuel :
      (f g : ℕ) (bs : List ℕ) (s : OrderServer)
      → length bs ≤ f
      → length bs ≤ g
      → recv_loop socket rx_time f bs s ≡ recv_loop socket rx_time g bs s
  unfolding recv_loop
  recv_loop-fuel zero zero bs s hf hg = refl
  recv_loop-fuel zero (suc g) bs s hf hg =
      let few : leb request_size (length bs) ≡ false = ground arith in rw few refl
  recv_loop-fuel (suc f) zero bs s hf hg =
      let few : leb request_size (length bs) ≡ false = ground arith in rw few refl
  recv_loop-fuel (suc f) (suc g) bs s hf hg = elim (Bool-cases (leb request_size (length bs))) [
    | inr few ↦ rw few refl
    | inl more ↦ rw more (
        and_then_cong (handle_request socket rx_time (decode_request bs) s) λ _ s'.
          recv_loop-fuel f g (drop request_size bs) s' (omega (arith, length-drop request_size bs))
            (omega (arith, length-drop request_size bs)))
  ]

  -- Given as many rounds as there are bytes or more, the loop of `recvCallback` over bytes that
  -- come at once does what the loop over the first piece of them does, followed, if that returns,
  -- by the loop over what it left and the second piece.
  pub recv_loop-append :
      (f g h : ℕ) (xs bs : List ℕ) (s : OrderServer)
      → length xs ≤ f
      → length xs + length bs ≤ g
      → length xs + length bs ≤ h
      → recv_loop socket rx_time g (xs ++ bs) s
        ≡ and_then
            (recv_loop socket rx_time f xs s)
            (λ rest. recv_loop socket rx_time h (rest ++ bs))
  unfolding recv_loop
  recv_loop-append zero g h xs bs s hf hg hh =
      recv_loop-fuel g h (xs ++ bs) s (omega (arith, length-append xs bs))
        (omega (arith, length-append xs bs))
  recv_loop-append (suc f) zero h xs bs s hf hg hh =
      let few : leb request_size (length xs) ≡ false = ground arith in
      rw few (
        recv_loop-fuel zero h (xs ++ bs) s (omega (arith, length-append xs bs))
          (omega (arith, length-append xs bs)))
  recv_loop-append (suc f) (suc g) h xs bs s hf hg hh =
      elim (Bool-cases (leb request_size (length xs))) [
        | inr few ↦ rw few (
            recv_loop-fuel (suc g) h (xs ++ bs) s (omega (arith, length-append xs bs))
              (omega (arith, length-append xs bs)))
        | inl more ↦
            let enough : request_size ≤ length xs = leb→le request_size (length xs) more in
            let still : leb request_size (length (xs ++ bs)) ≡ true =
              ground (arith, length-append xs bs) in
            rw (more, still, decode-append xs bs enough, drop-append request_size xs bs enough)
              (and_then_cong (handle_request socket rx_time (decode_request xs) s) (λ _ s'.
                  recv_loop-append f g h (drop request_size xs) bs s'
                    (omega (arith, length-drop request_size xs))
                    (omega (arith, length-drop request_size xs))
                    (omega (arith, length-drop request_size xs)))
                ∙ sym (and_then_assoc (handle_request socket rx_time (decode_request xs) s) _ _))
      ]
