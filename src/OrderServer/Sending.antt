-- ===== src/OrderServer/Sending.antt =====
-- The loop over the responses in `run` of order_server.h.
use trading_ecosystem.Prelude.{
  ℕ, zero, suc, ◌+◌, ◌<◌, ◌≡◌, ◌≢◌, refl, List, Ptr, none, some, ptr_eq, ltb, not, ◌==◌, arith,
  Bool-cases, inl, inr, ◌∙◌, ◌⊎◌,
}
use trading_ecosystem.Run.{Cmd, fault, out_of_fuel, assert_failed, out_of_range}
use trading_ecosystem.Run.Ensures
use trading_ecosystem.Run.Ensures.{
  Ensures, returns, ends, mono, Keeps, keeps_rules, Keeps-require, always, put_back-Ensures,
}
use trading_ecosystem.Run.Fuel.{Ended, result, Ended-bind, Ended-ne, Ends, ends_rules}
use trading_ecosystem.LfQueue.{LfQueue, get_next_to_read, update_read_index}
use trading_ecosystem.Types.{me_max_num_clients}
use trading_ecosystem.OrderServer.Wire.{le_bytes, encode_response}
use trading_ecosystem.Message.{MeClientResponse}
use trading_ecosystem.TcpSocket
use trading_ecosystem.OrderServer.{OrderServer, send_on, send_response, send_next, send_loop}

update_read_index-count :
    {T : Type 0} (q : LfQueue T)
    → Ensures (λ _ q'. q'.num_elements + 1 ≡ q.num_elements) (update_read_index q)
unfolding update_read_index
update_read_index-count q = elim (Bool-cases (q.num_elements == 0)) [
  | inl empty ↦ rw empty ends
  | inr some_left ↦ rw some_left (returns (ground arith))
]

abbrev pub waiting : OrderServer → ℕ
waiting s = s.outgoing_responses.num_elements

abbrev Waits : ℕ → OrderServer → Type 0
Waits n s = waiting s ≡ n

send_on-Waits : (n : ℕ) (p : Ptr) (bytes : List ℕ) → Keeps (Waits n) (send_on p bytes)
unfolding send_on
send_on-Waits n none bytes = search keeps_rules
send_on-Waits n (some i) bytes = record {
  at = λ s h. put_back-Ensures _ (always (TcpSocket.send bytes (s.sockets i)) λ _ _. h);
}

send_response-Waits :
    (r : MeClientResponse) (s : OrderServer)
    → Ensures (λ _ s'. waiting s' + 1 ≡ waiting s) (send_response r s)
unfolding send_response
send_response-Waits r s =
    let n = waiting s in
    Ensures.bind
      ((Keeps-require {P = Waits n} (ltb r.client_id me_max_num_clients) out_of_range).at s refl)
      λ _ s₁ h₁.
        Ensures.bind
          ((Keeps-require {P = Waits n} (not (ptr_eq (s₁.cid_tcp_socket r.client_id) none))
              assert_failed).at
            s₁ h₁)
          λ _ s₂ h₂.
            Ensures.bind
              ((send_on-Waits n (s₁.cid_tcp_socket r.client_id)
                  (le_bytes 8 (s₁.cid_next_outgoing_seq_num r.client_id))).at
                s₂ h₂)
              λ _ s₃ h₃.
                Ensures.bind
                  ((send_on-Waits n (s₁.cid_tcp_socket r.client_id) (encode_response r)).at s₃ h₃)
                  λ _ s₄ h₄.
                    Ensures.bind
                      (put_back-Ensures {P = λ s'. waiting s' + 1 ≡ n} _
                        (mono (update_read_index-count s₄.outgoing_responses) λ _ q h. h ∙ h₄))
                      λ _ s₅ h₅. returns h₅

Ends-send : (bytes : List ℕ) → Ends (TcpSocket.send bytes)
unfolding TcpSocket.send
Ends-send bytes = search ends_rules

Ends-send_on : (p : Ptr) (bytes : List ℕ) → Ends (send_on p bytes)
unfolding send_on
Ends-send_on none bytes = search ends_rules
Ends-send_on (some i) bytes = search (ends_rules, Ends-send)

Ends-update_read_index : {T : Type 0} → Ends (update_read_index {T = T})
unfolding update_read_index
Ends-update_read_index = search ends_rules

Ends-send_response : (r : MeClientResponse) → Ends (send_response r)
unfolding send_response
Ends-send_response r = search (ends_rules, Ends-send_on, Ends-update_read_index) depth 12

-- Nothing is left that the loop would send: the queue counts no element, or the reader sees none.
abbrev pub IsSent : OrderServer → Type 0
IsSent s = (waiting s ≡ 0) ⊎ (get_next_to_read s.outgoing_responses ≡ none)

send_next-Ended :
    (rest : Cmd OrderServer (Unit {0})) (size : ℕ) (next : Ptr) (s : OrderServer)
    → ((s' : OrderServer) → waiting s' + 1 ≡ waiting s → Ended (rest s'))
    → Ended (send_next rest size next s)
unfolding send_next
send_next-Ended rest size none s more = result
send_next-Ended rest zero (some i) s more = result
send_next-Ended rest (suc size) (some i) s more =
    let r = s.outgoing_responses.store i in
    Ended-bind ((Ends-send_response r).at s) (send_response-Waits r s) λ _ s' h. more s' h

send_next-IsSent :
    (rest : Cmd OrderServer (Unit {0})) (size : ℕ) (next : Ptr) (s : OrderServer)
    → waiting s ≡ size
    → get_next_to_read s.outgoing_responses ≡ next
    → ((s' : OrderServer) → Ensures (λ _ s''. IsSent s'') (rest s'))
    → Ensures (λ _ s'. IsSent s') (send_next rest size next s)
unfolding send_next
send_next-IsSent rest size none s e h more = returns (inr h)
send_next-IsSent rest zero (some i) s e h more = returns (inl e)
send_next-IsSent rest (suc size) (some i) s e h more =
    let r = s.outgoing_responses.store i in Ensures.bind (send_response-Waits r s) λ _ s' h. more s'

pub send_loop-Ended : (fuel : ℕ) (s : OrderServer) → waiting s < fuel → Ended (send_loop fuel s)
unfolding send_loop
send_loop-Ended zero s h = absurd (omega arith)
send_loop-Ended (suc fuel) s h =
    send_next-Ended (send_loop fuel) _ _ s λ s' e. send_loop-Ended fuel s' (omega arith)

pub send_loop-IsSent : (fuel : ℕ) (s : OrderServer) → Ensures (λ _ s'. IsSent s') (send_loop fuel s)
unfolding send_loop
send_loop-IsSent zero s = ends
send_loop-IsSent (suc fuel) s =
    send_next-IsSent (send_loop fuel) _ _ s refl refl (send_loop-IsSent fuel)

-- Given more rounds than the queue of responses counts elements, the loop over the responses does
-- not use them up; and if it returns, the queue counts no element or the reader sees none.
pub send_loop_ends :
    (fuel : ℕ) (s : OrderServer)
    → waiting s < fuel
    → (send_loop fuel s ≢ fault out_of_fuel) × Ensures (λ _ s'. IsSent s') (send_loop fuel s)
send_loop_ends fuel s h = (Ended-ne (send_loop-Ended fuel s h), send_loop-IsSent fuel s)
