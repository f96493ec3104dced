-- ===== src/FifoSequencer.antt =====
-- exchange/order_server/fifo_sequencer.h: requests wait with the time at which they came, and are published
-- in the order of these times.
pub mod Order
mod Tests
use trading_ecosystem.Prelude.{ℕ, ℤ, ◌+◌, List, [], ◌∷◌, ◌++◌, ltb, length, leb, if◌then◌else◌}
use trading_ecosystem.Run.{Cmd, ok, fatal, ◌>>=◌, ◌>>◌, gets, modify, require, pure}
use trading_ecosystem.LfQueue
use trading_ecosystem.LfQueue.{LfQueue}
use trading_ecosystem.Message.{MeClientRequest}

abbrev pub me_max_pending_requests : ℕ
me_max_pending_requests = 1024

pub record RecvTimeClientRequest : Type 0 where
  pub recv_time : ℕ
  pub request : MeClientRequest

-- The array up to `pending_size_`, in order; the rest of it is never read.
pub record FifoSequencer : Type 0 where
  pub incoming_requests : LfQueue MeClientRequest
  pub pending : List RecvTimeClientRequest

unfoldable pub add_client_request : ℕ → MeClientRequest → Cmd FifoSequencer (Unit {0})
add_client_request rx_time request = do
  size ← gets (λ s. length s.pending)
  require (ltb size me_max_pending_requests) fatal
  modify λ s. record s {
    pending = s.pending ++ (record { recv_time = rx_time; request = request } ∷ []);
  }

-- The loop that writes the sorted requests to the queue.
unfoldable pub publish :
    List RecvTimeClientRequest → LfQueue MeClientRequest → LfQueue MeClientRequest
publish [] q = q
publish (x ∷ xs) q = publish xs (LfQueue.write x.request q)

-- `std::sort` is a parameter: it is the standard library's, and does not say how it orders equal times.
module _ (sort : List RecvTimeClientRequest → List RecvTimeClientRequest) where
  unfoldable pub publish_pending : List RecvTimeClientRequest → FifoSequencer → FifoSequencer
  unfolding publish
  publish_pending [] s = s
  publish_pending (x ∷ xs) s = record s {
    incoming_requests = publish (sort (x ∷ xs)) s.incoming_requests;
    pending = [];
  }

  unfoldable pub sequence_and_publish : FifoSequencer → FifoSequencer
  unfolding publish_pending
  sequence_and_publish s = publish_pending s.pending s
