-- ===== src/Message.antt =====
-- The messages of the exchange: exchange/order_server/client_request.h and client_response.h, and
-- exchange/market_data/market_update.h. `Outbound` is what the order book asks of the matching
-- engine that owns it.
pub mod Text
pub mod Distinct
mod Tests
use trading_ecosystem.Prelude.{ℕ, ℤ, List, ◌∷◌}
use trading_ecosystem.Types.{Side}

pub data ClientRequestType : Type 0 where
  invalid new cancel : ClientRequestType
  unnamed : ℕ → ClientRequestType

pub record MeClientRequest : Type 0 where
  pub type : ClientRequestType
  pub client_id : ℕ
  pub ticker_id : ℕ
  pub order_id : ℕ
  pub side : Side
  pub price : ℤ
  pub qty : ℕ

pub record OmClientRequest : Type 0 where
  pub seq_num : ℕ
  pub me_client_request : MeClientRequest

pub data ClientResponseType : Type 0 where
  invalid accepted canceled filled cancel_rejected : ClientResponseType

pub record MeClientResponse : Type 0 where
  pub type : ClientResponseType
  pub client_id : ℕ
  pub ticker_id : ℕ
  pub client_order_id : ℕ
  pub market_order_id : ℕ
  pub side : Side
  pub price : ℤ
  pub exec_qty : ℕ
  pub leaves_qty : ℕ

pub record OmClientResponse : Type 0 where
  pub seq_num : ℕ
  pub me_client_response : MeClientResponse

pub data MeMarketUpdateType : Type 0 where
  invalid clear add modify cancel trade snapshot_start snapshot_end : MeMarketUpdateType

pub record MeMarketUpdate : Type 0 where
  pub type : MeMarketUpdateType
  pub order_id : ℕ
  pub ticker_id : ℕ
  pub side : Side
  pub price : ℤ
  pub qty : ℕ
  pub priority : ℕ

pub record MdpMarketUpdate : Type 0 where
  pub seq_num : ℕ
  pub me_market_update : MeMarketUpdate

-- The engine's `sendClientResponse` and `sendMarketUpdate`, over its own state.
pub record Outbound (E : Type 0) : Type 0 where
  pub send_client_response : MeClientResponse → E → E
  pub send_market_update : MeMarketUpdate → E → E

-- The messages that were sent, the last one first: an engine that only records.
pub data Event : Type 0 where
  response : MeClientResponse → Event
  update : MeMarketUpdate → Event

abbrev pub recorder : Outbound (List Event)
recorder = record {
  send_client_response = λ r events. response r ∷ events;
  send_market_update = λ u events. update u ∷ events;
}
