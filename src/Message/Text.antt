-- ===== src/Message/Text.antt =====
-- The conversions to text of client_request.h, client_response.h and market_update.h. The types of
-- responses and updates are set by the exchange itself and always named.
use trading_ecosystem.Prelude.{[], ◌∷◌}
use trading_ecosystem.Text.{Text, codes, decimal, stream}
use trading_ecosystem.Types.Text.{
  order_id_to_string, ticker_id_to_string, client_id_to_string, price_to_string, qty_to_string,
  priority_to_string, side_to_string,
}
use trading_ecosystem.Message.{
  ClientRequestType, MeClientRequest, OmClientRequest, ClientResponseType, MeClientResponse,
  OmClientResponse, MeMarketUpdateType, MeMarketUpdate, MdpMarketUpdate,
}

unfoldable pub client_request_type_to_string : ClientRequestType → Text
client_request_type_to_string ClientRequestType.new = codes "NEW"
client_request_type_to_string ClientRequestType.cancel = codes "CANCEL"
client_request_type_to_string ClientRequestType.invalid = codes "INVALID"
client_request_type_to_string (ClientRequestType.unnamed b) = codes "UNKNOWN"

unfoldable pub me_client_request_to_string : MeClientRequest → Text
me_client_request_to_string r = stream (
    codes "MEClientRequest "
    ∷ codes " [ "
    ∷ codes " Type: "
    ∷ client_request_type_to_string r.type
    ∷ codes " Client: "
    ∷ client_id_to_string r.client_id
    ∷ codes " Ticker: "
    ∷ ticker_id_to_string r.ticker_id
    ∷ codes " Order id : "
    ∷ order_id_to_string r.order_id
    ∷ codes " Side: "
    ∷ side_to_string r.side
    ∷ codes " Qty: "
    ∷ qty_to_string r.qty
    ∷ codes " Price: "
    ∷ price_to_string r.price
    ∷ codes " ] "
    ∷ [])

unfoldable pub om_client_request_to_string : OmClientRequest → Text
om_client_request_to_string r = stream (
    codes "OMClientRequest: "
    ∷ codes " [ "
    ∷ codes " seq: "
    ∷ decimal r.seq_num
    ∷ codes " "
    ∷ me_client_request_to_string r.me_client_request
    ∷ codes " ] "
    ∷ [])

unfoldable pub client_response_type_to_string : ClientResponseType → Text
client_response_type_to_string ClientResponseType.accepted = codes "ACCEPTED"
client_response_type_to_string ClientResponseType.canceled = codes "CANCELED"
client_response_type_to_string ClientResponseType.filled = codes "FILLED"
client_response_type_to_string ClientResponseType.cancel_rejected = codes "CANCEL_REJECTED"
client_response_type_to_string ClientResponseType.invalid = codes "INVALID"

unfoldable pub me_client_response_to_string : MeClientResponse → Text
me_client_response_to_string r = stream (
    codes "MEClientResponse"
    ∷ codes " [ "
    ∷ codes " Type: "
    ∷ client_response_type_to_string r.type
    ∷ codes " Client: "
    ∷ client_id_to_string r.client_id
    ∷ codes " Ticker "
    ∷ ticker_id_to_string r.ticker_id
    ∷ codes " Client order id: "
    ∷ order_id_to_string r.client_order_id
    ∷ codes " Market order id: "
    ∷ order_id_to_string r.market_order_id
    ∷ codes " Side: "
    ∷ side_to_string r.side
    ∷ codes " Executed qty: "
    ∷ qty_to_string r.exec_qty
    ∷ codes " Leaves qty: "
    ∷ qty_to_string r.leaves_qty
    ∷ codes " Price: "
    ∷ price_to_string r.price
    ∷ codes " ] "
    ∷ [])

unfoldable pub om_client_response_to_string : OmClientResponse → Text
om_client_response_to_string r = stream (
    codes "OMClientResponse "
    ∷ codes " [ "
    ∷ codes " seq: "
    ∷ decimal r.seq_num
    ∷ codes " "
    ∷ me_client_response_to_string r.me_client_response
    ∷ codes " ] "
    ∷ [])

unfoldable pub market_update_type_to_string : MeMarketUpdateType → Text
market_update_type_to_string MeMarketUpdateType.add = codes "ADD"
market_update_type_to_string MeMarketUpdateType.clear = codes "CLEAR"
market_update_type_to_string MeMarketUpdateType.modify = codes "MODIFY"
market_update_type_to_string MeMarketUpdateType.cancel = codes "CANCEL"
market_update_type_to_string MeMarketUpdateType.trade = codes "TRADE"
market_update_type_to_string MeMarketUpdateType.snapshot_start = codes "SNAPSHOT_START"
market_update_type_to_string MeMarketUpdateType.snapshot_end = codes "SNAPSHOT_END"
market_update_type_to_string MeMarketUpdateType.invalid = codes "INVALID"

unfoldable pub me_market_update_to_string : MeMarketUpdate → Text
me_market_update_to_string u = stream (
    codes "MEMarketUpdate: "
    ∷ codes " [ "
    ∷ codes " Type: "
    ∷ market_update_type_to_string u.type
    ∷ codes " Ticker: "
    ∷ ticker_id_to_string u.ticker_id
    ∷ codes " Order_id: "
    ∷ order_id_to_string u.order_id
    ∷ codes " Side: "
    ∷ side_to_string u.side
    ∷ codes " Qty: "
    ∷ qty_to_string u.qty
    ∷ codes " Price: "
    ∷ price_to_string u.price
    ∷ codes " Priority: "
    ∷ priority_to_string u.priority
    ∷ codes " ] "
    ∷ [])

unfoldable pub mdp_market_update_to_string : MdpMarketUpdate → Text
mdp_market_update_to_string u = stream (
    codes "MDPMarketUpdate: "
    ∷ codes " [ "
    ∷ codes " seq: "
    ∷ decimal u.seq_num
    ∷ codes " "
    ∷ me_market_update_to_string u.me_market_update
    ∷ codes " ] "
    ∷ [])
