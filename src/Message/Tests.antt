-- ===== src/Message/Tests.antt =====
-- The texts of a request, and the theorem at it.
use trading_ecosystem.Prelude.{◌≡◌, ◌≢◌, ap, refl, negsuc, arith}
use trading_ecosystem.Text.{codes, put_digits, decimal, decimal_ℤ}
use trading_ecosystem.Types.{
  Side, order_id_invalid, ticker_id_invalid, client_id_invalid, price_invalid, qty_invalid,
}
use trading_ecosystem.Types.Text.{
  order_id_to_string, ticker_id_to_string, client_id_to_string, price_to_string, qty_to_string,
  side_to_string,
}
use trading_ecosystem.Message.{ClientRequestType, OmClientRequest}
use trading_ecosystem.Message.Text.{
  client_request_type_to_string, me_client_request_to_string, om_client_request_to_string,
}
use trading_ecosystem.Message.Distinct.{om_client_request_to_string-differs}

abbrev request : OmClientRequest
request = record {
  seq_num = 1;
  me_client_request = record {
    type = ClientRequestType.cancel;
    client_id = 30;
    ticker_id = 2;
    order_id = 18446744073709551615;
    side = Side.sell;
    price = negsuc 4;
    qty = 500;
  };
}

text_test :
    om_client_request_to_string request
    ≡ codes
        "OMClientRequest:  [  seq: 1 MEClientRequest  [  Type: CANCEL Client: 30 Ticker: 2 Order id : INVALID Side: SELL Qty: 500 Price: -5 ]  ] "
unfolding put_digits decimal decimal_ℤ order_id_invalid ticker_id_invalid client_id_invalid
    price_invalid qty_invalid order_id_to_string ticker_id_to_string client_id_to_string
    price_to_string qty_to_string side_to_string client_request_type_to_string
    me_client_request_to_string om_client_request_to_string
text_test = refl

-- The same request with the next sequence number.
abbrev second_request : OmClientRequest
second_request = record request { seq_num = 2 }

om_client_request_to_string-differs_example :
    om_client_request_to_string request ≢ om_client_request_to_string second_request
om_client_request_to_string-differs_example =
    om_client_request_to_string-differs request second_request (refl, refl) (refl, refl)
      (λ e. let h = ap (λ r. r.seq_num) e in omega arith)
