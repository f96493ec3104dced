-- ===== src/Message/Distinct.antt =====
-- Messages that differ have different texts.
use trading_ecosystem.Prelude.{
  Bool, true, false, ◌≢◌, ◌++◌, ◌∷◌, ◌==◌, ◌≡◌, refl, ap, drop, if◌then◌else◌,
}
use mathlib.Core.List.{append_cancel_right}
use trading_ecosystem.Text.{Text, codes, space}
use trading_ecosystem.Text.Words.{IsWord, head_or}
use trading_ecosystem.Message.{ClientRequestType, MeClientRequest, OmClientRequest}
use trading_ecosystem.Message.Text.{
  client_request_type_to_string, me_client_request_to_string, om_client_request_to_string,
}
use trading_ecosystem.Types.Names.{
  order_id-IsName, ticker_id-IsName, client_id-IsName, qty-IsName, price-IsName, is_named_side,
  side_same, word_same, left_inverse-same, decimal-IsName, field_same,
}

type_number : Text → ClientRequestType
type_number t =
    if head_or 0 t == 78
    then ClientRequestType.new
    else if head_or 0 t == 67
    then ClientRequestType.cancel
    else ClientRequestType.invalid

abbrev is_named_type : ClientRequestType → Bool
is_named_type (ClientRequestType.unnamed b) = false
is_named_type _ = true

type-number :
    (t : ClientRequestType)
    → is_named_type t ≡ true
    → type_number (client_request_type_to_string t) ≡ t
unfolding client_request_type_to_string type_number
type-number ClientRequestType.new h = refl
type-number ClientRequestType.cancel h = refl
type-number ClientRequestType.invalid h = refl
type-number (ClientRequestType.unnamed b) h = cc h

type-IsWord : (t : ClientRequestType) → IsWord (client_request_type_to_string t)
unfolding client_request_type_to_string
type-IsWord ClientRequestType.new = refl
type-IsWord ClientRequestType.cancel = refl
type-IsWord ClientRequestType.invalid = refl
type-IsWord (ClientRequestType.unnamed b) = refl

type_same :
    (a b : ClientRequestType) (s t : Text)
    → is_named_type a ≡ true
    → is_named_type b ≡ true
    → client_request_type_to_string a ++ (space ∷ s)
      ≡ client_request_type_to_string b ++ (space ∷ t)
    → (a ≡ b) × (s ≡ t)
type_same a b s t ha hb e =
    let f = client_request_type_to_string in
    let (same, rest) = word_same f a b s t type-IsWord e in
    (left_inverse-same f type_number a b (type-number a ha) (type-number b hb) same, rest)

-- The enumerations name the type and the side of the request.
abbrev pub IsNamed : MeClientRequest → Type 0
IsNamed r = (is_named_type r.type ≡ true) × (is_named_side r.side ≡ true)

me_client_request_to_string-injective :
    (r r' : MeClientRequest)
    → IsNamed r
    → IsNamed r'
    → me_client_request_to_string r ≡ me_client_request_to_string r'
    → r ≡ r'
unfolding me_client_request_to_string
me_client_request_to_string-injective r r' named named' e =
    let (type, e1) = type_same r.type r'.type _ _ named.0 named'.0 (ap (drop 26) e) in
    let (client, e2) =
      field_same {a = r.client_id} {b = r'.client_id} client_id-IsName (ap (drop 8) e1) in
    let (ticker, e3) =
      field_same {a = r.ticker_id} {b = r'.ticker_id} ticker_id-IsName (ap (drop 8) e2) in
    let (order, e4) =
      field_same {a = r.order_id} {b = r'.order_id} order_id-IsName (ap (drop 11) e3) in
    let (side, e5) = side_same r.side r'.side _ _ named.1 named'.1 (ap (drop 6) e4) in
    let (qty, e6) = field_same {a = r.qty} {b = r'.qty} qty-IsName (ap (drop 5) e5) in
    let (price, e7) = field_same {a = r.price} {b = r'.price} price-IsName (ap (drop 7) e6) in
    λ i. record {
      type = type i;
      client_id = client i;
      ticker_id = ticker i;
      order_id = order i;
      side = side i;
      price = price i;
      qty = qty i;
    }

om_client_request_to_string-injective :
    (r r' : OmClientRequest)
    → IsNamed r.me_client_request
    → IsNamed r'.me_client_request
    → om_client_request_to_string r ≡ om_client_request_to_string r'
    → r ≡ r'
unfolding om_client_request_to_string
om_client_request_to_string-injective r r' named named' e =
    let (seq, e1) = field_same {a = r.seq_num} {b = r'.seq_num} decimal-IsName (ap (drop 26) e) in
    let inner =
      me_client_request_to_string-injective r.me_client_request r'.me_client_request named named'
        (append_cancel_right _ _ (codes " ] ") e1) in
    λ i. record { seq_num = seq i; me_client_request = inner i }

-- If the enumerations name the types and the sides of two requests, and the requests or their
-- sequence numbers differ, then `toString` gives different texts.
pub om_client_request_to_string-differs :
    (r r' : OmClientRequest)
    → IsNamed r.me_client_request
    → IsNamed r'.me_client_request
    → r ≢ r'
    → om_client_request_to_string r ≢ om_client_request_to_string r'
om_client_request_to_string-differs r r' named named' ne e =
    ne (om_client_request_to_string-injective r r' named named' e)
