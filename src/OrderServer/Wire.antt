-- ===== src/OrderServer/Wire.antt =====
-- The packed structs of client_request.h and client_response.h as bytes, on a little-endian machine.
use trading_ecosystem.Prelude.{
  ℕ, zero, suc, ◌+◌, ◌-◌, ◌*◌, ◌/◌, ◌%◌, ◌^◌, ℤ, pos, negsuc, List, [], ◌∷◌, ◌++◌, drop, ltb, ◌==◌,
  if◌then◌else◌,
}
use trading_ecosystem.Types.{Side}
use trading_ecosystem.Message.{
  ClientRequestType, OmClientRequest, ClientResponseType, MeClientResponse,
}

-- An unsigned number in `n` bytes, and back.
unfoldable pub le_bytes : ℕ → ℕ → List ℕ
le_bytes zero v = []
le_bytes (suc n) v = (v % 256) ∷ le_bytes n (v / 256)

unfoldable pub read_le : ℕ → List ℕ → ℕ
read_le zero bs = 0
read_le (suc n) [] = 0
read_le (suc n) (b ∷ bs) = b + 256 * read_le n bs

-- The two's complement of an `int64_t`.
unfoldable pub price_bits : ℤ → ℕ
price_bits (pos n) = n
price_bits (negsuc n) = 2 ^ 64 - 1 - n

unfoldable pub bits_price : ℕ → ℤ
bits_price b = if ltb b (2 ^ 63) then pos b else negsuc (2 ^ 64 - 1 - b)

-- The enumerations.
unfoldable pub read_side : ℕ → Side
read_side b =
    if b == 0
    then Side.invalid
    else if b == 1
    then Side.buy
    else if b == 255
    then Side.sell
    else Side.unnamed b

unfoldable pub side_byte : Side → ℕ
side_byte Side.invalid = 0
side_byte Side.buy = 1
side_byte Side.sell = 255
side_byte (Side.unnamed b) = b

unfoldable pub read_type : ℕ → ClientRequestType
read_type b =
    if b == 0
    then ClientRequestType.invalid
    else if b == 1
    then ClientRequestType.new
    else if b == 2
    then ClientRequestType.cancel
    else ClientRequestType.unnamed b

unfoldable pub response_type_byte : ClientResponseType → ℕ
response_type_byte ClientResponseType.invalid = 0
response_type_byte ClientResponseType.accepted = 1
response_type_byte ClientResponseType.canceled = 2
response_type_byte ClientResponseType.filled = 3
response_type_byte ClientResponseType.cancel_rejected = 4

-- `sizeof(OMClientRequest)`: 8 bytes of sequence number and 30 of request.
abbrev pub request_size : ℕ
request_size = 38

-- `reinterpret_cast<const OMClientRequest*>`
unfoldable pub decode_request : List ℕ → OmClientRequest
unfolding read_le bits_price read_side read_type
decode_request bs = record {
  seq_num = read_le 8 bs;
  me_client_request = record {
    type = read_type (read_le 1 (drop 8 bs));
    client_id = read_le 4 (drop 9 bs);
    ticker_id = read_le 4 (drop 13 bs);
    order_id = read_le 8 (drop 17 bs);
    side = read_side (read_le 1 (drop 25 bs));
    price = bits_price (read_le 8 (drop 26 bs));
    qty = read_le 4 (drop 34 bs);
  };
}

-- The bytes of an `MEClientResponse`.
unfoldable pub encode_response : MeClientResponse → List ℕ
unfolding le_bytes price_bits side_byte response_type_byte
encode_response r =
    le_bytes 1 (response_type_byte r.type)
    ++ (le_bytes 4 r.client_id
        ++ (le_bytes 4 r.ticker_id
            ++ (le_bytes 8 r.client_order_id
                ++ (le_bytes 8 r.market_order_id
                    ++ (le_bytes 1 (side_byte r.side)
                        ++ (le_bytes 8 (price_bits r.price)
                            ++ (le_bytes 4 r.exec_qty ++ le_bytes 4 r.leaves_qty)))))))
