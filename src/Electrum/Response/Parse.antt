-- ===== src/Electrum/Response/Parse.antt =====
-- `parse_str_response` of rust/simple_electrum_client/src/electrum/response.rs: which kind of
-- response a text is, by the request that its id belongs to. The derived readers of single structs
-- are the fields of `Serde`.
use Prim.Native.String.{String}
use joinstr.Prelude.{ℕ, Option, none, some, List, [], ◌∷◌, Outcome, ok, err, panic, unfinished}
use joinstr.Prelude.Dict.{get}
use joinstr.Json.{Value}
use joinstr.Electrum.Method.{Method}
use joinstr.Electrum.Request.{Request}
use joinstr.Electrum.Response.{
  ErrorResponse, ShNotification, RawResponse, BannerResponse, BatchHeaderNotif, HeaderNotification,
  HeaderResponse, HeadersResponse, TxBroadcastResponse, DonationResponse, EstimateFeeResponse,
  FeaturesResponse, FeeHistogramResponse, PingResponse, RelayFeeResponse, ShSubscribeResponse,
  ShUnsubscribeResponse, ShGetBalanceResponse, ShGetHistoryResponse, ShListUnspentResponse,
  TxGetResponse, TxGetMerkleResponse, TxFromPositionResponse, VersionResponse, Response,
}

-- `Error` of electrum/mod.rs
pub data Error : Type 0 where
  invalid_param method_not_found : Error
  response_parsing raw_response_parsing : String → Error
  response_id : ℕ → Error
  batch_parsing wrong_method : Error

-- `serde_json::from_str` at each type, and `to_string` of a value.
pub record Serde : Type 0 where
  pub values : String → Option (List Value)
  pub to_string : Value → String
  pub error_response : String → Option ErrorResponse
  pub batch_header_notif : String → Option BatchHeaderNotif
  pub sh_notification : String → Option ShNotification
  pub raw_response : String → Option RawResponse
  -- the text of the error, where there is one
  pub raw_response_error : String → String
  pub ping : String → Option PingResponse
  pub banner : String → Option BannerResponse
  pub header_notif : String → Option HeaderNotification
  pub header : String → Option HeaderResponse
  pub headers : String → Option HeadersResponse
  pub version : String → Option VersionResponse
  pub tx_get : String → Option TxGetResponse
  pub sh_subscribe : String → Option ShSubscribeResponse
  pub sh_unsubscribe : String → Option ShUnsubscribeResponse
  pub sh_get_balance : String → Option ShGetBalanceResponse
  pub sh_get_history : String → Option ShGetHistoryResponse
  pub sh_list_unspent : String → Option ShListUnspentResponse
  pub features : String → Option FeaturesResponse
  pub donation : String → Option DonationResponse
  pub estimate_fee : String → Option EstimateFeeResponse
  pub fee_histogram : String → Option FeeHistogramResponse
  pub relay_fee : String → Option RelayFeeResponse
  pub tx_get_merkle : String → Option TxGetMerkleResponse
  pub tx_from_position : String → Option TxFromPositionResponse
  pub tx_broadcast : String → Option TxBroadcastResponse

-- The requests that wait for a response: a `HashMap` of their ids.
abbrev pub Index : Type 0
Index = List (ℕ × Request)

-- `parse!`
unfoldable pub parse_as : {A : Type 0} → (A → Response) → Option A → String → Outcome Error Response
parse_as kind none raw = err (response_parsing raw)
parse_as kind (some r) raw = ok (kind r)

module _ (serde : Serde) where
  -- The `match` on the method of the request. `ListPeers` is `todo!`.
  unfoldable pub parse_answer : Method → String → Outcome Error Response
  unfolding parse_as
  parse_answer Method.ping raw = parse_as Response.ping (serde.ping raw) raw
  parse_answer Method.banner raw = parse_as Response.banner (serde.banner raw) raw
  parse_answer Method.headers_subscribe raw =
      parse_as Response.header_notif (serde.header_notif raw) raw
  parse_answer Method.block_header raw = parse_as Response.header (serde.header raw) raw
  parse_answer Method.block_headers raw = parse_as Response.headers (serde.headers raw) raw
  parse_answer Method.version raw = parse_as Response.version (serde.version raw) raw
  parse_answer Method.transaction_get raw = parse_as Response.tx_get (serde.tx_get raw) raw
  parse_answer Method.script_hash_subscribe raw =
      parse_as Response.sh_subscribe (serde.sh_subscribe raw) raw
  parse_answer Method.script_hash_unsubscribe raw =
      parse_as Response.sh_unsubscribe (serde.sh_unsubscribe raw) raw
  parse_answer Method.script_hash_get_balance raw =
      parse_as Response.sh_get_balance (serde.sh_get_balance raw) raw
  parse_answer Method.script_hash_get_history raw =
      parse_as Response.sh_get_history (serde.sh_get_history raw) raw
  parse_answer Method.script_hash_list_unspent raw =
      parse_as Response.sh_list_unspent (serde.sh_list_unspent raw) raw
  parse_answer Method.features raw = parse_as Response.features (serde.features raw) raw
  parse_answer Method.donation raw = parse_as Response.donation (serde.donation raw) raw
  parse_answer Method.estimate_fee raw = parse_as Response.estimate_fee (serde.estimate_fee raw) raw
  parse_answer Method.fee_histogram raw =
      parse_as Response.fee_histogram (serde.fee_histogram raw) raw
  parse_answer Method.relay_fee raw = parse_as Response.relay_fee (serde.relay_fee raw) raw
  parse_answer Method.transaction_get_merkle raw =
      parse_as Response.tx_get_merkle (serde.tx_get_merkle raw) raw
  parse_answer Method.transaction_from_position raw =
      parse_as Response.tx_from_position (serde.tx_from_position raw) raw
  parse_answer Method.transaction_broadcast raw =
      parse_as Response.tx_broadcast (serde.tx_broadcast raw) raw
  parse_answer Method.list_peers raw = panic

  -- A text that is neither an error nor a notification.
  unfoldable pub match_request : Index → String → Outcome Error Response
  unfolding get parse_answer
  match_request index raw = elim (serde.raw_response raw) [
    | none ↦ err (raw_response_parsing (serde.raw_response_error raw))
    | some rr ↦ elim (get index rr.id) [
      | none ↦ err (response_id rr.id)
      | some request ↦ parse_answer request.method raw
    ]
  ]

  unfoldable pub try_parse : String → Index → Outcome Error Response
  unfolding match_request
  try_parse raw index = elim (serde.error_response raw) [
    | some e ↦ ok (Response.error e)
    | none ↦ elim (serde.batch_header_notif raw) [
      | some n ↦ ok (Response.batch_header_notif n)
      | none ↦ elim (serde.sh_notification raw) [
        | some n ↦ ok (Response.sh_notification n)
        | none ↦ match_request index raw
      ]
    ]
  ]

  -- The responses of a batch, each read from its own text.
  unfoldable pub parse_batch : List Value → Index → Outcome Error (List Response)
  unfolding try_parse
  parse_batch [] index = ok []
  parse_batch (v ∷ values) index = elim (try_parse (serde.to_string v) index) [
    | ok r ↦ elim (parse_batch values index) [
      | ok batch ↦ ok (r ∷ batch)
      | err e ↦ err e
      | panic ↦ panic
      | unfinished ↦ unfinished
    ]
    | err e ↦ err e
    | panic ↦ panic
    | unfinished ↦ unfinished
  ]

  unfoldable pub parse_str_response : String → Index → Outcome Error (List Response)
  unfolding parse_batch
  parse_str_response raw index = elim (serde.values raw) [
    | some values ↦ parse_batch values index
    | none ↦ elim (try_parse raw index) [
      | ok r ↦ ok (r ∷ [])
      | err e ↦ err e
      | panic ↦ panic
      | unfinished ↦ unfinished
    ]
  ]
