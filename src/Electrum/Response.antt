-- ===== src/Electrum/Response.antt =====
-- The responses of rust/simple_electrum_client/src/electrum/response.rs. A record is a struct that
-- the program reads from JSON, field by field.
pub mod Parse
pub mod Answers
use Prim.Native.String.{String}
use joinstr.Prelude.{ℕ, Bool, Option, none, some, List}
use joinstr.Prelude.Int.{ℤ}
use joinstr.Bitcoin.{Txid}
use joinstr.Json.{Value}
use joinstr.Electrum.Method.{Method}
use joinstr.Electrum.Params.{ScriptHash, VersionKind}

-- The bits of an `f64`.
abbrev pub Float : Type 0
Float = ℕ

pub record ErrorResult : Type 0 where
  pub code : ℕ
  pub message : String

pub record ErrorResponse : Type 0 where
  pub id : ℕ
  pub error : ErrorResult

pub record ShNotification : Type 0 where
  pub method : Method
  pub status : ScriptHash × Option String

pub record RawResponse : Type 0 where
  pub jsonrpc : String
  pub id : ℕ

pub record BannerResponse : Type 0 where
  pub id : ℕ
  pub result : String

pub record Header : Type 0 where
  pub height : ℕ
  pub raw_header : String

pub record SingleHeaderNotif : Type 0 where
  pub id : ℕ
  pub header : Header

pub record BatchHeaderNotif : Type 0 where
  pub method : Method
  pub headers : List Header

pub data HeaderNotification : Type 0 where
  single : SingleHeaderNotif → HeaderNotification
  batch : BatchHeaderNotif → HeaderNotification

pub record HeaderResponse : Type 0 where
  pub id : ℕ
  pub raw_header : String

pub record Headers : Type 0 where
  pub count : ℕ
  pub raw_headers : String
  pub max : ℕ

pub record HeadersResponse : Type 0 where
  pub id : ℕ
  pub headers : Headers

pub record TxBroadcastResponse : Type 0 where
  pub id : ℕ
  pub txid : Txid

pub record DonationResponse : Type 0 where
  pub id : ℕ
  pub address : Option String

-- `Fee`, and `None` of an integer
pub data OptionalFee : Type 0 where
  fee : Float → OptionalFee
  no_fee : ℤ → OptionalFee

pub record EstimateFeeResponse : Type 0 where
  pub id : ℕ
  pub fee : OptionalFee

pub data Port : Type 0 where
  text : String → Port
  number : ℕ → Port

pub record Host : Type 0 where
  pub tcp_port : Option Port
  pub ssl_port : Option Port

pub data Hosts : Type 0 where
  single : Host → Hosts
  hosts : List (String × Host) → Hosts

pub record FeaturesResult : Type 0 where
  pub genesis : String
  pub hosts : Hosts
  pub protocol_max : String
  pub protocol_min : String
  pub pruning : Option ℕ
  pub server_version : String
  pub hash_function : String
  pub services : Option (List String)

pub record FeaturesResponse : Type 0 where
  pub id : ℕ
  pub features : FeaturesResult

pub record FeeHistogramResponse : Type 0 where
  pub id : ℕ
  pub histogram : List (ℕ × ℕ)

pub record PingResponse : Type 0 where
  pub id : ℕ
  pub result : Option String

pub record RelayFeeResponse : Type 0 where
  pub id : ℕ
  pub fee : OptionalFee

pub record ShSubscribeResponse : Type 0 where
  pub id : ℕ
  pub result : Option String

pub record ShUnsubscribeResponse : Type 0 where
  pub id : ℕ
  pub result : Bool

pub record BalanceResult : Type 0 where
  pub confirmed : ℤ
  pub unconfirmed : ℤ

pub record ShGetBalanceResponse : Type 0 where
  pub id : ℕ
  pub balance : BalanceResult

-- The height of a transaction in the mempool is 0 or -1.
pub record HistoryResult : Type 0 where
  pub height : ℤ
  pub txid : Txid
  pub fee : Option ℕ

pub record ShGetHistoryResponse : Type 0 where
  pub id : ℕ
  pub history : List HistoryResult

pub record ShGetMempoolResponse : Type 0 where
  pub id : ℕ
  pub mempool : List HistoryResult

pub record UtxoResult : Type 0 where
  pub height : ℕ
  pub txid : Txid
  pub vout : ℕ
  pub value : ℕ

pub record ShListUnspentResponse : Type 0 where
  pub id : ℕ
  pub unspent : List UtxoResult

pub record VerboseTx : Type 0 where
  pub blockhash : String
  pub blocktime : ℕ
  pub confirmations : ℕ
  pub locktime : ℕ
  pub size : ℕ
  pub time : ℕ
  pub version : ℕ
  pub txid : String
  pub raw_tx : String
  pub vin : Value
  pub vout : Value

pub data TxGetResult : Type 0 where
  raw : String → TxGetResult
  verbose : VerboseTx → TxGetResult

pub record TxGetResponse : Type 0 where
  pub id : ℕ
  pub result : TxGetResult

pub record GetMerkleResult : Type 0 where
  pub merkle : List String
  pub block_height : ℕ
  pub tx_pos : ℕ

pub record TxGetMerkleResponse : Type 0 where
  pub id : ℕ
  pub result : GetMerkleResult

pub data TxfromPosResult : Type 0 where
  simple : Txid → TxfromPosResult
  with_merkle : Txid → List String → TxfromPosResult

pub record TxFromPositionResponse : Type 0 where
  pub id : ℕ
  pub tx : TxfromPosResult

-- Ip address, domain and features.
abbrev pub Peer : Type 0
Peer = String × String × List String

pub record ListPeersResponse : Type 0 where
  pub id : ℕ
  pub peers : List Peer

pub record VersionResponse : Type 0 where
  pub id : ℕ
  pub version : String × VersionKind

pub data Response : Type 0 where
  header_notif : HeaderNotification → Response
  batch_header_notif : BatchHeaderNotif → Response
  sh_notification : ShNotification → Response
  ping : PingResponse → Response
  banner : BannerResponse → Response
  header : HeaderResponse → Response
  headers : HeadersResponse → Response
  version : VersionResponse → Response
  tx_get : TxGetResponse → Response
  sh_subscribe : ShSubscribeResponse → Response
  sh_unsubscribe : ShUnsubscribeResponse → Response
  sh_get_balance : ShGetBalanceResponse → Response
  sh_get_history : ShGetHistoryResponse → Response
  sh_get_mempool : ShGetMempoolResponse → Response
  sh_list_unspent : ShListUnspentResponse → Response
  error : ErrorResponse → Response
  features : FeaturesResponse → Response
  tx_broadcast : TxBroadcastResponse → Response
  donation : DonationResponse → Response
  estimate_fee : EstimateFeeResponse → Response
  fee_histogram : FeeHistogramResponse → Response
  relay_fee : RelayFeeResponse → Response
  tx_get_merkle : TxGetMerkleResponse → Response
  tx_from_position : TxFromPositionResponse → Response
  list_peers : ListPeersResponse → Response

-- `id`
unfoldable pub response_id : Response → Option ℕ
response_id (Response.ping r) = some r.id
response_id (Response.banner r) = some r.id
response_id (Response.header r) = some r.id
response_id (Response.headers r) = some r.id
response_id (Response.version r) = some r.id
response_id (Response.tx_get r) = some r.id
response_id (Response.sh_subscribe r) = some r.id
response_id (Response.sh_unsubscribe r) = some r.id
response_id (Response.sh_get_balance r) = some r.id
response_id (Response.sh_get_history r) = some r.id
response_id (Response.sh_get_mempool r) = some r.id
response_id (Response.sh_list_unspent r) = some r.id
response_id (Response.error r) = some r.id
response_id (Response.features r) = some r.id
response_id (Response.tx_broadcast r) = some r.id
response_id (Response.donation r) = some r.id
response_id (Response.estimate_fee r) = some r.id
response_id (Response.fee_histogram r) = some r.id
response_id (Response.relay_fee r) = some r.id
response_id (Response.tx_get_merkle r) = some r.id
response_id (Response.tx_from_position r) = some r.id
response_id (Response.list_peers r) = some r.id
response_id (Response.header_notif n) = none
response_id (Response.batch_header_notif n) = none
response_id (Response.sh_notification n) = none
