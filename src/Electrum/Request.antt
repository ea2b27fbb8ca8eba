-- ===== src/Electrum/Request.antt =====
-- `Request` of rust/simple_electrum_client/src/electrum/request.rs: its constructors, and the JSON
-- that the derived `Serialize` makes of it.
pub mod Wire
use Prim.Native.String.{String}
use joinstr.Prelude.{ℕ, Bool, true}
use joinstr.Bitcoin.{Script, Txid}
use joinstr.Json.{Value, string, number, object, member, no_members}
use joinstr.Electrum.Method.{Method, wire}
use joinstr.Electrum.Params.{ScriptHash, Hex, VersionKind, TxGetArgs, Params, params_json}

pub record Request : Type 0 where
  pub jsonrpc : String
  pub id : ℕ
  pub method : Method
  pub params : Params

unfoldable pub new : Method → Params → Request
new method params = record { jsonrpc = "2.0"; id = 0; method = method; params = params }

unfoldable pub new_with_id : ℕ → Method → Params → Request
new_with_id id method params = record { jsonrpc = "2.0"; id = id; method = method; params = params }

-- `id`
unfoldable pub with_id : Request → ℕ → Request
with_id r id = record r { id = id }

unfoldable pub ping : Request
unfolding new
ping = new Method.ping Params.empty

unfoldable pub version : (client_name version : String) → Request
unfolding new
version client_name v = new Method.version (Params.version client_name (VersionKind.single v))

unfoldable pub version_range : (client_name min max : String) → Request
unfolding new
version_range client_name min max =
    new Method.version (Params.version client_name (VersionKind.min_max min max))

unfoldable pub banner : Request
unfolding new
banner = new Method.banner Params.empty

unfoldable pub donation : Request
unfolding new
donation = new Method.donation Params.empty

unfoldable pub features : Request
unfolding new
features = new Method.features Params.empty

unfoldable pub subscribe_peers : Request
unfolding new
subscribe_peers = new Method.list_peers Params.empty

unfoldable pub header : (height : ℕ) → Request
unfolding new
header height = new Method.block_header (Params.block_header height)

unfoldable pub headers : (start count : ℕ) → Request
unfolding new
headers start count = new Method.block_headers (Params.block_headers start count)

unfoldable pub estimate_fee : (block_target : ℕ) → Request
unfolding new
estimate_fee block_target = new Method.estimate_fee (Params.estimate_fee block_target)

unfoldable pub subscribe_headers : Request
unfolding new
subscribe_headers = new Method.headers_subscribe Params.empty

unfoldable pub relay_fee : Request
unfolding new
relay_fee = new Method.relay_fee Params.empty

unfoldable pub tx_broadcast : (tx : String) → Request
unfolding new
tx_broadcast tx = new Method.transaction_broadcast (Params.transaction_broadcast tx)

unfoldable pub tx_get : Txid → Request
unfolding new
tx_get txid = new Method.transaction_get (Params.transaction_get (TxGetArgs.txid txid))

unfoldable pub tx_get_verbose : Txid → Request
unfolding new
tx_get_verbose txid =
    new Method.transaction_get (Params.transaction_get (TxGetArgs.txid_verbose txid true))

unfoldable pub tx_get_merkle : Txid → (height : ℕ) → Request
unfolding new
tx_get_merkle txid height =
    new Method.transaction_get_merkle (Params.transaction_get_merkle txid height)

unfoldable pub tx_from_pos : (height tx_pos : ℕ) → (merkle : Bool) → Request
unfolding new
tx_from_pos height tx_pos merkle =
    new Method.transaction_from_position (Params.transaction_from_position height tx_pos merkle)

unfoldable pub get_fee_histogram : Request
unfolding new
get_fee_histogram = new Method.fee_histogram Params.empty

-- `hash` is `ScriptHash::new`, the sha256 of the script.
module _ (hash : Script → ScriptHash) where
  unfoldable pub sh_get_balance : Script → Request
  unfolding new
  sh_get_balance script =
      new Method.script_hash_get_balance (Params.script_hash_get_balance (hash script))

  unfoldable pub sh_get_history : Script → Request
  unfolding new
  sh_get_history script =
      new Method.script_hash_get_history (Params.script_hash_get_history (hash script))

  unfoldable pub sh_list_unspent : Script → Request
  unfolding new
  sh_list_unspent script =
      new Method.script_hash_list_unspent (Params.script_hash_list_unspent (hash script))

  unfoldable pub subscribe_sh : Script → Request
  unfolding new
  subscribe_sh script =
      new Method.script_hash_subscribe (Params.script_hash_subscribe (hash script))

  unfoldable pub unsubscribe_sh : Script → Request
  unfolding new
  unsubscribe_sh script =
      new Method.script_hash_unsubscribe (Params.script_hash_unsubscribe (hash script))

-- The fields in the order of the declaration.
unfoldable pub request_json : Hex → Request → Value
unfolding wire params_json
request_json hex r = object (
    member "jsonrpc" (string r.jsonrpc) (
      member "id" (number r.id) (
        member "method" (string (wire r.method))
          (member "params" (params_json hex r.params) no_members))))
