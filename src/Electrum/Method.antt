-- ===== src/Electrum/Method.antt =====
-- `Method` of rust/simple_electrum_client/src/electrum/method.rs: the calls of the protocol, with
-- their names on the wire.
use Prim.Native.String.{String}
use text.Mathlib.Text.{◌==◌}
use joinstr.Prelude.{◌≡◌, ◌∙◌, sym, ap, refl, Option, none, some, if◌then◌else◌}

pub data Method : Type 0 where
  banner block_header block_headers transaction_broadcast donation estimate_fee features : Method
  headers_subscribe fee_histogram list_peers ping relay_fee script_hash_get_balance : Method
  script_hash_get_history script_hash_list_unspent script_hash_subscribe : Method
  script_hash_unsubscribe transaction_get transaction_get_merkle : Method
  transaction_from_position version : Method

-- The `rename` attributes.
unfoldable pub wire : Method → String
wire banner = "server.banner"
wire block_header = "blockchain.block.header"
wire block_headers = "blockchain.block.headers"
wire transaction_broadcast = "blockchain.transaction.broadcast"
wire donation = "server.donation_address"
wire estimate_fee = "blockchain.estimatefee"
wire features = "server.features"
wire headers_subscribe = "blockchain.headers.subscribe"
wire fee_histogram = "mempool.get_fee_histogram"
wire list_peers = "server.peers.subscribe"
wire ping = "server.ping"
wire relay_fee = "blockchain.relayfee"
wire script_hash_get_balance = "blockchain.scripthash.get_balance"
wire script_hash_get_history = "blockchain.scripthash.get_history"
wire script_hash_list_unspent = "blockchain.scripthash.listunspent"
wire script_hash_subscribe = "blockchain.scripthash.subscribe"
wire script_hash_unsubscribe = "blockchain.scripthash.unsubscribe"
wire transaction_get = "blockchain.transaction.get"
wire transaction_get_merkle = "blockchain.transaction.get_merkle"
wire transaction_from_position = "blockchain.transaction.id_from_pos"
wire version = "server.version"

-- `Debug`
unfoldable pub debug : Method → String
debug banner = "server.banner"
debug block_header = "blockchain.block.header"
debug block_headers = "blockchain.block.headers"
debug transaction_broadcast = "blockchain.transaction.broadcast"
debug donation = "server.donation_address"
debug estimate_fee = "blockchain.estimatefee"
debug features = "server.features"
debug headers_subscribe = "blockchain.headers.subscribe"
debug fee_histogram = "mempool.get_fee_histogram"
debug list_peers = "server.peers.subscribe"
debug ping = "server.ping"
debug relay_fee = "blockchain.relayfee"
debug script_hash_get_balance = "blockchain.scripthash.get_balance"
debug script_hash_get_history = "blockchain.scripthash.get_history"
debug script_hash_list_unspent = "blockchain.scripthash.listunspent"
debug script_hash_subscribe = "blockchain.scripthash.subscribe"
debug script_hash_unsubscribe = "blockchain.scripthash.unsubscribe"
debug transaction_get = "blockchain.transaction.get"
debug transaction_get_merkle = "blockchain.transaction.get_merkle"
debug transaction_from_position = "blockchain.transaction.id_from_pos"
debug version = "server.version"

-- Which method has a name, tried in the order of the declaration.
method_of : String → Option Method
method_of s =
    if s == "server.banner"
    then some banner
    else if s == "blockchain.block.header"
    then some block_header
    else if s == "blockchain.block.headers"
    then some block_headers
    else if s == "blockchain.transaction.broadcast"
    then some transaction_broadcast
    else if s == "server.donation_address"
    then some donation
    else if s == "blockchain.estimatefee"
    then some estimate_fee
    else if s == "server.features"
    then some features
    else if s == "blockchain.headers.subscribe"
    then some headers_subscribe
    else if s == "mempool.get_fee_histogram"
    then some fee_histogram
    else if s == "server.peers.subscribe"
    then some list_peers
    else if s == "server.ping"
    then some ping
    else if s == "blockchain.relayfee"
    then some relay_fee
    else if s == "blockchain.scripthash.get_balance"
    then some script_hash_get_balance
    else if s == "blockchain.scripthash.get_history"
    then some script_hash_get_history
    else if s == "blockchain.scripthash.listunspent"
    then some script_hash_list_unspent
    else if s == "blockchain.scripthash.subscribe"
    then some script_hash_subscribe
    else if s == "blockchain.scripthash.unsubscribe"
    then some script_hash_unsubscribe
    else if s == "blockchain.transaction.get"
    then some transaction_get
    else if s == "blockchain.transaction.get_merkle"
    then some transaction_get_merkle
    else if s == "blockchain.transaction.id_from_pos"
    then some transaction_from_position
    else if s == "server.version"
    then some version
    else none

method_of-wire : (m : Method) → method_of (wire m) ≡ some m
unfolding method_of wire
method_of-wire banner = refl
method_of-wire block_header = refl
method_of-wire m = refl

some_injective : {m n : Method} → some m ≡ some n → m ≡ n
some_injective h = cc

-- No two methods have one name on the wire.
pub wire_injective : (m n : Method) → wire m ≡ wire n → m ≡ n
wire_injective m n h = some_injective (sym (method_of-wire m) ∙ ap method_of h ∙ method_of-wire n)

-- Each method is shown by its name on the wire.
debug-eq-wire : (m : Method) → debug m ≡ wire m
unfolding debug wire
debug-eq-wire banner = refl
debug-eq-wire m = refl
