-- ===== src/Electrum/Request/Wire.antt =====
-- What a server can read of a request: the JSON of the requests that the constructors make
-- determines them, although the parameters are written without their kind.
use Prim.Native.String.{String}
use joinstr.Prelude.{ℕ, Bool, ◌≡◌, ◌∙◌, sym, refl, arith, ap}
use joinstr.Bitcoin.{Script, Txid}
use joinstr.Electrum.Method.{Method, wire, wire_injective}
use joinstr.Electrum.Params.{
  ScriptHash, Hex, IsFaithful, Params, TxGetArgs, VersionKind, params_json,
}
use joinstr.Electrum.Request.{
  Request, request_json, with_id, ping, version, version_range, banner, donation, features,
  subscribe_peers, header, headers, estimate_fee, subscribe_headers, relay_fee, tx_broadcast,
  tx_get, tx_get_verbose, tx_get_merkle, tx_from_pos, get_fee_histogram, sh_get_balance,
  sh_get_history, sh_list_unspent, subscribe_sh, unsubscribe_sh,
}

-- The requests that a caller can make.
pub data Built (hash : Script → ScriptHash) : Request → Type 0 where
  pings : Built hash ping
  versions : (name v : String) → Built hash (version name v)
  version_ranges : (name min max : String) → Built hash (version_range name min max)
  banners : Built hash banner
  donations : Built hash donation
  lists_features : Built hash features
  subscribes_peers : Built hash subscribe_peers
  gets_header : (height : ℕ) → Built hash (header height)
  gets_headers : (start count : ℕ) → Built hash (headers start count)
  estimates_fee : (target : ℕ) → Built hash (estimate_fee target)
  subscribes_headers : Built hash subscribe_headers
  gets_relay_fee : Built hash relay_fee
  gets_balance : (s : Script) → Built hash (sh_get_balance hash s)
  gets_history : (s : Script) → Built hash (sh_get_history hash s)
  lists_unspent : (s : Script) → Built hash (sh_list_unspent hash s)
  subscribes : (s : Script) → Built hash (subscribe_sh hash s)
  unsubscribes : (s : Script) → Built hash (unsubscribe_sh hash s)
  broadcasts : (tx : String) → Built hash (tx_broadcast tx)
  gets_tx : (t : Txid) → Built hash (tx_get t)
  gets_verbose : (t : Txid) → Built hash (tx_get_verbose t)
  gets_merkle : (t : Txid) (height : ℕ) → Built hash (tx_get_merkle t height)
  gets_from_pos :
      (height tx_pos : ℕ) (merkle : Bool) → Built hash (tx_from_pos height tx_pos merkle)
  gets_histogram : Built hash get_fee_histogram
  numbered : {r : Request} (id : ℕ) → Built hash r → Built hash (with_id r id)

-- The kinds of parameters.
data Shape : Type 0 where
  empty height range tx target balance history mempool unspent subscribed unsubscribed : Shape
  get merkle position name : Shape

shape_of : Params → Shape
shape_of Params.empty = empty
shape_of (Params.block_header h) = height
shape_of (Params.block_headers s c) = range
shape_of (Params.transaction_broadcast t) = tx
shape_of (Params.estimate_fee t) = target
shape_of (Params.script_hash_get_balance h) = balance
shape_of (Params.script_hash_get_history h) = history
shape_of (Params.script_hash_get_mempool h) = mempool
shape_of (Params.script_hash_list_unspent h) = unspent
shape_of (Params.script_hash_subscribe h) = subscribed
shape_of (Params.script_hash_unsubscribe h) = unsubscribed
shape_of (Params.transaction_get a) = get
shape_of (Params.transaction_get_merkle t h) = merkle
shape_of (Params.transaction_from_position h p m) = position
shape_of (Params.version n k) = name

shape : Method → Shape
shape Method.banner = empty
shape Method.block_header = height
shape Method.block_headers = range
shape Method.transaction_broadcast = tx
shape Method.donation = empty
shape Method.estimate_fee = target
shape Method.features = empty
shape Method.headers_subscribe = empty
shape Method.fee_histogram = empty
shape Method.list_peers = empty
shape Method.ping = empty
shape Method.relay_fee = empty
shape Method.script_hash_get_balance = balance
shape Method.script_hash_get_history = history
shape Method.script_hash_list_unspent = unspent
shape Method.script_hash_subscribe = subscribed
shape Method.script_hash_unsubscribe = unsubscribed
shape Method.transaction_get = get
shape Method.transaction_get_merkle = merkle
shape Method.transaction_from_position = position
shape Method.version = name

module _ {hex : Hex} (faithful : IsFaithful hex) where
  -- Parameters of one kind are read back from their JSON.
  params_injective :
      (p q : Params) → shape_of p ≡ shape_of q → params_json hex p ≡ params_json hex q → p ≡ q
  unfolding shape_of params_json
  params_injective Params.empty Params.empty h e = refl
  params_injective (Params.block_header a) (Params.block_header b) h e = ground arith
  params_injective (Params.block_headers a c) (Params.block_headers b d) h e = ground arith
  params_injective (Params.transaction_broadcast a) (Params.transaction_broadcast b) h e =
      ground arith
  params_injective (Params.estimate_fee a) (Params.estimate_fee b) h e = ground arith
  params_injective (Params.script_hash_get_balance a) (Params.script_hash_get_balance b) h e =
      ground (arith, faithful.script_hash_injective a b)
  params_injective (Params.script_hash_get_history a) (Params.script_hash_get_history b) h e =
      ground (arith, faithful.script_hash_injective a b)
  params_injective (Params.script_hash_get_mempool a) (Params.script_hash_get_mempool b) h e =
      ground (arith, faithful.script_hash_injective a b)
  params_injective (Params.script_hash_list_unspent a) (Params.script_hash_list_unspent b) h e =
      ground (arith, faithful.script_hash_injective a b)
  params_injective (Params.script_hash_subscribe a) (Params.script_hash_subscribe b) h e =
      ground (arith, faithful.script_hash_injective a b)
  params_injective (Params.script_hash_unsubscribe a) (Params.script_hash_unsubscribe b) h e =
      ground (arith, faithful.script_hash_injective a b)
  params_injective (Params.transaction_get (TxGetArgs.txid a))
        (Params.transaction_get (TxGetArgs.txid b)) h e =
      ground (arith, faithful.txid_injective a b)
  params_injective (Params.transaction_get (TxGetArgs.txid_verbose a u))
        (Params.transaction_get (TxGetArgs.txid_verbose b v)) h e =
      ground (arith, faithful.txid_injective a b)
  params_injective (Params.transaction_get_merkle a c) (Params.transaction_get_merkle b d) h e =
      ground (arith, faithful.txid_injective a b)
  params_injective (Params.transaction_from_position a c u) (Params.transaction_from_position b d v)
        h e =
      ground arith
  params_injective (Params.version a (VersionKind.single c))
        (Params.version b (VersionKind.single d)) h e =
      ground arith
  params_injective (Params.version a (VersionKind.min_max c u))
        (Params.version b (VersionKind.min_max d v)) h e =
      ground arith
  params_injective p q h e = absurd (ground arith)

Built-shape :
    {hash : Script → ScriptHash} {r : Request} → Built hash r → shape r.method ≡ shape_of r.params
unfolding shape shape_of with_id ping version version_range banner donation features subscribe_peers
    header headers estimate_fee subscribe_headers relay_fee tx_broadcast tx_get tx_get_verbose
    tx_get_merkle tx_from_pos get_fee_histogram sh_get_balance sh_get_history sh_list_unspent
    subscribe_sh unsubscribe_sh
Built-shape pings = refl
Built-shape (numbered id b) = Built-shape b
Built-shape b = refl

request_json_parts :
    (hex : Hex) (r s : Request)
    → request_json hex r ≡ request_json hex s
    → (r.jsonrpc ≡ s.jsonrpc)
      × (r.id ≡ s.id)
      × (wire r.method ≡ wire s.method)
      × (params_json hex r.params ≡ params_json hex s.params)
unfolding request_json
request_json_parts hex r s e = (ground arith, ground arith, ground arith, ground arith)

-- Two requests that the constructors make, with whatever ids, are the same where their JSON is,
-- provided that a hash can be read back from its hexadecimal digits.
pub request_json_injective :
    {hex : Hex}
    → IsFaithful hex
    → (hash : Script → ScriptHash) (r s : Request) → Built hash r
    → Built hash s
    → request_json hex r ≡ request_json hex s
    → r ≡ s
request_json_injective {hex} faithful hash r s b c e =
    let (same_version, same_id, names, params) = request_json_parts hex r s e in
    let same_method = wire_injective r.method s.method names in
    let same_shape = sym (Built-shape b) ∙ ap shape same_method ∙ Built-shape c in
    let same_params = params_injective faithful r.params s.params same_shape params in
    ground (arith, same_version, same_id, same_method, same_params)
