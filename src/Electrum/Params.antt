-- ===== src/Electrum/Params.antt =====
-- `Params` of rust/simple_electrum_client/src/electrum/params.rs, with the JSON that the derived
-- `Serialize` makes of them: an untagged enum is written as its content, and a tuple as an array.
use Prim.Native.String.{String}
use joinstr.Prelude.{ℕ, Bool, false, ◌≡◌}
use joinstr.Bitcoin.{Txid}
use joinstr.Json.{Value, string, number, bool, array, no_values, one, two, three}

-- The hash of a script, of electrum/types.rs.
abbrev pub ScriptHash : Type 0
ScriptHash = ℕ

-- How the hashes of the bitcoin crate are written, in hexadecimal digits.
pub record Hex : Type 0 where
  pub script_hash : ScriptHash → String
  pub txid : Txid → String

-- Two hashes have two texts.
pub record IsFaithful (hex : Hex) : Type 0 where
  pub script_hash_injective : (a b : ScriptHash) → hex.script_hash a ≡ hex.script_hash b → a ≡ b
  pub txid_injective : (a b : Txid) → hex.txid a ≡ hex.txid b → a ≡ b

pub data VersionKind : Type 0 where
  single : String → VersionKind
  min_max : String → String → VersionKind

pub data TxGetArgs : Type 0 where
  txid : Txid → TxGetArgs
  txid_verbose : Txid → Bool → TxGetArgs

-- `From<&TxGetArgs> for (Txid, bool)`
unfoldable pub tx_get_args : TxGetArgs → Txid × Bool
tx_get_args (txid t) = (t, false)
tx_get_args (txid_verbose t verbose) = (t, verbose)

pub data Params : Type 0 where
  empty : Params
  block_header : ℕ → Params
  block_headers : (start count : ℕ) → Params
  transaction_broadcast : String → Params
  estimate_fee : ℕ → Params
  script_hash_get_balance : ScriptHash → Params
  script_hash_get_history : ScriptHash → Params
  script_hash_get_mempool : ScriptHash → Params
  script_hash_list_unspent : ScriptHash → Params
  script_hash_subscribe : ScriptHash → Params
  script_hash_unsubscribe : ScriptHash → Params
  transaction_get : TxGetArgs → Params
  transaction_get_merkle : Txid → ℕ → Params
  transaction_from_position : (height tx_pos : ℕ) → (merkle : Bool) → Params
  version : String → VersionKind → Params

module _ (hex : Hex) where
  unfoldable pub version_json : VersionKind → Value
  unfolding two
  version_json (single v) = string v
  version_json (min_max min max) = two (string min) (string max)

  unfoldable pub tx_get_json : TxGetArgs → Value
  unfolding one two
  tx_get_json (txid t) = one (string (hex.txid t))
  tx_get_json (txid_verbose t verbose) = two (string (hex.txid t)) (bool verbose)

  unfoldable pub params_json : Params → Value
  unfolding one two three version_json tx_get_json
  params_json empty = array no_values
  params_json (block_header height) = one (number height)
  params_json (block_headers start count) = two (number start) (number count)
  params_json (transaction_broadcast tx) = one (string tx)
  params_json (estimate_fee block_target) = one (number block_target)
  params_json (script_hash_get_balance sh) = one (string (hex.script_hash sh))
  params_json (script_hash_get_history sh) = one (string (hex.script_hash sh))
  params_json (script_hash_get_mempool sh) = one (string (hex.script_hash sh))
  params_json (script_hash_list_unspent sh) = one (string (hex.script_hash sh))
  params_json (script_hash_subscribe sh) = one (string (hex.script_hash sh))
  params_json (script_hash_unsubscribe sh) = one (string (hex.script_hash sh))
  params_json (transaction_get args) = tx_get_json args
  params_json (transaction_get_merkle t height) = two (string (hex.txid t)) (number height)
  params_json (transaction_from_position height tx_pos merkle) =
      three (number height) (number tx_pos) (bool merkle)
  params_json (version name kind) = two (string name) (version_json kind)
