-- ===== src/Nostr/Message.antt =====
-- The JSON of a pool's messages, rust/joinstr/src/nostr/mod.rs: what `PoolMessage::to_string` writes
-- and `PoolMessage::from_str` reads. `Codec` has the functions of serde_json, bitcoin and nostr.
pub mod Trip
use Prim.Native.String.{String}
use text.Mathlib.Text.{◌==◌}
use joinstr.Prelude.{ℕ, Option, none, some, Outcome, ok, err, map_err, ok_or_err, if◌then◌else◌}
use joinstr.Prelude.Outcomes.{◌>>=◌}
use joinstr.Json.{
  Value, Members, object, array, string, number, no_members, value, no_values, lookup, insert,
}
use joinstr.Bitcoin.{Address, Amount, Witness, TxIn, Transaction, Psbt}
use joinstr.Nostr.Input.{InputDataSigned}
use joinstr.Nostr.Error.{SerializeError}
use joinstr.Nostr.Pool.{PublicKey, SecretKey, Credentials, PoolMessage}

-- What serde_json reports is its text.
pub data ParsingError : Type 0 where
  serde_json : String → ParsingError
  unknown : ParsingError
  unknown_type : String → ParsingError
  input output psbt inputs outputs transaction join not_an_object not_an_array : ParsingError
  missing_key wrong_value : String → ParsingError
  consensus credential : ParsingError
  version_not_supported : String → ParsingError
  version_missing : ParsingError

-- `to_hex` is `serialize_hex`, `of_hex` is `deserialize_hex`; `to_value`, `of_value` and `of_text`
-- are serde_json's.
pub record Codec : Type 0 where
  pub print : Value → Outcome String String
  pub parse : String → Outcome String Value
  pub txin_to_hex : TxIn → String
  pub txin_of_hex : String → Option TxIn
  pub witness_to_hex : Witness → String
  pub witness_of_hex : String → Option Witness
  pub transaction_to_hex : Transaction → String
  pub transaction_of_hex : String → Option Transaction
  pub amount_of_value : Value → Outcome String Amount
  pub psbt_to_value : Psbt → Outcome String Value
  pub psbt_of_text : String → Outcome String Psbt
  pub key_to_value : PublicKey → Outcome String Value
  pub key_of_value : Value → Outcome String PublicKey
  pub address_to_value : Address → Outcome String Value
  -- `Address::from_str`
  pub address_of_text : String → Option Address
  -- the bytes of the key in lower case
  pub secret_to_hex : SecretKey → String
  pub secret_of_value : Value → Outcome String SecretKey
  -- what the derived reader reports of a shape that is none of the struct's
  pub shape_error : Value → String

module _ (c : Codec) where
  -- `InputDataSigned::to_json`
  unfoldable pub input_to_json : InputDataSigned → Value
  unfolding insert
  input_to_json i =
      let map = insert no_members "txin" (string (c.txin_to_hex i.txin)) in
      let map = insert map "witness" (string (c.witness_to_hex i.txin.witness)) in
      elim i.amount [ some sats ↦ object (insert map "amount" (number sats)) | none ↦ object map ]

  -- `map.get(key)`, which has to be a text
  unfoldable pub text_at : Members → String → Outcome ParsingError String
  unfolding lookup
  text_at m key = elim (lookup m key) [
    | none ↦ err (missing_key key)
    | some v ↦ elim v [
      | string s ↦ ok s
      | object x ↦ err (wrong_value key)
      | array x ↦ err (wrong_value key)
      | number x ↦ err (wrong_value key)
      | Value.bool x ↦ err (wrong_value key)
      | Value.null ↦ err (wrong_value key)
    ]
  ]

  -- `InputDataSigned::from_value`
  unfoldable pub input_of_value : Value → Outcome ParsingError InputDataSigned
  unfolding text_at lookup
  input_of_value (object m) = do
    txin ← text_at m "txin"
    txin ← ok_or_err (c.txin_of_hex txin) consensus
    witness ← text_at m "witness"
    witness ← ok_or_err (c.witness_of_hex witness) consensus
    amount ← ok_or_err (lookup m "amount") (missing_key "amount")
    amount ← map_err serde_json (c.amount_of_value amount)
    ok (record { txin = record txin { witness = witness }; amount = some amount })
  input_of_value (array x) = err not_an_object
  input_of_value (string x) = err not_an_object
  input_of_value (number x) = err not_an_object
  input_of_value (Value.bool x) = err not_an_object
  input_of_value Value.null = err not_an_object

  -- The derived writer of `Credentials`, with `serialize_key` for the key.
  unfoldable pub credentials_to_value : Credentials → Value
  unfolding insert
  credentials_to_value k =
      object (insert (insert no_members "id" (string k.id)) "key" (string (c.secret_to_hex k.key)))

  -- The derived reader of `Credentials`: an object, or its two fields in their order.
  unfoldable pub read_credentials : Value → Value → Outcome String Credentials
  read_credentials (string id) key = do
    key ← c.secret_of_value key
    ok (record { id = id; key = key })
  read_credentials id key = err (c.shape_error id)

  unfoldable pub credentials_of_value : Value → Outcome String Credentials
  unfolding lookup read_credentials
  credentials_of_value (array (value id (value key no_values))) = read_credentials id key
  credentials_of_value (object m) = do
    id ← ok_or_err (lookup m "id") (c.shape_error (object m))
    key ← ok_or_err (lookup m "key") (c.shape_error (object m))
    read_credentials id key
  credentials_of_value v = err (c.shape_error v)

  unfoldable pub find_psbt : Option Value → Outcome ParsingError PoolMessage
  find_psbt (some (string s)) = do
    p ← map_err serde_json (c.psbt_of_text s)
    ok (PoolMessage.psbt p)
  find_psbt _ = err psbt

  unfoldable pub find_input : Option Value → Outcome ParsingError PoolMessage
  unfolding input_of_value
  find_input (some v) = do i ← input_of_value v; ok (PoolMessage.input i)
  find_input none = err input

  unfoldable pub find_output : Option Value → Outcome ParsingError PoolMessage
  find_output (some (string s)) = do
    a ← ok_or_err (c.address_of_text s) output
    ok (PoolMessage.output a)
  find_output _ = err output

  unfoldable pub find_transaction : Option Value → Outcome ParsingError PoolMessage
  find_transaction (some (string s)) = do
    tx ← ok_or_err (c.transaction_of_hex s) transaction
    ok (PoolMessage.transaction tx)
  find_transaction _ = err transaction

  unfoldable pub find_join : Option Value → Outcome ParsingError PoolMessage
  find_join (some v) = do
    npub ← map_err serde_json (c.key_of_value v)
    ok (PoolMessage.join (some npub))
  find_join none = ok (PoolMessage.join none)

  unfoldable pub find_credentials : Option Value → Outcome ParsingError PoolMessage
  unfolding credentials_of_value
  find_credentials (some v) = do
    k ← map_err serde_json (credentials_of_value v)
    ok (PoolMessage.credentials k)
  find_credentials none = err credential

  -- The `match` on the type of the message.
  unfoldable pub message_of_type : String → Members → Outcome ParsingError PoolMessage
  unfolding lookup find_psbt find_input find_output find_transaction find_join find_credentials
  message_of_type t map =
      if t == "psbt"
      then find_psbt (lookup map "psbt")
      else if t == "input"
      then find_input (lookup map "input")
      else if t == "output"
      then find_output (lookup map "address")
      else if t == "transaction"
      then find_transaction (lookup map "transaction")
      else if t == "join_pool"
      then find_join (lookup map "npub")
      else if t == "credentials"
      then find_credentials (lookup map "credentials")
      else err (unknown_type t)

  unfoldable pub find_type : Option Value → Members → Outcome ParsingError PoolMessage
  unfolding message_of_type
  find_type (some (string t)) map = message_of_type t map
  find_type _ map = err unknown

  unfoldable pub check_version : Option Value → Outcome ParsingError (Unit {0})
  check_version (some (string v)) = if v == "1" then ok tt else err (version_not_supported v)
  check_version _ = err version_missing

  unfoldable pub message_of_value : Value → Outcome ParsingError PoolMessage
  unfolding lookup check_version find_type
  message_of_value (object map) = do
    _ ← check_version (lookup map "version")
    find_type (lookup map "type") map
  message_of_value _ = err unknown

  -- `PoolMessage::from_str`
  unfoldable pub from_str : String → Outcome ParsingError PoolMessage
  unfolding message_of_value
  from_str s = do json ← map_err serde_json (c.parse s); message_of_value json

  unfoldable pub msg_type : PoolMessage → String
  msg_type (PoolMessage.input _) = "input"
  msg_type (PoolMessage.output _) = "output"
  msg_type (PoolMessage.psbt _) = "psbt"
  msg_type (PoolMessage.transaction _) = "transaction"
  msg_type (PoolMessage.join _) = "join_pool"
  msg_type (PoolMessage.credentials _) = "credentials"

  -- The members that every message has.
  unfoldable pub envelope : PoolMessage → Members
  unfolding insert msg_type
  envelope m = insert (insert no_members "version" (string "1")) "type" (string (msg_type m))

  -- The member that only messages of its type have.
  unfoldable pub add_body : Members → PoolMessage → Outcome SerializeError Members
  unfolding insert input_to_json credentials_to_value
  add_body map (PoolMessage.psbt p) = do
    v ← map_err SerializeError.serde_json (c.psbt_to_value p)
    ok (insert map "psbt" v)
  add_body map (PoolMessage.transaction tx) =
      ok (insert map "transaction" (string (c.transaction_to_hex tx)))
  add_body map (PoolMessage.join (some npub)) = do
    v ← map_err SerializeError.serde_json (c.key_to_value npub)
    ok (insert map "npub" v)
  add_body map (PoolMessage.join none) = ok map
  add_body map (PoolMessage.input i) = ok (insert map "input" (input_to_json i))
  add_body map (PoolMessage.output a) = do
    v ← map_err SerializeError.serde_json (c.address_to_value a)
    ok (insert map "address" v)
  add_body map (PoolMessage.credentials k) = ok (insert map "credentials" (credentials_to_value k))

  -- `PoolMessage::to_json`
  unfoldable pub to_json : PoolMessage → Outcome SerializeError Value
  unfolding envelope add_body
  to_json m = do map ← add_body (envelope m) m; ok (object map)

  -- `PoolMessage::to_string`
  unfoldable pub to_string : PoolMessage → Outcome SerializeError String
  unfolding to_json
  to_string m = do json ← to_json m; map_err SerializeError.serde_json (c.print json)
