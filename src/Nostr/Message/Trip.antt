-- ===== src/Nostr/Message/Trip.antt =====
-- What a peer reads of the message that another peer sent.
use Prim.Native.String.{String}
use joinstr.Prelude.{
  refl, ◌≡◌, arith, none, some, inl, inr, Outcome, Outcome-cases, Option-cases, ok, err,
}
use joinstr.Json.{Value, Members, object, string, number}
use joinstr.Bitcoin.{Address, Amount, Witness, Transaction, Psbt}
use joinstr.Nostr.Input.{InputDataSigned}
use joinstr.Nostr.Pool.{PublicKey, Credentials, PoolMessage}
use joinstr.Nostr.Message.{
  Codec, ParsingError, missing_key, message_of_value, to_json, from_str, to_string,
}

-- What other crates write of this message, they read again. A `TxIn` is written without its witness,
-- and the derived writer of a PSBT makes an object of it.
pub record IsLawful (c : Codec) (m : PoolMessage) : Type 0 where
  pub txin_hex :
      (i : InputDataSigned)
      → m ≡ PoolMessage.input i
      → (w : Witness) × (c.txin_of_hex (c.txin_to_hex i.txin)
          ≡ some (record i.txin { witness = w }))
  pub witness_hex :
      (i : InputDataSigned)
      → m ≡ PoolMessage.input i
      → c.witness_of_hex (c.witness_to_hex i.txin.witness) ≡ some i.txin.witness
  pub amount_value :
      (i : InputDataSigned) (a : Amount)
      → m ≡ PoolMessage.input i
      → i.amount ≡ some a
      → c.amount_of_value (number a) ≡ ok a
  pub transaction_hex :
      (tx : Transaction)
      → m ≡ PoolMessage.transaction tx
      → c.transaction_of_hex (c.transaction_to_hex tx) ≡ some tx
  pub psbt_value :
      (p : Psbt) (v : Value)
      → m ≡ PoolMessage.psbt p
      → c.psbt_to_value p ≡ ok v
      → (map : Members) × (v ≡ object map)
  pub key_value :
      (k : PublicKey) (v : Value)
      → m ≡ PoolMessage.join (some k)
      → c.key_to_value k ≡ ok v
      → c.key_of_value v ≡ ok k
  pub address_value :
      (a : Address) (v : Value)
      → m ≡ PoolMessage.output a
      → c.address_to_value a ≡ ok v
      → (s : String) × (v ≡ string s) × (c.address_of_text s ≡ some a)
  pub secret_value :
      (k : Credentials)
      → m ≡ PoolMessage.credentials k
      → c.secret_of_value (string (c.secret_to_hex k.key)) ≡ ok k.key

-- What becomes of a message on its way: a PSBT, and an input without its amount, are not read.
unfoldable pub arrives : PoolMessage → Outcome ParsingError PoolMessage
arrives (PoolMessage.psbt p) = err ParsingError.psbt
arrives (PoolMessage.input i) = elim i.amount [
  | some a ↦ ok (PoolMessage.input i)
  | none ↦ err (missing_key "amount")
]
arrives (PoolMessage.output a) = ok (PoolMessage.output a)
arrives (PoolMessage.transaction tx) = ok (PoolMessage.transaction tx)
arrives (PoolMessage.join k) = ok (PoolMessage.join k)
arrives (PoolMessage.credentials k) = ok (PoolMessage.credentials k)

-- The text of a message's JSON parses to it.
unfoldable pub IsReadable : Codec → PoolMessage → Type 0
IsReadable c m = (v : Value) (s : String) → to_json c m ≡ ok v → c.print v ≡ ok s → c.parse s ≡ ok v

module _ (c : Codec) where
  -- The JSON that to_json makes of a message is read as the message itself, but that of a PSBT is
  -- refused (to_json writes an object where from_str asks for a text), and so is an input that has
  -- no amount (to_json leaves the amount out, from_value asks for it).
  pub message_of_value-to_json :
      (m : PoolMessage) (lawful : IsLawful c m) (v : Value)
      → to_json c m ≡ ok v
      → message_of_value c v ≡ arrives m
  unfolding to_json message_of_value arrives
  message_of_value-to_json (PoolMessage.psbt p) lawful v q =
      elim (Outcome-cases (c.psbt_to_value p)) [
        | inl (w, made) ↦
            let (map, shape) = lawful.psbt_value p w refl made in ground (arith, made, shape)
        | inr failed ↦ ground (arith, failed)
      ]
  message_of_value-to_json (PoolMessage.input i) lawful v q =
      let (w, back) = lawful.txin_hex i refl in
      elim (Option-cases i.amount) [
        | inl has ↦ ground (arith, back, has, lawful.witness_hex i refl)
        | inr (a, has) ↦
            ground (arith, back, has, lawful.witness_hex i refl, lawful.amount_value i a refl has)
      ]
  message_of_value-to_json (PoolMessage.output a) lawful v q =
      elim (Outcome-cases (c.address_to_value a)) [
        | inl (w, made) ↦
            let (s, shape, back) = lawful.address_value a w refl made in
            ground (arith, made, shape, back)
        | inr failed ↦ ground (arith, failed)
      ]
  message_of_value-to_json (PoolMessage.transaction tx) lawful v q =
      ground (arith, lawful.transaction_hex tx refl)
  message_of_value-to_json (PoolMessage.join none) lawful v q = ground arith
  message_of_value-to_json (PoolMessage.join (some k)) lawful v q =
      elim (Outcome-cases (c.key_to_value k)) [
        | inl (w, made) ↦ ground (arith, made, lawful.key_value k w refl made)
        | inr failed ↦ ground (arith, failed)
      ]
  message_of_value-to_json (PoolMessage.credentials k) lawful v q =
      ground (arith, lawful.secret_value k refl)

  -- A peer that gets the text that to_string made of a message, where that text parses to the JSON
  -- it was printed from, reads the message itself; of a PSBT it reads the error Psbt, and of an input
  -- without an amount the error MissingKey.
  pub from_str-to_string :
      (m : PoolMessage) (lawful : IsLawful c m) (s : String)
      → to_string c m ≡ ok s
      → IsReadable c m
      → from_str c s ≡ arrives m
  unfolding to_string from_str IsReadable
  from_str-to_string m lawful s sent reads = elim (Outcome-cases (to_json c m)) [
    | inl (v, q) ↦
        let printed : c.print v ≡ ok s = ground (arith, q, sent) in
        rw (reads v s q printed) (message_of_value-to_json m lawful v q)
    | inr failed ↦ ground (arith, failed, sent)
  ]
