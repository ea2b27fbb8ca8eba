-- ===== src/Nostr/Pool.antt =====
-- Pools and the messages of a pool, as rust/joinstr/src/nostr/mod.rs declares them.
use Prim.Native.String.{String}
use joinstr.Prelude.{
  ℕ, Bool, false, Option, none, some, List, [], ◌∷◌, Outcome, ok, err, if◌then◌else◌,
}
use joinstr.Nostr.Input.{InputDataSigned}
use joinstr.Bitcoin.{Address, Amount, Network, Transaction, Psbt, Bitcoin}

-- Keys are opaque.
abbrev pub PublicKey : Type 0
PublicKey = ℕ

abbrev pub SecretKey : Type 0
SecretKey = ℕ

pub record Keys : Type 0 where
  pub public_key : PublicKey
  pub secret_key : SecretKey

pub data PoolType : Type 0 where
  create update delete : PoolType

-- Timestamps and durations are `u64`, in seconds.
pub data Timeline : Type 0 where
  simple : ℕ → Timeline
  fixed : (start max_duration : ℕ) → Timeline
  timeout : (timeout max_duration : ℕ) → Timeline

pub record Provider : Type 0 where
  pub address : String

pub data Fee : Type 0 where
  fixed : ℕ → Fee
  provider : Provider → Fee

pub record Vpn : Type 0 where
  pub enable : Bool
  pub gateway : Option String

pub record Tor : Type 0 where
  pub enable : Bool

pub record Transport : Type 0 where
  pub vpn : Option Vpn
  pub tor : Option Tor

pub record PoolPayload : Type 0 where
  pub denomination : Amount
  pub peers : ℕ
  pub timeout : Timeline
  pub relays : List String
  pub fee : Fee
  pub transport : Transport

pub record Pool : Type 0 where
  pub versions : Option (List String)
  pub id : String
  pub network : Network
  pub pool_type : PoolType
  pub public_key : PublicKey
  pub payload : Option PoolPayload

pub record Credentials : Type 0 where
  pub id : String
  pub key : SecretKey

pub data PoolMessage : Type 0 where
  input : InputDataSigned → PoolMessage
  output : Address → PoolMessage
  psbt : Psbt → PoolMessage
  transaction : Transaction → PoolMessage
  join : Option PublicKey → PoolMessage
  credentials : Credentials → PoolMessage

pub data EventError : Type 0 where
  content_error wrong_kind : EventError
  parsing : String → EventError

pub default_version : Option (List String)
default_version = some ("0" ∷ [])

pub default_transport : Transport
default_transport = record {
  vpn = some (record { enable = false; gateway = none });
  tor = some (record { enable = false });
}

-- `TryFrom<Psbt> for InputDataSigned`
pub data InputError : Type 0 where
  no_input too_much_inputs witness_missing : InputError

-- A nostr event to be signed. Its tags are the keys that it names.
pub record EventBuilder : Type 0 where
  pub kind : ℕ
  pub content : String
  pub tags : List PublicKey

-- `TryFrom<Pool> for EventBuilder`, of the text that serde_json makes of the pool
unfoldable pub event_of_pool : Option String → Outcome EventError EventBuilder
event_of_pool none = err content_error
event_of_pool (some content) = ok (record { kind = 2022; content = content; tags = [] })

-- `TryFrom<Psbt> for InputDataSigned`
unfoldable pub input_of_psbt : Bitcoin → Psbt → Outcome InputError InputDataSigned
input_of_psbt lib value = elim value.inputs [
  | [] ↦ err no_input
  | i ∷ more ↦ elim more [
    | _ ∷ _ ↦ err too_much_inputs
    | [] ↦ elim value.unsigned_tx.input [
      | [] ↦ err no_input
      | txin ∷ txins ↦ elim txins [
        | _ ∷ _ ↦ err too_much_inputs
        | [] ↦
            if lib.witness_is_empty txin.witness
            then elim i.final_script_witness [
              | some witness ↦
                  ok (record { txin = record txin { witness = witness }; amount = none })
              | none ↦ err witness_missing
            ]
            else ok (record { txin = txin; amount = none })
      ]
    ]
  ]
]
