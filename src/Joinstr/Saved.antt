-- ===== src/Joinstr/Saved.antt =====
-- What a `Joinstr` shows of itself, and the state that is saved: `status` and `state` of
-- rust/joinstr/src/joinstr/mod.rs. `Vault` has the encodings of other crates.
use Prim.Native.String.{String}
use joinstr.Prelude.{ℕ, Option, none, some, List, map, length, Outcome, ok, err, panic, unfinished}
use joinstr.Json.{Value}
use joinstr.Bitcoin.{Address, Network, Transaction}
use joinstr.Nostr.Input.{InputDataSigned}
use joinstr.Nostr.Message.{Codec, input_to_json}
use joinstr.Nostr.Pool.{PublicKey, SecretKey, Pool}
use joinstr.Signer.{Coin}
use joinstr.Joinstr.Host.{Host}
use joinstr.Joinstr.State.{JoinstrInner, Role, Step}

pub record Vault : Type 0 where
  pub codec : Codec
  pub to_secret_hex : SecretKey → String
  pub from_hex : String → Option SecretKey
  -- the derived reader of `InputDataSigned`
  pub input_of_value : Value → Option InputDataSigned

pub record Status : Type 0 where
  pub role : Role
  pub step : Step
  pub registered_peers : ℕ
  pub registered_outputs : ℕ
  pub registered_inputs : ℕ
  pub confirmations : ℕ
  pub error : Option String

-- The addresses are not checked for a network.
pub record State : Type 0 where
  pub role : Role
  pub step : Step
  pub pool_secret_key : String
  pub relay : String
  pub electrum : Option (String × ℕ)
  pub pool : Pool
  pub input : Option Coin
  pub output : Option Address
  pub network : Network
  pub peers : List PublicKey
  pub outputs : List Address
  pub inputs : List Value
  pub final_tx : Option Transaction

unfoldable pub status : {N C : Type 0} → JoinstrInner N C → Status
status i = record {
  role = i.role;
  step = i.step;
  registered_peers = length i.peers;
  registered_outputs = length i.outputs;
  registered_inputs = length i.inputs;
  confirmations = i.confirmations;
  error = i.error;
}

-- `.ok()`
abbrev pub success {ℓ κ} : {E : Type ℓ} {A : Type κ} → Outcome E A → Option A
success (ok a) = some a
success (err e) = none
success panic = none
success unfinished = none

module _ {N C W : Type 0} (host : Host N C W) (vault : Vault) where
  unfoldable pub electrum_of : Option C → Option (String × ℕ)
  electrum_of none = none
  electrum_of (some c) = some (host.electrum.url c, host.electrum.port c)

  -- A peer without keys, relay or pool has no state to save.
  unfoldable pub state : JoinstrInner N C → Option State
  unfolding electrum_of input_to_json
  state i = elim (success (host.nostr.get_keys i.client)) [
    | none ↦ none
    | some keys ↦ elim i.relay [
      | none ↦ none
      | some relay ↦ elim i.pool [
        | none ↦ none
        | some pool ↦ some (record {
          role = i.role;
          step = i.step;
          pool_secret_key = vault.to_secret_hex keys.secret_key;
          relay = relay;
          electrum = electrum_of i.electrum_client;
          pool = pool;
          input = i.input;
          output = i.output;
          network = i.network;
          peers = i.peers;
          outputs = i.outputs;
          inputs = map (input_to_json vault.codec) i.inputs;
          final_tx = i.final_tx;
        })
      ]
    ]
  ]
