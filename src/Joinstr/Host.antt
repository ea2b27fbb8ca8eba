-- ===== src/Joinstr/Host.antt =====
-- What a `Joinstr` uses: the nostr client, the electrum client, the system, and functions of other
-- crates on keys, floats and texts. `N` and `C` are the states of the clients, and `W` is the state
-- of all that is outside of the program.
use Prim.Native.String.{String}
use joinstr.Prelude.{ℕ, Option, Outcome, Action}
use joinstr.System.{System}
use joinstr.Electrum.Error.{Error as ElectrumError}
use joinstr.Nostr.Error.{Error as NostrError}
use joinstr.Nostr.Pool.{PublicKey, SecretKey, Keys, Pool, PoolMessage, EventBuilder}
use joinstr.Bitcoin.{Amount, Transaction, Bitcoin}
use joinstr.CoinJoin.Backend.{BitcoinBackend}
use joinstr.Joinstr.Error.{Error}

-- `NostrClient` of rust/joinstr/src/nostr/sync/mod.rs
pub record NostrClient (N W : Type 0) : Type 0 where
  pub new : String → N
  pub default_client : N
  pub name : N → String
  pub relay : String → N → Outcome NostrError N
  pub keys : Keys → N → Outcome NostrError N
  pub get_relay : N → Option String
  pub get_keys : N → Outcome NostrError Keys
  pub connect_nostr : Action (N × W) NostrError (Unit {0})
  pub post_event : EventBuilder → Action (N × W) NostrError (Unit {0})
  pub send_pool_message : PublicKey → PoolMessage → Action (N × W) NostrError (Unit {0})
  pub try_receive_pool_msg : Action (N × W) NostrError (Option PoolMessage)

-- `Client` of rust/joinstr/src/electrum.rs
pub record ElectrumClient (C W : Type 0) : Type 0 where
  pub new : String → ℕ → Action W ElectrumError C
  pub broadcast : Transaction → Action C ElectrumError (Unit {0})
  pub backend : BitcoinBackend C ElectrumError
  pub url : C → String
  pub port : C → ℕ

-- The bits of an `f64`.
abbrev pub Float : Type 0
Float = ℕ

pub record Host (N C W : Type 0) : Type 0 where
  pub system : System W
  pub nostr : NostrClient N W
  pub electrum : ElectrumClient C W
  pub bitcoin : Bitcoin
  pub generate_keys : W → Keys × W
  pub keys_of : SecretKey → Keys
  -- the hash of the key and the time in microseconds
  pub pool_id : PublicKey → W → String × W
  pub pool_json : Pool → Option String
  pub from_btc : Float → Option Amount
  pub to_btc : Amount → Float
  -- `format!("{:?}", e)`
  pub debug : Error → String
