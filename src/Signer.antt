-- ===== src/Signer.antt =====
-- The coins and the signer trait of rust/joinstr/src/signer/mod.rs.
pub mod Keychain
pub mod Hot
pub mod Sign
pub mod Coins
pub mod Bag
pub mod Example
pub mod Signing
mod Tests
use Prim.Native.String.{String}
use joinstr.Prelude.{ℕ, Option, Outcome}
use joinstr.Nostr.Input.{InputDataSigned}
use joinstr.Bitcoin.{OutPoint, TxOut, Transaction}

pub record CoinPath : Type 0 where
  pub depth : ℕ
  pub index : Option ℕ

pub record Coin : Type 0 where
  pub txout : TxOut
  pub outpoint : OutPoint
  pub sequence : ℕ
  pub coin_path : CoinPath

-- `JoinstrSigner`
pub record JoinstrSigner : Type 0 where
  pub sign_input : Transaction → Coin → Outcome String InputDataSigned
