-- ===== src/CoinJoin/Backend.antt =====
-- The errors of rust/joinstr/src/coinjoin/error.rs and the trait `BitcoinBackend` of
-- rust/joinstr/src/coinjoin/mod.rs.
use Prim.Native.String.{String}
use joinstr.Prelude.{ℕ, Bool, Option, Action}
use joinstr.Electrum.Error.{Error as ElectrumError}
use joinstr.Bitcoin.{Address, Amount, OutPoint}

pub data Error : Type 0 where
  not_enough_peers : ℕ → ℕ → Error
  tx_to_psbt init_psbt_exists init_psbt_not_created double_spend input_amount_too_low : Error
  tx_already_finalyzed address_reuse input_value_not_match input_does_not_exists : Error
  fee_too_low : ℕ → ℕ → ℕ → Error
  electrum : ElectrumError → Error
  fail_verify_amount amount_missing : Error
  unknown : String → Error

-- The trait, over the backend's state `C` and its error type `E`.
pub record BitcoinBackend (C E : Type 0) : Type 0 where
  pub into : E → Error
  pub address_already_used : Address → Action C E Bool
  pub get_outpoint_value : OutPoint → Action C E (Option Amount)
