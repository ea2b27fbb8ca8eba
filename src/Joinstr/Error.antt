-- ===== src/Joinstr/Error.antt =====
-- The errors of rust/joinstr/src/joinstr/error.rs.
use Prim.Native.String.{String}
use joinstr.Prelude.{ℕ}
use joinstr.Electrum.Error.{Error as ElectrumError}
use joinstr.CoinJoin.Backend.{Error as CoinJoinError}
use joinstr.Nostr.Error.{Error as NostrError}
use joinstr.Nostr.Pool.{EventError}

pub data Error : Type 0 where
  nostr : NostrError → Error
  event : EventError → Error
  coinjoin : CoinJoinError → Error
  electrum : ElectrumError → Error
  pool_already_created pool_already_exists pool_not_exists wrong_denomination : Error
  param_missing denomination_already_set peers_already_set min_2_peers : Error
  timeout_already_set fee_already_set peer_registration : Error
  not_enough_peers : ℕ → ℕ → Error
  not_yet_implemented : Error
  peer_count_not_match : ℕ → ℕ → Error
  timeout coinjoin_missing missing_final_tx pool_connection_timeout : Error
  peer_and_pool_keys_not_match pool_payload_missing fee_provider_not_implemented : Error
  timeline_not_implemented wrong_address_network output_missing input_missing : Error
  unsigned_tx_not_exists : Error
  signing_fail : String → Error
  signer_missing psbt_to_input denomination_missing peer_missing timeout_missing : Error
  relays_missing fee_missing timeline_duration already_have_input already_have_output : Error
  wrong_role wrong_config pool_key input_parsing pool_corrupted : Error
