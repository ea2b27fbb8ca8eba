-- ===== src/Joinstr/Restart/Resumed.antt =====
-- What a restart restores of a saved `Joinstr`.
use Prim.Native.String.{String}
use joinstr.Prelude.{◌≡◌, ◌≤◌, ℕ, ◌+◌, false, none, some, [], ◌++◌, length}
use joinstr.Nostr.Pool.{Pool, PoolPayload}
use joinstr.Joinstr.Host.{Host}
use joinstr.Joinstr.State.{JoinstrInner, unconfigured}
use joinstr.Joinstr.Saved.{State}
use joinstr.Joinstr.Restart.{Waiting, is_corrupted}

-- An object with what was waiting for it at the relay.
record CaughtUp {N C : Type 0} (expected : ℕ) (j0 j : JoinstrInner N C) : Type 0 where
  got : Waiting
  same : j ≡ record j0 {
    client = j.client;
    peers = j0.peers ++ got.peers;
    outputs = j0.outputs ++ got.outputs;
    inputs = j0.inputs ++ got.inputs;
  }
  room :
      is_corrupted expected
        (length j0.peers + length got.peers)
        (length j0.outputs + length got.outputs)
        (length j0.inputs + length got.inputs)
      ≡ false

-- An object whose pool is not finalized, and the one of a restart from its saved state, with the
-- messages that were waiting.
pub record Resumed {N C : Type 0} (i j : JoinstrInner N C) : Type 0 where
  pub got : Waiting
  pub pool : Pool
  pub payload : PoolPayload
  pub has_pool : i.pool ≡ some pool
  pub has_payload : pool.payload ≡ some payload
  pub same_role : j.role ≡ i.role
  pub same_pool : j.pool ≡ i.pool
  pub same_input : j.input ≡ i.input
  pub same_output : j.output ≡ i.output
  pub same_network : j.network ≡ i.network
  pub peers : j.peers ≡ i.peers ++ got.peers
  pub outputs : j.outputs ≡ i.outputs ++ got.outputs
  pub inputs : j.inputs ≡ got.inputs
  pub peers_fit : length i.peers + length got.peers ≤ payload.peers
  pub outputs_fit : length i.outputs + length got.outputs ≤ length i.peers + length got.peers
  pub inputs_fit : length got.inputs ≤ length i.outputs + length got.outputs
  pub had_no_inputs : i.inputs ≡ []
  pub forgets_step : j.step ≡ unconfigured
  pub forgets_coinjoin : j.coinjoin ≡ none
