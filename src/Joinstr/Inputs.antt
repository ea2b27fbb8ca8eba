-- ===== src/Joinstr/Inputs.antt =====
-- The round of inputs: `register_input`, `register_inputs`, and the broadcast.
use Prim.Native.Nat.{ℕ}
use joinstr.Prelude.{
  ◌+◌, Bool, false, none, some, push, ltb, leb, is_none, is_some, if◌then◌else◌, ok, err, Action,
  gets, ok_or, throw_if, pure, yields, map_err, ◌>>=◌, ◌>>◌, Turn, again, leave, loop, ◌^◌, ◌%◌,
}
use joinstr.System.{Backoff, new_us}
use joinstr.Electrum.Error.{Error as ElectrumError}
use joinstr.CoinJoin.Backend.{Error as CoinJoinError}
use joinstr.Nostr.Input.{InputDataSigned}
use joinstr.Nostr.Pool.{PoolMessage, Timeline, input_of_psbt}
use joinstr.Signer.{JoinstrSigner}
use joinstr.CoinJoin.{
  CoinJoin, unsigned_tx, add_input, inputs_len, outputs_len, generate_tx, generate_psbt,
}
use joinstr.Joinstr.Error.{
  Error, coinjoin, electrum, unsigned_tx_not_exists, input_missing, signing_fail, psbt_to_input,
  timeout, missing_final_tx, coinjoin_missing,
}
use joinstr.Joinstr.Host.{Host}
use joinstr.Joinstr.State.{Joinstr, reads, on_nostr, attempt, update, passes, broadcast}
use joinstr.Joinstr.Pool.{
  check_pool_exists, pool_as_ref, payload_as_ref, coinjoin_as_ref, coinjoin_exists,
}
use joinstr.Joinstr.Join.{clock, before, rest, wait, poll}

module _ {N C W : Type 0} (host : Host N C W) where
  -- A call on the inner coinjoin, with `?`.
  unfoldable pub on_coinjoin :
      {A : Type 0} → Action (CoinJoin C) CoinJoinError A → Action (Joinstr N C W) Error A
  on_coinjoin m s = elim s.inner.coinjoin [
    | none ↦ (err coinjoin_missing, s)
    | some c ↦
        let (r, c') = m c in
        (map_err coinjoin r, record s { inner = record s.inner { coinjoin = some c' } })
  ]

  -- The coinjoin's own client is not set, so its backend is not called.
  unfoldable pub generate_unsigned_tx : Action (Joinstr N C W) Error (Unit {0})
  unfolding on_coinjoin generate_psbt
  generate_unsigned_tx = on_coinjoin (generate_psbt host.bitcoin host.electrum.backend)

  unfoldable pub try_finalize_coinjoin : Action (Joinstr N C W) Error Bool
  unfolding coinjoin_as_ref inputs_len outputs_len generate_tx on_coinjoin
  try_finalize_coinjoin = do
    c ← reads coinjoin_as_ref
    if leb (outputs_len c) (inputs_len c)
        then (do
          done ← attempt (on_coinjoin (generate_tx host.bitcoin host.electrum.backend false))
          pure (is_some done))
        else pure false

  -- A call on the electrum client, if there is one, with `?`.
  unfoldable pub on_electrum :
      Action C ElectrumError (Unit {0}) → Action (Joinstr N C W) Error (Unit {0})
  on_electrum m s = elim s.inner.electrum_client [
    | none ↦ (ok tt, s)
    | some client ↦
        let (r, client') = m client in
        (map_err electrum r, record s { inner = record s.inner { electrum_client = some client' } })
  ]

  unfoldable pub broadcast_tx : Action (Joinstr N C W) Error (Unit {0})
  unfolding check_pool_exists coinjoin_as_ref on_electrum
  broadcast_tx = do
    reads check_pool_exists
    c ← reads coinjoin_as_ref
    tx ← ok_or c.tx missing_final_tx
    on_electrum (host.electrum.broadcast tx)
    update (λ i. record i { final_tx = some tx; step = broadcast })

  module _ (notif : W → W) where
    unfoldable pub register_input : JoinstrSigner → Action (Joinstr N C W) Error (Unit {0})
    unfolding coinjoin_as_ref unsigned_tx check_pool_exists pool_as_ref
    register_input signer = do
      c ← reads coinjoin_as_ref
      unsigned ← ok_or (unsigned_tx c) unsigned_tx_not_exists
      input ← gets (λ s. s.inner.input)
      update (λ i. record i { input = none })
      coin ← ok_or input input_missing
      signed ← yields (map_err signing_fail (signer.sign_input unsigned coin))
      reads check_pool_exists
      pool ← reads pool_as_ref
      on_nostr (host.nostr.send_pool_message pool.public_key (PoolMessage.input signed))
      update (λ i. record i { inputs = push i.inputs signed })
      passes notif

    -- An input that the coinjoin refuses is dropped.
    unfoldable pub try_register_input : InputDataSigned → Action (Joinstr N C W) Error (Unit {0})
    unfolding coinjoin_exists add_input on_coinjoin
    try_register_input input = do
      reads coinjoin_exists
      added ← attempt (on_coinjoin (add_input host.electrum.backend input))
      if is_some added
          then (do update (λ i. record i { inputs = push i.inputs input }); passes notif)
          else pure tt

    unfoldable pub take_signed : InputDataSigned → Action (Joinstr N C W) Error Bool
    unfolding try_register_input try_finalize_coinjoin
    take_signed input = do try_register_input input; try_finalize_coinjoin

    -- The `match` of the round: is the coinjoin finalized?
    unfoldable pub take_input : PoolMessage → Action (Joinstr N C W) Error Bool
    unfolding take_signed input_of_psbt
    take_input (PoolMessage.psbt p) = do
      input ← yields (map_err (λ _. psbt_to_input) (input_of_psbt host.bitcoin p))
      take_signed input
    take_input (PoolMessage.input input) = take_signed input
    take_input (PoolMessage.output _) = pure false
    take_input (PoolMessage.transaction _) = pure false
    take_input (PoolMessage.join _) = pure false
    take_input (PoolMessage.credentials _) = pure false

    unfoldable pub input_test : (expired : ℕ) → Backoff → Action (Joinstr N C W) Error Bool
    unfolding before coinjoin_as_ref
    input_test expired _ = do
      early ← before host expired
      if early then (do c ← reads coinjoin_as_ref; pure (is_none c.tx)) else pure false

    unfoldable pub input_round : Backoff → Action (Joinstr N C W) Error (Turn Backoff)
    unfolding poll take_input rest
    input_round backoff = do
      msg ← poll host
      elim msg [
        | some m ↦ (do done ← take_input m; pure (if done then leave backoff else again backoff))
        | none ↦ (do backoff' ← rest host backoff; pure (again backoff'))
      ]

    -- The deadline. The additions are not checked: a release build wraps.
    unfoldable pub input_deadline : Timeline → Action (Joinstr N C W) Error ℕ
    unfolding clock
    input_deadline (Timeline.simple timestamp) = pure timestamp
    input_deadline (Timeline.fixed start max_duration) = pure ((start + max_duration) % 2 ^ 64)
    input_deadline (Timeline.timeout _ max_duration) = do
      t ← clock host
      pure ((t + max_duration) % 2 ^ 64)

    unfoldable pub register_inputs : (fuel : ℕ) → Action (Joinstr N C W) Error (Unit {0})
    unfolding check_pool_exists coinjoin_exists payload_as_ref input_deadline clock new_us
    register_inputs fuel = do
      reads check_pool_exists
      reads coinjoin_exists
      payload ← reads payload_as_ref
      expired ← input_deadline payload.timeout
      t ← clock host
      throw_if (ltb expired t) timeout
      _ ← loop (input_test expired) input_round fuel (new_us wait)
      t' ← clock host
      throw_if (ltb expired t') timeout
