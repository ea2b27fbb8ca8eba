-- ===== src/Joinstr/Outputs.antt =====
-- `register_outputs`: the round in which peers join the pool, and the round of outputs.
use Prim.Native.String.{String}
use joinstr.Prelude.{
  ℕ, Bool, ◌&&◌, not, Option, none, some, List, [], length, push, ltb, leb, ◌==◌, if◌then◌else◌,
  Outcome, ok, err, panic, Action, gets, ok_or, throw_if, pure, yields, map_err, ◌>>=◌, ◌>>◌, Turn,
  again, loop,
}
use joinstr.System.{Backoff, new_us, rand_delay}
use joinstr.Bitcoin.{Address}
use joinstr.Nostr.Pool.{PublicKey, Fee, PoolPayload, PoolMessage}
use joinstr.CoinJoin.{CoinJoin, contains, new, with_min_peer, with_fee, add_output, outputs_len}
use joinstr.Joinstr.Error.{
  Error, nostr, relays_missing, not_yet_implemented, output_missing, timeout, not_enough_peers,
  peer_count_not_match,
}
use joinstr.Joinstr.Host.{Host}
use joinstr.Joinstr.State.{Joinstr, reads, on_nostr, asks, update, passes, in_world, is_initiator}
use joinstr.Joinstr.Pool.{
  check_pool_exists, pool_as_ref, payload_as_ref, start_timeline, end_timeline, get_keys,
}
use joinstr.Joinstr.Setup.{connect}
use joinstr.Joinstr.Join.{clock, before, rest, wait, poll}

module _ {N C W : Type 0} (host : Host N C W) (notif : W → W) where
  unfoldable pub send_credentials : PublicKey → Action (Joinstr N C W) Error (Unit {0})
  unfolding pool_as_ref get_keys
  send_credentials npub = do
    pool ← reads pool_as_ref
    keys ← get_keys host
    on_nostr (
        host.nostr.send_pool_message npub
          (PoolMessage.credentials (record { id = pool.id; key = keys.secret_key })))

  unfoldable pub register_peer :
      PublicKey → List PublicKey → Action (Joinstr N C W) Error (List PublicKey)
  unfolding contains send_credentials
  register_peer npub peers = if contains peers npub then pure peers else (do
    role ← gets (λ s. s.inner.role)
    if is_initiator role then send_credentials npub else pure tt
    update (λ i. record i { peers = push i.peers npub })
    passes notif
    pure (push peers npub))

  -- The `match` of the first round. `Join` with no key is `panic!`.
  unfoldable pub take_join :
      PoolMessage → List PublicKey → Action (Joinstr N C W) Error (List PublicKey)
  unfolding register_peer
  take_join (PoolMessage.join (some npub)) peers = register_peer npub peers
  take_join (PoolMessage.join none) peers = yields panic
  take_join (PoolMessage.output _) peers = pure peers
  take_join (PoolMessage.input _) peers = pure peers
  take_join (PoolMessage.psbt _) peers = pure peers
  take_join (PoolMessage.transaction _) peers = pure peers
  take_join (PoolMessage.credentials _) peers = pure peers

  unfoldable pub peer_test :
      (expired : ℕ)
      → (start_early : Bool) → (needed : ℕ) → List PublicKey × Backoff
      → Action (Joinstr N C W) Error Bool
  unfolding before
  peer_test expired start_early needed (peers, _) = do
    early ← before host expired
    pure (early && not (start_early && leb needed (length peers)))

  unfoldable pub peer_round :
      List PublicKey × Backoff → Action (Joinstr N C W) Error (Turn (List PublicKey × Backoff))
  unfolding poll take_join rest
  peer_round (peers, backoff) = do
    msg ← poll host
    elim msg [
      | some m ↦ (do peers' ← take_join m peers; pure (again (peers', backoff)))
      | none ↦ (do backoff' ← rest host backoff; pure (again (peers, backoff')))
    ]

  -- `receive_outputs` on one address, as it is called.
  unfoldable pub receive_output : Address → CoinJoin C → Action (Joinstr N C W) Error (CoinJoin C)
  unfolding pool_as_ref add_output
  receive_output addr coinjoin = do
    pool ← reads pool_as_ref
    pure (
        if host.bitcoin.is_valid_for_network addr pool.network
        then add_output coinjoin addr
        else coinjoin)

  -- The `match` of the second round. `Input` is `todo!`.
  unfoldable pub take_output : PoolMessage → CoinJoin C → Action (Joinstr N C W) Error (CoinJoin C)
  unfolding receive_output
  take_output (PoolMessage.output o) coinjoin = do
    coinjoin' ← receive_output o coinjoin
    update (λ i. record i { outputs = push i.outputs o })
    passes notif
    pure coinjoin'
  take_output (PoolMessage.input _) coinjoin = yields panic
  take_output (PoolMessage.join _) coinjoin = pure coinjoin
  take_output (PoolMessage.psbt _) coinjoin = pure coinjoin
  take_output (PoolMessage.transaction _) coinjoin = pure coinjoin
  take_output (PoolMessage.credentials _) coinjoin = pure coinjoin

  unfoldable pub output_test :
      (expired peers : ℕ) → CoinJoin C × Backoff → Action (Joinstr N C W) Error Bool
  unfolding before outputs_len
  output_test expired peers (coinjoin, _) = do
    early ← before host expired
    pure (early && ltb (outputs_len coinjoin) peers)

  unfoldable pub output_round :
      CoinJoin C × Backoff → Action (Joinstr N C W) Error (Turn (CoinJoin C × Backoff))
  unfolding poll take_output rest
  output_round (coinjoin, backoff) = do
    msg ← poll host
    elim msg [
      | some m ↦ (do coinjoin' ← take_output m coinjoin; pure (again (coinjoin', backoff)))
      | none ↦ (do backoff' ← rest host backoff; pure (again (coinjoin, backoff')))
    ]

  unfoldable pub register_output : Action (Joinstr N C W) Error (Unit {0})
  unfolding check_pool_exists pool_as_ref
  register_output = do
    output ← gets (λ s. s.inner.output)
    address ← ok_or output output_missing
    reads check_pool_exists
    pool ← reads pool_as_ref
    on_nostr (host.nostr.send_pool_message pool.public_key (PoolMessage.output address))
    update (λ i. record i { outputs = push i.outputs address })
    passes notif

  -- Another client, for the length of the call: it connects, and sends one message.
  unfoldable pub send_dummy : PublicKey → (relay : String) → Action (Joinstr N C W) Error (Unit {0})
  unfolding connect
  send_dummy pool_pubkey relay = do
    keys ← asks host.generate_keys
    with_keys ← yields (map_err nostr (host.nostr.keys keys (host.nostr.new "dummy")))
    with_relay ← yields (map_err nostr (host.nostr.relay relay with_keys))
    dummy ← in_world (connect host with_relay)
    response ← asks host.generate_keys
    in_world (λ w.
        let (r, t) =
          host.nostr.send_pool_message pool_pubkey (PoolMessage.join (some response.public_key))
            (dummy, w) in
        (map_err nostr r, t.1))

  -- The fee of the pool, if it is fixed.
  unfoldable pub fixed_fee : Fee → Outcome Error ℕ
  fixed_fee (Fee.fixed fee) = ok fee
  fixed_fee (Fee.provider _) = err not_yet_implemented

  -- The first round, with what the rest needs: the payload, the fee and the peers.
  unfoldable pub register_peers :
      (fuel : ℕ) → Action (Joinstr N C W) Error (PoolPayload × ℕ × List PublicKey)
  unfolding check_pool_exists start_timeline payload_as_ref fixed_fee pool_as_ref send_dummy new_us
  register_peers fuel = do
    reads check_pool_exists
    timeline ← start_timeline
    payload ← reads payload_as_ref
    fee ← yields (fixed_fee payload.fee)
    pool ← reads pool_as_ref
    role ← gets (λ s. s.inner.role)
    client ← gets (λ s. s.inner.client)
    relay ← ok_or (host.nostr.get_relay client) relays_missing
    if is_initiator role then send_dummy pool.public_key relay else pure tt
    registered ←
        loop (peer_test timeline.0 timeline.1 payload.peers) peer_round fuel ([], new_us wait)
    pure (payload, fee, registered.0)

  -- The own output, if there is one.
  unfoldable pub add_own_output :
      CoinJoin C → Option Address → Action (Joinstr N C W) Error (CoinJoin C)
  unfolding register_output add_output
  add_own_output coinjoin none = pure coinjoin
  add_own_output coinjoin (some o) = do register_output; pure (add_output coinjoin o)

  -- The second round, with its deadline.
  unfoldable pub collect_outputs :
      (fuel : ℕ) → CoinJoin C → (peers : ℕ) → Action (Joinstr N C W) Error (ℕ × CoinJoin C)
  unfolding add_own_output end_timeline new_us
  collect_outputs fuel start peers = do
    output ← gets (λ s. s.inner.output)
    coinjoin ← add_own_output start output
    expired ← end_timeline
    done ← loop (output_test expired peers) output_round fuel (coinjoin, new_us wait)
    pure (expired, done.0)

  unfoldable pub settle_outputs :
      (expired needed peers : ℕ) → CoinJoin C → Action (Joinstr N C W) Error (Unit {0})
  unfolding clock outputs_len
  settle_outputs expired needed peers coinjoin = do
    t ← clock host
    throw_if (ltb expired t) timeout
    throw_if (ltb peers needed) (not_enough_peers peers needed)
    throw_if (not (outputs_len coinjoin == peers))
        (peer_count_not_match (outputs_len coinjoin) peers)
    update (λ i. record i { coinjoin = some coinjoin })
    passes notif

  unfoldable pub register_outputs : (fuel : ℕ) → Action (Joinstr N C W) Error (Unit {0})
  unfolding new with_min_peer with_fee rand_delay
  register_outputs fuel = do
    r ← register_peers fuel
    passes (rand_delay host.system)
    done ←
        collect_outputs fuel (with_fee (with_min_peer (new r.0.denomination none) r.0.peers) r.1)
          (length r.2)
    settle_outputs done.0 r.0.peers (length r.2) done.1
