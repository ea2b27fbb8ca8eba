-- ===== src/Joinstr/Pool.antt =====
-- The pool of a `Joinstr`: what its methods look up, `post`, and the timelines.
pub mod Posted
use joinstr.Prelude.{
  ℕ, Bool, true, false, ◌&&◌, Option, none, some, List, [], ◌∷◌, is_some, is_none, if◌then◌else◌,
  Outcome, ok, err, panic, unfinished, Action, gets, ok_or, pure, throw_if, yields, map_err,
  ok_or_err, checked_add, ◌>>=◌, ◌>>◌,
}
use joinstr.Nostr.Pool.{
  Pool, PoolPayload, create, event_of_pool, default_version, Keys, default_transport, Timeline,
}
use joinstr.CoinJoin.{CoinJoin}
use joinstr.Joinstr.Error.{
  Error, nostr, event, pool_already_exists, pool_not_exists, pool_payload_missing, coinjoin_missing,
  param_missing, relays_missing, denomination_missing, peer_missing, timeout_missing, fee_missing,
  timeline_duration,
}
use joinstr.Joinstr.Host.{Host}
use joinstr.Joinstr.State.{
  JoinstrInner, Joinstr, reads, on_nostr, asks, update, posting, output_registration,
}

module _ {N C : Type 0} (inner : JoinstrInner N C) where
  unfoldable pub check_pool_not_exists : Outcome Error (Unit {0})
  check_pool_not_exists = if is_some inner.pool then err pool_already_exists else ok tt

  unfoldable pub check_pool_exists : Outcome Error (Unit {0})
  check_pool_exists = elim inner.pool [
    | none ↦ err pool_not_exists
    | some pool ↦ elim pool.payload [ none ↦ err pool_not_exists | some payload ↦ ok tt ]
  ]

  unfoldable pub pool_as_ref : Outcome Error Pool
  pool_as_ref = ok_or_err inner.pool pool_not_exists

  unfoldable pub payload_as_ref : Outcome Error PoolPayload
  payload_as_ref = elim inner.pool [
    | none ↦ err pool_not_exists
    | some pool ↦ ok_or_err pool.payload pool_payload_missing
  ]

  unfoldable pub coinjoin_as_ref : Outcome Error (CoinJoin C)
  coinjoin_as_ref = ok_or_err inner.coinjoin coinjoin_missing

  unfoldable pub coinjoin_exists : Outcome Error (Unit {0})
  coinjoin_exists = if is_some inner.coinjoin then ok tt else err coinjoin_missing

  unfoldable pub is_ready : Outcome Error (Unit {0})
  is_ready =
      if is_none inner.pool
        && is_some inner.denomination
        && is_some inner.peers_count
        && is_some inner.timeout
        && is_some inner.relay
        && is_some inner.fee
      then ok tt
      else err param_missing

-- The expiration, and whether the coinjoin can start early.
unfoldable pub start_of : Timeline → ℕ × Bool
start_of (Timeline.simple timestamp) = (timestamp, true)
start_of (Timeline.fixed start _) = (start, false)
start_of (Timeline.timeout timeout _) = (timeout, true)

unfoldable pub end_of : Timeline → Option ℕ
unfolding checked_add
end_of (Timeline.simple timestamp) = some timestamp
end_of (Timeline.fixed start max_duration) = checked_add start max_duration
end_of (Timeline.timeout timeout max_duration) = checked_add timeout max_duration

module _ {N C W : Type 0} where
  unfoldable pub start_timeline : Action (Joinstr N C W) Error (ℕ × Bool)
  unfolding check_pool_exists payload_as_ref start_of
  start_timeline = do
    reads check_pool_exists
    payload ← reads payload_as_ref
    yields (ok (start_of payload.timeout))

  unfoldable pub end_timeline : Action (Joinstr N C W) Error ℕ
  unfolding check_pool_exists payload_as_ref end_of
  end_timeline = do
    reads check_pool_exists
    payload ← reads payload_as_ref
    ok_or (end_of payload.timeout) timeline_duration

module _ {N C W : Type 0} (host : Host N C W) where
  unfoldable pub get_keys : Action (Joinstr N C W) Error Keys
  get_keys = reads (λ i. map_err nostr (host.nostr.get_keys i.client))

  -- The pool that `post` creates.
  unfoldable pub new_pool : Action (Joinstr N C W) Error Pool
  unfolding get_keys
  new_pool = do
    keys ← get_keys
    relay ← gets (λ s. s.inner.relay)
    throw_if (is_none relay) relays_missing
    denomination ← reads (λ i. ok_or_err i.denomination denomination_missing)
    peers ← reads (λ i. ok_or_err i.peers_count peer_missing)
    timeline ← reads (λ i. ok_or_err i.timeout timeout_missing)
    fee ← reads (λ i. ok_or_err i.fee fee_missing)
    network ← gets (λ s. s.inner.network)
    id ← asks (host.pool_id keys.public_key)
    pure (record {
      versions = default_version;
      id = id;
      network = network;
      pool_type = create;
      public_key = keys.public_key;
      payload = some (record {
        denomination = denomination;
        peers = peers;
        timeout = timeline;
        relays = elim relay [ none ↦ [] | some r ↦ r ∷ [] ];
        fee = fee;
        transport = default_transport;
      });
    })

  unfoldable pub publish : Pool → Action (Joinstr N C W) Error (Unit {0})
  unfolding event_of_pool
  publish pool = do
    builder ← yields (map_err event (event_of_pool (host.pool_json pool)))
    on_nostr (host.nostr.post_event builder)
    update (λ i. record i { pool = some pool; step = output_registration })

  unfoldable pub post : Action (Joinstr N C W) Error (Unit {0})
  unfolding is_ready check_pool_not_exists
  post = do
    reads is_ready
    reads check_pool_not_exists
    update (λ i. record i { step = posting })
    pool ← new_pool
    publish pool
