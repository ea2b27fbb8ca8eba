-- ===== src/Joinstr/Pool/Posted.antt =====
-- What `post` publishes, and when.
use Prim.Native.String.{String}
use joinstr.Prelude.{
  ap, ◌≡◌, inl, inr, none, some, [], ◌∷◌, arith, Option-cases, Outcome-cases, ok, ◌>>◌,
}
use joinstr.Nostr.Pool.{Pool, PoolPayload, Keys, EventBuilder, create, event_of_pool}
use joinstr.Joinstr.Host.{Host}
use joinstr.Joinstr.State.{Joinstr, JoinstrInner, output_registration, posting, update}
use joinstr.Joinstr.Pool.{post, new_pool, publish}

module _ {N C W : Type 0} (host : Host N C W) where
  -- A pool that has the settings of the object, and the public key of its client.
  pub record IsDraft (i : JoinstrInner N C) (pool : Pool) : Type 0 where
    pub payload : PoolPayload
    pub keys : Keys
    pub relay : String
    pub has_payload : pool.payload ≡ some payload
    pub same_denomination : i.denomination ≡ some payload.denomination
    pub same_peers : i.peers_count ≡ some payload.peers
    pub same_timeout : i.timeout ≡ some payload.timeout
    pub same_fee : i.fee ≡ some payload.fee
    pub same_relay : i.relay ≡ some relay
    pub one_relay : payload.relays ≡ relay ∷ []
    pub own_key : host.nostr.get_keys i.client ≡ ok keys
    pub pool_key : pool.public_key ≡ keys.public_key
    pub same_network : pool.network ≡ i.network
    pub creates : pool.pool_type ≡ create

  new_pool-Drafted :
      (s : Joinstr N C W) (pool : Pool) → (new_pool host s).0 ≡ ok pool → IsDraft s.inner pool
  unfolding new_pool ◌>>◌ update
  new_pool-Drafted s pool h = elim (Option-cases pool.payload) [
    | inl e ↦ absurd (ground arith)
    | inr (payload, e) ↦ elim (Outcome-cases (host.nostr.get_keys s.inner.client)) [
      | inr failed ↦ absurd (ground arith)
      | inl (keys, k) ↦ elim (Option-cases s.inner.relay) [
        | inl missing ↦ absurd (ground arith)
        | inr (relay, r) ↦ record {
          payload = payload;
          keys = keys;
          relay = relay;
          has_payload = e;
          same_denomination = ground arith;
          same_peers = ground arith;
          same_timeout = ground arith;
          same_fee = ground arith;
          same_relay = r;
          one_relay = ground arith;
          own_key = k;
          pool_key = ground arith;
          same_network = ground arith;
          creates = ground arith;
        }
      ]
    ]
  ]

  new_pool_inner : (s : Joinstr N C W) → (new_pool host s).1.inner ≡ s.inner
  unfolding new_pool ◌>>◌ update
  new_pool_inner s = ground arith

  publish_ok :
      (pool : Pool) (s : Joinstr N C W)
      → (publish host pool s).0 ≡ ok tt
      → let s' = (publish host pool s).1 in
        (s'.inner ≡ record s.inner {
          client = s'.inner.client;
          pool = some pool;
          step = output_registration;
        })
  unfolding publish ◌>>◌ update
  publish_ok pool s h = ground arith

  post_ok :
      (s : Joinstr N C W)
      → (post host s).0 ≡ ok tt
      → let t = record s { inner = record s.inner { step = posting } } in
        (s.inner.pool ≡ none)
        × (pool : Pool) × ((new_pool host t).0 ≡ ok pool)
        × ((publish host pool (new_pool host t).1).0 ≡ ok tt)
        × (post host s ≡ publish host pool (new_pool host t).1)
  unfolding post ◌>>◌ update
  post_ok s h =
      let t = record s { inner = record s.inner { step = posting } } in
      elim (Outcome-cases (new_pool host t).0) [
        | inl (pool, e) ↦ (ground arith, pool, e, ground arith, ground arith)
        | inr failed ↦ absurd (ground arith)
      ]

  -- A call of `post_event` of this nostr client with the event of the pool has returned Ok.
  pub record Published (client : N) (pool : Pool) : Type 0 where
    pub builder : EventBuilder
    pub is_event : event_of_pool (host.pool_json pool) ≡ ok builder
    pub before : W
    pub after : N × W
    pub answered : host.nostr.post_event builder (client, before) ≡ (ok tt, after)

  publish-Published :
      (pool : Pool) (s : Joinstr N C W)
      → (publish host pool s).0 ≡ ok tt
      → Published s.inner.client pool
  unfolding publish ◌>>◌ update
  publish-Published pool s h = elim (Outcome-cases (event_of_pool (host.pool_json pool))) [
    | inr failed ↦ absurd (ground (arith, h, failed))
    | inl (builder, e) ↦
        let posted = host.nostr.post_event builder (s.inner.client, s.world) in
        elim (Outcome-cases posted.0) [
          | inr failed ↦ absurd (ground (arith, h, e, failed))
          | inl (u, answered) ↦ record {
            builder = builder;
            is_event = e;
            before = s.world;
            after = posted.1;
            answered = ap (λ r. (r, posted.1)) answered;
          }
        ]
  ]

  -- A successful `post` has published the pool that it stores.
  pub post-Published :
      (s : Joinstr N C W) (pool : Pool)
      → (post host s).0 ≡ ok tt
      → (post host s).1.inner.pool ≡ some pool
      → Published s.inner.client pool
  post-Published s pool h stored =
      let (free, made, is_made, published, same) = post_ok s h in
      let t = record s { inner = record s.inner { step = posting } } in
      let is : (publish host made (new_pool host t).1).1.inner.pool ≡ some made =
        ap (λ i. i.pool) (publish_ok made _ published) in
      let one : made ≡ pool = ground (arith, stored, same, is) in
      rw (← one) (rw (new_pool_inner t) at (publish-Published made _ published))

  -- A successful `post` was called with no pool, and stores a pool with the settings of the object
  -- and the key of its client; beside it and the client's state, only the step changes.
  pub post_lem :
      (s : Joinstr N C W)
      → (post host s).0 ≡ ok tt
      → let s' = (post host s).1 in
        (s.inner.pool ≡ none)
        × (pool : Pool) × IsDraft s.inner pool
        × (s'.inner ≡ record s.inner {
          client = s'.inner.client;
          pool = some pool;
          step = output_registration;
        })
  post_lem s h =
      let (free, pool, made, published, same) = post_ok s h in
      let t = record s { inner = record s.inner { step = posting } } in
      let d = new_pool-Drafted t pool made in
      (
        free,
        pool,
        record {
          payload = d.payload;
          keys = d.keys;
          relay = d.relay;
          has_payload = d.has_payload;
          same_denomination = d.same_denomination;
          same_peers = d.same_peers;
          same_timeout = d.same_timeout;
          same_fee = d.same_fee;
          same_relay = d.same_relay;
          one_relay = d.one_relay;
          own_key = d.own_key;
          pool_key = d.pool_key;
          same_network = d.same_network;
          creates = d.creates;
        },
        rw same (rw (new_pool_inner t) at (publish_ok pool _ published)),
      )
