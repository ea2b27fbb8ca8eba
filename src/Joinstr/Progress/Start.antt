-- ===== src/Joinstr/Progress/Start.antt =====
-- `start_coinjoin_blocking` ends, with enough fuel for its deadlines.
use joinstr.Prelude.{
  [], ℕ, ◌*◌, ◌<◌, ◌≡◌, ◌≢◌, refl, ap, inl, inr, Option, none, some, arith, ok, err, unfinished,
  Option-cases, Outcome-cases, ◌>>◌,
}
use joinstr.Nostr.Pool.{Pool, PoolPayload, Timeline, EventBuilder}
use joinstr.Signer.{JoinstrSigner}
use joinstr.Joinstr.Error.{pool_not_exists}
use joinstr.Joinstr.Host.{Host}
use joinstr.Joinstr.State.{Joinstr, JoinstrInner, posting, update}
use joinstr.Joinstr.Pool.{post, new_pool, publish}
use joinstr.Joinstr.Pool.Posted.{post_lem}
use joinstr.Joinstr.Join.{join_pool}
use joinstr.Joinstr.Start.{enter, start_coinjoin_blocking}
use joinstr.Joinstr.Progress.{IsTimely}
use joinstr.Joinstr.Progress.Deadlines.{latest}
use joinstr.Joinstr.Progress.Join.{Sound-join_pool}
use joinstr.Joinstr.Progress.Whole.{Signs, Sound-run_rounds}

abbrev deadline_of : Option PoolPayload → ℕ
deadline_of none = 0
deadline_of (some payload) = latest payload.timeout

abbrev deadline_by : Option Timeline → ℕ
deadline_by none = 0
deadline_by (some t) = latest t

-- The last deadline of a coinjoin: by the pool that is joined, or by the settings of the own one.
abbrev pub last_deadline : {N C : Type 0} → Option Pool → JoinstrInner N C → ℕ
last_deadline (some pool) inner = deadline_of pool.payload
last_deadline none inner = deadline_by inner.timeout

module _ {N C W : Type 0} {host : Host N C W} {notif : W → W} (timely : IsTimely host notif) where
  new_pool_ends : (s : Joinstr N C W) → (new_pool host s).0 ≢ unfinished
  unfolding new_pool ◌>>◌ update
  new_pool_ends s h = ground (arith, timely.get_keys_returns s.inner.client)

  publish_ends : (pool : Pool) (s : Joinstr N C W) → (publish host pool s).0 ≢ unfinished
  unfolding publish ◌>>◌ update
  publish_ends pool s h = elim (Option-cases (host.pool_json pool)) [
    | inl e ↦ ground arith
    | inr (content, e) ↦
        let builder : EventBuilder = record { kind = 2022; content = content; tags = [] } in
        ground (arith, (timely.post_returns builder).returns (s.inner.client, s.world))
  ]

  post_ends : (s : Joinstr N C W) → (post host s).0 ≢ unfinished
  unfolding post ◌>>◌ update
  post_ends s h =
      let t : Joinstr N C W = record s { inner = record s.inner { step = posting } } in
      elim (Outcome-cases (new_pool host t).0) [
        | inl (pool, e) ↦ ground (arith, publish_ends pool (new_pool host t).1)
        | inr failed ↦ ground (arith, new_pool_ends t)
      ]

  join_without_payload :
      (fuel : ℕ) (pool : Pool)
      → pool.payload ≡ none
      → (s : Joinstr N C W) → s.inner.pool ≡ some pool
      → (join_pool host fuel s).0 ≡ err pool_not_exists
  unfolding join_pool ◌>>◌ update
  join_without_payload fuel pool e s f = ground arith

  -- Where a peer has entered a pool, the pool is there, and its deadlines were known.
  enter_lem :
      (fuel : ℕ) (given : Option Pool) (s : Joinstr N C W)
      → timely.rate * last_deadline given s.inner < fuel
      → ((enter host fuel given s).0 ≢ unfinished)
        × ((enter host fuel given s).0 ≡ ok tt
            → (pool : Pool) × (payload : PoolPayload) × (pool.payload ≡ some payload)
              × ((enter host fuel given s).1.inner.pool ≡ some pool)
              × (timely.rate * latest payload.timeout < fuel))
  unfolding enter ◌>>◌ update
  enter_lem fuel none s enough = (
    post_ends s,
    λ h.
        let (free, pool, draft, same) = post_lem host s h in
        (
          pool,
          draft.payload,
          draft.has_payload,
          ap (λ i. i.pool) same,
          rw draft.same_timeout at enough,
        ),
  )
  enter_lem fuel (some pool) s enough = elim (Option-cases pool.payload) [
    | inl e ↦
        let missing = join_without_payload fuel pool e in
        let t : Joinstr N C W = record s { inner = record s.inner { pool = some pool } } in
        (λ h. ground (arith, missing t refl), λ h. absurd (ground (arith, missing t refl)))
    | inr (payload, e) ↦
        let t : Joinstr N C W = record s { inner = record s.inner { pool = some pool } } in
        let sound = Sound-join_pool timely pool e fuel (rw e at enough) in
        (
          λ h. ground (arith, sound.ends t refl),
          λ h. (pool, payload, e, ground (arith, (sound.frame t refl).same_pool), rw e at enough),
        )
  ]

  -- Where the rate of the clock is bounded, so that a bounded number of its readings fits before a
  -- time, no sleep, notification or other call takes time back, and every call returns that the run
  -- makes of the nostr client, the backend of the coinjoin, the broadcast of the electrum client and
  -- the signer, a coinjoin returns, with a result, an error or a panic, if the fuel exceeds the
  -- readings of the clock that fit before its last deadline. Nothing is said of a call that waits for
  -- a silent server for ever.
  pub start_coinjoin_blocking_ends :
      (fuel : ℕ) (given : Option Pool) (signer : Option JoinstrSigner) (s : Joinstr N C W)
      → Signs signer
      → timely.rate * last_deadline given s.inner < fuel
      → (start_coinjoin_blocking host notif fuel given signer s).0 ≢ unfinished
  unfolding start_coinjoin_blocking ◌>>◌ update
  start_coinjoin_blocking_ends fuel given signer s signs enough h =
      let (ends, entered) = enter_lem fuel given s enough in
      elim (Outcome-cases (enter host fuel given s).0) [
        | inl (tt, e) ↦
            let (pool, payload, has, there, more) = entered e in
            ground (
              arith,
              (Sound-run_rounds timely pool has fuel more signer signs).ends
                  (enter host fuel given s).1 there,
            )
        | inr failed ↦ ground arith
      ]
