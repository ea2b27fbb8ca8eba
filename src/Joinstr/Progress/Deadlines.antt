-- ===== src/Joinstr/Progress/Deadlines.antt =====
-- The rounds of a `Joinstr` end: each of their loops has a deadline, and the clock reaches it.
use native.Mathlib.Nat.{mul-le-mul_left}
use joinstr.Prelude.{
  Bool-cases, ltb→lt, ℕ, ◌+◌, ◌*◌, ◌^◌, ◌≤◌, ◌<◌, ◌≡◌, ◌≢◌, refl, inl, inr, Bool, true, ltb, Option,
  none, some, List, arith, ok, unfinished, Option-cases, SoundTo, Sound-bind_to, Sound-gets,
  Sound-yields, Sound-ok_or, Sound-throw_if, Sound-loop, loop, ◌>>◌,
}
use joinstr.Nostr.Pool.{Pool, PoolPayload, Timeline, PublicKey, Fee}
use joinstr.Bitcoin.{Address}
use joinstr.CoinJoin.{CoinJoin}
use joinstr.System.{Backoff, rand_delay}
use joinstr.Joinstr.Host.{Host}
use joinstr.Joinstr.State.{Joinstr, reads, update}
use joinstr.Joinstr.Pool.{start_of, end_of, start_timeline, end_timeline, payload_as_ref}
use joinstr.Joinstr.Join.{before}
use joinstr.Joinstr.Outputs.{
  fixed_fee, register_peers, add_own_output, collect_outputs, settle_outputs, peer_test, peer_round,
  output_test, output_round, register_outputs,
}
use joinstr.Joinstr.Inputs.{input_test, input_round}
use joinstr.Joinstr.Progress.{
  IsTimely, HasPool, Later, Later-IsFrame, bind, and_then, choose, Sound-value, Sound-reads,
  Sound-passes, Sound-update,
}
use joinstr.Joinstr.Progress.Inputs.{Sound-input_test, Sound-input_round}
use joinstr.Joinstr.Progress.Rounds.{
  Timed, Sound-peer_test, Sound-peer_round, Sound-output_test, Sound-output_round,
  Sound-register_output, Sound-send_dummy, Sound-clock, check_pool_exists_ends, payload_as_ref_ends,
  ok_or_ends,
}

-- No deadline of a timeline is later.
abbrev pub latest : Timeline → ℕ
latest (Timeline.simple timestamp) = timestamp
latest (Timeline.fixed start max_duration) = start + max_duration
latest (Timeline.timeout timeout max_duration) = timeout + max_duration + 2 ^ 64

start_of-latest : (t : Timeline) → (start_of t).0 ≤ latest t
unfolding start_of
start_of-latest (Timeline.simple t) = omega arith
start_of-latest (Timeline.fixed s m) = omega arith
start_of-latest (Timeline.timeout t m) = omega arith

end_of-latest : (t : Timeline) (e : ℕ) → end_of t ≡ some e → e ≤ latest t
unfolding end_of
end_of-latest (Timeline.simple t) e h = ground arith
end_of-latest (Timeline.fixed s m) e h = ground arith
end_of-latest (Timeline.timeout t m) e h = ground arith

module _ {N C W : Type 0} {host : Host N C W} {notif : W → W} (timely : IsTimely host notif) where
  -- A test that reads the clock first moves the rank, and holds before the deadline only.
  pub before_moves :
      (t : ℕ) (s : Joinstr N C W) → timely.ticks s.world < timely.ticks (before host t s).1.world
  unfolding before ◌>>◌ update
  before_moves t s = timely.now_counts s.world

  pub before_stops :
      (t : ℕ) (s : Joinstr N C W)
      → (before host t s).0 ≡ ok true
      → timely.ticks (before host t s).1.world ≤ timely.rate * t
  unfolding before ◌>>◌ update
  before_stops t s h =
      let now = host.system.now s.world in
      let early : now.0 ≤ t = omega (arith, ltb→lt now.0 t (ground arith)) in
      omega (arith, timely.now_follows s.world, mul-le-mul_left timely.rate early)

  module _ (pool : Pool) {payload : PoolPayload} (has : pool.payload ≡ some payload) where
    pub SoundTo-start_timeline :
        SoundTo
          (HasPool timely pool)
          (Later timely pool)
          (λ (t : ℕ × Bool). t.0 ≤ latest payload.timeout)
          (start_timeline {C = C})
    unfolding start_timeline ◌>>◌ update
    SoundTo-start_timeline = record {
      sound = record {
        ends = λ s i h. ground (arith, has);
        frame = λ s i. record { later = ground arith; same_pool = ground arith };
      };
      post = λ s i a e. ground (arith, start_of-latest payload.timeout);
    }

    SoundTo-end_timeline :
        SoundTo
          (HasPool timely pool)
          (Later timely pool)
          (λ t. t ≤ latest payload.timeout)
          (end_timeline {C = C})
    unfolding end_timeline ◌>>◌ update
    SoundTo-end_timeline = record {
      sound = record {
        ends = λ s i h. ground (arith, has);
        frame = λ s i. record { later = ground arith; same_pool = ground arith };
      };
      post = λ s i a e. elim (Option-cases (end_of payload.timeout)) [
        | inl none_left ↦ absurd (ground arith)
        | inr (t, f) ↦ ground (arith, end_of-latest payload.timeout t f)
      ];
    }

    pub SoundTo-payload :
        SoundTo (HasPool timely pool) (Later timely pool) (λ p. p ≡ payload) (reads payload_as_ref)
    unfolding payload_as_ref update
    SoundTo-payload = record {
      sound = record {
        ends = λ s i h. ground (arith, has);
        frame = λ s i. record { later = ground arith; same_pool = ground arith };
      };
      post = λ s i a e. ground (arith, has);
    }

    module _ (fuel : ℕ) (enough : timely.rate * latest payload.timeout < fuel) where
      pub in_time : {t : ℕ} → t ≤ latest payload.timeout → timely.rate * t < fuel
      in_time h = omega (arith, enough, mul-le-mul_left timely.rate h)

      pub Sound-peer_loop :
          (expired : ℕ)
          → expired ≤ latest payload.timeout
          → (start_early : Bool) (needed : ℕ) (l : List PublicKey × Backoff)
          → Timed timely pool (
              loop (peer_test host notif expired start_early needed) (peer_round host notif) fuel l)
      unfolding peer_test ◌>>◌ update
      Sound-peer_loop expired h start_early needed =
          Sound-loop (Later-IsFrame timely pool)
            (Sound-peer_test timely pool expired start_early needed) (Sound-peer_round timely pool)
            (λ (peers, b) s. timely.now_counts s.world) (timely.rate * expired)
            (λ (peers, b) s e. before_stops expired s (ground arith)) fuel (in_time h)

      Sound-output_loop :
          (expired : ℕ)
          → expired ≤ latest payload.timeout
          → (peers : ℕ) (l : CoinJoin C × Backoff)
          → Timed timely pool
              (loop (output_test host notif expired peers) (output_round host notif) fuel l)
      unfolding output_test ◌>>◌ update
      Sound-output_loop expired h peers =
          Sound-loop (Later-IsFrame timely pool) (Sound-output_test timely pool expired peers)
            (Sound-output_round timely pool) (λ (c, b) s. timely.now_counts s.world)
            (timely.rate * expired) (λ (c, b) s e. before_stops expired s (ground arith)) fuel
            (in_time h)

      pub Sound-input_loop :
          (expired : ℕ)
          → expired ≤ latest payload.timeout
          → (b : Backoff)
          → Timed timely pool (loop (input_test host notif expired) (input_round host notif) fuel b)
      unfolding input_test ◌>>◌ update
      Sound-input_loop expired h =
          Sound-loop (Later-IsFrame timely pool) (Sound-input_test timely pool expired)
            (Sound-input_round timely pool) (λ b s. ground (arith, timely.now_counts s.world))
            (timely.rate * expired)
            (λ b s e. elim (Bool-cases (ltb (host.system.now s.world).0 expired)) [
              | inl p ↦ ground (arith, before_stops expired s (ground arith))
              | inr p ↦ absurd (ground arith)
            ])
            fuel (in_time h)

      pub rand_delay_later : (w : W) → timely.ticks w ≤ timely.ticks (rand_delay host.system w)
      unfolding rand_delay
      rand_delay_later w =
          let (millis, w') = host.system.random_range 200 5000 w in
          omega (arith, timely.random_later 200 5000 w, timely.sleep_later (millis * 1000) w')

      fixed_fee_ends : (fee : Fee) → fixed_fee host notif fee ≢ unfinished
      unfolding fixed_fee
      fixed_fee_ends (Fee.fixed f) h = cc
      fixed_fee_ends (Fee.provider p) h = cc

      Sound-register_peers : Timed timely pool (register_peers {C = C} host notif fuel)
      unfolding register_peers
      Sound-register_peers =
          and_then timely pool (Sound-reads timely pool _ check_pool_exists_ends) (
            Sound-bind_to (Later-IsFrame timely pool) SoundTo-start_timeline (λ timeline early.
              bind timely pool (Sound-reads timely pool _ payload_as_ref_ends) (λ p.
                bind timely pool (Sound-yields (Later-IsFrame timely pool) _ (fixed_fee_ends p.fee))
                  (λ fee. bind timely pool (Sound-reads timely pool _ (λ i. ok_or_ends _ _)) (λ q.
                    bind timely pool (Sound-gets (Later-IsFrame timely pool) _) (λ role.
                      bind timely pool (Sound-gets (Later-IsFrame timely pool) _) (λ client.
                        bind timely pool (Sound-ok_or (Later-IsFrame timely pool) _ _) (λ relay.
                          and_then timely pool
                            (choose timely pool _ (Sound-send_dummy timely pool q.public_key relay)
                              (Sound-value timely pool tt))
                            (bind timely pool
                              (Sound-peer_loop timeline.0 early timeline.1 p.peers _)
                              (λ registered. Sound-value timely pool _))))))))))

      Sound-add_own_output :
          (start : CoinJoin C) (output : Option Address)
          → Timed timely pool (add_own_output host notif start output)
      unfolding add_own_output
      Sound-add_own_output start none = Sound-value timely pool start
      Sound-add_own_output start (some o) =
          and_then timely pool (Sound-register_output timely pool) (Sound-value timely pool _)

      Sound-collect_outputs :
          (start : CoinJoin C) (peers : ℕ)
          → Timed timely pool (collect_outputs host notif fuel start peers)
      unfolding collect_outputs
      Sound-collect_outputs start peers =
          bind timely pool (Sound-gets (Later-IsFrame timely pool) _) (λ output.
            bind timely pool (Sound-add_own_output start output) (λ coinjoin.
              Sound-bind_to (Later-IsFrame timely pool) SoundTo-end_timeline (λ expired early.
                bind timely pool (Sound-output_loop expired early peers _)
                  (λ done. Sound-value timely pool _))))

      Sound-settle_outputs :
          (expired needed peers : ℕ) (c : CoinJoin C)
          → Timed timely pool (settle_outputs host notif expired needed peers c)
      unfolding settle_outputs
      Sound-settle_outputs expired needed peers c = bind timely pool (Sound-clock timely pool) (λ t.
          and_then timely pool (Sound-throw_if (Later-IsFrame timely pool) _ _) (
            and_then timely pool (Sound-throw_if (Later-IsFrame timely pool) _ _) (
              and_then timely pool (Sound-throw_if (Later-IsFrame timely pool) _ _) (
                and_then timely pool (Sound-update timely pool _ (λ i. refl))
                  (Sound-passes timely pool timely.notif_later)))))

      pub Sound-register_outputs : Timed timely pool (register_outputs {C = C} host notif fuel)
      unfolding register_outputs
      Sound-register_outputs = bind timely pool Sound-register_peers (λ r.
          and_then timely pool (Sound-passes timely pool rand_delay_later) (
            bind timely pool (Sound-collect_outputs _ _)
              (λ done. Sound-settle_outputs done.0 r.0.peers _ done.1)))
