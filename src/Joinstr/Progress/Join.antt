-- ===== src/Joinstr/Progress/Join.antt =====
-- `join_pool` ends.
use joinstr.Prelude.{
  ℕ, ◌*◌, ◌≤◌, ◌<◌, ◌≡◌, refl, Bool, true, false, Option, none, some, arith, Sound-bind_to,
  Sound-gets, Sound-yields, Sound-throw_if, Sound-loop, loop,
}
use joinstr.System.{Backoff}
use joinstr.Nostr.Pool.{Pool, PoolPayload, PoolMessage, SecretKey}
use joinstr.Joinstr.Host.{Host}
use joinstr.Joinstr.Join.{
  before, join_pool, join_round, take_credentials, use_credentials, reconnect,
}
use joinstr.Joinstr.Progress.{
  IsTimely, Later-IsFrame, bind, and_then, choose, Sound-value, Sound-reads, Sound-update,
  Sound-on_nostr,
}
use joinstr.Joinstr.Progress.Rounds.{
  Timed, Sound-before, Sound-rest, Sound-get_keys, check_pool_exists_ends, ok_or_ends, map_err_ends,
}
use joinstr.Joinstr.Progress.Deadlines.{
  latest, in_time, before_moves, before_stops, SoundTo-start_timeline,
}

module _ {N C W : Type 0} {host : Host N C W} {notif : W → W} (timely : IsTimely host notif)
    (pool : Pool) where
  Sound-reconnect : (n : N) → Timed timely pool (reconnect {C = C} host n)
  unfolding reconnect
  Sound-reconnect n = record {
    ends = λ s i h. ground (arith, timely.connect_returns.returns (n, s.world));
    frame = λ s i. record {
      later = ground (arith, timely.connect_returns.later (n, s.world));
      same_pool = ground arith;
    };
  }

  Sound-use_credentials : (key : SecretKey) → Timed timely pool (use_credentials {C = C} host key)
  unfolding use_credentials
  Sound-use_credentials key = bind timely pool (Sound-gets (Later-IsFrame timely pool) _) (λ client.
      bind timely pool (Sound-yields (Later-IsFrame timely pool) _ (λ h. ground arith)) (λ relay.
        bind timely pool
          (Sound-yields (Later-IsFrame timely pool) _
            (map_err_ends _ _ (timely.relay_returns relay _)))
          (λ with_relay.
            bind timely pool
              (Sound-yields (Later-IsFrame timely pool) _
                (map_err_ends _ _ (timely.keys_returns _ _)))
              Sound-reconnect)))

  Sound-take_credentials :
      (m : Option PoolMessage) → Timed timely pool (take_credentials {C = C} host m)
  unfolding take_credentials
  Sound-take_credentials (some (PoolMessage.credentials c)) =
      bind timely pool (Sound-reads timely pool _ (λ i. ok_or_ends _ _)) (λ p.
        choose timely pool _
          (and_then timely pool (Sound-use_credentials c.key) (Sound-value timely pool true))
          (Sound-value timely pool false))
  Sound-take_credentials none = Sound-value timely pool false
  Sound-take_credentials (some (PoolMessage.input _)) = Sound-value timely pool false
  Sound-take_credentials (some (PoolMessage.output _)) = Sound-value timely pool false
  Sound-take_credentials (some (PoolMessage.psbt _)) = Sound-value timely pool false
  Sound-take_credentials (some (PoolMessage.transaction _)) = Sound-value timely pool false
  Sound-take_credentials (some (PoolMessage.join _)) = Sound-value timely pool false

  Sound-join_round : (l : Bool × Backoff) → Timed timely pool (join_round {C = C} host l)
  unfolding join_round
  Sound-join_round (connected, b) =
      bind timely pool (Sound-on_nostr timely pool timely.receive_returns) (λ m.
        bind timely pool (Sound-take_credentials m) (λ done.
          choose timely pool done (Sound-value timely pool _)
            (bind timely pool (Sound-rest timely pool b) (λ b'. Sound-value timely pool _))))

  module _ {payload : PoolPayload} (has : pool.payload ≡ some payload) (fuel : ℕ)
      (enough : timely.rate * latest payload.timeout < fuel) where
    pub Sound-join_pool : Timed timely pool (join_pool {C = C} host fuel)
    unfolding join_pool
    Sound-join_pool = and_then timely pool (Sound-reads timely pool _ check_pool_exists_ends) (
        and_then timely pool (Sound-update timely pool _ (λ i. refl)) (
          bind timely pool (Sound-reads timely pool _ (λ i. ok_or_ends _ _)) (λ p.
            bind timely pool (Sound-get_keys timely pool) (λ keys.
              and_then timely pool (Sound-on_nostr timely pool (timely.send_returns _ _)) (
                Sound-bind_to (Later-IsFrame timely pool) (SoundTo-start_timeline timely pool has)
                  (λ timeline early.
                    bind timely pool (join_loop timeline.0 early _)
                      (λ joined. Sound-throw_if (Later-IsFrame timely pool) _ _)))))))
      where
        join_loop :
            (t : ℕ)
            → t ≤ latest payload.timeout
            → (l : Bool × Backoff)
            → Timed timely pool (loop (λ _. before {C = C} host t) (join_round host) fuel l)
        join_loop t h =
            Sound-loop (Later-IsFrame timely pool) (λ l. Sound-before timely pool t)
              Sound-join_round (λ l. before_moves timely t) (timely.rate * t)
              (λ l. before_stops timely t) fuel (in_time timely pool has fuel enough h)
