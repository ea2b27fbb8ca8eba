-- ===== src/Joinstr/Progress/Rounds.antt =====
-- Each round of the loops of a `Joinstr` ends, takes no time back, and leaves the pool alone.
use Prim.Native.String.{String}
use joinstr.Prelude.{
  Outcome-cases, inl, inr, ℕ, Bool, Option, none, some, List, ◌/◌, ◌≤◌, panic, unfinished, map_err,
  ok_or_err, arith, Outcome, ok, err, Sound, Sound-gets, Sound-yields, Sound-ok_or, Action, refl,
  ◌≢◌,
}
use joinstr.System.{snooze, Backoff, base_sleep, total_sleep}
use joinstr.Nostr.Pool.{Pool, PoolMessage, PublicKey}
use joinstr.CoinJoin.{CoinJoin}
use joinstr.Joinstr.Error.{Error}
use joinstr.Joinstr.Host.{Host}
use joinstr.Joinstr.State.{JoinstrInner, Joinstr, in_world}
use joinstr.Bitcoin.{Address}
use joinstr.Joinstr.Setup.{connect}
use joinstr.Joinstr.Pool.{check_pool_exists, payload_as_ref, get_keys}
use joinstr.Joinstr.Join.{clock, before, rest, poll}
use joinstr.Joinstr.Outputs.{
  send_credentials, register_peer, take_join, peer_test, peer_round, receive_output, take_output,
  output_test, output_round, register_output, send_dummy,
}
use joinstr.Joinstr.Progress.{
  IsTimely, HasPool, Later, Later-IsFrame, Sound-reads, Sound-on_nostr, Sound-asks, Sound-attempt,
  Sound-in_world, Sound-update, Sound-passes, bind, and_then, choose, choose_some, Sound-value,
}

module _ {A E : Type 0} where
  pub map_err_ends :
      {F : Type 0} (f : E → F) (r : Outcome E A) → r ≢ unfinished → map_err f r ≢ unfinished
  map_err_ends f (ok a) p h = cc
  map_err_ends f (err e) p h = cc
  map_err_ends f panic p h = cc
  map_err_ends f unfinished p h = p refl

  pub ok_or_ends : (o : Option A) (e : E) → ok_or_err o e ≢ unfinished
  ok_or_ends none e h = cc
  ok_or_ends (some a) e h = cc

module _ {N C : Type 0} (i : JoinstrInner N C) where
  pub check_pool_exists_ends : check_pool_exists i ≢ unfinished
  unfolding check_pool_exists
  check_pool_exists_ends h = ground arith

  pub payload_as_ref_ends : payload_as_ref i ≢ unfinished
  unfolding payload_as_ref
  payload_as_ref_ends h = ground arith

module _ {N C W : Type 0} {host : Host N C W} {notif : W → W} (timely : IsTimely host notif)
    (pool : Pool) where
  abbrev pub Timed : {A : Type 0} → Action (Joinstr N C W) Error A → Type 0
  Timed = Sound (HasPool timely pool) (Later timely pool)

  pub Sound-clock : Timed (clock {C = C} host)
  unfolding clock
  Sound-clock = Sound-asks timely pool _ (λ w. ground (arith, timely.now_counts w))

  pub Sound-before : (t : ℕ) → Timed (before {C = C} host t)
  unfolding before
  Sound-before t = bind timely pool (Sound-clock) (λ now. Sound-value timely pool _)

  pub Sound-poll : Timed (poll {C = C} host)
  unfolding poll
  Sound-poll =
      bind timely pool
        (Sound-attempt timely pool (Sound-on_nostr timely pool timely.receive_returns))
        (λ m. Sound-value timely pool _)

  snooze_later : (b : Backoff) (w : W) → timely.ticks w ≤ timely.ticks (snooze host.system b w).1
  unfolding snooze
  snooze_later b w =
      let (jitter, w') = host.system.random_range 0 (base_sleep b.current_step / 2) w in
      ground (
        arith,
        timely.yield_later w,
        timely.random_later 0 (base_sleep b.current_step / 2) w,
        timely.sleep_later (total_sleep b jitter) w',
      )

  pub Sound-rest : (b : Backoff) → Timed (rest {C = C} host b)
  unfolding rest
  Sound-rest b = Sound-asks timely pool _ (snooze_later b)

  pub Sound-get_keys : Timed (get_keys {C = C} host)
  unfolding get_keys
  Sound-get_keys =
      Sound-reads timely pool _ (λ i. map_err_ends _ _ (timely.get_keys_returns i.client))

  Sound-send_credentials : (npub : PublicKey) → Timed (send_credentials {C = C} host notif npub)
  unfolding send_credentials
  Sound-send_credentials npub =
      bind timely pool (Sound-reads timely pool _ (λ i. ok_or_ends _ _)) (λ p.
        bind timely pool Sound-get_keys
          (λ keys. Sound-on_nostr timely pool (timely.send_returns _ _)))

  Sound-register_peer :
      (npub : PublicKey) (peers : List PublicKey)
      → Timed (register_peer {C = C} host notif npub peers)
  unfolding register_peer
  Sound-register_peer npub peers = choose timely pool _ (Sound-value timely pool _) (
      bind timely pool (Sound-gets (Later-IsFrame timely pool) _) (λ role.
        and_then timely pool
          (choose timely pool _ (Sound-send_credentials npub) (Sound-value timely pool tt))
          (and_then timely pool (Sound-update timely pool _ (λ i. refl)) (
            and_then timely pool (Sound-passes timely pool timely.notif_later)
              (Sound-value timely pool _)))))

  Sound-take_join :
      (m : PoolMessage) (peers : List PublicKey) → Timed (take_join {C = C} host notif m peers)
  unfolding take_join
  Sound-take_join (PoolMessage.join (some npub)) peers = Sound-register_peer npub peers
  Sound-take_join (PoolMessage.join none) peers =
      Sound-yields (Later-IsFrame timely pool) panic (λ h. cc)
  Sound-take_join (PoolMessage.output _) peers = Sound-value timely pool peers
  Sound-take_join (PoolMessage.input _) peers = Sound-value timely pool peers
  Sound-take_join (PoolMessage.psbt _) peers = Sound-value timely pool peers
  Sound-take_join (PoolMessage.transaction _) peers = Sound-value timely pool peers
  Sound-take_join (PoolMessage.credentials _) peers = Sound-value timely pool peers

  pub Sound-peer_test :
      (expired : ℕ) (start_early : Bool) (needed : ℕ) (l : List PublicKey × Backoff)
      → Timed (peer_test {C = C} host notif expired start_early needed l)
  unfolding peer_test
  Sound-peer_test expired start_early needed (peers, b) =
      bind timely pool (Sound-before expired) (λ early. Sound-value timely pool _)

  pub Sound-peer_round : (l : List PublicKey × Backoff) → Timed (peer_round {C = C} host notif l)
  unfolding peer_round
  Sound-peer_round (peers, b) = bind timely pool Sound-poll (λ msg.
      choose_some timely pool msg
        (λ m. bind timely pool (Sound-take_join m peers) (λ peers'. Sound-value timely pool _))
        (bind timely pool (Sound-rest b) (λ b'. Sound-value timely pool _)))

  Sound-receive_output : (o : Address) (c : CoinJoin C) → Timed (receive_output host notif o c)
  unfolding receive_output
  Sound-receive_output o c =
      bind timely pool (Sound-reads timely pool _ (λ i. ok_or_ends _ _))
        (λ p. Sound-value timely pool _)

  Sound-take_output : (m : PoolMessage) (c : CoinJoin C) → Timed (take_output host notif m c)
  unfolding take_output
  Sound-take_output (PoolMessage.output o) c = bind timely pool (Sound-receive_output o c) (λ c'.
      and_then timely pool (Sound-update timely pool _ (λ i. refl)) (
        and_then timely pool (Sound-passes timely pool timely.notif_later)
          (Sound-value timely pool c')))
  Sound-take_output (PoolMessage.input _) c =
      Sound-yields (Later-IsFrame timely pool) panic (λ h. cc)
  Sound-take_output (PoolMessage.join _) c = Sound-value timely pool c
  Sound-take_output (PoolMessage.psbt _) c = Sound-value timely pool c
  Sound-take_output (PoolMessage.transaction _) c = Sound-value timely pool c
  Sound-take_output (PoolMessage.credentials _) c = Sound-value timely pool c

  pub Sound-output_test :
      (expired peers : ℕ) (l : CoinJoin C × Backoff)
      → Timed (output_test host notif expired peers l)
  unfolding output_test
  Sound-output_test expired peers (c, b) =
      bind timely pool (Sound-before expired) (λ early. Sound-value timely pool _)

  pub Sound-output_round : (l : CoinJoin C × Backoff) → Timed (output_round host notif l)
  unfolding output_round
  Sound-output_round (c, b) = bind timely pool Sound-poll (λ msg.
      choose_some timely pool msg
        (λ m. bind timely pool (Sound-take_output m c) (λ c'. Sound-value timely pool _))
        (bind timely pool (Sound-rest b) (λ b'. Sound-value timely pool _)))

  pub Sound-register_output : Timed (register_output {C = C} host notif)
  unfolding register_output
  Sound-register_output = bind timely pool (Sound-gets (Later-IsFrame timely pool) _) (λ output.
      bind timely pool (Sound-ok_or (Later-IsFrame timely pool) output _) (λ address.
        and_then timely pool (Sound-reads timely pool _ check_pool_exists_ends) (
          bind timely pool (Sound-reads timely pool _ (λ i. ok_or_ends _ _)) (λ p.
            and_then timely pool (Sound-on_nostr timely pool (timely.send_returns _ _)) (
              and_then timely pool (Sound-update timely pool _ (λ i. refl))
                (Sound-passes timely pool timely.notif_later))))))

  connect_ends : (n : N) (w : W) → (connect {C = C} host n w).0 ≢ unfinished
  unfolding connect
  connect_ends n w = elim (Outcome-cases (host.nostr.connect_nostr (n, w)).0) [
    | inl (a, e) ↦ rw e (λ h. cc)
    | inr (inl (x, e)) ↦ rw e (λ h. cc)
    | inr (inr (inl e)) ↦ rw e (λ h. cc)
    | inr (inr (inr e)) ↦ absurd (timely.connect_returns.returns _ e)
  ]

  pub Sound-connect : (n : N) → Timed (in_world {C = C} (connect host n))
  unfolding connect
  Sound-connect n =
      Sound-in_world timely pool (connect_ends n) (λ w. timely.connect_returns.later (n, w))

  pub Sound-send_dummy : (k : PublicKey) (r : String) → Timed (send_dummy {C = C} host notif k r)
  unfolding send_dummy
  Sound-send_dummy k r = bind timely pool (Sound-asks timely pool _ timely.keys_later) (λ keys.
      bind timely pool
        (Sound-yields (Later-IsFrame timely pool) _ (map_err_ends _ _ (timely.keys_returns keys _)))
        (λ with_keys.
          bind timely pool
            (Sound-yields (Later-IsFrame timely pool) _
              (map_err_ends _ _ (timely.relay_returns r with_keys)))
            (λ with_relay. bind timely pool (Sound-connect with_relay) (λ dummy.
              bind timely pool (Sound-asks timely pool _ timely.keys_later) (λ response.
                Sound-in_world timely pool
                  (λ w. map_err_ends _ _ ((timely.send_returns k _).returns (dummy, w)))
                  (λ w. (timely.send_returns k _).later (dummy, w)))))))
