-- ===== src/Joinstr/Progress/Whole.antt =====
-- A whole coinjoin ends.
use native.Mathlib.Nat.{mod-le}
use joinstr.Prelude.{
  ℕ, ◌+◌, ◌*◌, ◌^◌, ◌%◌, ◌≤◌, ◌<◌, ◌≡◌, ◌≢◌, Option, none, some, arith, unfinished, SoundTo,
  Sound-bind_to, Sound-gets, Sound-throw, Sound-throw_if, ◌>>◌,
}
use joinstr.Nostr.Pool.{Pool, PoolPayload, Timeline}
use joinstr.Signer.{JoinstrSigner, Coin}
use joinstr.Bitcoin.{Transaction}
use joinstr.Joinstr.Host.{Host}
use joinstr.Joinstr.State.{update, passes}
use joinstr.Joinstr.Inputs.{input_deadline, register_inputs}
use joinstr.Joinstr.Start.{sign_with, sign_own, run_rounds}
use joinstr.Joinstr.Progress.{
  IsTimely, HasPool, Later, Later-IsFrame, bind, and_then, choose, Sound-value, Sound-reads,
  Sound-passes,
}
use joinstr.Joinstr.Progress.Inputs.{
  coinjoin_exists_ends, Sound-register_input, Sound-generate_unsigned_tx, Sound-broadcast_tx,
}
use joinstr.Joinstr.Progress.Rounds.{Timed, Sound-clock, check_pool_exists_ends}
use joinstr.Joinstr.Progress.Deadlines.{
  latest, rand_delay_later, SoundTo-payload, Sound-input_loop, Sound-register_outputs,
}

-- A signer that returns.
abbrev pub Signs : Option JoinstrSigner → Type 0
Signs none = Unit
Signs (some signer) = (tx : Transaction) (c : Coin) → signer.sign_input tx c ≢ unfinished

module _ {N C W : Type 0} {host : Host N C W} {notif : W → W} (timely : IsTimely host notif)
    (pool : Pool) {payload : PoolPayload} (has : pool.payload ≡ some payload) where
  SoundTo-input_deadline :
      (t : Timeline)
      → SoundTo
          (HasPool timely pool)
          (Later timely pool)
          (λ e. e ≤ latest t)
          (input_deadline {C = C} host notif t)
  unfolding input_deadline ◌>>◌ update
  SoundTo-input_deadline (Timeline.simple t) = record {
    sound = Sound-value timely pool t;
    post = λ s i e h. ground arith;
  }
  SoundTo-input_deadline (Timeline.fixed start max_duration) = record {
    sound = Sound-value timely pool _;
    post = λ s i e h. ground (arith, mod-le (start + max_duration) (2 ^ 64));
  }
  SoundTo-input_deadline (Timeline.timeout t max_duration) = record {
    sound =
        bind timely pool (Sound-clock timely pool)
          (λ now. Sound-value timely pool ((now + max_duration) % 2 ^ 64));
    post = λ s i e h. ground arith;
  }

  module _ (fuel : ℕ) (enough : timely.rate * latest payload.timeout < fuel) where
    Sound-register_inputs : Timed timely pool (register_inputs {C = C} host notif fuel)
    unfolding register_inputs
    Sound-register_inputs =
        and_then timely pool (Sound-reads timely pool _ check_pool_exists_ends) (
          and_then timely pool (Sound-reads timely pool _ coinjoin_exists_ends) (
            Sound-bind_to (Later-IsFrame timely pool) (SoundTo-payload timely pool has) (λ p same.
              Sound-bind_to (Later-IsFrame timely pool) (SoundTo-input_deadline p.timeout)
                (λ expired early. bind timely pool (Sound-clock timely pool) (λ t.
                  and_then timely pool (Sound-throw_if (Later-IsFrame timely pool) _ _) (
                    bind timely pool
                      (Sound-input_loop timely pool has fuel enough expired (rw same at early) _)
                      (λ b.
                        bind timely pool (Sound-clock timely pool)
                          (λ t'. Sound-throw_if (Later-IsFrame timely pool) _ _))))))))

    Sound-sign_with :
        (signer : Option JoinstrSigner)
        → Signs signer
        → Timed timely pool (sign_with host notif signer)
    unfolding sign_with
    Sound-sign_with none p = Sound-throw (Later-IsFrame timely pool) _
    Sound-sign_with (some k) p = Sound-register_input timely pool k p

    Sound-sign_own :
        (signer : Option JoinstrSigner)
        → Signs signer
        → Timed timely pool (sign_own host notif signer)
    unfolding sign_own
    Sound-sign_own signer p =
        bind timely pool (Sound-gets (Later-IsFrame timely pool) _)
          (λ input. choose timely pool _ (Sound-sign_with signer p) (Sound-value timely pool tt))

    pub Sound-run_rounds :
        (signer : Option JoinstrSigner)
        → Signs signer
        → Timed timely pool (run_rounds host notif fuel signer)
    unfolding run_rounds
    Sound-run_rounds signer p = and_then timely pool notified (
        and_then timely pool (Sound-register_outputs timely pool has fuel enough) (
          and_then timely pool (Sound-generate_unsigned_tx timely pool) (
            and_then timely pool notified (
              and_then timely pool
                (Sound-passes timely pool (rand_delay_later timely pool has fuel enough))
                (and_then timely pool (Sound-sign_own signer p) (
                  and_then timely pool Sound-register_inputs
                    (and_then timely pool (Sound-broadcast_tx timely pool) notified)))))))
      where
        notified : Timed timely pool (passes {N = N} {C = C} notif)
        notified = Sound-passes timely pool timely.notif_later
