-- ===== src/Joinstr/Progress/Inputs.antt =====
-- Each round in which inputs are registered ends, takes no time back, and leaves the pool alone.
use joinstr.Prelude.{
  ℕ, ◌≢◌, refl, inl, inr, false, arith, unfinished, Action, Option-cases, is_none, Sound-gets,
  Sound-yields, Sound-ok_or,
}
use joinstr.System.{Backoff}
use joinstr.Electrum.Error.{Error as ElectrumError}
use joinstr.Nostr.Input.{InputDataSigned}
use joinstr.Nostr.Pool.{Pool, PoolMessage, input_of_psbt}
use joinstr.Bitcoin.{Bitcoin, Psbt}
use joinstr.Signer.{JoinstrSigner, Coin}
use joinstr.CoinJoin.{CoinJoin}
use joinstr.CoinJoin.Backend.{Error as CoinJoinError}
use joinstr.CoinJoin.Ends.{add_input_ends, generate_psbt_ends, generate_tx_ends}
use joinstr.Joinstr.Host.{Host}
use joinstr.Joinstr.State.{JoinstrInner}
use joinstr.Joinstr.Pool.{coinjoin_exists, coinjoin_as_ref}
use joinstr.Joinstr.Inputs.{
  on_coinjoin, on_electrum, generate_unsigned_tx, try_finalize_coinjoin, broadcast_tx,
  register_input, try_register_input, take_signed, take_input, input_test, input_round,
}
use joinstr.Joinstr.Progress.{
  IsTimely, Later-IsFrame, Sound-reads, Sound-on_nostr, Sound-attempt, Sound-update, Sound-passes,
  bind, and_then, choose, choose_some, Sound-value,
}
use joinstr.Joinstr.Progress.Rounds.{
  Timed, map_err_ends, ok_or_ends, check_pool_exists_ends, Sound-before, Sound-poll, Sound-rest,
}

module _ {N C : Type 0} (i : JoinstrInner N C) where
  pub coinjoin_exists_ends : coinjoin_exists i ≢ unfinished
  unfolding coinjoin_exists
  coinjoin_exists_ends h = ground arith

  pub coinjoin_as_ref_ends : coinjoin_as_ref i ≢ unfinished
  unfolding coinjoin_as_ref
  coinjoin_as_ref_ends = ok_or_ends _ _

input_of_psbt_ends : (lib : Bitcoin) (p : Psbt) → input_of_psbt lib p ≢ unfinished
unfolding input_of_psbt
input_of_psbt_ends lib p h = ground arith

module _ {N C W : Type 0} {host : Host N C W} {notif : W → W} (timely : IsTimely host notif)
    (pool : Pool) where
  Sound-on_coinjoin :
      {A : Type 0} (m : Action (CoinJoin C) CoinJoinError A)
      → ((c : CoinJoin C) → (m c).0 ≢ unfinished)
      → Timed timely pool (on_coinjoin host m)
  unfolding on_coinjoin
  Sound-on_coinjoin m p = record {
    ends = λ s i h. elim (Option-cases s.inner.coinjoin) [
      | inl e ↦ ground arith
      | inr (c, e) ↦ ground (arith, p c)
    ];
    frame = λ s i. record { later = ground arith; same_pool = ground arith };
  }

  Sound-on_electrum :
      (m : Action C ElectrumError (Unit {0}))
      → ((c : C) → (m c).0 ≢ unfinished)
      → Timed timely pool (on_electrum host m)
  unfolding on_electrum
  Sound-on_electrum m p = record {
    ends = λ s i h. elim (Option-cases s.inner.electrum_client) [
      | inl e ↦ ground arith
      | inr (c, e) ↦ ground (arith, p c)
    ];
    frame = λ s i. record { later = ground arith; same_pool = ground arith };
  }

  pub Sound-generate_unsigned_tx : Timed timely pool (generate_unsigned_tx host)
  unfolding generate_unsigned_tx
  Sound-generate_unsigned_tx =
      Sound-on_coinjoin _ (generate_psbt_ends _ timely.backend_answers host.bitcoin)

  Sound-try_finalize_coinjoin : Timed timely pool (try_finalize_coinjoin host)
  unfolding try_finalize_coinjoin
  Sound-try_finalize_coinjoin =
      bind timely pool (Sound-reads timely pool _ (λ i. ok_or_ends _ _)) (λ c.
        choose timely pool _
          (bind timely pool
            (Sound-attempt timely pool
              (Sound-on_coinjoin _ (generate_tx_ends _ timely.backend_answers host.bitcoin false)))
            (λ done. Sound-value timely pool _))
          (Sound-value timely pool _))

  pub Sound-broadcast_tx : Timed timely pool (broadcast_tx host)
  unfolding broadcast_tx
  Sound-broadcast_tx = and_then timely pool (Sound-reads timely pool _ check_pool_exists_ends) (
      bind timely pool (Sound-reads timely pool _ (λ i. ok_or_ends _ _)) (λ c.
        bind timely pool (Sound-ok_or (Later-IsFrame timely pool) _ _) (λ tx.
          and_then timely pool (Sound-on_electrum _ (timely.broadcast_returns tx))
            (Sound-update timely pool _ (λ i. refl)))))

  pub Sound-register_input :
      (signer : JoinstrSigner)
      → ((tx : _) (c : Coin) → signer.sign_input tx c ≢ unfinished)
      → Timed timely pool (register_input host notif signer)
  unfolding register_input
  Sound-register_input signer p =
      bind timely pool (Sound-reads timely pool _ (λ i. ok_or_ends _ _)) (λ c.
        bind timely pool (Sound-ok_or (Later-IsFrame timely pool) _ _) (λ unsigned.
          bind timely pool (Sound-gets (Later-IsFrame timely pool) _) (λ input.
            and_then timely pool (Sound-update timely pool _ (λ i. refl)) (
              bind timely pool (Sound-ok_or (Later-IsFrame timely pool) input _) (λ coin.
                bind timely pool
                  (Sound-yields (Later-IsFrame timely pool) _ (map_err_ends _ _ (p unsigned coin)))
                  (λ signed.
                    and_then timely pool (Sound-reads timely pool _ check_pool_exists_ends) (
                      bind timely pool (Sound-reads timely pool _ (λ i. ok_or_ends _ _)) (λ q.
                        and_then timely pool (Sound-on_nostr timely pool (timely.send_returns _ _))
                          (and_then timely pool (Sound-update timely pool _ (λ i. refl))
                            (Sound-passes timely pool timely.notif_later))))))))))

  Sound-try_register_input :
      (input : InputDataSigned) → Timed timely pool (try_register_input host notif input)
  unfolding try_register_input
  Sound-try_register_input input =
      and_then timely pool (Sound-reads timely pool _ coinjoin_exists_ends) (
        bind timely pool
          (Sound-attempt timely pool
            (Sound-on_coinjoin _ (add_input_ends _ timely.backend_answers input)))
          (λ added.
            choose timely pool _
              (and_then timely pool (Sound-update timely pool _ (λ i. refl))
                (Sound-passes timely pool timely.notif_later))
              (Sound-value timely pool tt)))

  Sound-take_signed : (input : InputDataSigned) → Timed timely pool (take_signed host notif input)
  unfolding take_signed
  Sound-take_signed input =
      and_then timely pool (Sound-try_register_input input) Sound-try_finalize_coinjoin

  Sound-take_input : (m : PoolMessage) → Timed timely pool (take_input host notif m)
  unfolding take_input
  Sound-take_input (PoolMessage.psbt p) =
      bind timely pool
        (Sound-yields (Later-IsFrame timely pool) _
          (map_err_ends _ _ (input_of_psbt_ends host.bitcoin p)))
        Sound-take_signed
  Sound-take_input (PoolMessage.input i) = Sound-take_signed i
  Sound-take_input (PoolMessage.output _) = Sound-value timely pool false
  Sound-take_input (PoolMessage.transaction _) = Sound-value timely pool false
  Sound-take_input (PoolMessage.join _) = Sound-value timely pool false
  Sound-take_input (PoolMessage.credentials _) = Sound-value timely pool false

  pub Sound-input_test :
      (expired : ℕ) (b : Backoff) → Timed timely pool (input_test host notif expired b)
  unfolding input_test
  Sound-input_test expired b = bind timely pool (Sound-before timely pool expired) (λ early.
      choose timely pool early
        (bind timely pool (Sound-reads timely pool coinjoin_as_ref coinjoin_as_ref_ends)
          (λ c. Sound-value timely pool (is_none c.tx)))
        (Sound-value timely pool false))

  pub Sound-input_round : (b : Backoff) → Timed timely pool (input_round host notif b)
  unfolding input_round
  Sound-input_round b = bind timely pool (Sound-poll timely pool) (λ msg.
      choose_some timely pool msg
        (λ m. bind timely pool (Sound-take_input m) (λ done. Sound-value timely pool _))
        (bind timely pool (Sound-rest timely pool b) (λ b'. Sound-value timely pool _)))
