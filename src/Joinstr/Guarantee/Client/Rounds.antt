-- ===== src/Joinstr/Guarantee/Client/Rounds.antt =====
-- The rounds of a `Joinstr` keep its electrum client, and so does the whole run.
use Prim.Native.String.{String}
use joinstr.Prelude.{
  ℕ, false, refl, Option, none, some, is_some, panic, Keeps, Keeps-bind, Keeps-then, Keeps-pure,
  Keeps-gets, Keeps-ok_or, Keeps-yields, Keeps-if, Keeps-option, Keeps-throw_if, Keeps-loop,
  if◌then◌else◌, pure,
}
use joinstr.Bitcoin.{Address}
use joinstr.System.{Backoff}
use joinstr.Nostr.Input.{InputDataSigned}
use joinstr.Nostr.Pool.{Pool, PoolMessage, PublicKey}
use joinstr.Signer.{JoinstrSigner}
use joinstr.CoinJoin.{CoinJoin}
use joinstr.Joinstr.Host.{Host}
use joinstr.Joinstr.State.{Role, Joinstr, is_initiator}
use joinstr.Joinstr.Outputs.{
  send_dummy, receive_output, take_output, output_test, output_round, register_peers,
  add_own_output, collect_outputs, settle_outputs, register_outputs,
}
use joinstr.Joinstr.Inputs.{
  try_register_input, take_signed, take_input, input_round, register_inputs,
}
use joinstr.Joinstr.Start.{run_rounds, start_coinjoin_blocking}
use joinstr.Joinstr.Guarantee.{
  Keeps-reads, Keeps-passes, Keeps-clock, Keeps-before, Keeps-rest, Keeps-poll,
  Keeps-start_timeline, Keeps-end_timeline,
}
use joinstr.Joinstr.Guarantee.Outputs.{
  Keeps-peer_test, Keeps-peer_round, Keeps-send_dummy, Keeps-register_output,
}
use joinstr.Joinstr.Guarantee.Inputs.{Keeps-sign_own, Keeps-input_deadline, Keeps-input_test}
use joinstr.Joinstr.Guarantee.Client.{
  has_electrum, of_view, Keeps-set, Keeps-try, Keeps-on_coinjoin, Keeps-generate_unsigned_tx,
  Keeps-try_finalize, Keeps-broadcast_tx, Keeps-enter,
}

module _ {N C W : Type 0} (host : Host N C W) (notif : W → W) where
  Keeps-take_output :
      (m : PoolMessage) (c : CoinJoin C) → Keeps has_electrum (take_output host notif m c)
  unfolding take_output receive_output
  Keeps-take_output (PoolMessage.output a) c =
      Keeps-bind (Keeps-bind (of_view (Keeps-reads _)) (λ pool. Keeps-pure _)) (λ c'.
        Keeps-then (Keeps-set _ (λ i. refl))
          (Keeps-then (of_view (Keeps-passes notif)) (Keeps-pure c')))
  Keeps-take_output (PoolMessage.input i) c = Keeps-yields panic
  Keeps-take_output (PoolMessage.join k) c = Keeps-pure c
  Keeps-take_output (PoolMessage.psbt k) c = Keeps-pure c
  Keeps-take_output (PoolMessage.transaction k) c = Keeps-pure c
  Keeps-take_output (PoolMessage.credentials k) c = Keeps-pure c

  Keeps-output_round : (l : CoinJoin C × Backoff) → Keeps has_electrum (output_round host notif l)
  unfolding output_round
  Keeps-output_round (c, b) = Keeps-bind (of_view (Keeps-poll host)) (λ msg.
      Keeps-option msg (λ m. Keeps-bind (Keeps-take_output m c) (λ c'. Keeps-pure _))
        (Keeps-bind (of_view (Keeps-rest host b)) (λ b'. Keeps-pure _)))

  Keeps-register_peers : (fuel : ℕ) → Keeps has_electrum (register_peers {C = C} host notif fuel)
  unfolding register_peers
  Keeps-register_peers fuel = Keeps-then (of_view (Keeps-reads _)) (
      Keeps-bind (of_view Keeps-start_timeline) (λ timeline.
        Keeps-bind (of_view (Keeps-reads _)) (λ p. Keeps-bind (Keeps-yields _) (λ fee.
          Keeps-bind (of_view (Keeps-reads _)) (λ q. Keeps-bind (Keeps-gets _) (λ role.
            Keeps-bind (Keeps-gets _) (λ client. Keeps-bind (Keeps-ok_or _ _) (λ relay.
              Keeps-then (choose role q.public_key relay) (
                Keeps-bind
                  (Keeps-loop
                    (λ l. of_view (Keeps-peer_test host notif timeline.0 timeline.1 p.peers l))
                    (λ l. of_view (Keeps-peer_round host notif l)) fuel _)
                  (λ l. Keeps-pure _))))))))))
    where
      choose :
          (role : Role) (k : PublicKey) (relay : String)
          → Keeps has_electrum (
              if is_initiator role
              then send_dummy host notif k relay
              else pure {S = Joinstr N C W} tt)
      choose role k relay =
          Keeps-if (is_initiator role) (of_view (Keeps-send_dummy host notif k relay))
            (Keeps-pure tt)

  Keeps-add_own_output :
      (c : CoinJoin C) (own : Option Address) → Keeps has_electrum (add_own_output host notif c own)
  unfolding add_own_output
  Keeps-add_own_output c none = Keeps-pure c
  Keeps-add_own_output c (some a) =
      Keeps-then (of_view (Keeps-register_output host notif)) (Keeps-pure _)

  Keeps-outputs_wanted :
      (expired peers : ℕ) (l : CoinJoin C × Backoff)
      → Keeps has_electrum (output_test host notif expired peers l)
  unfolding output_test
  Keeps-outputs_wanted expired peers (c, b) =
      Keeps-bind (of_view (Keeps-before host expired)) (λ t. Keeps-pure _)

  Keeps-collect_outputs :
      (fuel : ℕ) (c : CoinJoin C) (peers : ℕ)
      → Keeps has_electrum (collect_outputs host notif fuel c peers)
  unfolding collect_outputs
  Keeps-collect_outputs fuel c peers = Keeps-bind (Keeps-gets _) (λ own.
      Keeps-bind (Keeps-add_own_output c own) (λ c'.
        Keeps-bind (of_view Keeps-end_timeline) (λ expired.
          Keeps-bind (Keeps-loop (Keeps-outputs_wanted expired peers) Keeps-output_round fuel _)
            (λ done. Keeps-pure _))))

  Keeps-settle_outputs :
      (expired needed peers : ℕ) (c : CoinJoin C)
      → Keeps has_electrum (settle_outputs host notif expired needed peers c)
  unfolding settle_outputs
  Keeps-settle_outputs expired needed peers c = Keeps-bind (of_view (Keeps-clock host)) (λ t.
      Keeps-then (Keeps-throw_if _ _) (
        Keeps-then (Keeps-throw_if _ _) (
          Keeps-then (Keeps-throw_if _ _)
            (Keeps-then (Keeps-set _ (λ i. refl)) (of_view (Keeps-passes notif))))))

  Keeps-register_outputs : (fuel : ℕ) → Keeps has_electrum (register_outputs host notif fuel)
  unfolding register_outputs
  Keeps-register_outputs fuel = Keeps-bind (Keeps-register_peers fuel) (λ r.
      Keeps-then (of_view (Keeps-passes _)) (
        Keeps-bind (Keeps-collect_outputs fuel _ _)
          (λ done. Keeps-settle_outputs done.0 _ _ done.1)))

  Keeps-take_signed : (i : InputDataSigned) → Keeps has_electrum (take_signed host notif i)
  unfolding take_signed try_register_input
  Keeps-take_signed i =
      Keeps-then
        (Keeps-then (of_view (Keeps-reads _)) (
          Keeps-bind (Keeps-try (Keeps-on_coinjoin host _)) (λ added.
            Keeps-if (is_some added)
              (Keeps-then (Keeps-set _ (λ i. refl)) (of_view (Keeps-passes notif)))
              (Keeps-pure tt))))
        (Keeps-try_finalize host)

  Keeps-take_input : (m : PoolMessage) → Keeps has_electrum (take_input host notif m)
  unfolding take_input
  Keeps-take_input (PoolMessage.psbt p) = Keeps-bind (Keeps-yields _) (λ i. Keeps-take_signed i)
  Keeps-take_input (PoolMessage.input i) = Keeps-take_signed i
  Keeps-take_input (PoolMessage.output a) = Keeps-pure false
  Keeps-take_input (PoolMessage.transaction t) = Keeps-pure false
  Keeps-take_input (PoolMessage.join k) = Keeps-pure false
  Keeps-take_input (PoolMessage.credentials c) = Keeps-pure false

  Keeps-input_round : (b : Backoff) → Keeps has_electrum (input_round host notif b)
  unfolding input_round
  Keeps-input_round b = Keeps-bind (of_view (Keeps-poll host)) (λ msg.
      Keeps-option msg (λ m. Keeps-bind (Keeps-take_input m) (λ done. Keeps-pure _))
        (Keeps-bind (of_view (Keeps-rest host b)) (λ b'. Keeps-pure _)))

  Keeps-register_inputs : (fuel : ℕ) → Keeps has_electrum (register_inputs host notif fuel)
  unfolding register_inputs
  Keeps-register_inputs fuel = Keeps-then (of_view (Keeps-reads _)) (
      Keeps-then (of_view (Keeps-reads _)) (
        Keeps-bind (of_view (Keeps-reads _)) (λ payload.
          Keeps-bind (of_view (Keeps-input_deadline host notif payload.timeout)) (λ expired.
            Keeps-bind (of_view (Keeps-clock host)) (λ t. Keeps-then (Keeps-throw_if _ _) (
              Keeps-bind
                (Keeps-loop (λ b. of_view (Keeps-input_test host notif expired b)) Keeps-input_round
                  fuel _)
                (λ l. Keeps-bind (of_view (Keeps-clock host)) (λ t'. Keeps-throw_if _ _))))))))

  Keeps-run_rounds :
      (fuel : ℕ) (signer : Option JoinstrSigner)
      → Keeps has_electrum (run_rounds host notif fuel signer)
  unfolding run_rounds
  Keeps-run_rounds fuel signer = Keeps-then (of_view (Keeps-passes notif)) (
      Keeps-then (Keeps-register_outputs fuel) (
        Keeps-then (Keeps-generate_unsigned_tx host) (
          Keeps-then (of_view (Keeps-passes notif)) (
            Keeps-then (of_view (Keeps-passes _)) (
              Keeps-then (of_view (Keeps-sign_own host notif signer)) (
                Keeps-then (Keeps-register_inputs fuel)
                  (Keeps-then (Keeps-broadcast_tx host) (of_view (Keeps-passes notif)))))))))

  -- However a run ends, it has an electrum client where it had one.
  pub Keeps-start_coinjoin_blocking :
      (fuel : ℕ) (given : Option Pool) (signer : Option JoinstrSigner)
      → Keeps has_electrum (start_coinjoin_blocking host notif fuel given signer)
  unfolding start_coinjoin_blocking
  Keeps-start_coinjoin_blocking fuel given signer = Keeps-bind (Keeps-gets _) (λ role.
      Keeps-then (Keeps-throw_if _ _)
        (Keeps-then (Keeps-enter host fuel given) (Keeps-run_rounds fuel signer)))
