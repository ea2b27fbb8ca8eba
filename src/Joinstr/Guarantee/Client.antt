-- ===== src/Joinstr/Guarantee/Client.antt =====
-- A `Joinstr` keeps its electrum client: a run neither sets nor drops it.
pub mod Rounds
use Prim.Native.String.{String}
use joinstr.Prelude.{
  Action, ℕ, Bool, false, ◌≡◌, refl, ap, arith, inl, inr, Option, none, some, is_some, leb, panic,
  Option-cases, Keeps, Keeps-bind, Keeps-then, Keeps-pure, Keeps-gets, Keeps-ok_or, Keeps-yields,
  Keeps-if, Keeps-option, Keeps-throw_if, Keeps-loop, ◌>>◌, if◌then◌else◌, pure,
}
use joinstr.Bitcoin.{Address}
use joinstr.System.{Backoff}
use joinstr.Electrum.Error.{Error as ElectrumError}
use joinstr.Nostr.Input.{InputDataSigned}
use joinstr.Nostr.Pool.{Pool, PoolMessage, PublicKey}
use joinstr.Signer.{JoinstrSigner}
use joinstr.CoinJoin.Backend.{Error as CoinJoinError}
use joinstr.CoinJoin.{CoinJoin, inputs_len, outputs_len}
use joinstr.Joinstr.Error.{Error}
use joinstr.Joinstr.Host.{Host}
use joinstr.Joinstr.State.{Role, Joinstr, JoinstrInner, update, attempt, is_initiator}
use joinstr.Joinstr.Pool.{new_pool, publish, post}
use joinstr.Joinstr.Outputs.{
  send_dummy, receive_output, take_output, output_test, output_round, register_peers,
  add_own_output, collect_outputs, settle_outputs, register_outputs,
}
use joinstr.Joinstr.Inputs.{
  on_coinjoin, on_electrum, generate_unsigned_tx, try_finalize_coinjoin, broadcast_tx,
  try_register_input, take_signed, take_input, input_round, register_inputs,
}
use joinstr.Joinstr.Start.{enter, run_rounds, start_coinjoin_blocking}
use joinstr.Joinstr.Guarantee.{
  view, Keeps-reads, Keeps-on_nostr, Keeps-passes, Keeps-clock, Keeps-before, Keeps-rest,
  Keeps-poll, Keeps-start_timeline, Keeps-end_timeline,
}
use joinstr.Joinstr.Guarantee.Outputs.{
  Keeps-peer_test, Keeps-peer_round, Keeps-send_dummy, Keeps-register_output,
}
use joinstr.Joinstr.Guarantee.Inputs.{Keeps-sign_own, Keeps-input_deadline, Keeps-input_test}
use joinstr.Joinstr.Guarantee.Join.{Keeps-join_pool}

module _ {N C W : Type 0} where
  -- Is there an electrum client?
  abbrev pub has_electrum : Joinstr N C W → Bool
  has_electrum s = is_some s.inner.electrum_client

  pub of_view :
      {A : Type 0} {m : Action (Joinstr N C W) Error A} → Keeps view m → Keeps has_electrum m
  of_view k = record { kept = λ s. ap (λ v. is_some v.3) (k.kept s) }

  pub Keeps-set :
      (f : JoinstrInner N C → JoinstrInner N C)
      → ((i : JoinstrInner N C) → (f i).electrum_client ≡ i.electrum_client)
      → Keeps has_electrum (update {W = W} f)
  unfolding update
  Keeps-set f h = record { kept = λ s. ap is_some (h s.inner) }

  pub Keeps-try :
      {A : Type 0} {m : Action (Joinstr N C W) Error A}
      → Keeps has_electrum m
      → Keeps has_electrum (attempt m)
  unfolding attempt
  Keeps-try k = record { kept = λ s. k.kept s }

module _ {N C W : Type 0} (host : Host N C W) where
  pub Keeps-on_coinjoin :
      {A : Type 0} (m : Action (CoinJoin C) CoinJoinError A)
      → Keeps has_electrum (on_coinjoin host m)
  unfolding on_coinjoin
  Keeps-on_coinjoin m = record {
    kept = λ s. elim (Option-cases s.inner.coinjoin) [ inl e ↦ rw e refl | inr (c, e) ↦ rw e refl ];
  }

  Keeps-on_electrum :
      (m : Action C ElectrumError (Unit {0})) → Keeps has_electrum (on_electrum host m)
  unfolding on_electrum
  Keeps-on_electrum m = record {
    kept = λ s. elim (Option-cases s.inner.electrum_client) [
      | inl e ↦ ground (arith, e)
      | inr (c, e) ↦ ground (arith, e)
    ];
  }

  pub Keeps-generate_unsigned_tx : Keeps has_electrum (generate_unsigned_tx host)
  unfolding generate_unsigned_tx
  Keeps-generate_unsigned_tx = Keeps-on_coinjoin _

  pub Keeps-try_finalize : Keeps has_electrum (try_finalize_coinjoin host)
  unfolding try_finalize_coinjoin
  Keeps-try_finalize = Keeps-bind (of_view (Keeps-reads _)) (λ c.
      Keeps-if (leb (outputs_len c) (inputs_len c))
        (Keeps-bind (Keeps-try (Keeps-on_coinjoin _)) (λ done. Keeps-pure _)) (Keeps-pure false))

  pub Keeps-broadcast_tx : Keeps has_electrum (broadcast_tx host)
  unfolding broadcast_tx
  Keeps-broadcast_tx = Keeps-then (of_view (Keeps-reads _)) (
      Keeps-bind (of_view (Keeps-reads _)) (λ c.
        Keeps-bind (Keeps-ok_or _ _)
          (λ tx. Keeps-then (Keeps-on_electrum _) (Keeps-set _ (λ i. refl)))))

  Keeps-new_pool : Keeps has_electrum (new_pool host)
  unfolding new_pool update ◌>>◌
  Keeps-new_pool = record { kept = λ s. ground arith }

  Keeps-post : Keeps has_electrum (post host)
  unfolding post publish
  Keeps-post = Keeps-then (of_view (Keeps-reads _)) (
      Keeps-then (of_view (Keeps-reads _)) (
        Keeps-then (Keeps-set _ (λ i. refl)) (
          Keeps-bind Keeps-new_pool (λ pool.
            Keeps-bind (Keeps-yields _)
              (λ builder. Keeps-then (of_view (Keeps-on_nostr _)) (Keeps-set _ (λ i. refl)))))))

  pub Keeps-enter :
      (fuel : ℕ) (given : Option Pool) → Keeps has_electrum (enter {C = C} host fuel given)
  unfolding enter
  Keeps-enter fuel (some pool) =
      Keeps-then (of_view (Keeps-reads _))
        (Keeps-then (Keeps-set _ (λ i. refl)) (of_view (Keeps-join_pool host fuel)))
  Keeps-enter fuel none = Keeps-post
