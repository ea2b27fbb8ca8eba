-- ===== src/Joinstr/Start.antt =====
-- A whole coinjoin: `start_coinjoin_blocking`, and the threads that run it.
use joinstr.Prelude.{
  Bool, ℕ, Option, none, some, is_some, if◌then◌else◌, ok, err, panic, unfinished, Action, gets,
  throw, throw_if, pure, true, false, ◌>>=◌, ◌>>◌,
}
use joinstr.System.{rand_delay}
use joinstr.Nostr.Pool.{Pool}
use joinstr.Signer.{JoinstrSigner}
use joinstr.Joinstr.Error.{Error, wrong_role, signer_missing}
use joinstr.Joinstr.Host.{Host}
use joinstr.Joinstr.State.{Joinstr, Role, unknown, initiator, peer, reads, update, passes, failed}
use joinstr.Joinstr.Pool.{check_pool_not_exists, post}
use joinstr.Joinstr.Join.{join_pool}
use joinstr.Joinstr.Outputs.{register_outputs}
use joinstr.Joinstr.Inputs.{generate_unsigned_tx, register_input, register_inputs, broadcast_tx}

abbrev pub is_unknown : Role → Bool
is_unknown unknown = true
is_unknown initiator = false
is_unknown peer = false

module _ {N C W : Type 0} (host : Host N C W) where
  -- A peer that is given a pool joins it; one that is not posts its own.
  unfoldable pub enter : (fuel : ℕ) → Option Pool → Action (Joinstr N C W) Error (Unit {0})
  unfolding check_pool_not_exists
  enter fuel (some pool) = do
    reads check_pool_not_exists
    update (λ i. record i { pool = some pool })
    join_pool host fuel
  enter fuel none = post host

  module _ (notif : W → W) where
    unfoldable pub sign_with : Option JoinstrSigner → Action (Joinstr N C W) Error (Unit {0})
    sign_with (some signer) = register_input host notif signer
    sign_with none = throw signer_missing

    -- The own input, if there is one.
    unfoldable pub sign_own : Option JoinstrSigner → Action (Joinstr N C W) Error (Unit {0})
    sign_own signer = do
      input ← gets (λ s. s.inner.input)
      if is_some input then sign_with signer else pure tt

    -- What follows once the pool is there.
    unfoldable pub run_rounds :
        (fuel : ℕ) → Option JoinstrSigner → Action (Joinstr N C W) Error (Unit {0})
    unfolding rand_delay
    run_rounds fuel signer = do
      passes notif
      register_outputs host notif fuel
      generate_unsigned_tx host
      passes notif
      passes (rand_delay host.system)
      sign_own signer
      register_inputs host notif fuel
      broadcast_tx host
      passes notif

    unfoldable pub start_coinjoin_blocking :
        (fuel : ℕ) → Option Pool → Option JoinstrSigner → Action (Joinstr N C W) Error (Unit {0})
    start_coinjoin_blocking fuel pool signer = do
      role ← gets (λ s. s.inner.role)
      throw_if (is_unknown role) wrong_role
      enter fuel pool
      run_rounds fuel signer

    -- What the spawned thread leaves behind. A panic ends the thread.
    unfoldable pub start_coinjoin_with_notif :
        (fuel : ℕ) → Option Pool → Option JoinstrSigner → Joinstr N C W → Joinstr N C W
    unfolding start_coinjoin_blocking
    start_coinjoin_with_notif fuel pool signer s =
        let (r, s') = start_coinjoin_blocking fuel pool signer s in
        elim r [
          | ok _ ↦ s'
          | err e ↦ record s' {
            inner = record s'.inner { error = some (host.debug e); step = failed };
          }
          | panic ↦ s'
          | unfinished ↦ s'
        ]

  unfoldable pub start_coinjoin :
      (fuel : ℕ) → Option Pool → Option JoinstrSigner → Joinstr N C W → Joinstr N C W
  unfolding start_coinjoin_with_notif
  start_coinjoin = start_coinjoin_with_notif (λ w. w)
