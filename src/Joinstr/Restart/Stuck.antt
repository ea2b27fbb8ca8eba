-- ===== src/Joinstr/Restart/Stuck.antt =====
-- Where the thread of a restart gets stuck.
use Prim.Native.String.{String}
use joinstr.Prelude.{
  ◌≡◌, ◌∙◌, ap, gets, ◌>>◌, arith, ℕ, ◌≤◌, ◌<◌, none, some, length, ok, err, Option-cases, inl, inr,
  runs, Ensures, Ensures-bind, Ensures-mono, Ensures-then, Ensures-pure, pure, ◌>>=◌,
}
use joinstr.Nostr.Pool.{PoolPayload}
use joinstr.Signer.{JoinstrSigner}
use joinstr.Joinstr.Error.{coinjoin_missing}
use joinstr.Joinstr.Host.{Host}
use joinstr.Joinstr.State.{JoinstrInner, Joinstr, failed}
use joinstr.Joinstr.Inputs.{generate_unsigned_tx}
use joinstr.Joinstr.Configured.{keeping}
use joinstr.Joinstr.Saved.{State, Vault}
use joinstr.Joinstr.Restart.{
  resume, finish, catch_up, drain_inner, restart_blocking, rejoin_outputs, rejoin_inputs, restart,
  start_thread,
}
use joinstr.Joinstr.Restart.Restored.{Ensures-restore}

module _ {N C W : Type 0} (host : Host N C W) where
  Ensures-drain_inner :
      (fuel : ℕ) (j : JoinstrInner N C)
      → Ensures (λ _. j.coinjoin ≡ none) (λ r _. r.1.coinjoin ≡ none) (drain_inner host fuel j)
  unfolding drain_inner
  Ensures-drain_inner fuel j = record { holds = λ s p r e. ground (arith, p, e) }

  Ensures-catch_up :
      (fuel expected : ℕ) (j : JoinstrInner N C)
      → Ensures
          (λ _. j.coinjoin ≡ none)
          (λ j' _. j'.coinjoin ≡ none)
          (catch_up host fuel expected j)
  unfolding catch_up
  Ensures-catch_up fuel expected j =
      Ensures-bind (Ensures-drain_inner fuel j)
        (λ r. Ensures-then (keeping _) (Ensures-pure _ (λ s p. p)))

  Ensures-resume :
      (vault : Vault) (fuel : ℕ) (st : State) (name : String)
      → Ensures (λ _. Unit {0}) (λ j _. j.coinjoin ≡ none) (resume host vault fuel st name)
  unfolding resume finish
  Ensures-resume vault fuel st name = Ensures-bind (Ensures-restore host vault st name) (λ j0.
      Ensures-mono (λ s p. p.fresh.coinjoin) (λ a s q. q)
        (elim (Option-cases st.final_tx) [
          | inl open_pool ↦
              rw open_pool
                (Ensures-bind (keeping _) (λ expected. Ensures-catch_up fuel expected j0))
          | inr (tx, done) ↦ rw done (Ensures-pure _ (λ s p. p))
        ]))

  no_coinjoin :
      (s : Joinstr N C W)
      → s.inner.coinjoin ≡ none
      → generate_unsigned_tx host s ≡ (err coinjoin_missing, s)
  unfolding generate_unsigned_tx
  no_coinjoin s q = ground (arith, q)

  -- All outputs are there, and not all inputs.
  restart_blocking_stuck :
      (notif : W → W) (fuel expected : ℕ) (signer : JoinstrSigner) (s : Joinstr N C W)
      → s.inner.coinjoin ≡ none
      → expected ≤ length s.inner.peers
      → expected ≤ length s.inner.outputs
      → length s.inner.inputs < expected
      → restart_blocking host notif fuel expected signer s ≡ (err coinjoin_missing, s)
  unfolding restart_blocking rejoin_outputs rejoin_inputs pure ◌>>=◌ ◌>>◌ gets
  restart_blocking_stuck notif fuel expected signer s unset joined outputs inputs =
      ground (arith, joined, outputs, inputs, no_coinjoin s unset)

  -- Where `restart` of a pool that is not finalized finds as many peers and outputs as the pool
  -- needs, saved or waiting, but fewer inputs, its thread fails at once with CoinjoinMissing and sends
  -- nothing: the outputs are not registered again, and only that makes a coinjoin.
  pub restart_stuck :
      (notif : W → W) (vault : Vault) (fuel : ℕ) (st : State) (name : String)
      (payload : PoolPayload) (signer : JoinstrSigner) (j : JoinstrInner N C) (w w' : W)
      → st.final_tx ≡ none
      → st.pool.payload ≡ some payload
      → resume host vault fuel st name w ≡ (ok j, w')
      → payload.peers ≤ length j.peers
      → payload.peers ≤ length j.outputs
      → length j.inputs < payload.peers
      → restart host notif vault fuel st name signer w
        ≡ (ok (record j { error = some (host.debug coinjoin_missing); step = failed }), w')
  unfolding restart start_thread
  restart_stuck notif vault fuel st name payload signer j w w' going has q joined outputs inputs =
      let unset = (Ensures-resume vault fuel st name).holds w tt j (ap (λ r. r.0) q) in
      let stuck =
        restart_blocking_stuck notif fuel payload.peers signer (record { inner = j; world = w' })
          unset joined outputs inputs in
      runs (resume host vault fuel st name) (start_thread host notif fuel st signer) w j w' q
      ∙ ground (arith, going, has, stuck)
