-- ===== src/Joinstr/Results.antt =====
-- What single methods of a `Joinstr` find and do.
use joinstr.Prelude.{
  ℕ, ◌≤◌, ◌≡◌, ◌≢◌, ◌↔◌, ◌⊎◌, inl, inr, none, some, arith, ok, Option-cases, ◌>>◌,
}
use joinstr.CoinJoin.{CoinJoin}
use joinstr.Joinstr.Host.{Host}
use joinstr.Joinstr.State.{Joinstr, update, broadcast}
use joinstr.Joinstr.Setup.{set_min_peers}
use joinstr.Joinstr.Inputs.{broadcast_tx}

module _ {N C W : Type 0} where
  -- `min_peers` succeeds exactly for two peers at least, before there is a pool, and once; it then
  -- sets the number of peers, and otherwise changes nothing.
  pub set_min_peers_lem :
      (peers : ℕ) (s : Joinstr N C W)
      → let (r, s') = set_min_peers peers s in
        ((r ≡ ok tt) ↔ ((2 ≤ peers) × (s.inner.pool ≡ none) × (s.inner.peers_count ≡ none)))
        × (((r ≡ ok tt) × (s' ≡ record s { inner = record s.inner { peers_count = some peers } }))
            ⊎ ((r ≢ ok tt) × (s' ≡ s)))
  unfolding set_min_peers ◌>>◌ update
  set_min_peers_lem peers s = ground arith

module _ {N C W : Type 0} (host : Host N C W) where
  -- A successful `broadcast_tx` stores the final transaction of the coinjoin, and the step is
  -- `Broadcast`.
  pub broadcast_tx_lem :
      (s : Joinstr N C W)
      → (broadcast_tx host s).0 ≡ ok tt
      → let s' = (broadcast_tx host s).1 in
        (c : CoinJoin C) × (s.inner.coinjoin ≡ some c)
        × (s'.inner.final_tx ≡ c.tx)
        × (s'.inner.step ≡ broadcast)
  unfolding broadcast_tx ◌>>◌ update
  broadcast_tx_lem s h = elim (Option-cases s.inner.coinjoin) [
    | inl e ↦ absurd (ground arith)
    | inr (c, e) ↦ (c, e, ground arith, ground arith)
  ]
