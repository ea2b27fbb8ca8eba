-- ===== src/Joinstr/Guarantee/Unsigned.antt =====
-- `generate_unsigned_tx` on the coinjoin that the round of outputs stored.
use mathlib.Core.List.{Nodup-nil}
use joinstr.Prelude.{
  ℕ, ◌≡◌, ◌≤◌, ◌∙◌, sym, ap, refl, inl, inr, Option, none, some, [], map, Mem, Nodup, Perm, List,
  All, arith, ok, length, Option-cases, Outcome-cases, Ensures,
}
use joinstr.Bitcoin.{Address, Psbt, IsLawful}
use joinstr.Nostr.Pool.{Pool, PoolPayload}
use joinstr.CoinJoin.{CoinJoin, new, with_fee, with_min_peer, generate_psbt, unsigned_tx}
use joinstr.CoinJoin.Unsigned.{payment, generate_psbt_lem, generate_psbt-Prepared}
use joinstr.CoinJoin.Run.{Inv, step, step-Inv, generates_psbt}
use joinstr.CoinJoin.Assembly.{Assembling}
use joinstr.Joinstr.Host.{Host}
use joinstr.Joinstr.Inputs.{generate_unsigned_tx, on_coinjoin}
use joinstr.Joinstr.Guarantee.Outputs.{Allowed, Filled}
use joinstr.Joinstr.Guarantee.Registered.{Registered}
use joinstr.Joinstr.Guarantee.Inputs.{Held}

-- An unsigned transaction that pays the denomination of the pool to enough addresses.
pub record Draft {N C W : Type 0} (host : Host N C W) (pool : Pool) (payload : PoolPayload)
    (own : Option Address) : Type 0 where
  pub psbt : Psbt
  pub addresses : List Address
  pub no_inputs : psbt.unsigned_tx.input ≡ []
  pub pays :
      Perm psbt.unsigned_tx.output (map (payment host.bitcoin payload.denomination) addresses)
  pub distinct : Nodup addresses
  pub enough : payload.peers ≤ length addresses
  pub allowed : All (Allowed host pool own) addresses
  pub has_own : (a : Address) → own ≡ some a → Mem a addresses

module _ {N C W : Type 0} (host : Host N C W) (laws : IsLawful host.bitcoin) (pool : Pool)
    (payload : PoolPayload) (own : Option Address) where
  opened :
      (fee : ℕ) (c : CoinJoin C)
      → Filled host pool own
          (with_fee (with_min_peer (new payload.denomination none) payload.peers) fee)
          c
      → (c.denomination ≡ payload.denomination) × (c.tx ≡ none) × (c.inputs ≡ [])
  unfolding with_fee with_min_peer new
  opened fee c f = (
    ap (λ d. d.denomination) f.only_outputs,
    ap (λ d. d.tx) f.only_outputs,
    ap (λ d. d.inputs) f.only_outputs,
  )

  -- The PSBT that a successful `generate_psbt` makes of it.
  drafts :
      (fee : ℕ) (c : CoinJoin C)
      → Filled host pool own
          (with_fee (with_min_peer (new payload.denomination none) payload.peers) fee)
          c
      → payload.peers ≤ length c.outputs
      → (generate_psbt host.bitcoin host.electrum.backend c).0 ≡ ok tt
      → (d : Draft host pool payload own) × Assembling d.psbt
          (generate_psbt host.bitcoin host.electrum.backend c).1
  unfolding unsigned_tx step
  drafts fee c f enough e =
      let (denomination, no_tx, no_inputs) = opened fee c f in
      let after = (generate_psbt host.bitcoin host.electrum.backend c).1 in
      let (tx, is_tx, bare, perm, sorted, many) =
        generate_psbt_lem laws host.electrum.backend c f.distinct e in
      let inv : Inv after = step-Inv host.bitcoin host.electrum.backend generates_psbt c (record {
        distinct_outputs = f.distinct;
        distinct_inputs = rw no_inputs Nodup-nil;
        psbt_first = λ h. absurd (h no_tx);
      }) in
      let same_tx =
        (generate_psbt-Prepared host.bitcoin host.electrum.backend c e).same_tx ∙ no_tx in
      elim (Option-cases after.psbt) [
        | inl missing ↦ absurd (ground arith)
        | inr (psbt, g) ↦
            let same : tx ≡ psbt.unsigned_tx = ground arith in
            (
              record {
                psbt = psbt;
                addresses = c.outputs;
                no_inputs = sym (ap (λ t. t.input) same) ∙ bare;
                pays = rw (← same, ← denomination) perm;
                distinct = f.distinct;
                enough = enough;
                allowed = f.allowed;
                has_own = f.has_own;
              },
              record {
                has_psbt = g;
                no_inputs = sym (ap (λ t. t.input) same) ∙ bare;
                inv = inv;
                final = λ t h. absurd (ground (arith, same_tx));
              },
            )
      ]

  pub Ensures-generate_unsigned :
      Ensures
        (Registered host pool payload own)
        (λ _ s. (d : Draft host pool payload own) × Held host laws pool d.psbt s)
        (generate_unsigned_tx host)
  unfolding generate_unsigned_tx on_coinjoin
  Ensures-generate_unsigned = record {
    holds = λ s r a e.
        elim (Outcome-cases (generate_psbt host.bitcoin host.electrum.backend r.coinjoin).0) [
          | inl (tt, done) ↦
              let (d, assembling) = drafts r.fee r.coinjoin r.filled r.enough done in
              rw r.stored (d, (r.same_pool, (_, refl, assembling)))
          | inr failed ↦ absurd (ground (arith, r.stored))
        ];
  }
