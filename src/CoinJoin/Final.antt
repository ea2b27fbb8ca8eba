-- ===== src/CoinJoin/Final.antt =====
-- The final transaction that `generate_tx` builds, and what it has checked.
use mathlib.Core.Path.{◌∙◌, subst₂, ap}
use joinstr.Prelude.{
  ◌>>◌, ◌+◌, ◌-◌, ◌*◌, ◌^◌, ◌≤◌, ◌<◌, ◌≡◌, refl, inl, inr, true, false, none, some, map, Perm,
  arith, not_ltb→le, sym, Outcome-cases, is_some, ok, err,
}
use joinstr.Prelude.Sort.{IsSorted, sort_by-perm, sort_by-IsSorted, IsPreorder}
use joinstr.Bitcoin.{Amount, Transaction, Psbt, Bitcoin, IsLawful, sum}
use joinstr.CoinJoin.Backend.{BitcoinBackend, tx_already_finalyzed}
use joinstr.CoinJoin.Amounts.{Totals, sum_amounts-Totals, checked_fee-Checked}
use joinstr.CoinJoin.{CoinJoin, input_le, checked_fee, with_inputs, generate_tx}

-- What a call of `generate_tx` that is no dry run has found and done, where it succeeds.
pub record Finalized (lib : Bitcoin) {C E : Type 0} (backend : BitcoinBackend C E)
    (s s' : CoinJoin C) : Type 0 where
  pub psbt : Psbt
  pub tx : Transaction
  pub in_total : Amount
  pub has_psbt : s.psbt ≡ some psbt
  pub same_psbt : s'.psbt ≡ s.psbt
  pub was_open : s.tx ≡ none
  pub stored : s'.tx ≡ some tx
  pub is_tx : tx ≡ with_inputs psbt.unsigned_tx s'.inputs
  pub same_inputs : Perm s'.inputs s.inputs
  pub sorted : IsSorted input_le s'.inputs
  pub totals : Totals backend (is_some s.client) s.inputs in_total
  pub covered : sum (map (λ o. o.value) tx.output) < in_total
  pub rate :
      lib.rate_below (in_total - sum (map (λ o. o.value) tx.output)) (lib.weight tx) s.fee ≡ false

input_le-IsPreorder : IsPreorder input_le
unfolding input_le
input_le-IsPreorder = record {
  le_total = λ a b h. ground arith;
  le_trans = λ a b c h k. ground arith;
}

module _ {lib : Bitcoin} (laws : IsLawful lib) {C E : Type 0} (backend : BitcoinBackend C E) where
  generate_tx_fee_ok :
      (s : CoinJoin C)
      → (generate_tx lib backend false s).0 ≡ ok none
      → (fee : Amount) × ((checked_fee lib backend s).0 ≡ ok fee)
  unfolding generate_tx ◌>>◌
  generate_tx_fee_ok s h = elim (Outcome-cases (checked_fee lib backend s).0) [
    | inl found ↦ found
    | inr failed ↦ absurd (ground arith)
  ]

  generate_tx_after :
      (s : CoinJoin C) (fee : Amount) (psbt : Psbt)
      → (checked_fee lib backend s).0 ≡ ok fee
      → (checked_fee lib backend s).1.psbt ≡ some psbt
      → (generate_tx lib backend false s).0 ≡ ok none
      → let s' = (checked_fee lib backend s).1 in
        let tx = with_inputs psbt.unsigned_tx s'.inputs in
        ((generate_tx lib backend false s).1 ≡ record s' { tx = some tx })
        × (lib.rate_below fee (lib.weight tx) s'.fee ≡ false)
  unfolding generate_tx ◌>>◌
  generate_tx_after s fee psbt e f h = ground arith

  again_dry :
      (t : CoinJoin C) (tx : Transaction) (psbt : Psbt)
      → t.psbt ≡ some psbt
      → t.tx ≡ some tx
      → tx ≡ with_inputs psbt.unsigned_tx t.inputs
      → generate_tx lib backend true t ≡ (ok t.tx, t)
  unfolding generate_tx ◌>>◌
  again_dry t tx psbt e f g = ground arith

  again_real :
      (t : CoinJoin C) (tx : Transaction)
      → t.tx ≡ some tx
      → generate_tx lib backend false t ≡ (err tx_already_finalyzed, t)
  unfolding generate_tx checked_fee ◌>>◌
  again_real t tx e = ground arith

  pays :
      (s s' : CoinJoin C) (done : Finalized lib backend s s')
      → s.fee * lib.weight done.tx < 2 ^ 53
      → sum (map (λ o. o.value) done.tx.output) + s.fee * lib.weight done.tx ≤ done.in_total
  pays s s' done light =
      let paid = done.in_total - sum (map (λ o. o.value) done.tx.output) in
      let exact = laws.rate_below_exact paid (lib.weight done.tx) s.fee light in
      omega
        (arith, not_ltb→le paid (s.fee * lib.weight done.tx) (sym exact ∙ done.rate), done.covered)

  -- Where `generate_tx` succeeds, the transaction that it stores has the outputs of the PSBT and
  -- the inputs of the PSBT followed by those registered, in the order of txid and index; the
  -- amounts of the registered inputs, the client's where there is one, exceed the outputs, and
  -- the fee rate is not below the wanted one.
  pub generate_tx-Finalized :
      (s : CoinJoin C)
      → (generate_tx lib backend false s).0 ≡ ok none
      → Finalized lib backend s (generate_tx lib backend false s).1
  generate_tx-Finalized s h =
      let (fee, e) = generate_tx_fee_ok s h in
      let done = checked_fee-Checked lib backend s e in
      let (rest, totals, eq) = sum_amounts-Totals backend laws 0 s.inputs s.client done.inp_sum in
      let out_eq = laws.amount_sum-eq _ _ done.out_sum in
      let (after, fast) =
        generate_tx_after s fee done.psbt e (ap (λ t. t.psbt) done.after ∙ done.has_psbt) h in
      let tx : Transaction =
        with_inputs done.psbt.unsigned_tx (checked_fee lib backend s).1.inputs in
      rw after (record {
        psbt = done.psbt;
        tx = tx;
        in_total = rest;
        has_psbt = done.has_psbt;
        same_psbt = ap (λ t. t.psbt) done.after;
        was_open = done.no_tx;
        stored = refl;
        is_tx = refl;
        same_inputs = rw done.after (sort_by-perm input_le s.inputs);
        sorted = rw done.after (sort_by-IsSorted input_le input_le-IsPreorder s.inputs);
        totals = totals;
        covered = omega (arith, done.more);
        rate =
            subst₂ (λ paid wanted. lib.rate_below paid (lib.weight tx) wanted ≡ false)
              (omega (arith, done.is_fee, out_eq, eq)) (ap (λ t. t.fee) done.after) fast;
      })

  -- Where `generate_tx` succeeds, and the wanted fee of the stored transaction is small enough for
  -- an f64, the amounts of the inputs pay for the outputs and for the wanted rate on every weight
  -- unit of the transaction.
  pub generate_tx_fee :
      (s : CoinJoin C) (tx : Transaction)
      → (generate_tx lib backend false s).0 ≡ ok none
      → (generate_tx lib backend false s).1.tx ≡ some tx
      → s.fee * lib.weight tx < 2 ^ 53
      → (in_total : Amount) × Totals backend (is_some s.client) s.inputs in_total
        × (sum (map (λ o. o.value) tx.output) + s.fee * lib.weight tx ≤ in_total)
  generate_tx_fee s tx h stored light =
      let done = generate_tx-Finalized s h in
      let same : done.tx ≡ tx = cc done.stored in
      (done.in_total, done.totals, rw (← same) (pays s _ done (rw same light)))

  -- After a success a dry run returns the stored transaction and changes nothing, and one more call
  -- fails and changes nothing.
  pub generate_tx_again :
      (s : CoinJoin C)
      → (generate_tx lib backend false s).0 ≡ ok none
      → let s' = (generate_tx lib backend false s).1 in
        (generate_tx lib backend true s' ≡ (ok s'.tx, s'))
        × (generate_tx lib backend false s' ≡ (err tx_already_finalyzed, s'))
  generate_tx_again s h =
      let done = generate_tx-Finalized s h in
      (
        again_dry _ done.tx done.psbt (done.same_psbt ∙ done.has_psbt) done.stored done.is_tx,
        again_real _ done.tx done.stored,
      )
