-- ===== src/CoinJoin/Assembly.antt =====
-- The transaction that is being assembled, from `generate_psbt` to the final transaction: what each
-- later call leaves of it, however the call ends.
use mathlib.Core.List.{map-map}
use joinstr.Prelude.{
  ◌>>◌, ◌≡◌, ◌∙◌, sym, ap, ◌⊎◌, inl, inr, false, none, some, List, [], map, Nodup, arith, ok,
}
use joinstr.Nostr.Input.{InputDataSigned}
use joinstr.Bitcoin.{OutPoint, TxIn, Transaction, Psbt, Bitcoin, IsLawful}
use joinstr.CoinJoin.Backend.{BitcoinBackend}
use joinstr.CoinJoin.Inputs.{outpoint, add_input_lem}
use joinstr.CoinJoin.Final.{generate_tx-Finalized}
use joinstr.CoinJoin.Run.{checked_fee_frame, Inv, step-Inv, adds_input, generates_tx, step}
use joinstr.CoinJoin.{CoinJoin, with_inputs, add_input, generate_tx}

-- The outpoints that a transaction spends.
abbrev pub spends : Transaction → List OutPoint
spends tx = map (λ i. i.previous_output) tx.input

spends-with_inputs :
    (tx : Transaction) (l : List InputDataSigned)
    → tx.input ≡ []
    → spends (with_inputs tx l) ≡ map outpoint l
spends-with_inputs tx l e =
    rw e (map-map (λ (i : TxIn). i.previous_output) (λ (i : InputDataSigned). i.txin) l)

-- A final transaction has the outputs of the unsigned one, and spends no outpoint twice.
pub record Assembling {C : Type 0} (psbt : Psbt) (c : CoinJoin C) : Type 0 where
  pub has_psbt : c.psbt ≡ some psbt
  pub no_inputs : psbt.unsigned_tx.input ≡ []
  pub inv : Inv c
  pub final :
      (tx : Transaction)
      → c.tx ≡ some tx
      → (tx.output ≡ psbt.unsigned_tx.output) × Nodup (spends tx)

module _ (lib : Bitcoin) {C E : Type 0} (backend : BitcoinBackend C E) where
  -- A call that does not succeed stores no transaction.
  generate_tx_stored :
      (c : CoinJoin C)
      → let (r, c') = generate_tx lib backend false c in
        (c'.psbt ≡ c.psbt) × ((r ≡ ok none) ⊎ (c'.tx ≡ c.tx))
  unfolding generate_tx ◌>>◌
  generate_tx_stored c = ground (arith, checked_fee_frame lib backend c)

module _ {lib : Bitcoin} (laws : IsLawful lib) {C E : Type 0} (backend : BitcoinBackend C E)
    {psbt : Psbt} where
  pub add_input-Assembling :
      (i : InputDataSigned) (c : CoinJoin C)
      → Assembling psbt c
      → Assembling psbt (add_input backend i c).1
  unfolding step
  add_input-Assembling i c a =
      let frame = (add_input_lem backend i c).1 in
      record {
        has_psbt = ap (λ d. d.psbt) frame ∙ a.has_psbt;
        no_inputs = a.no_inputs;
        inv = step-Inv lib backend (adds_input i) c a.inv;
        final = λ tx e. a.final tx (sym (ap (λ d. d.tx) frame) ∙ e);
      }

  pub generate_tx-Assembling :
      (c : CoinJoin C) → Assembling psbt c → Assembling psbt (generate_tx lib backend false c).1
  unfolding step
  generate_tx-Assembling c a =
      let (same, stored) = generate_tx_stored lib backend c in
      let inv : Inv (generate_tx lib backend false c).1 =
        step-Inv lib backend (generates_tx false) c a.inv in
      record {
        has_psbt = same ∙ a.has_psbt;
        no_inputs = a.no_inputs;
        inv = inv;
        final = λ tx e. elim stored [
          | inr old ↦ a.final tx (sym old ∙ e)
          | inl done ↦
              let f = generate_tx-Finalized laws backend c done in
              let is_psbt : f.psbt ≡ psbt = ground (arith, f.has_psbt, a.has_psbt) in
              let is_tx : f.tx ≡ tx = ground (arith, f.stored, e) in
              (
                ground (arith, f.is_tx, is_psbt, is_tx),
                rw (← is_tx, f.is_tx, is_psbt)
                    (rw (spends-with_inputs psbt.unsigned_tx _ a.no_inputs) inv.distinct_inputs),
              )
        ];
      }
