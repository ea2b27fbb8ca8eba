-- ===== src/CoinJoin/Run.antt =====
-- Whole lives of a `CoinJoin`: any sequence of its calls, whatever each returns.
use mathlib.Core.List.{Nodup-nil}
use mathlib.Core.List.Perm
use joinstr.Prelude.{
  ◌>>◌, ℕ, ◌≡◌, ◌∙◌, ◌≢◌, refl, ap, Perm, ◌⊎◌, inl, inr, Bool, true, false, Option, none, some,
  List, [], ◌∷◌, Nodup, arith, Option-cases, err,
}
use joinstr.Nostr.Input.{InputDataSigned}
use joinstr.Bitcoin.{Address, Amount, Transaction, Psbt, Bitcoin}
use joinstr.CoinJoin.Backend.{BitcoinBackend, tx_already_finalyzed}
use joinstr.CoinJoin.Outputs.{add_output-Nodup}
use joinstr.CoinJoin.Inputs.{outpoint, spent, add_input_lem, add_input-Nodup}
use joinstr.Prelude.Sort.{sort_by, sort_by-perm}
use joinstr.CoinJoin.{
  input_le, CoinJoin, new, with_min_peer, with_fee, set_client, drop_client, add_output,
  generate_psbt, add_input, checked_fee, generate_tx,
}

pub data Call (C : Type 0) : Type 0 where
  sets_min_peer sets_fee : ℕ → Call C
  sets_client : C → Call C
  drops_client generates_psbt : Call C
  adds_output : Address → Call C
  adds_input : InputDataSigned → Call C
  generates_tx : Bool → Call C

-- No address and no outpoint is listed twice, and a final transaction comes after the PSBT.
pub record Inv {C : Type 0} (s : CoinJoin C) : Type 0 where
  pub distinct_outputs : Nodup s.outputs
  pub distinct_inputs : Nodup (spent s)
  pub psbt_first : s.tx ≢ none → s.psbt ≢ none

-- What a call never takes back: the PSBT, the final transaction, the outputs that are there.
pub record Keeps {C : Type 0} (s t : CoinJoin C) : Type 0 where
  pub psbt_stays : (p : Psbt) → s.psbt ≡ some p → t.psbt ≡ some p
  pub tx_stays : (tx : Transaction) → s.tx ≡ some tx → t.tx ≡ some tx
  pub same_denomination : t.denomination ≡ s.denomination

module _ (lib : Bitcoin) {C E : Type 0} (backend : BitcoinBackend C E) where
  unfoldable pub step : Call C → CoinJoin C → CoinJoin C
  step (sets_min_peer n) s = with_min_peer s n
  step (sets_fee n) s = with_fee s n
  step (sets_client c) s = set_client s c
  step drops_client s = drop_client s
  step (adds_output a) s = add_output s a
  step generates_psbt s = (generate_psbt lib backend s).1
  step (adds_input i) s = (add_input backend i s).1
  step (generates_tx dry_run) s = (generate_tx lib backend dry_run s).1

  unfoldable pub run : List (Call C) → CoinJoin C → CoinJoin C
  unfolding step
  run [] s = s
  run (c ∷ cs) s = run cs (step c s)

  -- `generate_psbt` changes the PSBT and the client at most, and the PSBT only if there is none.
  generate_psbt_frame :
      (s : CoinJoin C)
      → let s' = (generate_psbt lib backend s).1 in
        (s' ≡ record s { psbt = s'.psbt; client = s'.client })
        × ((s'.psbt ≡ s.psbt) ⊎ (s.psbt ≡ none))
  unfolding generate_psbt ◌>>◌
  generate_psbt_frame s = ground arith

  pub checked_fee_frame :
      (s : CoinJoin C)
      → let (r, s') = checked_fee lib backend s in
        (s' ≡ record s { client = s'.client; inputs = s'.inputs })
        × ((s'.inputs ≡ s.inputs) ⊎ (s'.inputs ≡ sort_by input_le s.inputs))
        × ((r ≡ err tx_already_finalyzed) ⊎ (s.tx ≡ none))
  unfolding checked_fee ◌>>◌
  checked_fee_frame s = ground arith

  -- `generate_tx` sorts the inputs at most, and sets the final transaction only if there is a PSBT
  -- and no final transaction.
  pub generate_tx_frame :
      (dry_run : Bool) (s : CoinJoin C)
      → let s' = (generate_tx lib backend dry_run s).1 in
        (s' ≡ record s { client = s'.client; inputs = s'.inputs; tx = s'.tx })
        × ((s'.inputs ≡ s.inputs) ⊎ (s'.inputs ≡ sort_by input_le s.inputs))
        × ((s'.tx ≡ s.tx) ⊎ ((s.tx ≡ none) × (s.psbt ≢ none)))
  unfolding generate_tx ◌>>◌
  generate_tx_frame true s = ground arith
  generate_tx_frame false s = ground (arith, checked_fee_frame s)

  step-Keeps : (c : Call C) (s : CoinJoin C) → Keeps s (step c s)
  unfolding step with_min_peer with_fee set_client drop_client add_output ◌>>◌
  step-Keeps (sets_min_peer n) s = ground arith
  step-Keeps (sets_fee n) s = ground arith
  step-Keeps (sets_client c) s = ground arith
  step-Keeps drops_client s = ground arith
  step-Keeps (adds_output a) s = ground arith
  step-Keeps generates_psbt s = ground (arith, generate_psbt_frame s)
  step-Keeps (adds_input i) s = ground (arith, add_input_lem backend i s)
  step-Keeps (generates_tx dry_run) s = ground (arith, generate_tx_frame dry_run s)

  -- Of the parts of a coinjoin the invariant reads four, and the inputs up to their order.
  Inv-of_frame :
      {s t : CoinJoin C}
      → t.outputs ≡ s.outputs
      → Perm t.inputs s.inputs
      → (t.tx ≢ none → t.psbt ≢ none)
      → Inv s
      → Inv t
  Inv-of_frame same p first v = record {
    distinct_outputs = rw same v.distinct_outputs;
    distinct_inputs = Perm.nodup (Perm.symm (Perm.map outpoint p)) v.distinct_inputs;
    psbt_first = first;
  }

  sorted_perm : {l r : List InputDataSigned} → (r ≡ l) ⊎ (r ≡ sort_by input_le l) → Perm r l
  sorted_perm {l} (inl e) = rw e Perm.rfl
  sorted_perm {l} (inr e) = rw e (sort_by-perm input_le l)

  add_output_frame :
      (a : Address) (s : CoinJoin C)
      → add_output s a ≡ record s { outputs = (add_output s a).outputs }
  unfolding add_output
  add_output_frame a s = ground arith

  -- Every call keeps the invariant.
  pub step-Inv : (c : Call C) (s : CoinJoin C) → Inv s → Inv (step c s)
  unfolding step with_min_peer with_fee set_client drop_client ◌>>◌
  step-Inv (sets_min_peer n) s v = Inv-of_frame refl Perm.rfl v.psbt_first v
  step-Inv (sets_fee n) s v = Inv-of_frame refl Perm.rfl v.psbt_first v
  step-Inv (sets_client c) s v = elim (Option-cases s.client) [
    | inl e ↦ rw (e, set_client) (Inv-of_frame refl Perm.rfl v.psbt_first v)
    | inr (d, e) ↦ rw (e, set_client) (Inv-of_frame refl Perm.rfl v.psbt_first v)
  ]
  step-Inv drops_client s v = Inv-of_frame refl Perm.rfl v.psbt_first v
  step-Inv (adds_output a) s v =
      let frame = add_output_frame a s in
      record {
        distinct_outputs = add_output-Nodup s a v.distinct_outputs;
        distinct_inputs = rw frame v.distinct_inputs;
        psbt_first = rw frame v.psbt_first;
      }
  step-Inv generates_psbt s v =
      let (frame, fresh) = generate_psbt_frame s in
      Inv-of_frame (ap (λ t. t.outputs) frame) (rw frame Perm.rfl) (ground (arith, v.psbt_first)) v
  step-Inv (adds_input i) s v =
      let (_, frame) = add_input_lem backend i s in
      record {
        distinct_outputs = rw frame v.distinct_outputs;
        distinct_inputs = add_input-Nodup backend i s v.distinct_inputs;
        psbt_first = rw frame v.psbt_first;
      }
  step-Inv (generates_tx dry_run) s v =
      let (frame, inputs, once) = generate_tx_frame dry_run s in
      Inv-of_frame (ap (λ t. t.outputs) frame) (sorted_perm inputs) (ground (arith, v.psbt_first)) v

  run-Inv : (cs : List (Call C)) (s : CoinJoin C) → Inv s → Inv (run cs s)
  unfolding run
  run-Inv [] s v = v
  run-Inv (c ∷ cs) s v = run-Inv cs (step c s) (step-Inv c s v)

  -- After any sequence of calls on a new coinjoin, whatever each call returned, no address and no
  -- outpoint is registered twice, and there is a final transaction only where there is a PSBT.
  pub run-new-Inv :
      (denomination : Amount) (client : Option C) (cs : List (Call C))
      → Inv (run cs (new denomination client))
  unfolding new
  run-new-Inv denomination client cs = run-Inv cs _ (record {
    distinct_outputs = Nodup-nil;
    distinct_inputs = Nodup-nil;
    psbt_first = λ h. absurd (h refl);
  })

  -- Whatever is called later, a PSBT that was generated and a transaction that was finalized stay
  -- as they are, and so does the denomination.
  pub run-Keeps : (cs : List (Call C)) (s : CoinJoin C) → Keeps s (run cs s)
  unfolding run
  run-Keeps [] s = record { psbt_stays = λ p e. e; tx_stays = λ tx e. e; same_denomination = refl }
  run-Keeps (c ∷ cs) s =
      let first = step-Keeps c s in
      let later = run-Keeps cs (step c s) in
      record {
        psbt_stays = λ p e. later.psbt_stays p (first.psbt_stays p e);
        tx_stays = λ tx e. later.tx_stays tx (first.tx_stays tx e);
        same_denomination = later.same_denomination ∙ first.same_denomination;
      }
