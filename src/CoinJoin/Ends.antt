-- ===== src/CoinJoin/Ends.antt =====
-- The operations of a `CoinJoin` return, where the calls of its backend do.
use joinstr.Prelude.{
  ℕ, zero, suc, ◌≢◌, inl, inr, Bool, true, false, Option, none, some, List, [], ◌∷◌, arith,
  unfinished, Outcome-cases, Option-cases, ◌>>◌,
}
use joinstr.Nostr.Input.{InputDataSigned}
use joinstr.Bitcoin.{Address, OutPoint, Amount, Bitcoin}
use joinstr.CoinJoin.Backend.{BitcoinBackend}
use joinstr.CoinJoin.{
  CoinJoin, check_addresses, check_input, input_amount, generate_psbt, add_input, sum_amounts,
  checked_fee, generate_tx,
}

module _ {C E : Type 0} (backend : BitcoinBackend C E) where
  -- Each call of the backend returns.
  pub record Answers : Type 0 where
    pub address_returns : (a : Address) (c : C) → (backend.address_already_used a c).0 ≢ unfinished
    pub value_returns : (o : OutPoint) (c : C) → (backend.get_outpoint_value o c).0 ≢ unfinished

  module _ (answers : Answers) where
    check_input_ends :
        (left : ℕ) (input : InputDataSigned) (c : C)
        → (check_input backend left input c).0 ≢ unfinished
    unfolding check_input
    check_input_ends zero input c h =
        ground (arith, answers.value_returns input.txin.previous_output c)
    check_input_ends (suc left) input c h =
        let o = input.txin.previous_output in
        ground (
          arith,
          answers.value_returns o c,
          check_input_ends left input (backend.get_outpoint_value o c).1,
        )

    check_addresses_ends :
        (left : ℕ) (l : List Address) (c : C) → (check_addresses backend left l c).0 ≢ unfinished
    unfolding check_addresses
    check_addresses_ends left [] c h = cc
    check_addresses_ends zero (a ∷ l) c h =
        let c' = (backend.address_already_used a c).1 in
        ground (arith, answers.address_returns a c, check_addresses_ends zero l c')
    check_addresses_ends (suc left) (a ∷ l) c h =
        let c' = (backend.address_already_used a c).1 in
        ground (
          arith,
          answers.address_returns a c,
          check_addresses_ends (suc left) l c',
          check_addresses_ends left (a ∷ l) c',
        )

    pub add_input_ends :
        (input : InputDataSigned) (s : CoinJoin C) → (add_input backend input s).0 ≢ unfinished
    unfolding add_input ◌>>◌
    add_input_ends input s h = elim (Option-cases s.client) [
      | inl e ↦ ground arith
      | inr (c, e) ↦ ground (arith, check_input_ends 4 input c)
    ]

    input_amount_ends :
        (i : InputDataSigned) (c : Option C) → (input_amount backend i c).0 ≢ unfinished
    unfolding input_amount
    input_amount_ends i none h = ground arith
    input_amount_ends i (some c) h = ground (arith, answers.value_returns i.txin.previous_output c)

    module _ (lib : Bitcoin) where
      pub generate_psbt_ends : (s : CoinJoin C) → (generate_psbt lib backend s).0 ≢ unfinished
      unfolding generate_psbt ◌>>◌
      generate_psbt_ends s h = elim (Option-cases s.client) [
        | inl e ↦ ground arith
        | inr (c, e) ↦ ground (arith, check_addresses_ends 4 (lib.hash_set s.outputs) c)
      ]

      sum_amounts_ends :
          (acc : Amount) (l : List InputDataSigned) (c : Option C)
          → (sum_amounts lib backend acc l c).0 ≢ unfinished
      unfolding sum_amounts ◌>>◌
      sum_amounts_ends acc [] c h = cc
      sum_amounts_ends acc (i ∷ l) c h = elim (Outcome-cases (input_amount backend i c).0) [
        | inl (amount, e) ↦ elim (Option-cases (lib.amount_add acc amount)) [
          | inl f ↦ ground arith
          | inr (acc', f) ↦ ground (arith, sum_amounts_ends acc' l (input_amount backend i c).1)
        ]
        | inr failed ↦ ground (arith, input_amount_ends i c)
      ]

      checked_fee_ends : (s : CoinJoin C) → (checked_fee lib backend s).0 ≢ unfinished
      unfolding checked_fee ◌>>◌
      checked_fee_ends s h = ground (arith, sum_amounts_ends 0 s.inputs s.client)

      pub generate_tx_ends :
          (dry_run : Bool) (s : CoinJoin C) → (generate_tx lib backend dry_run s).0 ≢ unfinished
      unfolding generate_tx ◌>>◌
      generate_tx_ends true s h = ground arith
      generate_tx_ends false s h = ground (arith, checked_fee_ends s)
