-- ===== src/CoinJoin/Amounts.antt =====
-- The amounts that `generate_tx` adds up, and the fee that it finds.
use mathlib.Core.Path.{subst}
use joinstr.Prelude.{
  ◌>>◌, ◌+◌, ◌-◌, ◌<◌, ◌≡◌, refl, inl, inr, Bool, true, false, Option, none, some, List, [], ◌∷◌,
  map, arith, Option-cases, Outcome-cases, is_some, ok,
}
use joinstr.Prelude.Sort.{sort_by}
use joinstr.Nostr.Input.{InputDataSigned}
use joinstr.Bitcoin.{Amount, Psbt, Bitcoin, IsLawful}
use joinstr.CoinJoin.Backend.{BitcoinBackend}
use joinstr.CoinJoin.Inputs.{outpoint}
use joinstr.CoinJoin.{CoinJoin, input_le, input_amount, sum_amounts, checked_fee}

module _ {C E : Type 0} (backend : BitcoinBackend C E) where
  -- The amount of an input: with a client, the client's answer at some point, and without one
  -- what the peer claims.
  abbrev pub Found : (with_client : Bool) → InputDataSigned → Amount → Type 0
  Found false i amount = i.amount ≡ some amount
  Found true i amount = (c : C) × ((backend.get_outpoint_value (outpoint i) c).0 ≡ ok (some amount))

  -- The amounts of the inputs add up to a total.
  pub data Totals (with_client : Bool) : List InputDataSigned → Amount → Type 0 where
    none_left : Totals with_client [] 0
    one_more :
        {i : InputDataSigned} {l : List InputDataSigned} (amount rest : Amount) {total : Amount}
        → Found with_client i amount
        → Totals with_client l rest
        → total ≡ amount + rest
        → Totals with_client (i ∷ l) total

  input_amount-Found :
      (i : InputDataSigned) (client : Option C) {amount : Amount}
      → (input_amount backend i client).0 ≡ ok amount
      → Found (is_some client) i amount
        × (is_some (input_amount backend i client).1 ≡ is_some client)
  unfolding input_amount
  input_amount-Found i none h = ground arith
  input_amount-Found i (some c) h = ((c, ground arith), refl)

  module _ {lib : Bitcoin} (laws : IsLawful lib) where
    pub sum_amounts-Totals :
        (acc : Amount) (l : List InputDataSigned) (client : Option C) {total : Amount}
        → (sum_amounts lib backend acc l client).0 ≡ ok total
        → (rest : Amount) × Totals (is_some client) l rest × (total ≡ acc + rest)
    unfolding sum_amounts ◌>>◌
    sum_amounts-Totals acc [] client h = (0, none_left, ground arith)
    sum_amounts-Totals acc (i ∷ l) client {total} h =
        elim (Outcome-cases (input_amount backend i client).0) [
          | inl (amount, e) ↦ elim (Option-cases (lib.amount_add acc amount)) [
            | inl overflow ↦ absurd (ground arith)
            | inr (acc', f) ↦
                let (found, same) = input_amount-Found i client e in
                let (rest, totals, eq) =
                  sum_amounts-Totals acc' l (input_amount backend i client).1 {total = total}
                    (ground arith) in
                let moved = subst (λ b. Totals b l rest) same totals in
                (
                  amount + rest,
                  one_more amount rest found moved refl,
                  omega (arith, laws.amount_add-eq acc amount acc' f),
                )
          ]
          | inr failed ↦ absurd (ground arith)
        ]

module _ (lib : Bitcoin) {C E : Type 0} (backend : BitcoinBackend C E) (s : CoinJoin C) where
  -- What `checked_fee` has found and done, where it returns a fee.
  pub record Checked (fee : Amount) (s' : CoinJoin C) : Type 0 where
    pub psbt : Psbt
    pub out_amount : Amount
    pub inp_amount : Amount
    pub has_psbt : s.psbt ≡ some psbt
    pub no_tx : s.tx ≡ none
    pub out_sum : lib.amount_sum (map (λ o. o.value) psbt.unsigned_tx.output) ≡ some out_amount
    pub inp_sum : (sum_amounts lib backend 0 s.inputs s.client).0 ≡ ok inp_amount
    pub more : out_amount < inp_amount
    pub is_fee : fee ≡ inp_amount - out_amount
    pub after : s' ≡ record s { inputs = sort_by input_le s.inputs; client = s'.client }

  pub checked_fee-Checked :
      {fee : Amount}
      → (checked_fee lib backend s).0 ≡ ok fee
      → Checked fee (checked_fee lib backend s).1
  unfolding checked_fee ◌>>◌
  checked_fee-Checked {fee} h = elim (Option-cases s.psbt) [
    | inl e ↦ absurd (ground arith)
    | inr (psbt, e) ↦
        elim (Option-cases (lib.amount_sum (map (λ o. o.value) psbt.unsigned_tx.output))) [
          | inl f ↦ absurd (ground arith)
          | inr (out_amount, f) ↦
              elim (Outcome-cases (sum_amounts lib backend 0 s.inputs s.client).0) [
                | inl (inp_amount, g) ↦ record {
                  psbt = psbt;
                  out_amount = out_amount;
                  inp_amount = inp_amount;
                  has_psbt = e;
                  no_tx = ground arith;
                  out_sum = f;
                  inp_sum = g;
                  more = ground arith;
                  is_fee = ground arith;
                  after = ground arith;
                }
                | inr failed ↦ absurd (ground arith)
              ]
        ]
  ]
