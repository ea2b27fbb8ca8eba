-- ===== src/CoinJoin.antt =====
-- `CoinJoin` of rust/joinstr/src/coinjoin/mod.rs: the coinjoin that a peer assembles, with its
-- errors and the trait of its backend. The borrowed client is part of the state, since `&mut`
-- is exclusive.
pub mod Backend
pub mod Outputs
pub mod Unsigned
pub mod Inputs
pub mod Retry
pub mod Amounts
pub mod Final
pub mod Run
pub mod Assembly
pub mod Ends
mod Tests
use joinstr.Nostr.Input.{InputDataSigned}
use Backend.{
  BitcoinBackend, Error, not_enough_peers, tx_to_psbt, init_psbt_exists, init_psbt_not_created,
  double_spend, input_amount_too_low, tx_already_finalyzed, address_reuse, input_value_not_match,
  input_does_not_exists, fee_too_low, fail_verify_amount, amount_missing,
}
use joinstr.Prelude.{
  ℕ, zero, suc, ◌+◌, ◌-◌, Bool, true, false, ◌&&◌, ◌||◌, Option, none, some, List, [], ◌∷◌, ◌++◌,
  map, ltb, leb, ◌==◌, if◌then◌else◌, is_some, is_none, length, push, Outcome, ok, err, panic,
  unfinished, Action, pure, throw, gets, ok_or, modify, throw_if, ◌>>=◌, ◌>>◌,
}
use joinstr.Prelude.Sort.{sort_by}
use joinstr.Bitcoin.{
  Address, Amount, OutPoint, TxIn, TxOut, Transaction, Psbt, Bitcoin, outpoint_eq,
}

abbrev pub backend_retry : ℕ
backend_retry = 3

pub record CoinJoin (C : Type 0) : Type 0 where
  pub outputs : List Address
  pub psbt : Option Psbt
  pub inputs : List InputDataSigned
  pub tx : Option Transaction
  pub min_peer : ℕ
  pub denomination : Amount
  pub fee : ℕ
  pub client : Option C

-- `Vec::contains`
unfoldable pub contains : List Address → Address → Bool
contains [] a = false
contains (b ∷ l) a = b == a || contains l a

-- Is an input with this outpoint in the list?
unfoldable pub is_registered : List InputDataSigned → OutPoint → Bool
is_registered [] o = false
is_registered (i ∷ l) o = outpoint_eq i.txin.previous_output o || is_registered l o

-- The comparison by which `generate_tx` sorts: the txid, then the index.
unfoldable pub input_le : InputDataSigned → InputDataSigned → Bool
input_le a b = ltb p.txid q.txid || (p.txid == q.txid && leb p.vout q.vout)
  where
    p : OutPoint
    p = a.txin.previous_output

    q : OutPoint
    q = b.txin.previous_output

abbrev pub outputs_tx : List TxOut → Transaction
outputs_tx output = record { version = 2; lock_time = 0; input = []; output = output }

-- The unsigned transaction with the registered inputs pushed.
abbrev pub with_inputs : Transaction → List InputDataSigned → Transaction
with_inputs tx l = record tx { input = tx.input ++ map (λ i. i.txin) l }

-- What the peer says of the amount against what the chain says.
unfoldable pub match_amount : Option Amount → Option Amount → Outcome Error (Unit {0})
match_amount (some amount) (some peer_amount) =
    if amount == peer_amount then ok tt else err input_value_not_match
match_amount (some amount) none = ok tt
match_amount none _ = err input_does_not_exists

module _ {C : Type 0} where
  unfoldable pub new : Amount → Option C → CoinJoin C
  new denomination client = record {
    outputs = [];
    psbt = none;
    inputs = [];
    tx = none;
    min_peer = 5;
    denomination = denomination;
    fee = 2;
    client = client;
  }

  -- The builder's `min_peer` and `fee`.
  unfoldable pub with_min_peer : CoinJoin C → ℕ → CoinJoin C
  with_min_peer s peer = record s { min_peer = peer }

  unfoldable pub with_fee : CoinJoin C → ℕ → CoinJoin C
  with_fee s fee = record s { fee = fee }

  unfoldable pub set_client : CoinJoin C → C → CoinJoin C
  set_client s c = if is_none s.client then record s { client = some c } else s

  unfoldable pub drop_client : CoinJoin C → CoinJoin C
  drop_client s = record s { client = none }

  unfoldable pub add_output : CoinJoin C → Address → CoinJoin C
  unfolding contains
  add_output s addr =
      if contains s.outputs addr then s else record s { outputs = push s.outputs addr }

  unfoldable pub outputs_len : CoinJoin C → ℕ
  outputs_len s = length s.outputs

  unfoldable pub inputs_len : CoinJoin C → ℕ
  inputs_len s = length s.inputs

  unfoldable pub unsigned_tx : CoinJoin C → Option Transaction
  unsigned_tx s = elim s.psbt [ none ↦ none | some p ↦ some p.unsigned_tx ]

  -- A call on the client, if there is one, and `a` otherwise.
  abbrev pub on_client {ℓ} : {A : Type ℓ} → A → Action C Error A → Action (CoinJoin C) Error A
  on_client a m s = elim s.client [
    | none ↦ (ok a, s)
    | some c ↦ let (r, c') = m c in (r, record s { client = some c' })
  ]

module _ {C E : Type 0} (backend : BitcoinBackend C E) where
  -- The `for` over the addresses, with the `loop` that retries. `left` is
  -- BACKEND_RETRY + 1 - retry, so `retry > BACKEND_RETRY` reads `left = 0`.
  unfoldable pub check_addresses : (left : ℕ) → List Address → Action C Error (Unit {0})
  check_addresses left [] c = (ok tt, c)
  check_addresses zero (a ∷ rest) c =
      let (r, c') = backend.address_already_used a c in
      elim r [
        | ok used ↦ elim used [
          | true ↦ (err address_reuse, c')
          | false ↦ check_addresses zero rest c'
        ]
        | err e ↦ (err (backend.into e), c')
        | panic ↦ (panic, c')
        | unfinished ↦ (unfinished, c')
      ]
  check_addresses (suc left) (a ∷ rest) c =
      let (r, c') = backend.address_already_used a c in
      elim r [
        | ok used ↦ elim used [
          | true ↦ (err address_reuse, c')
          | false ↦ check_addresses (suc left) rest c'
        ]
        | err e ↦ check_addresses left (a ∷ rest) c'
        | panic ↦ (panic, c')
        | unfinished ↦ (unfinished, c')
      ]

  -- The `loop` of `add_input`, with `left` as above.
  unfoldable pub check_input : (left : ℕ) → InputDataSigned → Action C Error (Unit {0})
  unfolding match_amount
  check_input zero input c =
      let (r, c') = backend.get_outpoint_value input.txin.previous_output c in
      elim r [
        | ok found ↦ (match_amount found input.amount, c')
        | err e ↦ (err (backend.into e), c')
        | panic ↦ (panic, c')
        | unfinished ↦ (unfinished, c')
      ]
  check_input (suc left) input c =
      let (r, c') = backend.get_outpoint_value input.txin.previous_output c in
      elim r [
        | ok found ↦ (match_amount found input.amount, c')
        | err e ↦ check_input left input c'
        | panic ↦ (panic, c')
        | unfinished ↦ (unfinished, c')
      ]

  unfoldable pub add_input : InputDataSigned → Action (CoinJoin C) Error (Unit {0})
  unfolding is_registered
  add_input input = do
    throw_if (is_registered (← gets (λ s. s.inputs)) input.txin.previous_output) double_spend
    on_client tt (check_input (backend_retry + 1) input)
    modify (λ s. record s { inputs = push s.inputs input })

  -- The amount of one input, as `generate_tx` finds it.
  unfoldable pub input_amount : InputDataSigned → Action (Option C) Error Amount
  input_amount i (some c) =
      let (r, c') = backend.get_outpoint_value i.txin.previous_output c in
      (
        elim r [
          | ok found ↦ elim found [ some amount ↦ ok amount | none ↦ err fail_verify_amount ]
          | err e ↦ err fail_verify_amount
          | panic ↦ panic
          | unfinished ↦ unfinished
        ],
        some c',
      )
  input_amount i none =
      (elim i.amount [ some amount ↦ ok amount | none ↦ err amount_missing ], none)

module _ (lib : Bitcoin) where
  abbrev pub or_panic {ℓ κ} : {S : Type ℓ} {E : Type κ} → Option Amount → Action S E Amount
  or_panic none s = (panic, s)
  or_panic (some a) s = (ok a, s)

  abbrev pub output_le : TxOut → TxOut → Bool
  output_le a b = lib.script_le a.script_pubkey b.script_pubkey

  -- The outputs of the unsigned transaction, one for each address, in the order of BIP 69.
  unfoldable pub sorted_outputs : Amount → List Address → List TxOut
  unfolding sort_by
  sorted_outputs denomination addresses =
      sort_by output_le
        (map (λ a. record { value = denomination; script_pubkey = lib.script_pubkey a }) addresses)

  module _ {C E : Type 0} (backend : BitcoinBackend C E) where
    unfoldable pub generate_psbt : Action (CoinJoin C) Error (Unit {0})
    unfolding check_addresses sorted_outputs
    generate_psbt = do
      addresses ← gets (λ s. lib.hash_set s.outputs)
      min_peer ← gets (λ s. s.min_peer)
      throw_if (ltb (length addresses) min_peer) (not_enough_peers (length addresses) min_peer)
      throw_if (is_some (← gets (λ s. s.psbt))) init_psbt_exists
      on_client tt (check_addresses backend (backend_retry + 1) addresses)
      denomination ← gets (λ s. s.denomination)
      psbt ←
          ok_or (lib.psbt_from_unsigned_tx (outputs_tx (sorted_outputs denomination addresses)))
            tx_to_psbt
      modify (λ s. record s { psbt = some psbt })

    unfoldable pub sum_amounts : Amount → List InputDataSigned → Action (Option C) Error Amount
    unfolding input_amount
    sum_amounts acc [] = pure acc
    sum_amounts acc (i ∷ l) = do
      amount ← input_amount backend i
      acc' ← or_panic (lib.amount_add acc amount)
      sum_amounts acc' l

    -- `generate_tx` before the transaction is built, where it is no dry run: the fee that is paid.
    unfoldable pub checked_fee : Action (CoinJoin C) Error Amount
    unfolding sum_amounts input_le sort_by
    checked_fee = do
      throw_if (is_some (← gets (λ s. s.tx))) tx_already_finalyzed
      psbt ← ok_or (← gets (λ s. s.psbt)) init_psbt_not_created
      out_amount ← or_panic (lib.amount_sum (map (λ o. o.value) psbt.unsigned_tx.output))
      inp_amount ← λ s.
          let (r, client') = sum_amounts 0 s.inputs s.client in (r, record s { client = client' })
      throw_if (leb inp_amount out_amount) input_amount_too_low
      modify (λ s. record s { inputs = sort_by input_le s.inputs })
      pure (inp_amount - out_amount)

    unfoldable pub generate_tx : (dry_run : Bool) → Action (CoinJoin C) Error (Option Transaction)
    unfolding checked_fee
    generate_tx true = do
      psbt ← ok_or (← gets (λ s. s.psbt)) init_psbt_not_created
      inputs ← gets (λ s. s.inputs)
      pure (some (with_inputs psbt.unsigned_tx inputs))
    generate_tx false = do
      fee ← checked_fee
      psbt ← ok_or (← gets (λ s. s.psbt)) init_psbt_not_created
      inputs ← gets (λ s. s.inputs)
      let tx = with_inputs psbt.unsigned_tx inputs
      rate ← gets (λ s. s.fee)
      throw_if (lib.rate_below fee (lib.weight tx) rate) (fee_too_low rate (lib.weight tx) fee)
      modify (λ s. record s { tx = some tx })
      pure none
