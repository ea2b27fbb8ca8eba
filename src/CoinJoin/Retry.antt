-- ===== src/CoinJoin/Retry.antt =====
-- How often `CoinJoin` asks its backend, and what it takes from the answers.
use joinstr.Prelude.{
  ◌>>◌, ℕ, zero, suc, ◌≤◌, length, ◌≡◌, refl, ◌⊎◌, inl, inr, true, false, Option, none, some, List,
  [], ◌∷◌, arith, Outcome-cases, All, ok, err,
}
use joinstr.Nostr.Input.{InputDataSigned}
use joinstr.Bitcoin.{Amount, OutPoint, Address, Bitcoin}
use joinstr.CoinJoin.Backend.{BitcoinBackend}
use joinstr.CoinJoin.Inputs.{outpoint}
use joinstr.CoinJoin.{
  CoinJoin, is_registered, generate_psbt, add_input, check_input, check_addresses, match_amount,
}

abbrev pub iterate {ℓ} : {A : Type ℓ} → ℕ → (A → A) → A → A
iterate zero f a = a
iterate (suc n) f a = iterate n f (f a)

module _ {C E : Type 0} (backend : BitcoinBackend C E) where
  -- What the client has answered about the outpoint, at some point, fits the claimed amount.
  abbrev pub Confirms : InputDataSigned → Type 0
  Confirms input =
      (c : C) × (amount : Amount) × ((backend.get_outpoint_value (outpoint input) c).0
        ≡ ok (some amount))
      × ((input.amount ≡ none) ⊎ (input.amount ≡ some amount))

  match_amount_ok :
      (found claimed : Option Amount)
      → match_amount found claimed ≡ ok tt
      → (amount : Amount) × (found ≡ some amount) × ((claimed ≡ none) ⊎ (claimed ≡ some amount))
  unfolding match_amount
  match_amount_ok none claimed h = cc
  match_amount_ok (some amount) none h = (amount, refl, inl refl)
  match_amount_ok (some amount) (some peer_amount) h = (amount, refl, ground arith)

  check_input-Confirms :
      (left : ℕ) (input : InputDataSigned) (c : C)
      → (check_input backend left input c).0 ≡ ok tt
      → Confirms input
  unfolding check_input
  check_input-Confirms zero input c h =
      elim (Outcome-cases (backend.get_outpoint_value (outpoint input) c).0) [
        | inl (found, e) ↦
            let (amount, same, fits) = match_amount_ok found input.amount (ground arith) in
            (c, amount, ground arith, fits)
        | inr failed ↦ absurd (ground arith)
      ]
  check_input-Confirms (suc left) input c h =
      elim (Outcome-cases (backend.get_outpoint_value (outpoint input) c).0) [
        | inl (found, e) ↦
            let (amount, same, fits) = match_amount_ok found input.amount (ground arith) in
            (c, amount, ground arith, fits)
        | inr (inl (e, refused)) ↦
            check_input-Confirms left input _ (rw (refused, check_input) at h)
        | inr (inr broken) ↦ absurd (ground arith)
      ]

  -- With a client, an input is registered only if the client has confirmed its outpoint, with the
  -- amount that the peer claims, where it claims one.
  pub add_input-Confirms :
      (input : InputDataSigned) (s : CoinJoin C) (c : C)
      → s.client ≡ some c
      → (add_input backend input s).0 ≡ ok tt
      → Confirms input
  unfolding add_input ◌>>◌
  add_input-Confirms input s c e h = check_input-Confirms 4 input c (ground arith)

  -- What the client has answered about the address, at some point, is that it has no history.
  abbrev pub Unused : Address → Type 0
  Unused a = (c : C) × ((backend.address_already_used a c).0 ≡ ok false)

  check_addresses-Unused :
      (left : ℕ) (l : List Address) (c : C)
      → (check_addresses backend left l c).0 ≡ ok tt
      → All Unused l
  unfolding check_addresses
  check_addresses-Unused left [] c h = tt
  check_addresses-Unused zero (a ∷ l) c h =
      elim (Outcome-cases (backend.address_already_used a c).0) [
        | inl (true, e) ↦ absurd (ground arith)
        | inl (false, e) ↦ ((c, e), check_addresses-Unused zero l _ (rw (e, check_addresses) at h))
        | inr failed ↦ absurd (ground arith)
      ]
  check_addresses-Unused (suc left) (a ∷ l) c h =
      elim (Outcome-cases (backend.address_already_used a c).0) [
        | inl (true, e) ↦ absurd (ground arith)
        | inl (false, e) ↦
            ((c, e), check_addresses-Unused (suc left) l _ (rw (e, check_addresses) at h))
        | inr (inl (e, refused)) ↦
            check_addresses-Unused left (a ∷ l) _ (rw (refused, check_addresses) at h)
        | inr (inr broken) ↦ absurd (ground arith)
      ]

  -- With a client, an unsigned transaction is made only if the client has answered of each of its
  -- addresses that it has not been used.
  pub generate_psbt-Unused :
      (lib : Bitcoin) (s : CoinJoin C) (c : C)
      → s.client ≡ some c
      → (generate_psbt lib backend s).0 ≡ ok tt
      → All Unused (lib.hash_set s.outputs)
  unfolding generate_psbt ◌>>◌
  generate_psbt-Unused lib s c e h =
      check_addresses-Unused 4 (lib.hash_set s.outputs) c (ground arith)

  -- A client that fails at every call, and counts its calls in its state.
  pub record Fails (fault : C → E) (next : C → C) : Type 0 where
    pub value_fails :
        (o : OutPoint) (c : C) → backend.get_outpoint_value o c ≡ (err (fault c), next c)
    pub address_fails :
        (a : Address) (c : C) → backend.address_already_used a c ≡ (err (fault c), next c)

  module _ {fault : C → E} {next : C → C} (fails : Fails fault next) where
    check_input_fails :
        (left : ℕ) (input : InputDataSigned) (c : C)
        → check_input backend left input c
          ≡ (err (backend.into (fault (iterate left next c))), iterate (suc left) next c)
    unfolding check_input
    check_input_fails zero input c = ground (arith, fails.value_fails (outpoint input) c)
    check_input_fails (suc left) input c =
        ground (arith, fails.value_fails (outpoint input) c, check_input_fails left input (next c))

    check_addresses_fails :
        (left : ℕ) (a : Address) (l : List Address) (c : C)
        → check_addresses backend left (a ∷ l) c
          ≡ (err (backend.into (fault (iterate left next c))), iterate (suc left) next c)
    unfolding check_addresses
    check_addresses_fails zero a l c = ground (arith, fails.address_fails a c)
    check_addresses_fails (suc left) a l c =
        ground (arith, fails.address_fails a c, check_addresses_fails left a l (next c))

    -- With a client that always fails, a new input is asked for five times, and the error of the
    -- fifth call is returned; nothing but the client has changed.
    pub add_input_fails :
        (input : InputDataSigned) (s : CoinJoin C) (c : C)
        → s.client ≡ some c
        → is_registered s.inputs (outpoint input) ≡ false
        → add_input backend input s ≡ (
          err (backend.into (fault (iterate 4 next c))),
          record s { client = some (iterate 5 next c) },
        )
    unfolding add_input ◌>>◌
    add_input_fails input s c e new = ground (arith, check_input_fails 4 input c)

    -- Likewise, where there are enough addresses, with the first address that is checked.
    pub generate_psbt_fails :
        (lib : Bitcoin) (s : CoinJoin C) (a : Address) (l : List Address) (c : C)
        → s.client ≡ some c
        → s.psbt ≡ none
        → lib.hash_set s.outputs ≡ a ∷ l
        → s.min_peer ≤ length (a ∷ l)
        → generate_psbt lib backend s ≡ (
          err (backend.into (fault (iterate 4 next c))),
          record s { client = some (iterate 5 next c) },
        )
    unfolding generate_psbt ◌>>◌
    generate_psbt_fails lib s a l c e fresh first enough =
        ground (arith, check_addresses_fails 4 a l c)
