-- ===== src/CoinJoin/Inputs.antt =====
-- The inputs of a `CoinJoin`: `add_input` on every branch, its retries, and no double spend.
use mathlib.Core.List.{Nodup-cons, not-mem-nil, mem-cons}
use mathlib.Core.List.Perm
use mathlib.Core.Logic.Or
use joinstr.Prelude.{
  ◌>>◌, ◌≡◌, ◌≢◌, ap, ◌⊎◌, inl, inr, true, false, List, [], ◌∷◌, map, Mem, Nodup, arith, Bool-cases,
  push, perm-push, ok, err,
}
use joinstr.Nostr.Input.{InputDataSigned}
use joinstr.Bitcoin.{OutPoint, outpoint_eq}
use joinstr.CoinJoin.Backend.{BitcoinBackend, double_spend}
use joinstr.CoinJoin.{CoinJoin, is_registered, add_input}

abbrev pub outpoint : InputDataSigned → OutPoint
outpoint i = i.txin.previous_output

-- The outpoints that the registered inputs spend.
abbrev pub spent : {C : Type 0} → CoinJoin C → List OutPoint
spent s = map outpoint s.inputs

outpoint_eq→eq : (a b : OutPoint) → outpoint_eq a b ≡ true → a ≡ b
outpoint_eq→eq a b h = ground arith

outpoint_eq_refl : (a : OutPoint) → outpoint_eq a a ≡ true
outpoint_eq_refl a = ground arith

not_registered→not_mem :
    (l : List InputDataSigned) (o : OutPoint) → is_registered l o ≡ false → ¬ Mem o (map outpoint l)
unfolding is_registered
not_registered→not_mem [] o h m = not-mem-nil m
not_registered→not_mem (i ∷ l) o h m =
    Or.elim (λ x y. absurd x) (mem-cons.0 m)
      (λ e. ground (arith, outpoint_eq_refl o, ap (λ p. outpoint_eq p o) e))
      (not_registered→not_mem l o (ground arith))

mem→is_registered :
    (l : List InputDataSigned) (o : OutPoint) → Mem o (map outpoint l) → is_registered l o ≡ true
mem→is_registered l o m = elim (Bool-cases (is_registered l o)) [
  | inl p ↦ p
  | inr p ↦ absurd (not_registered→not_mem l o p m)
]

module _ {C E : Type 0} (backend : BitcoinBackend C E) (input : InputDataSigned)
    (s : CoinJoin C) where
  -- On every branch `add_input` changes the inputs and the client at most: a call that succeeds
  -- pushes the input, and a call that fails leaves the inputs alone.
  pub add_input_lem :
      let (r, s') = add_input backend input s in
      (((r ≡ ok tt) × (s'.inputs ≡ push s.inputs input)) ⊎ ((r ≢ ok tt) × (s'.inputs ≡ s.inputs)))
      × (s' ≡ record s { inputs = s'.inputs; client = s'.client })
  unfolding add_input ◌>>◌
  add_input_lem = ground arith

  accepted_is_new :
      (add_input backend input s).0 ≡ ok tt → is_registered s.inputs (outpoint input) ≡ false
  unfolding add_input ◌>>◌
  accepted_is_new h = ground arith

  -- No two registered inputs spend the same outpoint.
  pub add_input-Nodup : Nodup (spent s) → Nodup (spent (add_input backend input s).1)
  add_input-Nodup h = elim add_input_lem.0 [
    | inr (_, same) ↦ rw same h
    | inl (done, pushed) ↦
        let fresh = not_registered→not_mem s.inputs (outpoint input) (accepted_is_new done) in
        rw pushed (
          Perm.nodup (Perm.symm (Perm.map outpoint (perm-push s.inputs input)))
            (Nodup-cons.1 (fresh, h)))
  ]

  -- An input whose outpoint a registered input spends is refused as a double spend, and nothing
  -- changes, whatever the backend would say.
  pub add_input_double_spend :
      Mem (outpoint input) (spent s) → add_input backend input s ≡ (err double_spend, s)
  unfolding add_input ◌>>◌
  add_input_double_spend m = rw (mem→is_registered s.inputs (outpoint input) m)
