-- ===== src/Prelude/Loops.antt =====
-- `while` loops on fuel, over a local state `L` and an object `S`: a loop that runs out of fuel is
-- unfinished.
use Prim.Native.Nat.{ℕ, zero, suc}
use mathlib.Core.Bool.{Bool, true, false}
use joinstr.Prelude.Results.{Outcome, ok, err, panic, unfinished, Action}

-- How a round ends: the loop goes on, or `break`.
pub data Turn {ℓ} (L : Type ℓ) : Type ℓ where
  again leave : L → Turn L

module _ {ℓ κ μ} {S : Type ℓ} {E : Type κ} {L : Type μ} where
  unfoldable pub after_round : (L → Action S E L) → Outcome E (Turn L) → Action S E L
  after_round k (ok (again l)) s = k l s
  after_round k (ok (leave l)) s = (ok l, s)
  after_round k (err e) s = (err e, s)
  after_round k panic s = (panic, s)
  after_round k unfinished s = (unfinished, s)

  unfoldable pub after_test : (L → Action S E L) → L → Outcome E Bool → Action S E L
  after_test k l (ok true) s = k l s
  after_test k l (ok false) s = (ok l, s)
  after_test k l (err e) s = (err e, s)
  after_test k l panic s = (panic, s)
  after_test k l unfinished s = (unfinished, s)

  module _ (cond : L → Action S E Bool) (body : L → Action S E (Turn L)) where
    unfoldable pub loop : (fuel : ℕ) → L → Action S E L
    unfolding after_test after_round
    loop zero l s = (unfinished, s)
    loop (suc fuel) l s =
        let (c, s1) = cond l s in
        after_test (λ l s. let (t, s2) = body l s in after_round (loop fuel) t s2) l c s1

  -- What holds before a test (`P`), before a round (`R`) and at the end (`Q`), where the fuel
  -- left counts.
  module _ {ν} (P R : ℕ → L → S → Type ν) (Q : Outcome E L → S → Type ν) where
    abbrev pub Tested : ℕ → L → Outcome E Bool → S → Type ν
    Tested fuel l (ok true) s = R fuel l s
    Tested fuel l (ok false) s = Q (ok l) s
    Tested fuel l (err e) s = Q (err e) s
    Tested fuel l panic s = Q panic s
    Tested fuel l unfinished s = Q unfinished s

    abbrev pub Rounded : ℕ → Outcome E (Turn L) → S → Type ν
    Rounded fuel (ok (again l)) s = P fuel l s
    Rounded fuel (ok (leave l)) s = Q (ok l) s
    Rounded fuel (err e) s = Q (err e) s
    Rounded fuel panic s = Q panic s
    Rounded fuel unfinished s = Q unfinished s

    abbrev Ends : Outcome E L × S → Type ν
    Ends (r, s) = Q r s

    Tested-Ends :
        (fuel : ℕ) (k : L → Action S E L)
        → ((l : L) (s : S) → R fuel l s → Ends (k l s))
        → (l : L) (c : Outcome E Bool) (s : S) → Tested fuel l c s
        → Ends (after_test k l c s)
    unfolding after_test
    Tested-Ends fuel k next l (ok true) s h = next l s h
    Tested-Ends fuel k next l (ok false) s h = h
    Tested-Ends fuel k next l (err e) s h = h
    Tested-Ends fuel k next l panic s h = h
    Tested-Ends fuel k next l unfinished s h = h

    Rounded-Ends :
        (fuel : ℕ) (k : L → Action S E L)
        → ((l : L) (s : S) → P fuel l s → Ends (k l s))
        → (t : Outcome E (Turn L)) (s : S) → Rounded fuel t s
        → Ends (after_round k t s)
    unfolding after_round
    Rounded-Ends fuel k next (ok (again l)) s h = next l s h
    Rounded-Ends fuel k next (ok (leave l)) s h = h
    Rounded-Ends fuel k next (err e) s h = h
    Rounded-Ends fuel k next panic s h = h
    Rounded-Ends fuel k next unfinished s h = h

    module _ (cond : L → Action S E Bool) (body : L → Action S E (Turn L)) where
      pub loop_rule :
          ((l : L) (s : S) → P 0 l s → Q unfinished s)
          → ((fuel : ℕ) (l : L) (s : S)
              → P (suc fuel) l s
              → Tested fuel l (cond l s).0 (cond l s).1)
          → ((fuel : ℕ) (l : L) (s : S) → R fuel l s → Rounded fuel (body l s).0 (body l s).1)
          → (fuel : ℕ) (l : L) (s : S) → P fuel l s
          → Ends (loop cond body fuel l s)
      unfolding loop
      loop_rule dry test round zero l s h = dry l s h
      loop_rule dry test round (suc fuel) l s h =
          Tested-Ends fuel _
            (λ l s r. Rounded-Ends fuel _ (loop_rule dry test round fuel) _ _ (round fuel l s r)) l
            _ _ (test fuel l s h)
