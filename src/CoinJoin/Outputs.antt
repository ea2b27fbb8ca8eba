-- ===== src/CoinJoin/Outputs.antt =====
-- The outputs of a `CoinJoin` and the unsigned transaction that `generate_psbt` makes of them.
use mathlib.Core.List.{Mem-prop, mem-cons, mem-cons_self, mem-cons_of_mem, not-mem-nil, Nodup-cons}
use mathlib.Core.List.Perm
use mathlib.Core.Logic.{◌∨₁◌}
use mathlib.Core.Logic.Or
use joinstr.Prelude.{
  ◌≡◌, ◌↔◌, inl, inr, true, false, List, [], ◌∷◌, Mem, Nodup, arith, ◌==◌, ==_iff, Bool-cases,
  perm-push,
}
use joinstr.Bitcoin.{Address}
use joinstr.CoinJoin.{CoinJoin, contains, add_output}

pub contains→mem : (l : List Address) (a : Address) → contains l a ≡ true → Mem a l
unfolding contains
contains→mem [] a h = cc
contains→mem (b ∷ l) a h = elim (Bool-cases (b == a)) [
  | inl p ↦ rw ((==_iff b a).0 p) mem-cons_self
  | inr p ↦ mem-cons_of_mem b (contains→mem l a (rw p at h))
]

pub not_contains→not_mem : (l : List Address) (a : Address) → contains l a ≡ false → ¬ Mem a l
unfolding contains
not_contains→not_mem [] a h m = not-mem-nil m
not_contains→not_mem (b ∷ l) a h m =
    Or.elim (λ x y. absurd x) (mem-cons.0 m) (λ e. ground arith)
      (not_contains→not_mem l a (ground arith))

module _ {C : Type 0} (s : CoinJoin C) (addr : Address) where
  -- No address is listed twice.
  pub add_output-Nodup : Nodup s.outputs → Nodup (add_output s addr).outputs
  unfolding add_output
  add_output-Nodup h = elim (Bool-cases (contains s.outputs addr)) [
    | inl p ↦ rw p h
    | inr p ↦ rw p (
        Perm.nodup (Perm.symm (perm-push s.outputs addr))
          (Nodup-cons.1 (not_contains→not_mem s.outputs addr p, h)))
  ]

  -- Afterwards the addresses are the old ones and the new one.
  pub mem-add_output :
      (a : Address) → Mem a (add_output s addr).outputs ↔ ((a ≡ addr) ∨₁ Mem a s.outputs)
  unfolding add_output
  mem-add_output a = elim (Bool-cases (contains s.outputs addr)) [
    | inl p ↦
        rw p (Or.inr, λ o. Or.elim Mem-prop o (λ e. rw e (contains→mem s.outputs addr p)) (λ m. m))
    | inr p ↦
        let moved = Perm.mem_iff (perm-push s.outputs addr) in
        rw p (λ m. mem-cons.0 (moved.0 m), λ o. moved.1 (mem-cons.1 o))
  ]
