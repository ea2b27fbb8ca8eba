-- ===== src/Bitcoin/Example.antt =====
-- A small implementation of `Bitcoin`, to run the program's definitions on.
use mathlib.Core.List.{
  mem-cons, mem-cons_of_mem, Nodup-cons, Nodup-nil, reverse, reverse_perm, Mem-prop,
}
use mathlib.Core.List.Perm
use mathlib.Core.Logic.{∨₁_prop}
use mathlib.Core.Logic.Or
use joinstr.Prelude.{
  ℕ, ◌+◌, ◌*◌, ◌^◌, ◌≡◌, refl, ◌↔◌, inl, inr, Option, none, some, List, [], ◌∷◌, Mem, Nodup, arith,
  ltb, leb, if◌then◌else◌, Bool-cases, length,
}
use joinstr.Prelude.Sort.{IsPreorder}
use joinstr.Bitcoin.{Address, Bitcoin, IsLawful, regtest, sum}
use joinstr.CoinJoin.{contains}
use joinstr.CoinJoin.Outputs.{contains→mem, not_contains→not_mem}

unfoldable pub dedup : List Address → List Address
unfolding contains
dedup [] = []
dedup (a ∷ l) = let rest = dedup l in if contains rest a then rest else a ∷ rest

pub dedup-Nodup : (l : List Address) → Nodup (dedup l)
unfolding dedup
dedup-Nodup [] = Nodup-nil
dedup-Nodup (a ∷ l) = elim (Bool-cases (contains (dedup l) a)) [
  | inl p ↦ rw p (dedup-Nodup l)
  | inr p ↦ rw p (Nodup-cons.1 (not_contains→not_mem (dedup l) a p, dedup-Nodup l))
]

mem-dedup : (a : Address) (l : List Address) → Mem a (dedup l) ↔ Mem a l
unfolding dedup
mem-dedup a [] = (λ m. m, λ m. m)
mem-dedup a (b ∷ l) = elim (Bool-cases (contains (dedup l) b)) [
  | inl p ↦ rw p (
    λ m. mem-cons_of_mem b ((mem-dedup a l).0 m),
    λ m. Or.elim Mem-prop (mem-cons.0 m) (λ e. rw e (contains→mem (dedup l) b p)) (mem-dedup a l).1,
  )
  | inr p ↦ rw p (
    λ m. mem-cons.1 (Or.elim ∨₁_prop (mem-cons.0 m) Or.inl (λ n. Or.inr ((mem-dedup a l).0 n))),
    λ m. mem-cons.1 (Or.elim ∨₁_prop (mem-cons.0 m) Or.inl (λ n. Or.inr ((mem-dedup a l).1 n))),
  )
]

abbrev pub checked : ℕ → Option ℕ
checked n = if ltb n (2 ^ 64) then some n else none

-- Scripts and addresses are the same numbers; those below 1000 belong to regtest.
abbrev pub small : Bitcoin
small = record {
  script_pubkey = λ a. a;
  is_valid_for_network = λ a n. elim n [ regtest ↦ ltb a 1000 | _ ↦ leb 1000 a ];
  script_le = leb;
  hash_set = dedup;
  witness_is_empty = λ w. leb w 0;
  psbt_from_unsigned_tx = λ tx. some (record { unsigned_tx = tx; inputs = [] });
  weight = λ tx. 40 + 270 * length tx.input + 124 * length tx.output;
  rate_below = λ fee weight rate. ltb fee (rate * weight);
  amount_add = λ a b. checked (a + b);
  amount_sum = λ l. checked (sum l);
}

small-IsPreorder : IsPreorder leb
small-IsPreorder = record { le_total = λ a b h. ground arith; le_trans = λ a b c h k. ground arith }

checked-eq : (n c : ℕ) → checked n ≡ some c → c ≡ n
checked-eq n c h = ground arith

-- `small` with any order in which a `HashSet` may iterate.
pub small-IsLawful_by :
    (hash_set : List Address → List Address)
    → ((l : List Address) → Nodup (hash_set l))
    → ((a : Address) (l : List Address) → Mem a (hash_set l) ↔ Mem a l)
    → IsLawful (record small { hash_set = hash_set })
small-IsLawful_by hash_set nodup mem = record {
  script_order = small-IsPreorder;
  script_antisymm = λ a b h k. ground arith;
  hash_set-Nodup = nodup;
  mem-hash_set = mem;
  psbt_of_outputs = λ tx h. refl;
  rate_below_exact = λ fee weight rate _. refl;
  amount_add-eq = λ a b c h. checked-eq (a + b) c h;
  amount_sum-eq = λ l c h. checked-eq (sum l) c h;
}

pub small-IsLawful : IsLawful small
small-IsLawful = small-IsLawful_by dedup dedup-Nodup mem-dedup

-- Another order of iteration.
abbrev pub dedup_backwards : List Address → List Address
dedup_backwards l = reverse (dedup l)

pub backwards-IsLawful : IsLawful (record small { hash_set = dedup_backwards })
backwards-IsLawful =
    small-IsLawful_by dedup_backwards
      (λ l. Perm.nodup (Perm.symm (reverse_perm (dedup l))) (dedup-Nodup l))
      (λ a l.
        let moved = Perm.mem_iff (reverse_perm (dedup l)) in
        (λ m. (mem-dedup a l).0 (moved.0 m), λ m. moved.1 ((mem-dedup a l).1 m)))
