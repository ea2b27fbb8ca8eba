-- ===== src/Prelude/Sort.antt =====
-- The stable sort of the standard library, by an order given as a test, and its laws.
use mathlib.Core.Path.{◌≡◌, refl, ap, ap₂}
use mathlib.Core.Logic.{inl, inr}
use mathlib.Core.Logic.Or
use mathlib.Core.Bool.{Bool, true, false}
use mathlib.Core.List.{List, [], ◌∷◌, Mem, Perm, mem-cons, mem-cons_self, not-mem-nil, map}
use mathlib.Core.List.Perm
use joinstr.Prelude.Lists.{All}
use joinstr.Prelude.Tests.{if◌then◌else◌, Bool-cases}

-- A total preorder as a test.
pub record IsPreorder {ℓ} {A : Type ℓ} (le : A → A → Bool) : Type ℓ where
  pub le_total : (a b : A) → le a b ≡ false → le b a ≡ true
  pub le_trans : (a b c : A) → le a b ≡ true → le b c ≡ true → le a c ≡ true

module _ {ℓ} {A : Type ℓ} (le : A → A → Bool) where
  unfoldable pub insert_by : A → List A → List A
  insert_by x [] = x ∷ []
  insert_by x (y ∷ ys) = if le x y then x ∷ y ∷ ys else y ∷ insert_by x ys

  unfoldable pub sort_by : List A → List A
  unfolding insert_by
  sort_by [] = []
  sort_by (x ∷ xs) = insert_by x (sort_by xs)

  abbrev AtLeast : A → A → Type 0
  AtLeast a x = le a x ≡ true

  -- Each element is below all that follow.
  abbrev pub IsSorted : List A → Type 0
  IsSorted [] = Unit
  IsSorted (x ∷ xs) = All (AtLeast x) xs × IsSorted xs

  insert_by-perm : (x : A) (l : List A) → Perm (insert_by x l) (x ∷ l)
  unfolding insert_by
  insert_by-perm x [] = Perm.rfl
  insert_by-perm x (y ∷ ys) = elim (Bool-cases (le x y)) [
    | inr later ↦ rw later (Perm.trans (Perm.cons y (insert_by-perm x ys)) (Perm.swap x y ys))
    | inl here ↦ rw here Perm.rfl
  ]

  pub sort_by-perm : (l : List A) → Perm (sort_by l) l
  unfolding sort_by
  sort_by-perm [] = Perm.rfl
  sort_by-perm (x ∷ xs) = Perm.trans (insert_by-perm x (sort_by xs)) (Perm.cons x (sort_by-perm xs))

  insert_by-All :
      {a : A} (x : A) (l : List A)
      → le a x ≡ true
      → All (AtLeast a) l
      → All (AtLeast a) (insert_by x l)
  unfolding insert_by
  insert_by-All x [] p _ = (p, tt)
  insert_by-All x (y ∷ ys) p (q, rest) = elim (Bool-cases (le x y)) [
    | inl here ↦ rw (here, insert_by) (p, (q, rest))
    | inr later ↦ rw (later, insert_by) (q, insert_by-All x ys p rest)
  ]

  module _ (order : IsPreorder le) where
    All-below : {a b : A} (l : List A) → le a b ≡ true → All (AtLeast b) l → All (AtLeast a) l
    All-below [] p _ = tt
    All-below {a} {b} (x ∷ xs) p (q, rest) = (order.le_trans a b x p q, All-below xs p rest)

    insert_by-IsSorted : (x : A) (l : List A) → IsSorted l → IsSorted (insert_by x l)
    unfolding insert_by
    insert_by-IsSorted x [] _ = (tt, tt)
    insert_by-IsSorted x (y ∷ ys) (below, s) = elim (Bool-cases (le x y)) [
      | inl here ↦ rw here ((here, All-below ys here below), (below, s))
      | inr later ↦
          rw later (insert_by-All x ys (order.le_total x y later) below, insert_by-IsSorted x ys s)
    ]

    pub sort_by-IsSorted : (l : List A) → IsSorted (sort_by l)
    unfolding sort_by
    sort_by-IsSorted [] = tt
    sort_by-IsSorted (x ∷ xs) = insert_by-IsSorted x (sort_by xs) (sort_by-IsSorted xs)

    le_refl : (a : A) → le a a ≡ true
    le_refl a = elim (Bool-cases (le a a)) [ inl p ↦ p | inr p ↦ order.le_total a a p ]

    test_prop : (a b : A) → IsProp (le a b ≡ true)
    test_prop a b = hlevel

    All-mem : {a x : A} (l : List A) → All (AtLeast a) l → Mem x l → le a x ≡ true
    All-mem [] _ m = absurd (not-mem-nil m)
    All-mem {a} {x} (y ∷ ys) (p, rest) m =
        Or.elim (test_prop a x) (mem-cons.0 m) (λ e. rw e p) (All-mem {a = a} {x = x} ys rest)

    -- The first of a sorted list is below all elements, the first one included.
    first_le : {a x : A} {l : List A} → IsSorted (a ∷ l) → Mem x (a ∷ l) → le a x ≡ true
    first_le {a} {l = l} (below, _) m = All-mem (a ∷ l) (le_refl a, below) m

    -- A list has one sorted rearrangement, where elements that are below one another are equal.
    pub IsSorted-eq_of_perm :
        ((a b : A) → le a b ≡ true → le b a ≡ true → a ≡ b)
        → (l r : List A) → IsSorted l
        → IsSorted r
        → Perm l r
        → l ≡ r
    IsSorted-eq_of_perm antisymm [] r _ _ p = Perm.nil-eq p
    IsSorted-eq_of_perm antisymm (a ∷ l) [] _ _ p = Perm.eq-nil p
    IsSorted-eq_of_perm antisymm (a ∷ l) (b ∷ r) sl sr p =
        ap₂ ◌∷◌ same (IsSorted-eq_of_perm antisymm l r sl.1 sr.1 rest)
      where
        same : a ≡ b
        same =
            antisymm a b (first_le sl ((Perm.mem_iff p).1 mem-cons_self))
              (first_le sr ((Perm.mem_iff p).0 mem-cons_self))

        rest : Perm l r
        rest = Perm.cons_inv (rw same at p)

module _ {ℓ κ} {A : Type ℓ} {B : Type κ} (f : A → B) (le : B → B → Bool) where
  insert_by-map :
      (x : A) (l : List A)
      → insert_by le (f x) (map f l) ≡ map f (insert_by (λ a b. le (f a) (f b)) x l)
  unfolding insert_by
  insert_by-map x [] = refl
  insert_by-map x (y ∷ ys) = elim (Bool-cases (le (f x) (f y))) [
    | inl p ↦ rw p
    | inr p ↦ rw p (ap (◌∷◌ (f y)) (insert_by-map x ys))
  ]

  -- Sorting images is sorting by the image.
  pub sort_by-map : (l : List A) → sort_by le (map f l) ≡ map f (sort_by (λ a b. le (f a) (f b)) l)
  unfolding sort_by
  sort_by-map [] = refl
  sort_by-map (x ∷ xs) = rw (sort_by-map xs) (insert_by-map x (sort_by _ xs))
