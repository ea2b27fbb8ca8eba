-- ===== src/Prelude/Triples.antt =====
-- What an action leaves behind: `Ensures` where it returns a value, and `Keeps` however it ends.
use Prim.Native.Nat.{ℕ}
use mathlib.Core.Path.{◌≡◌, refl, ap, ◌∙◌}
use mathlib.Core.Logic.{inl, inr}
use mathlib.Core.Bool.{Bool, true, false}
use mathlib.Core.Option.{Option, none, some}
use native.Mathlib.Omega.{arith}
use joinstr.Prelude.Tests.{if◌then◌else◌}
use joinstr.Prelude.Results.{
  Outcome, ok, err, panic, unfinished, Action, Outcome-cases, ◌>>=◌, ◌>>◌, pure, gets, ok_or,
  throw_if, yields,
}
use joinstr.Prelude.Loops.{Turn, again, leave, loop, loop_rule, Tested, Rounded}

-- The local state with which a round ends.
abbrev pub local : {L : Type 0} → Turn L → L
local (again l) = l
local (leave l) = l

module _ {S E A : Type 0} where
  -- Called where `P` holds, it returns no value but with `Q`.
  pub record Ensures (P : S → Type 0) (Q : A → S → Type 0) (m : Action S E A) : Type 0 where
    pub holds : (s : S) → P s → (a : A) → (m s).0 ≡ ok a → Q a (m s).1

  -- However it ends, this part of the state is as it was.
  pub record Keeps {X : Type 0} (f : S → X) (m : Action S E A) : Type 0 where
    pub kept : (s : S) → f (m s).1 ≡ f s

  pub Ensures-mono :
      {P P' : S → Type 0} {Q Q' : A → S → Type 0} {m : Action S E A}
      → ((s : S) → P' s → P s)
      → ((a : A) (s : S) → Q a s → Q' a s)
      → Ensures P Q m
      → Ensures P' Q' m
  Ensures-mono before after e = record { holds = λ s p a r. after a _ (e.holds s (before s p) a r) }

module _ {S E A B : Type 0} where
  pub Ensures-bind :
      {P : S → Type 0} {R : A → S → Type 0} {Q : B → S → Type 0} {m : Action S E A}
      {f : A → Action S E B}
      → Ensures P R m
      → ((a : A) → Ensures (R a) Q (f a))
      → Ensures P Q (m >>= f)
  unfolding ◌>>=◌
  Ensures-bind {m = m} e g = record {
    holds = λ s p b r. elim (Outcome-cases (m s).0) [
      | inl (a, q) ↦ rw (q, ◌>>=◌) ((g a).holds (m s).1 (e.holds s p a q) b (rw (q, ◌>>=◌) at r))
      | inr failed ↦ absurd (ground arith)
    ];
  }

  pub Keeps-bind :
      {X : Type 0} {f : S → X} {m : Action S E A} {k : A → Action S E B}
      → Keeps f m
      → ((a : A) → Keeps f (k a))
      → Keeps f (m >>= k)
  unfolding ◌>>=◌
  Keeps-bind {f = f} {m = m} e g = record {
    kept = λ s. elim (Outcome-cases (m s).0) [
      | inl (a, q) ↦ rw (q, ◌>>=◌) ((g a).kept (m s).1 ∙ e.kept s)
      | inr (inl (x, q)) ↦ rw (q, ◌>>=◌) (e.kept s)
      | inr (inr (inl q)) ↦ rw (q, ◌>>=◌) (e.kept s)
      | inr (inr (inr q)) ↦ rw (q, ◌>>=◌) (e.kept s)
    ];
  }

module _ {S E B : Type 0} where
  pub Ensures-then :
      {P R : S → Type 0} {Q : B → S → Type 0} {m : Action S E (Unit {0})} {k : Action S E B}
      → Ensures P (λ _. R) m
      → Ensures R Q k
      → Ensures P Q (m >> k)
  unfolding ◌>>◌
  Ensures-then e g = Ensures-bind e (λ _. g)

  pub Keeps-then :
      {X : Type 0} {f : S → X} {m : Action S E (Unit {0})} {k : Action S E B}
      → Keeps f m
      → Keeps f k
      → Keeps f (m >> k)
  unfolding ◌>>◌
  Keeps-then e g = Keeps-bind e (λ _. g)

module _ {S E A : Type 0} where
  pub Keeps-Ensures :
      {X : Type 0} {f : S → X} {m : Action S E A} (P : X → Type 0)
      → Keeps f m
      → Ensures (λ s. P (f s)) (λ _ s. P (f s)) m
  Keeps-Ensures P e = record { holds = λ s p a r. rw (e.kept s) p }

  pub Ensures-and :
      {P : S → Type 0} {Q R : A → S → Type 0} {m : Action S E A}
      → Ensures P Q m
      → Ensures P R m
      → Ensures P (λ a s. Q a s × R a s) m
  Ensures-and e g = record { holds = λ s p a r. (e.holds s p a r, g.holds s p a r) }

  pub Ensures-pure :
      {P : S → Type 0} {Q : A → S → Type 0} (a : A)
      → ((s : S) → P s → Q a s)
      → Ensures {E = E} P Q (pure a)
  unfolding pure
  Ensures-pure {Q = Q} a h = record {
    holds = λ s p b e. let same : a ≡ b = ground (arith, e) in rw (← same) (h s p);
  }

  -- A fact on values only, known before.
  pub Ensures-knowing :
      {P : S → Type 0} {Q : A → S → Type 0} {K : Type 0} {m : Action S E A}
      → (K → Ensures P Q m)
      → Ensures (λ s. P s × K) Q m
  Ensures-knowing e = record { holds = λ s (p, k) a r. (e k).holds s p a r }

  pub Ensures-exists :
      {D : Type 0} {P : D → S → Type 0} {Q : A → S → Type 0} {m : Action S E A}
      → ((d : D) → Ensures (P d) Q m)
      → Ensures (λ s. (d : D) × P d s) Q m
  Ensures-exists e = record { holds = λ s (d, p) a r. (e d).holds s p a r }

  pub Ensures-never : {Q : A → S → Type 0} {m : Action S E A} → Ensures (λ _. ⊥) Q m
  Ensures-never = record { holds = λ s p a r. absurd p }

  pub Ensures-panic : {P : S → Type 0} {Q : A → S → Type 0} → Ensures {E = E} P Q (yields panic)
  unfolding yields
  Ensures-panic = record { holds = λ s p a r. absurd (cc) }

  pub Ensures-yields :
      {P : S → Type 0} (r : Outcome E A) → Ensures P (λ a s. P s × (r ≡ ok a)) (yields r)
  unfolding yields
  Ensures-yields r = record { holds = λ s p a e. (p, e) }

  pub Ensures-if :
      {P : S → Type 0} {Q : A → S → Type 0} {m n : Action S E A} (b : Bool)
      → Ensures P Q m
      → Ensures P Q n
      → Ensures P Q (if b then m else n)
  Ensures-if true e g = e
  Ensures-if false e g = g

  pub Keeps-if :
      {X : Type 0} {f : S → X} {m n : Action S E A} (b : Bool)
      → Keeps f m
      → Keeps f n
      → Keeps f (if b then m else n)
  Keeps-if true e g = e
  Keeps-if false e g = g

  pub Keeps-pure : {X : Type 0} {f : S → X} (a : A) → Keeps {E = E} f (pure a)
  unfolding pure
  Keeps-pure a = record { kept = λ s. refl }

  pub Keeps-gets : {X : Type 0} {f : S → X} (g : S → A) → Keeps {E = E} f (gets g)
  unfolding gets
  Keeps-gets g = record { kept = λ s. refl }

  pub Keeps-ok_or : {X : Type 0} {f : S → X} (o : Option A) (x : E) → Keeps f (ok_or o x)
  unfolding ok_or
  Keeps-ok_or none x = record { kept = λ s. refl }
  Keeps-ok_or (some a) x = record { kept = λ s. refl }

  pub Keeps-yields : {X : Type 0} {f : S → X} (r : Outcome E A) → Keeps f (yields r)
  unfolding yields
  Keeps-yields r = record { kept = λ s. refl }

-- A `match` on an option.
module _ {S E A B : Type 0} {n : Action S E B} {k : A → Action S E B} where
  pub Keeps-option :
      {X : Type 0} {f : S → X} (o : Option A)
      → ((a : A) → Keeps f (k a))
      → Keeps f n
      → Keeps f (elim o [ some a ↦ k a | none ↦ n ])
  Keeps-option none e g = g
  Keeps-option (some a) e g = e a

  pub Ensures-option :
      {P : S → Type 0} {Q : B → S → Type 0} (o : Option A)
      → ((a : A) → Ensures P Q (k a))
      → Ensures P Q n
      → Ensures P Q (elim o [ some a ↦ k a | none ↦ n ])
  Ensures-option none e g = g
  Ensures-option (some a) e g = e a

module _ {S E : Type 0} where
  pub Keeps-throw_if : {X : Type 0} {f : S → X} (c : Bool) (x : E) → Keeps f (throw_if c x)
  unfolding throw_if
  Keeps-throw_if c x = record { kept = λ s. refl }

module _ {S E L : Type 0} {cond : L → Action S E Bool} {body : L → Action S E (Turn L)} where
  -- An invariant of the rounds.
  pub Ensures-loop :
      (I : L → S → Type 0)
      → ((l : L) → Ensures (I l) (λ _. I l) (cond l))
      → ((l : L) → Ensures (I l) (λ t. I (local t)) (body l))
      → (fuel : ℕ) (l : L) → Ensures (I l) I (loop cond body fuel l)
  Ensures-loop I test round fuel l = record {
    holds = λ s p a r.
        ended (loop cond body fuel l s).0 _
          (loop_rule (λ _. I) (λ _. I) Q cond body (λ l s i. tt)
            (λ n l s i. tested n l s i (cond l s).0 refl)
            (λ n l s i. rounded n l s i (body l s).0 refl) fuel l s p)
          a r;
  }
    where
      Q : Outcome E L → S → Type 0
      Q (ok l) s = I l s
      Q (err e) s = Unit
      Q panic s = Unit
      Q unfinished s = Unit

      ended : (o : Outcome E L) (s : S) → Q o s → (l : L) → o ≡ ok l → I l s
      ended (ok k) s q l e = let same : k ≡ l = cc in rw (← same) q
      ended (err x) s q l e = absurd (ground arith)
      ended panic s q l e = absurd (ground arith)
      ended unfinished s q l e = absurd (ground arith)

      tested :
          (n : ℕ) (l : L) (s : S)
          → I l s
          → (c : Outcome E Bool) → (cond l s).0 ≡ c
          → Tested (λ _. I) (λ _. I) Q n l c (cond l s).1
      tested n l s i (ok true) e = (test l).holds s i true e
      tested n l s i (ok false) e = (test l).holds s i false e
      tested n l s i (err x) e = tt
      tested n l s i panic e = tt
      tested n l s i unfinished e = tt

      rounded :
          (n : ℕ) (l : L) (s : S)
          → I l s
          → (t : Outcome E (Turn L)) → (body l s).0 ≡ t
          → Rounded (λ _. I) (λ _. I) Q n t (body l s).1
      rounded n l s i (ok (again k)) e = (round l).holds s i (again k) e
      rounded n l s i (ok (leave k)) e = (round l).holds s i (leave k) e
      rounded n l s i (err x) e = tt
      rounded n l s i panic e = tt
      rounded n l s i unfinished e = tt

module _ {S E L X : Type 0} {f : S → X} {cond : L → Action S E Bool}
    {body : L → Action S E (Turn L)} where
  pub Keeps-loop :
      ((l : L) → Keeps f (cond l))
      → ((l : L) → Keeps f (body l))
      → (fuel : ℕ) (l : L) → Keeps f (loop cond body fuel l)
  Keeps-loop test round fuel l = record {
    kept = λ s.
        loop_rule (λ _. I s) (λ _. I s) (λ _ t. f t ≡ f s) cond body (λ l t i. i)
          (λ n l t i. tested s n l t i (cond l t).0) (λ n l t i. rounded s n l t i (body l t).0)
          fuel l s refl;
  }
    where
      I : S → L → S → Type 0
      I s l t = f t ≡ f s

      tested :
          (s : S) (n : ℕ) (l : L) (t : S)
          → I s l t
          → (c : Outcome E Bool)
          → Tested (λ _. I s) (λ _. I s) (λ _ t. f t ≡ f s) n l c (cond l t).1
      tested s n l t i (ok true) = (test l).kept t ∙ i
      tested s n l t i (ok false) = (test l).kept t ∙ i
      tested s n l t i (err x) = (test l).kept t ∙ i
      tested s n l t i panic = (test l).kept t ∙ i
      tested s n l t i unfinished = (test l).kept t ∙ i

      rounded :
          (s : S) (n : ℕ) (l : L) (t : S)
          → I s l t
          → (c : Outcome E (Turn L))
          → Rounded (λ _. I s) (λ _. I s) (λ _ t. f t ≡ f s) n c (body l t).1
      rounded s n l t i (ok (again k)) = (round l).kept t ∙ i
      rounded s n l t i (ok (leave k)) = (round l).kept t ∙ i
      rounded s n l t i (err x) = (round l).kept t ∙ i
      rounded s n l t i panic = (round l).kept t ∙ i
      rounded s n l t i unfinished = (round l).kept t ∙ i

-- What follows a call that returns a value.
pub runs :
    {W E A B : Type 0} (m : Action W E A) (f : A → Action W E B) (w : W) (a : A) (w' : W)
    → m w ≡ (ok a, w')
    → (m >>= f) w ≡ f a w'
unfolding ◌>>=◌
runs m f w a w' q = rw (ap (λ r. r.0) q, ◌>>=◌) (ap (λ r. f a r.1) q)
