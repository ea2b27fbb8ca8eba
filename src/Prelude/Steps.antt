-- ===== src/Prelude/Steps.antt =====
-- Actions that end, and leave the object in a relation to what it was: the rules for `>>=` and for
-- loops. The relation is a preorder that does not lower a rank.
use Prim.Native.Nat.{ℕ, suc, ◌+◌, ◌≤◌, ◌<◌}
use mathlib.Core.Path.{◌≡◌, refl}
use mathlib.Core.Logic.{◌≢◌, inl, inr}
use mathlib.Core.Bool.{Bool, true, false}
use mathlib.Core.Option.{Option, none, some}
use native.Mathlib.Omega.{arith}
use joinstr.Prelude.Results.{
  Outcome, ok, unfinished, Action, Outcome-cases, ◌>>=◌, ◌>>◌, pure, throw, modify, gets, ok_or,
  throw_if, yields,
}
use joinstr.Prelude.Loops.{Turn, again, leave, loop, loop_rule, Tested, Rounded}

pub record IsFrame {S : Type 0} (I : S → Type 0) (R : S → S → Type 0) (rank : S → ℕ) : Type 0 where
  pub frame_keeps : (s t : S) → I s → R s t → I t
  pub frame_refl : (s : S) → R s s
  pub frame_trans : (s t u : S) → R s t → R t u → R s u
  pub frame_rank : (s t : S) → R s t → rank s ≤ rank t

module _ {S : Type 0} (I : S → Type 0) (R : S → S → Type 0) {E : Type 0} where
  -- Where it is called in a state of `I` the action ends, with any result, and what it leaves is
  -- related to what it got.
  pub record Sound {A : Type 0} (m : Action S E A) : Type 0 where
    pub ends : (s : S) → I s → (m s).0 ≢ unfinished
    pub frame : (s : S) → I s → R s (m s).1

  -- And a value that it returns has a property.
  pub record SoundTo {A : Type 0} (P : A → Type 0) (m : Action S E A) : Type 0 where
    pub sound : Sound m
    pub post : (s : S) → I s → (a : A) → (m s).0 ≡ ok a → P a

module _ {S : Type 0} {I : S → Type 0} {R : S → S → Type 0} {rank : S → ℕ} (law : IsFrame I R rank)
    {E : Type 0} where
  pub Sound-bind_to :
      {A B : Type 0} {P : A → Type 0} {m : Action S E A} {f : A → Action S E B}
      → SoundTo I R P m
      → ((a : A) → P a → Sound I R (f a))
      → Sound I R (m >>= f)
  unfolding ◌>>=◌
  Sound-bind_to {m = m} {f = f} p q = record {
    ends = λ s i. elim (Outcome-cases (m s).0) [
      | inl (a, e) ↦
          rw (e, ◌>>=◌)
            ((q a (p.post s i a e)).ends (m s).1 (law.frame_keeps _ _ i (p.sound.frame s i)))
      | inr (inl (x, e)) ↦ rw (e, ◌>>=◌) (λ h. cc)
      | inr (inr (inl e)) ↦ rw (e, ◌>>=◌) (λ h. cc)
      | inr (inr (inr e)) ↦ absurd (p.sound.ends s i e)
    ];
    frame = λ s i. elim (Outcome-cases (m s).0) [
      | inl (a, e) ↦
          let first = p.sound.frame s i in
          rw (e, ◌>>=◌)
            (law.frame_trans _ _ _ first
              ((q a (p.post s i a e)).frame (m s).1 (law.frame_keeps _ _ i first)))
      | inr (inl (x, e)) ↦ rw (e, ◌>>=◌) (p.sound.frame s i)
      | inr (inr (inl e)) ↦ rw (e, ◌>>=◌) (p.sound.frame s i)
      | inr (inr (inr e)) ↦ rw (e, ◌>>=◌) (p.sound.frame s i)
    ];
  }

  pub Sound-bind :
      {A B : Type 0} {m : Action S E A} {f : A → Action S E B}
      → Sound I R m
      → ((a : A) → Sound I R (f a))
      → Sound I R (m >>= f)
  Sound-bind p q =
      Sound-bind_to (record { sound = p; post = λ s i a e. tt }) (λ a (u : Unit {0}). q a)

  pub Sound-then :
      {B : Type 0} {m : Action S E (Unit {0})} {k : Action S E B}
      → Sound I R m
      → Sound I R k
      → Sound I R (m >> k)
  unfolding ◌>>◌
  Sound-then p q = Sound-bind p (λ _. q)

  Sound-still :
      {A : Type 0} {m : Action S E A}
      → ((s : S) → (m s).0 ≢ unfinished)
      → ((s : S) → (m s).1 ≡ s)
      → Sound I R m
  Sound-still p q = record { ends = λ s i. p s; frame = λ s i. rw (q s) (law.frame_refl s) }

  pub Sound-pure : {A : Type 0} (a : A) → Sound I R {E = E} (pure a)
  unfolding pure
  Sound-pure a = Sound-still (λ s h. cc) (λ s. refl)

  pub Sound-throw : {A : Type 0} (e : E) → Sound I R {A = A} (throw e)
  unfolding throw
  Sound-throw e = Sound-still (λ s h. cc) (λ s. refl)

  pub Sound-gets : {A : Type 0} (f : S → A) → Sound I R {E = E} (gets f)
  unfolding gets
  Sound-gets f = Sound-still (λ s h. cc) (λ s. refl)

  pub Sound-ok_or : {A : Type 0} (o : Option A) (e : E) → Sound I R (ok_or o e)
  unfolding ok_or
  Sound-ok_or none e = Sound-throw e
  Sound-ok_or (some a) e = Sound-pure a

  pub Sound-throw_if : (c : Bool) (e : E) → Sound I R (throw_if c e)
  unfolding throw_if
  Sound-throw_if c e = Sound-still (λ s h. ground arith) (λ s. refl)

  pub Sound-yields : {A : Type 0} (r : Outcome E A) → r ≢ unfinished → Sound I R (yields r)
  unfolding yields
  Sound-yields r p = Sound-still (λ s. p) (λ s. refl)

  pub Sound-modify : (f : S → S) → ((s : S) → R s (f s)) → Sound I R {E = E} (modify f)
  unfolding modify
  Sound-modify f p = record { ends = λ s i h. cc; frame = λ s i. p s }

  -- A loop whose tests move the rank, and hold up to a bound only, ends with enough fuel.
  pub Sound-loop :
      {L : Type 0} {cond : L → Action S E Bool} {body : L → Action S E (Turn L)}
      → ((l : L) → Sound I R (cond l))
      → ((l : L) → Sound I R (body l))
      → ((l : L) (s : S) → rank s < rank (cond l s).1)
      → (bound : ℕ) → ((l : L) (s : S) → (cond l s).0 ≡ ok true → rank (cond l s).1 ≤ bound)
      → (fuel : ℕ) → bound < fuel
      → (l : L) → Sound I R (loop cond body fuel l)
  Sound-loop {L} {cond} {body} test round moves bound stops fuel enough l = record {
    ends = λ s i. (all s i).0;
    frame = λ s i. (all s i).1;
  }
    where
      all :
          (s : S)
          → I s
          → ((loop cond body fuel l s).0 ≢ unfinished) × R s (loop cond body fuel l s).1
      all s i =
          loop_rule P P Q cond body (λ l t h. absurd (omega (arith, h.2))) tested rounded fuel l s
            (i, law.frame_refl s, omega (arith, enough), omega (arith, enough))
        where
          P : ℕ → L → S → Type 0
          P n l t = I t × R s t × (0 < n) × (bound < rank t + n)

          Q : Outcome E L → S → Type 0
          Q r t = (r ≢ unfinished) × R s t

          tested :
              (n : ℕ) (l : L) (t : S) → P (suc n) l t → Tested P P Q n l (cond l t).0 (cond l t).1
          tested n l t (j, r, more, far) =
              let step = (test l).frame t j in
              let later = law.frame_trans s t _ r step in
              elim (Outcome-cases (cond l t).0) [
                | inl (true, e) ↦ rw e (
                  law.frame_keeps _ _ j step,
                  later,
                  omega (arith, far, moves l t, stops l t e),
                  omega (arith, far, moves l t),
                )
                | inl (false, e) ↦ rw e ((λ h. cc), later)
                | inr (inl (x, e)) ↦ rw e ((λ h. cc), later)
                | inr (inr (inl e)) ↦ rw e ((λ h. cc), later)
                | inr (inr (inr e)) ↦ absurd ((test l).ends t j e)
              ]

          rounded : (n : ℕ) (l : L) (t : S) → P n l t → Rounded P P Q n (body l t).0 (body l t).1
          rounded n l t (j, r, more, far) =
              let step = (round l).frame t j in
              let later = law.frame_trans s t _ r step in
              elim (Outcome-cases (body l t).0) [
                | inl (again l', e) ↦ rw e (
                  law.frame_keeps _ _ j step,
                  later,
                  more,
                  omega (arith, far, law.frame_rank _ _ step),
                )
                | inl (leave l', e) ↦ rw e ((λ h. cc), later)
                | inr (inl (x, e)) ↦ rw e ((λ h. cc), later)
                | inr (inr (inl e)) ↦ rw e ((λ h. cc), later)
                | inr (inr (inr e)) ↦ absurd ((round l).ends t j e)
              ]
