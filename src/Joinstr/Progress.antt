-- ===== src/Joinstr/Progress.antt =====
-- Time passes: what is relied on of the clock and of the clients for the loops of a `Joinstr` to
-- end, and the frame in which its methods run.
pub mod Rounds
pub mod Inputs
pub mod Deadlines
pub mod Whole
pub mod Join
pub mod Start
use Prim.Native.String.{String}
use joinstr.Prelude.{
  if◌then◌else◌, ℕ, ◌*◌, ◌≤◌, ◌<◌, ◌≡◌, ◌≢◌, refl, sym, ap, ◌∙◌, inl, inr, Bool, true, false,
  Option, none, some, arith, Outcome, ok, err, panic, unfinished, Action, Outcome-cases, IsFrame,
  Sound, Sound-bind, Sound-then, Sound-pure, pure, map_err, ◌>>=◌, ◌>>◌,
}
use joinstr.Bitcoin.{Transaction}
use joinstr.CoinJoin.Ends.{Answers}
use joinstr.Nostr.Pool.{Pool, EventBuilder, PublicKey, PoolMessage, Keys}
use joinstr.Nostr.Error.{Error as NostrError}
use joinstr.Joinstr.Error.{Error, nostr}
use joinstr.Joinstr.Host.{Host}
use joinstr.Joinstr.State.{
  JoinstrInner, Joinstr, reads, on_nostr, asks, attempt, update, passes, in_world,
}

-- A call that returns, and takes no time back.
pub record Returns {W A S : Type 0} (world : S → W) (ticks : W → ℕ) {E : Type 0} (m : Action S E A)
    : Type 0 where
  pub returns : (s : S) → (m s).0 ≢ unfinished
  pub later : (s : S) → ticks (world s) ≤ ticks (world (m s).1)

abbrev pub client_world : {N W : Type 0} → N × W → W
client_world (_, w) = w

-- `ticks` counts what happens in the world. Each reading of the clock counts, and there are at most
-- `rate` of them in a second, so a late count means a late time.
pub record IsTimely {N C W : Type 0} (host : Host N C W) (notif : W → W) : Type 0 where
  pub ticks : W → ℕ
  pub rate : ℕ
  pub now_counts : (w : W) → ticks w < ticks (host.system.now w).1
  pub now_follows : (w : W) → ticks (host.system.now w).1 ≤ rate * (host.system.now w).0
  pub sleep_later : (d : ℕ) (w : W) → ticks w ≤ ticks (host.system.sleep d w)
  pub yield_later : (w : W) → ticks w ≤ ticks (host.system.yield_now w)
  pub random_later : (a b : ℕ) (w : W) → ticks w ≤ ticks (host.system.random_range a b w).1
  pub keys_later : (w : W) → ticks w ≤ ticks (host.generate_keys w).1
  pub pool_id_later : (k : ℕ) (w : W) → ticks w ≤ ticks (host.pool_id k w).1
  pub notif_later : (w : W) → ticks w ≤ ticks (notif w)
  pub connect_returns : Returns client_world ticks host.nostr.connect_nostr
  pub post_returns : (e : EventBuilder) → Returns client_world ticks (host.nostr.post_event e)
  pub send_returns :
      (k : PublicKey) (m : PoolMessage)
      → Returns client_world ticks (host.nostr.send_pool_message k m)
  pub receive_returns : Returns client_world ticks host.nostr.try_receive_pool_msg
  pub get_keys_returns : (n : N) → host.nostr.get_keys n ≢ unfinished
  pub relay_returns : (r : String) (n : N) → host.nostr.relay r n ≢ unfinished
  pub backend_answers : Answers host.electrum.backend
  pub broadcast_returns : (tx : Transaction) (c : C) → (host.electrum.broadcast tx c).0 ≢ unfinished
  pub keys_returns : (k : Keys) (n : N) → host.nostr.keys k n ≢ unfinished

module _ {N C W : Type 0} {host : Host N C W} {notif : W → W} (timely : IsTimely host notif)
    (pool : Pool) where
  abbrev pub rank : Joinstr N C W → ℕ
  rank s = timely.ticks s.world

  -- Time has passed, and the pool is the same.
  pub record Later (s t : Joinstr N C W) : Type 0 where
    pub later : rank s ≤ rank t
    pub same_pool : t.inner.pool ≡ s.inner.pool

  -- The pool that stays.
  abbrev pub HasPool : Joinstr N C W → Type 0
  HasPool s = s.inner.pool ≡ some pool

  pub Later-IsFrame : IsFrame HasPool Later rank
  Later-IsFrame = record {
    frame_keeps = λ s t i p. p.same_pool ∙ i;
    frame_refl = λ s. record { later = omega arith; same_pool = refl };
    frame_trans = λ s t u p q. record {
      later = omega (arith, p.later, q.later);
      same_pool = q.same_pool ∙ p.same_pool;
    };
    frame_rank = λ s t p. p.later;
  }

  module _ {A : Type 0} where
    pub Sound-reads :
        (f : JoinstrInner N C → Outcome Error A)
        → ((i : JoinstrInner N C) → f i ≢ unfinished)
        → Sound HasPool Later {E = Error} (reads {W = W} f)
    unfolding reads
    Sound-reads f p = record {
      ends = λ s i. p s.inner;
      frame = λ s i. record { later = omega arith; same_pool = refl };
    }

    pub Sound-on_nostr :
        {m : Action (N × W) NostrError A}
        → Returns client_world timely.ticks m
        → Sound HasPool Later (on_nostr {C = C} m)
    unfolding on_nostr
    Sound-on_nostr {m} p = record {
      ends = λ s i. elim (Outcome-cases (m (s.inner.client, s.world)).0) [
        | inl (a, e) ↦ rw e (λ h. cc)
        | inr (inl (x, e)) ↦ rw e (λ h. cc)
        | inr (inr (inl e)) ↦ rw e (λ h. cc)
        | inr (inr (inr e)) ↦ absurd (p.returns _ e)
      ];
      frame = λ s i. record { later = p.later (s.inner.client, s.world); same_pool = refl };
    }

    pub Sound-asks :
        (f : W → A × W)
        → ((w : W) → timely.ticks w ≤ timely.ticks (f w).1)
        → Sound HasPool Later {E = Error} (asks {N = N} {C = C} f)
    unfolding asks
    Sound-asks f p = record {
      ends = λ s i h. cc;
      frame = λ s i. record { later = p s.world; same_pool = refl };
    }

    pub Sound-attempt :
        {m : Action (Joinstr N C W) Error A}
        → Sound HasPool Later m
        → Sound HasPool Later (attempt m)
    unfolding attempt
    Sound-attempt {m} p = record {
      ends = λ s i. elim (Outcome-cases (m s).0) [
        | inl (a, e) ↦ rw e (λ h. cc)
        | inr (inl (x, e)) ↦ rw e (λ h. cc)
        | inr (inr (inl e)) ↦ rw e (λ h. cc)
        | inr (inr (inr e)) ↦ absurd (p.ends s i e)
      ];
      frame = λ s i. p.frame s i;
    }

    pub Sound-in_world :
        {m : Action W Error A}
        → ((w : W) → (m w).0 ≢ unfinished)
        → ((w : W) → timely.ticks w ≤ timely.ticks (m w).1)
        → Sound HasPool Later (in_world {N = N} {C = C} m)
    unfolding in_world
    Sound-in_world p q = record {
      ends = λ s i. p s.world;
      frame = λ s i. record { later = q s.world; same_pool = refl };
    }

  pub Sound-update :
      (f : JoinstrInner N C → JoinstrInner N C)
      → ((i : JoinstrInner N C) → (f i).pool ≡ i.pool)
      → Sound HasPool Later (update {W = W} f)
  unfolding update
  Sound-update f p = record {
    ends = λ s i h. cc;
    frame = λ s i. record { later = omega arith; same_pool = p s.inner };
  }

  pub Sound-passes :
      {f : W → W}
      → ((w : W) → timely.ticks w ≤ timely.ticks (f w))
      → Sound HasPool Later (passes {N = N} {C = C} f)
  unfolding passes
  Sound-passes p = record {
    ends = λ s i h. cc;
    frame = λ s i. record { later = p s.world; same_pool = refl };
  }

  module _ {A B : Type 0} where
    pub bind :
        {m : Action (Joinstr N C W) Error A} {f : A → Action (Joinstr N C W) Error B}
        → Sound HasPool Later m
        → ((a : A) → Sound HasPool Later (f a))
        → Sound HasPool Later (m >>= f)
    bind = Sound-bind Later-IsFrame

  pub and_then :
      {B : Type 0} {m : Action (Joinstr N C W) Error (Unit {0})}
      {k : Action (Joinstr N C W) Error B}
      → Sound HasPool Later m
      → Sound HasPool Later k
      → Sound HasPool Later (m >> k)
  and_then = Sound-then Later-IsFrame

  pub Sound-value : {A : Type 0} (a : A) → Sound HasPool Later {E = Error} (pure a)
  Sound-value = Sound-pure Later-IsFrame

  module _ {B : Type 0} where
    pub choose :
        (c : Bool) {m k : Action (Joinstr N C W) Error B}
        → Sound HasPool Later m
        → Sound HasPool Later k
        → Sound HasPool Later (if c then m else k)
    choose true p q = p
    choose false p q = q

    pub choose_some :
        {A : Type 0} (o : Option A) {m : A → Action (Joinstr N C W) Error B}
        {k : Action (Joinstr N C W) Error B}
        → ((a : A) → Sound HasPool Later (m a))
        → Sound HasPool Later k
        → Sound HasPool Later (elim o [ some a ↦ m a | none ↦ k ])
    choose_some (some a) p q = p a
    choose_some none p q = q
