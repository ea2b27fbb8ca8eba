-- ===== src/Joinstr/Guarantee.antt =====
-- What a successful run of a `Joinstr` guarantees. The part of the state that its rounds hand on is
-- the pool, the own output, the coinjoin and the electrum client; most calls leave it alone.
pub mod Outputs
pub mod Registered
pub mod Inputs
pub mod Unsigned
pub mod Join
pub mod Client
pub mod Hosted
pub mod Whole
use joinstr.Prelude.{
  ℕ, Bool, Option, none, some, List, ◌≡◌, refl, arith, Outcome, Action, Keeps, Keeps-bind,
  Keeps-pure, Keeps-then, Keeps-ok_or, Keeps-yields,
}
use joinstr.Bitcoin.{Address}
use joinstr.Nostr.Error.{Error as NostrError}
use joinstr.Nostr.Pool.{Pool, PoolMessage}
use joinstr.System.{Backoff}
use joinstr.CoinJoin.{CoinJoin}
use joinstr.Joinstr.Error.{Error}
use joinstr.Joinstr.Host.{Host}
use joinstr.Joinstr.State.{
  JoinstrInner, Joinstr, reads, on_nostr, asks, attempt, in_world, passes, update,
}
use joinstr.Joinstr.Pool.{start_timeline, end_timeline}
use joinstr.Joinstr.Join.{clock, before, rest, poll}

module _ {N C : Type 0} where
  abbrev pub parts :
      JoinstrInner N C → Option Pool × Option Address × Option (CoinJoin C) × Option C
  parts i = (i.pool, i.output, i.coinjoin, i.electrum_client)

module _ {N C W : Type 0} where
  abbrev pub view : Joinstr N C W → Option Pool × Option Address × Option (CoinJoin C) × Option C
  view s = parts s.inner

  pub Keeps-reads : {A : Type 0} (f : JoinstrInner N C → Outcome Error A) → Keeps view (reads f)
  unfolding reads
  Keeps-reads f = record { kept = λ s. refl }

  pub Keeps-on_nostr : {A : Type 0} (m : Action (N × W) NostrError A) → Keeps view (on_nostr m)
  unfolding on_nostr
  Keeps-on_nostr m = record { kept = λ s. refl }

  pub Keeps-asks : {A : Type 0} (f : W → A × W) → Keeps view (asks f)
  unfolding asks
  Keeps-asks f = record { kept = λ s. refl }

  pub Keeps-in_world : {A : Type 0} (m : Action W Error A) → Keeps view (in_world m)
  unfolding in_world
  Keeps-in_world m = record { kept = λ s. refl }

  pub Keeps-attempt :
      {A : Type 0} {m : Action (Joinstr N C W) Error A} → Keeps view m → Keeps view (attempt m)
  unfolding attempt
  Keeps-attempt k = record { kept = λ s. k.kept s }

  pub Keeps-passes : (f : W → W) → Keeps view (passes f)
  unfolding passes
  Keeps-passes f = record { kept = λ s. refl }

  pub Keeps-update :
      (f : JoinstrInner N C → JoinstrInner N C)
      → ((i : JoinstrInner N C) → parts (f i) ≡ parts i)
      → Keeps view (update {W = W} f)
  unfolding update
  Keeps-update f h = record { kept = λ s. h s.inner }

  pub Keeps-start_timeline : Keeps {E = Error} view (start_timeline {N = N} {C = C} {W = W})
  unfolding start_timeline
  Keeps-start_timeline =
      Keeps-then (Keeps-reads _) (Keeps-bind (Keeps-reads _) (λ p. Keeps-yields _))

  pub Keeps-end_timeline : Keeps {E = Error} view (end_timeline {N = N} {C = C} {W = W})
  unfolding end_timeline
  Keeps-end_timeline =
      Keeps-then (Keeps-reads _) (Keeps-bind (Keeps-reads _) (λ p. Keeps-ok_or _ _))

module _ {N C W : Type 0} (host : Host N C W) where
  pub Keeps-clock : Keeps view (clock host)
  unfolding clock
  Keeps-clock = Keeps-asks _

  pub Keeps-before : (t : ℕ) → Keeps view (before host t)
  unfolding before
  Keeps-before t = Keeps-bind Keeps-clock (λ now. Keeps-pure _)

  pub Keeps-rest : (b : Backoff) → Keeps view (rest host b)
  unfolding rest
  Keeps-rest b = Keeps-asks _

  pub Keeps-poll : Keeps view (poll host)
  unfolding poll
  Keeps-poll = Keeps-bind (Keeps-attempt (Keeps-on_nostr _)) (λ m. Keeps-pure _)
