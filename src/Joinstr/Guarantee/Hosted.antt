-- ===== src/Joinstr/Guarantee/Hosted.antt =====
-- What a successful `start_coinjoin_blocking` without a pool has posted, stored and sent.
use joinstr.Prelude.{
  ◌≡◌, ◌∙◌, ap, refl, arith, ℕ, Option, none, is_some, ok, Keeps-gets, Keeps-throw_if,
  Keeps-Ensures, Ensures, Ensures-bind, Ensures-then, Ensures-exists,
}
use joinstr.Bitcoin.{IsLawful}
use joinstr.Nostr.Pool.{Pool}
use joinstr.Signer.{JoinstrSigner}
use joinstr.Joinstr.Host.{Host}
use joinstr.Joinstr.State.{Joinstr, JoinstrInner}
use joinstr.Joinstr.Pool.{post}
use joinstr.Joinstr.Pool.Posted.{IsDraft, Published, post_lem, post-Published}
use joinstr.Joinstr.Start.{enter, start_coinjoin_blocking}
use joinstr.Joinstr.Guarantee.{view}
use joinstr.Joinstr.Guarantee.Client.{has_electrum}
use joinstr.Joinstr.Guarantee.Client.Rounds.{Keeps-start_coinjoin_blocking}
use joinstr.Joinstr.Guarantee.Outputs.{Has}
use joinstr.Joinstr.Guarantee.Whole.{PaidFor, Ensures-rounds}

-- A coinjoin of a pool that this object has posted: `post_event` of the object's own nostr client
-- returned Ok for the event of the pool. There is an electrum client where there was one.
abbrev pub Hosted : {N C W : Type 0} → Host N C W → JoinstrInner N C → Joinstr N C W → Type 0
Hosted host i s =
    (pool : Pool) × IsDraft host i pool
    × PaidFor host i.output pool s
    × Published host i.client pool
    × (has_electrum s ≡ is_some i.electrum_client)

abbrev PostedFor : {N C W : Type 0} → Host N C W → JoinstrInner N C → Joinstr N C W → Type 0
PostedFor host i s =
    (pool : Pool) × IsDraft host i pool
    × PaidFor host i.output pool s
    × Published host i.client pool

module _ {N C W : Type 0} {host : Host N C W} (laws : IsLawful host.bitcoin) (notif : W → W)
    (fuel : ℕ) (signer : Option JoinstrSigner) where
  Ensures-post :
      (i : JoinstrInner N C)
      → Ensures
          (λ s. s.inner ≡ i)
          (λ _ s.
            (pool : Pool) × (Has host pool i.output (view s)
              × (IsDraft host i pool × Published host i.client pool)))
          (post host)
  Ensures-post i = record {
    holds = λ s e a r.
        let (_, pool, draft, same) = post_lem host s (ground (arith, r)) in
        (
          pool,
          (
            (ap (λ i. i.pool) same, ap (λ i. i.output) same ∙ ap (λ i. i.output) e),
            (
              rw e at draft,
              rw e at (post-Published host s pool (ground (arith, r)) (ap (λ i. i.pool) same)),
            ),
          ),
        );
  }

  Ensures-PostedFor :
      (i : JoinstrInner N C)
      → Ensures
          (λ s. s.inner ≡ i)
          (λ _ s. PostedFor host i s)
          (start_coinjoin_blocking host notif fuel none signer)
  unfolding start_coinjoin_blocking enter
  Ensures-PostedFor i = Ensures-bind (Keeps-Ensures (λ j. j ≡ i) (Keeps-gets _)) (λ role.
      Ensures-then (Keeps-Ensures (λ j. j ≡ i) (Keeps-throw_if _ _)) (
        Ensures-then (Ensures-post i) (
          Ensures-exists (λ pool. record {
            holds = λ s (has, (draft, published)) a r. (
              pool,
              draft,
              (Ensures-rounds laws notif fuel i.output signer pool).holds s has a r,
              published,
            );
          }))))

  pub start-Hosted :
      (s : Joinstr N C W)
      → (start_coinjoin_blocking host notif fuel none signer s).0 ≡ ok tt
      → Hosted host s.inner (start_coinjoin_blocking host notif fuel none signer s).1
  start-Hosted s h =
      let (pool, draft, paid, published) = (Ensures-PostedFor s.inner).holds s refl tt h in
      (
        pool,
        draft,
        paid,
        published,
        (Keeps-start_coinjoin_blocking host notif fuel none signer).kept s,
      )
