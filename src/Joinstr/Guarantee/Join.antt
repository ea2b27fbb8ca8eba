-- ===== src/Joinstr/Guarantee/Join.antt =====
-- How a pool is entered: a peer joins the one it is given, and posts one of its own otherwise.
use text.Mathlib.Text.{◌==◌}
use joinstr.Prelude.{
  true, false, ℕ, ◌≡◌, ◌∙◌, refl, Option, none, some, arith, Keeps, Keeps-bind, Keeps-then,
  Keeps-pure, Keeps-if, Keeps-gets, Keeps-yields, Keeps-throw_if, Keeps-Ensures, Keeps-loop,
  Ensures, Ensures-then, Ensures-mono, ap, Bool,
}
use joinstr.System.{Backoff}
use joinstr.Bitcoin.{Address}
use joinstr.Nostr.Pool.{Pool, PoolMessage, SecretKey}
use joinstr.Joinstr.Host.{Host}
use joinstr.Joinstr.State.{update}
use joinstr.Joinstr.Pool.{get_keys}
use joinstr.Joinstr.Pool.Posted.{post_lem}
use joinstr.Joinstr.Join.{reconnect, use_credentials, take_credentials, join_round, join_pool}
use joinstr.Joinstr.Start.{enter}
use joinstr.Joinstr.Guarantee.{
  view, Keeps-reads, Keeps-on_nostr, Keeps-update, Keeps-start_timeline, Keeps-before, Keeps-rest,
}
use joinstr.Joinstr.Guarantee.Outputs.{Has}

module _ {N C W : Type 0} (host : Host N C W) where
  Keeps-reconnect : (client : N) → Keeps view (reconnect {C = C} host client)
  unfolding reconnect
  Keeps-reconnect client = record { kept = λ s. ground arith }

  Keeps-use_credentials : (key : SecretKey) → Keeps view (use_credentials {C = C} host key)
  unfolding use_credentials
  Keeps-use_credentials key = Keeps-bind (Keeps-gets _) (λ client.
      Keeps-bind (Keeps-yields _) (λ relay.
        Keeps-bind (Keeps-yields _)
          (λ with_relay. Keeps-bind (Keeps-yields _) (λ with_keys. Keeps-reconnect with_keys))))

  Keeps-take_credentials : (m : Option PoolMessage) → Keeps view (take_credentials {C = C} host m)
  unfolding take_credentials
  Keeps-take_credentials (some (PoolMessage.credentials c)) = Keeps-bind (Keeps-reads _) (λ pool.
      Keeps-if (c.id == pool.id) (Keeps-then (Keeps-use_credentials c.key) (Keeps-pure true))
        (Keeps-pure false))
  Keeps-take_credentials none = Keeps-pure false
  Keeps-take_credentials (some (PoolMessage.input i)) = Keeps-pure false
  Keeps-take_credentials (some (PoolMessage.output a)) = Keeps-pure false
  Keeps-take_credentials (some (PoolMessage.psbt p)) = Keeps-pure false
  Keeps-take_credentials (some (PoolMessage.transaction t)) = Keeps-pure false
  Keeps-take_credentials (some (PoolMessage.join k)) = Keeps-pure false

  Keeps-join_round : (l : Bool × Backoff) → Keeps view (join_round {C = C} host l)
  unfolding join_round
  Keeps-join_round (b, backoff) = Keeps-bind (Keeps-on_nostr _) (λ msg.
      Keeps-bind (Keeps-take_credentials msg) (λ connected.
        Keeps-if connected (Keeps-pure _)
          (Keeps-bind (Keeps-rest host backoff) (λ b'. Keeps-pure _))))

  pub Keeps-join_pool : (fuel : ℕ) → Keeps view (join_pool {C = C} host fuel)
  unfolding join_pool get_keys
  Keeps-join_pool fuel = Keeps-then (Keeps-reads _) (
      Keeps-then (Keeps-update _ (λ i. refl)) (
        Keeps-bind (Keeps-reads _) (λ pool. Keeps-bind (Keeps-reads _) (λ keys.
          Keeps-then (Keeps-on_nostr _) (
            Keeps-bind Keeps-start_timeline (λ timeline.
              Keeps-bind (Keeps-loop (λ l. Keeps-before host timeline.0) Keeps-join_round fuel _)
                (λ joined. Keeps-throw_if _ _)))))))

  -- A pool is entered: the one that is given, or a new one.
  pub Ensures-enter :
      (fuel : ℕ) (given : Option Pool) (own : Option Address)
      → Ensures
          (λ s. s.inner.output ≡ own)
          (λ _ s. (pool : Pool) × Has host pool own (view s))
          (enter {C = C} host fuel given)
  unfolding enter update
  Ensures-enter fuel (some pool) own =
      Ensures-then (Keeps-Ensures (λ v. v.1 ≡ own) (Keeps-reads _)) (
        Ensures-then {R = λ s. Has host pool own (view s)}
          (record { holds = λ s e a r. (ground arith, ground (arith, e)) })
          (Ensures-mono (λ s h. h) (λ a s h. (pool, h))
            (Keeps-Ensures (Has host pool own) (Keeps-join_pool fuel))))
  Ensures-enter fuel none own = record {
    holds = λ s e a r.
        let (_, pool, _, same) = post_lem host s (ground (arith, r)) in
        (pool, (ap (λ i. i.pool) same, ap (λ i. i.output) same ∙ e));
  }
