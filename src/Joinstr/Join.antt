-- ===== src/Joinstr/Join.antt =====
-- `join_pool`: a peer asks for the credentials of a pool, and reconnects with the pool's keys.
use Prim.Native.String.{◌++◌}
use text.Mathlib.Text.{◌==◌}
use joinstr.Prelude.{
  ℕ, Bool, true, false, Option, none, some, ltb, if◌then◌else◌, ok, err, panic, unfinished, Action,
  gets, throw_if, pure, yields, map_err, ◌>>=◌, ◌>>◌, Turn, again, leave, loop, not,
}
use joinstr.System.{Backoff, new_us, snooze}
use joinstr.Nostr.Pool.{SecretKey, PoolMessage}
use joinstr.Joinstr.Error.{Error, nostr, pool_connection_timeout}
use joinstr.Joinstr.Host.{Host}
use joinstr.Joinstr.State.{
  Joinstr, reads, on_nostr, asks, attempt, update, connecting, output_registration,
}
use joinstr.Joinstr.Pool.{check_pool_exists, pool_as_ref, start_timeline, get_keys}

-- Microseconds between two polls, at most.
abbrev pub wait : ℕ
wait = 50

abbrev pub received : Option (Option PoolMessage) → Option PoolMessage
received none = none
received (some msg) = msg

module _ {N C W : Type 0} (host : Host N C W) where
  unfoldable pub clock : Action (Joinstr N C W) Error ℕ
  clock = asks host.system.now

  -- `now() < deadline`
  unfoldable pub before : ℕ → Action (Joinstr N C W) Error Bool
  unfolding clock
  before deadline = do t ← clock; pure (ltb t deadline)

  unfoldable pub rest : Backoff → Action (Joinstr N C W) Error Backoff
  unfolding snooze
  rest backoff = asks (snooze host.system backoff)

  -- `if let Ok(Some(msg)) = try_receive_pool_msg()`
  unfoldable pub poll : Action (Joinstr N C W) Error (Option PoolMessage)
  poll = do msg ← attempt (on_nostr host.nostr.try_receive_pool_msg); pure (received msg)

  -- `connect_nostr` on a client that is not the object's, which takes its place.
  unfoldable pub reconnect : N → Action (Joinstr N C W) Error (Unit {0})
  reconnect client s =
      let (r, t) = host.nostr.connect_nostr (client, s.world) in
      elim r [
        | ok _ ↦ (
          ok tt,
          record s {
            inner = record s.inner { client = t.0; step = output_registration };
            world = t.1;
          },
        )
        | err e ↦ (err (nostr e), record s { world = t.1 })
        | panic ↦ (panic, record s { world = t.1 })
        | unfinished ↦ (unfinished, record s { world = t.1 })
      ]

  -- The client for the keys of the pool, connected in place of the present one.
  unfoldable pub use_credentials : SecretKey → Action (Joinstr N C W) Error (Unit {0})
  unfolding reconnect
  use_credentials key = do
    client ← gets (λ s. s.inner.client)
    relay ← yields (elim (host.nostr.get_relay client) [ none ↦ panic | some r ↦ ok r ])
    let name = ("prev_" ++ host.nostr.name client)
    with_relay ← yields (map_err nostr (host.nostr.relay relay (host.nostr.new name)))
    with_keys ← yields (map_err nostr (host.nostr.keys (host.keys_of key) with_relay))
    reconnect with_keys

  -- Is the message the credentials of this pool? Then `connected`.
  unfoldable pub take_credentials : Option PoolMessage → Action (Joinstr N C W) Error Bool
  unfolding pool_as_ref use_credentials
  take_credentials (some (PoolMessage.credentials c)) = do
    pool ← reads pool_as_ref
    if c.id == pool.id then (do use_credentials c.key; pure true) else pure false
  take_credentials none = pure false
  take_credentials (some (PoolMessage.input _)) = pure false
  take_credentials (some (PoolMessage.output _)) = pure false
  take_credentials (some (PoolMessage.psbt _)) = pure false
  take_credentials (some (PoolMessage.transaction _)) = pure false
  take_credentials (some (PoolMessage.join _)) = pure false

  -- One round of the `while`, over `connected` and the backoff.
  unfoldable pub join_round : Bool × Backoff → Action (Joinstr N C W) Error (Turn (Bool × Backoff))
  unfolding take_credentials rest
  join_round (_, backoff) = do
    msg ← on_nostr host.nostr.try_receive_pool_msg
    connected ← take_credentials msg
    if connected
        then pure (leave (true, backoff))
        else (do backoff' ← rest backoff; pure (again (false, backoff')))

  unfoldable pub join_pool : (fuel : ℕ) → Action (Joinstr N C W) Error (Unit {0})
  unfolding check_pool_exists pool_as_ref get_keys start_timeline before new_us
  join_pool fuel = do
    reads check_pool_exists
    update (λ i. record i { step = connecting })
    pool ← reads pool_as_ref
    keys ← get_keys host
    on_nostr
        (host.nostr.send_pool_message pool.public_key (PoolMessage.join (some keys.public_key)))
    timeline ← start_timeline
    joined ← loop (λ _. before timeline.0) join_round fuel (false, new_us wait)
    throw_if (not joined.0) pool_connection_timeout
