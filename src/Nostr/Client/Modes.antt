-- ===== src/Nostr/Client/Modes.antt =====
-- A nostr client is configured, then connected, and a connection that is lost stays lost.
use Prim.Native.String.{String}
use joinstr.Prelude.{◌≡◌, arith, ℕ, none, ◌⊎◌, ok, Action}
use joinstr.Nostr.Error.{WsError}
use joinstr.Nostr.Pool.{PublicKey, PoolMessage, Keys, EventBuilder}
use joinstr.Nostr.Message.{Codec}
use joinstr.Nostr.WebSocket as Ws
use joinstr.Nostr.WebSocket.{Event, Nip, Socket, WsClient, WsClientBuilder}
use joinstr.Nostr.Client.{
  NostrClient, relay, keys, connect_nostr, post_event, send_pool_message, try_receive_pool_msg,
  subscribe_pools, on_client,
}

-- A client that has a connection has no builder any more.
unfoldable pub IsExclusive : {S : Type 0} → NostrClient S → Type 0
IsExclusive n = (n.client ≡ none) ⊎ (n.builder ≡ none)

on_client-IsExclusive :
    {S W A : Type 0} (m : Action (WsClient S × W) WsError A) (n : NostrClient S) (w : W)
    → IsExclusive n
    → IsExclusive (on_client m (n, w)).1.0
unfolding on_client IsExclusive
on_client-IsExclusive m n w h = ground (arith, h)

module _ {S W : Type 0} (nip : Nip W) (codec : Codec) where
  send_pool_message-IsExclusive :
      (n : NostrClient S) (w : W) (k : PublicKey) (m : PoolMessage)
      → IsExclusive n
      → IsExclusive (send_pool_message nip codec k m (n, w)).1.0
  unfolding send_pool_message IsExclusive
  send_pool_message-IsExclusive n w k m h = ground (arith, h)

  try_receive_pool_msg-IsExclusive :
      (n : NostrClient S) (w : W)
      → IsExclusive n
      → IsExclusive (try_receive_pool_msg nip codec (n, w)).1.0
  unfolding try_receive_pool_msg IsExclusive
  try_receive_pool_msg-IsExclusive n w h = ground (arith, h)

module _ {S W : Type 0} (socket : Socket S W) (nip : Nip W) where
  connect_nostr-IsExclusive :
      (n : NostrClient S) (w : W)
      → IsExclusive n
      → IsExclusive (connect_nostr socket nip (n, w)).1.0
  unfolding connect_nostr IsExclusive
  connect_nostr-IsExclusive n w h = ground (arith, h)

-- The clients that the calls leave.
pub record StaysExclusive {S W : Type 0} (socket : Socket S W) (nip : Nip W) (codec : Codec)
    (n : NostrClient S) (w : W) : Type 0 where
  pub connects : IsExclusive (connect_nostr socket nip (n, w)).1.0
  pub relays : (url : String) (n' : NostrClient S) → relay url n ≡ ok n' → IsExclusive n'
  pub takes_keys : (k : Keys) (n' : NostrClient S) → keys k n ≡ ok n' → IsExclusive n'
  pub posts : (e : EventBuilder) → IsExclusive (post_event nip e (n, w)).1.0
  pub sends :
      (k : PublicKey) (m : PoolMessage) → IsExclusive (send_pool_message nip codec k m (n, w)).1.0
  pub subscribes : (back : ℕ) → IsExclusive (subscribe_pools nip back (n, w)).1.0
  pub receives : IsExclusive (try_receive_pool_msg nip codec (n, w)).1.0

module _ {S W : Type 0} (socket : Socket S W) (nip : Nip W) (codec : Codec) where
  -- A client that has no connection beside a builder has none after a call either, whatever the call
  -- returns: after connect_nostr, post_event, send_pool_message, subscribe_pools and
  -- try_receive_pool_msg, and after the setters relay and keys, which fail on a client without a
  -- builder.
  pub client_exclusive :
      (n : NostrClient S) (w : W) → IsExclusive n → StaysExclusive socket nip codec n w
  unfolding IsExclusive relay keys subscribe_pools post_event
  client_exclusive n w h = record {
    connects = connect_nostr-IsExclusive socket nip n w h;
    relays = λ url n' q. ground (arith, h, q);
    takes_keys = λ k n' q. ground (arith, h, q);
    posts = λ e. on_client-IsExclusive (Ws.post_event nip e) n w h;
    sends = λ k m. send_pool_message-IsExclusive nip codec n w k m h;
    subscribes = λ back. on_client-IsExclusive (Ws.subscribe_pool nip back) n w h;
    receives = try_receive_pool_msg-IsExclusive nip codec n w h;
  }
