-- ===== src/Nostr/Client/Lost.antt =====
-- A relay that closes the connection: the client learns of it once, and sends nothing any more.
use joinstr.Prelude.{◌≡◌, ◌≢◌, refl, arith, ℕ, true, false, some, List, ◌∷◌, ok, err}
use joinstr.Nostr.Error.{sync_client, ws_not_connected, connection_closed}
use joinstr.Nostr.Pool.{PublicKey, PoolMessage, EventBuilder}
use joinstr.Nostr.Message.{Codec}
use joinstr.Nostr.WebSocket.{Nip, WsClient, RecvMsg}
use joinstr.Nostr.Client.{
  NostrClient, post_event, send_pool_message, try_receive_pool_msg, subscribe_pools,
}

-- What a client does that has no connection: each call is an error, and leaves the client as it is.
pub record IsSilent {S W : Type 0} (nip : Nip W) (codec : Codec) (n : NostrClient S) (w : W)
    : Type 0 where
  pub posts :
      (e : EventBuilder) → post_event nip e (n, w) ≡ (err (sync_client ws_not_connected), (n, w))
  pub subscribes :
      (back : ℕ) → subscribe_pools nip back (n, w) ≡ (err (sync_client ws_not_connected), (n, w))
  pub receives :
      try_receive_pool_msg nip codec (n, w) ≡ (err (sync_client ws_not_connected), (n, w))
  pub sends_nothing :
      (k : PublicKey) (m : PoolMessage) → (send_pool_message nip codec k m (n, w)).1.0 ≡ n
  pub sends_err :
      (k : PublicKey) (m : PoolMessage) → (send_pool_message nip codec k m (n, w)).0 ≢ ok tt

unconnected-IsSilent :
    {S W : Type 0} (nip : Nip W) (codec : Codec) (n : NostrClient S) (c : WsClient S) (w : W)
    → n.client ≡ some c
    → c.connected ≡ false
    → IsSilent nip codec n w
unfolding post_event subscribe_pools try_receive_pool_msg send_pool_message
unconnected-IsSilent nip codec n c w up down = record {
  posts = λ e. ground (arith, up, down);
  subscribes = λ back. ground (arith, up, down);
  receives = ground (arith, up, down);
  sends_nothing = λ k m. ground (arith, up, down);
  sends_err = λ k m. ground (arith, up, down);
}

module _ {S W : Type 0} (nip : Nip W) (codec : Codec) (n : NostrClient S) (c : WsClient S) where
  closes :
      (w : W) (rest : List RecvMsg)
      → n.client ≡ some c
      → c.connected ≡ true
      → c.link.incoming ≡ RecvMsg.close ∷ rest
      → try_receive_pool_msg nip codec (n, w) ≡ (
        err (sync_client connection_closed),
        (
          record n {
            client =
                some (record c { connected = false; link = record c.link { incoming = rest } });
          },
          w,
        ),
      )
  unfolding try_receive_pool_msg
  closes w rest up runs has = ground (arith, up, runs, has)

  -- Where a connected client finds in its channel that the relay closed the connection,
  -- try_receive_pool_msg is the error ConnectionClosed, and from then on, in every world, each post,
  -- subscription and reception is the error NotConnected and leaves the client as it is, and
  -- send_pool_message succeeds for no message and puts none on the channel.
  pub close-IsSilent :
      (w v : W) (rest : List RecvMsg)
      → n.client ≡ some c
      → c.connected ≡ true
      → c.link.incoming ≡ RecvMsg.close ∷ rest
      → ((try_receive_pool_msg nip codec (n, w)).0 ≡ err (sync_client connection_closed))
        × IsSilent nip codec (try_receive_pool_msg nip codec (n, w)).1.0 v
  close-IsSilent w v rest up runs has =
      let closed = closes w rest up runs has in
      rw closed (refl, unconnected-IsSilent nip codec _ _ v refl refl)
