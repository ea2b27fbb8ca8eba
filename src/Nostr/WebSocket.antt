-- ===== src/Nostr/WebSocket.antt =====
-- The client of one relay, `WsClient` of rust/simple_nostr_client/src/lib.rs: its two channels to the
-- thread that holds the socket, and the events it posts and receives. Cryptography and the JSON of
-- the nostr crate are the fields of `Nip`, the websocket crate is `Socket`.
pub mod Connect
pub mod Listen
pub mod Queues
mod Tests
use Prim.Native.String.{String}
use joinstr.Prelude.{
  ℕ, Bool, true, false, Option, none, some, List, [], ◌∷◌, ◌++◌, ◌==◌, if◌then◌else◌, Outcome, ok,
  err, panic, unfinished, Action, gets, pure, throw, yields, ◌>>=◌, ◌>>◌,
}
use joinstr.Json.{Value}
use joinstr.System.{Backoff, new_us}
use joinstr.Nostr.Error.{
  WsError, listen, send, receive, non_blocking, ws_not_connected, arg_missing, nip04_encrypt,
  nip04_decrypt, ws_not_nip04, sign_event, connection_closed, raw_relay_message, relay_message,
}
use joinstr.Nostr.Pool.{PublicKey, SecretKey, Keys, EventBuilder}

-- What the program reads of an event. `Kind::EncryptedDirectMessage` is 4.
pub record Event : Type 0 where
  pub kind : ℕ
  pub pubkey : PublicKey
  pub content : String

pub data RelayMessage : Type 0 where
  event : Event → RelayMessage
  auth other : RelayMessage

-- A request carries an id that is generated, a signature and a ciphertext are salted, so these
-- change the world.
pub record Nip (W : Type 0) : Type 0 where
  pub encrypt : SecretKey → PublicKey → String → W → Option String × W
  pub decrypt : SecretKey → PublicKey → String → Option String
  pub to_event : EventBuilder → Keys → W → Option Event × W
  -- `ClientMessage::event(event).as_json()`
  pub event_json : Event → String
  -- the request of the direct messages to a key
  pub dm_request : PublicKey → W → String × W
  -- the request of the pools of the last seconds
  pub pool_request : ℕ → W → String × W
  pub raw_from_json : String → Option Value
  pub relay_message_of : Value → Option RelayMessage

pub data OwnedMessage : Type 0 where
  text : String → OwnedMessage
  binary close : OwnedMessage
  ping pong : List ℕ → OwnedMessage

pub record Socket (S W : Type 0) : Type 0 where
  -- `ClientBuilder::new(&url)?.connect(None)?`
  pub connect : String → Action W WsError S
  -- whether it succeeds
  pub set_nonblocking : S → Bool × S
  pub send_message : OwnedMessage → S → Bool × S
  -- `none` for every error: the thread only logs them
  pub recv_message : S → Option OwnedMessage × S
  -- `SystemTime::now()`, in nanoseconds
  pub nanos : W → ℕ × W

pub data SendMsg : Type 0 where
  msg : String → SendMsg
  stop : SendMsg

pub data RecvMsg : Type 0 where
  close : RecvMsg
  msg : String → RecvMsg

-- The locals of the thread, and its socket.
pub record Listener (S : Type 0) : Type 0 where
  pub client : S
  pub backoff : Backoff
  pub last_ping : ℕ
  pub last_pong : ℕ
  pub ping_nonce : ℕ

-- The two channels, each a queue, and the thread at their other ends, where it runs.
pub record Link (S : Type 0) : Type 0 where
  pub outgoing : List SendMsg
  pub incoming : List RecvMsg
  pub thread : Option (Listener S)

-- `client` is the socket until the thread takes it; the ends of the channels go with it.
pub record WsClient (S : Type 0) : Type 0 where
  pub client : Option S
  pub link : Link S
  pub connected : Bool
  pub relay : String
  pub keys : Keys

pub record WsClientBuilder : Type 0 where
  pub relay : Option String
  pub keys : Option Keys

-- `WsClient::new`
unfoldable pub new_builder : WsClientBuilder
new_builder = record { relay = none; keys = none }

module _ {S : Type 0} where
  -- `WsClient::stop`, which `drop` calls
  unfoldable pub stop_client : WsClient S → WsClient S
  stop_client c =
      if c.connected
      then record c {
        connected = false;
        link = elim c.link.thread [
          | none ↦ c.link
          | some t ↦ record c.link { outgoing = c.link.outgoing ++ (stop ∷ []) }
        ];
      }
      else c

module _ {S W : Type 0} where
  -- `WsClient::is_connected`
  unfoldable pub check_connected : Action (WsClient S × W) WsError (Unit {0})
  check_connected (c, w) = (if c.connected then ok tt else err ws_not_connected, (c, w))

  -- `Sender::send` fails where the thread has ended.
  unfoldable pub push_message : SendMsg → Action (WsClient S × W) WsError (Unit {0})
  push_message m (c, w) = elim c.link.thread [
    | none ↦ (err send, (c, w))
    | some t ↦
        (ok tt, (record c { link = record c.link { outgoing = c.link.outgoing ++ (m ∷ []) } }, w))
  ]

  unfoldable pub send_raw : String → Action (WsClient S × W) WsError (Unit {0})
  unfolding ◌>>◌ check_connected push_message
  send_raw m = check_connected >> push_message (SendMsg.msg m)

  -- `Receiver::try_recv`
  unfoldable pub pop_message : Action (WsClient S × W) WsError (Option RecvMsg)
  pop_message (c, w) = elim c.link.incoming [
    | [] ↦ elim c.link.thread [ some t ↦ (ok none, (c, w)) | none ↦ (err receive, (c, w)) ]
    | m ∷ l ↦ (ok (some m), (record c { link = record c.link { incoming = l } }, w))
  ]

  -- A connection that the other side closed is marked so.
  unfoldable pub note_close : Option RecvMsg → Action (WsClient S × W) WsError (Option RecvMsg)
  note_close (some RecvMsg.close) (c, w) =
      (ok (some RecvMsg.close), (record c { connected = false }, w))
  note_close m s = (ok m, s)

  unfoldable pub try_receive_raw : Action (WsClient S × W) WsError (Option RecvMsg)
  unfolding ◌>>=◌ ◌>>◌ check_connected pop_message note_close
  try_receive_raw = check_connected >> pop_message >>= note_close

  unfoldable pub send_request :
      (WsClient S → W → String × W) → Action (WsClient S × W) WsError (Unit {0})
  unfolding send_raw
  send_request request (c, w) = let (req, w') = request c w in send_raw req (c, w')

module _ {W : Type 0} (nip : Nip W) where
  -- `decrypt_dm`, of a direct message
  unfoldable pub decrypt_dm : Keys → Event → Outcome WsError Event
  decrypt_dm keys e =
      if e.kind == 4
      then elim (nip.decrypt keys.secret_key e.pubkey e.content) [
        | some content ↦ ok (record e { content = content })
        | none ↦ err nip04_decrypt
      ]
      else err ws_not_nip04

  unfoldable pub find_event : Keys → Event → Outcome WsError (Option Event)
  unfolding decrypt_dm
  find_event keys e =
      if e.kind == 4
      then elim (decrypt_dm keys e) [
        | ok e' ↦ ok (some e')
        | err x ↦ err x
        | panic ↦ panic
        | unfinished ↦ unfinished
      ]
      else ok (some e)

  unfoldable pub read_relay : Keys → RelayMessage → Outcome WsError (Option Event)
  unfolding find_event
  read_relay keys (event e) = find_event keys e
  read_relay keys auth = ok none
  read_relay keys other = ok none

  -- The `match` of `try_receive` on what the thread passed on.
  unfoldable pub read_message : Keys → Option RecvMsg → Outcome WsError (Option Event)
  unfolding read_relay
  read_message keys none = ok none
  read_message keys (some RecvMsg.close) = err connection_closed
  read_message keys (some (RecvMsg.msg t)) = elim (nip.raw_from_json t) [
    | none ↦ err raw_relay_message
    | some raw ↦ elim (nip.relay_message_of raw) [
      | none ↦ err relay_message
      | some m ↦ read_relay keys m
    ]
  ]

module _ {S W : Type 0} (nip : Nip W) where
  unfoldable pub try_receive : Action (WsClient S × W) WsError (Option Event)
  unfolding ◌>>=◌ gets yields try_receive_raw read_message
  try_receive = do
    m ← try_receive_raw
    keys ← gets (λ s. s.0.keys)
    yields (read_message nip keys m)

  -- `event.to_event(keys)`
  unfoldable pub sign : EventBuilder → Action (WsClient S × W) WsError Event
  sign e (c, w) =
      let (r, w') = nip.to_event e c.keys w in
      elim r [ some signed ↦ (ok signed, (c, w')) | none ↦ (err sign_event, (c, w')) ]

  unfoldable pub post_event : EventBuilder → Action (WsClient S × W) WsError (Unit {0})
  unfolding ◌>>=◌ ◌>>◌ check_connected sign send_raw
  post_event e = do check_connected; signed ← sign e; send_raw (nip.event_json signed)

  -- `encrypt`
  unfoldable pub encrypt_for : PublicKey → String → Action (WsClient S × W) WsError String
  encrypt_for receiver content (c, w) =
      let (r, w') = nip.encrypt c.keys.secret_key receiver content w in
      elim r [ some secret ↦ (ok secret, (c, w')) | none ↦ (err nip04_encrypt, (c, w')) ]

  unfoldable pub send_dm : String → PublicKey → Action (WsClient S × W) WsError (Unit {0})
  unfolding ◌>>=◌ encrypt_for post_event
  send_dm content receiver = do
    secret ← encrypt_for receiver content
    post_event (record { kind = 4; content = secret; tags = receiver ∷ [] })

  unfoldable pub subscribe_dm : Action (WsClient S × W) WsError (Unit {0})
  unfolding ◌>>◌ check_connected send_request
  subscribe_dm = check_connected >> send_request (λ c. nip.dm_request c.keys.public_key)

  unfoldable pub subscribe_pool : ℕ → Action (WsClient S × W) WsError (Unit {0})
  unfolding ◌>>◌ check_connected send_request
  subscribe_pool back = check_connected >> send_request (λ c. nip.pool_request back)
