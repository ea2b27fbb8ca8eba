-- ===== src/Nostr/Client/Delivery.antt =====
-- A message from one peer to another: encrypted, signed and posted by the one, and read by the other
-- when the relay passes it on.
use Prim.Native.String.{String}
use joinstr.Prelude.{
  ◌≡◌, ◌∙◌, sym, ap, arith, true, Option, none, some, List, [], ◌∷◌, ◌++◌, inl, inr, Outcome-cases,
  Option-cases, ok,
}
use joinstr.Json.{Value}
use joinstr.Nostr.Pool.{PublicKey, Keys, PoolMessage, EventBuilder}
use joinstr.Nostr.Message.{Codec, from_str, to_string}
use joinstr.Nostr.Message.Trip.{IsLawful, IsReadable, arrives, from_str-to_string}
use joinstr.Nostr.WebSocket as Ws
use joinstr.Nostr.WebSocket.{Event, Nip, WsClient, SendMsg, RecvMsg, RelayMessage}
use joinstr.Nostr.Client.{NostrClient, send_pool_message, try_receive_pool_msg, message_of_event}

-- A signed event is the one that was to be signed, by the key that signed it.
unfoldable pub IsSigning : {W : Type 0} → Nip W → Type 0
IsSigning {W} nip =
    (b : EventBuilder) (k : Keys) (w : W) (e : Event)
    → (nip.to_event b k w).0 ≡ some e
    → (e.kind ≡ b.kind) × (e.pubkey ≡ k.public_key) × (e.content ≡ b.content)

-- What the first encrypts to the second, the second decrypts.
unfoldable pub Shares : {W : Type 0} → Nip W → Keys → Keys → Type 0
Shares {W} nip a b =
    (t secret : String) (w : W)
    → (nip.encrypt a.secret_key b.public_key t w).0 ≡ some secret
    → nip.decrypt b.secret_key a.public_key secret ≡ some t

-- The text is how the relay passes the event on.
pub record Forwards {W : Type 0} (nip : Nip W) (text : String) (e : Event) : Type 0 where
  pub raw : Value
  pub is_raw : nip.raw_from_json text ≡ some raw
  pub is_event : nip.relay_message_of raw ≡ some (RelayMessage.event e)

-- A client that has posted an event.
unfoldable pub posted : {S W : Type 0} → Nip W → Event → WsClient S → WsClient S
posted nip e c = record c {
  link = record c.link { outgoing = c.link.outgoing ++ (SendMsg.msg (nip.event_json e) ∷ []) };
}

-- What a direct message is, once it is on its way.
pub record Sent {S W : Type 0} (nip : Nip W) (c : WsClient S) (receiver : PublicKey)
    (content : String) (after : WsClient S) : Type 0 where
  pub event : Event
  pub is_dm : event.kind ≡ 4
  pub is_from : event.pubkey ≡ c.keys.public_key
  pub salt : W
  pub is_secret : (nip.encrypt c.keys.secret_key receiver content salt).0 ≡ some event.content
  pub is_posted : after ≡ posted nip event c

-- What the receiver of a message gets: a join that names no key is one of the sender, and nothing
-- comes of a PSBT and of an input without an amount.
unfoldable pub delivered : PublicKey → PoolMessage → Option PoolMessage
delivered sender (PoolMessage.psbt p) = none
delivered sender (PoolMessage.input i) = elim i.amount [
  | some a ↦ some (PoolMessage.input i)
  | none ↦ none
]
delivered sender (PoolMessage.output a) = some (PoolMessage.output a)
delivered sender (PoolMessage.transaction tx) = some (PoolMessage.transaction tx)
delivered sender (PoolMessage.join none) = some (PoolMessage.join (some sender))
delivered sender (PoolMessage.join (some k)) = some (PoolMessage.join (some k))
delivered sender (PoolMessage.credentials k) = some (PoolMessage.credentials k)

-- A client whose next message is known.
fills :
    {S : Type 0} (d : WsClient S) (text : String) (rest : List RecvMsg)
    → d.connected ≡ true
    → d.link.incoming ≡ RecvMsg.msg text ∷ rest
    → d ≡ record d { connected = true; link = record d.link { incoming = RecvMsg.msg text ∷ rest } }
fills d text rest up has = ground (arith, up, has)

module _ {S W : Type 0} (nip : Nip W) where
  pub send_dm-Sent :
      (signing : IsSigning nip) (c after : WsClient S) (w v : W) (receiver : PublicKey)
      (content : String)
      → Ws.send_dm nip content receiver (c, w) ≡ (ok tt, (after, v))
      → Sent nip c receiver content after
  unfolding Ws.send_dm IsSigning posted
  send_dm-Sent signing c after w v receiver content q =
      elim (Option-cases (nip.encrypt c.keys.secret_key receiver content w).0) [
        | inl failed ↦ ground (arith, q, failed)
        | inr (secret, is) ↦
            let w1 : W = (nip.encrypt c.keys.secret_key receiver content w).1 in
            let b : EventBuilder = record { kind = 4; content = secret; tags = receiver ∷ [] } in
            elim (Option-cases (nip.to_event b c.keys w1).0) [
              | inl failed ↦ ground (arith, q, is, failed)
              | inr (e, is_event) ↦
                  let (kind, key, text) = signing b c.keys w1 e is_event in
                  record {
                    event = e;
                    is_dm = kind;
                    is_from = key;
                    salt = w;
                    is_secret = is ∙ ap some (sym text);
                    is_posted = ground (arith, q, is, is_event);
                  }
            ]
      ]

  -- A direct message that comes in is decrypted.
  pub try_receive_dm :
      (a : Keys) (d : WsClient S) (v : W) (e : Event) (salt : W) (content text : String)
      (rest : List RecvMsg)
      → Shares nip a d.keys
      → e.kind ≡ 4
      → e.pubkey ≡ a.public_key
      → (nip.encrypt a.secret_key d.keys.public_key content salt).0 ≡ some e.content
      → Forwards nip text e
      → d.connected ≡ true
      → d.link.incoming ≡ RecvMsg.msg text ∷ rest
      → Ws.try_receive nip (d, v) ≡ (
        ok (some (record e { content = content })),
        (record d { link = record d.link { incoming = rest } }, v),
      )
  unfolding Ws.try_receive Shares
  try_receive_dm a d v e salt content text rest shares is_dm from encrypted forwards up has =
      let clear : nip.decrypt d.keys.secret_key e.pubkey e.content ≡ some content =
        rw from (shares content e.content salt encrypted) in
      let read : Ws.read_message nip d.keys (some (RecvMsg.msg text))
          ≡ ok (some (record e { content = content })) =
        ground (arith, forwards.is_raw, forwards.is_event, is_dm, clear) in
      rw (fills d text rest up has) (cc read)

-- A message of a pool that is on its way.
pub record Mailed {S W : Type 0} (nip : Nip W) (codec : Codec) (m : PoolMessage) (npub : PublicKey)
    (n : NostrClient S) (c : WsClient S) (n' : NostrClient S) : Type 0 where
  pub text : String
  pub is_text : to_string codec m ≡ ok text
  pub after : WsClient S
  pub keeps : n'.client ≡ some after
  pub is_sent : Sent nip c npub text after

read_event :
    (codec : Codec) (e : Event) (m : PoolMessage)
    → from_str codec e.content ≡ arrives m
    → message_of_event codec (some e) ≡ delivered e.pubkey m
unfolding message_of_event delivered arrives
read_event codec e m q = ground (arith, q)

module _ {S W : Type 0} (nip : Nip W) (codec : Codec) where
  pub send_pool_message-Mailed :
      (signing : IsSigning nip) (n n' : NostrClient S) (c : WsClient S) (w v : W) (npub : PublicKey)
      (m : PoolMessage)
      → n.client ≡ some c
      → send_pool_message nip codec npub m (n, w) ≡ (ok tt, (n', v))
      → Mailed nip codec m npub n c n'
  unfolding send_pool_message
  send_pool_message-Mailed signing n n' c w v npub m up q =
      elim (Outcome-cases (to_string codec m)) [
        | inr failed ↦ ground (arith, q, failed)
        | inl (text, is_text) ↦
            let sent = Ws.send_dm nip text npub (c, w) in
            let result : sent.0 ≡ ok tt = ground (arith, q, up, is_text) in
            let same : sent ≡ (ok tt, (sent.1.0, sent.1.1)) = ap (λ r. (r, sent.1)) result in
            record {
              text = text;
              is_text = is_text;
              after = sent.1.0;
              keeps = ground (arith, q, up, is_text);
              is_sent = send_dm-Sent nip signing c sent.1.0 w sent.1.1 npub text same;
            }
      ]

  receives :
      (y : NostrClient S) (d after : WsClient S) (u : W) (e : Event)
      → y.client ≡ some d
      → Ws.try_receive nip (d, u) ≡ (ok (some e), (after, u))
      → try_receive_pool_msg nip codec (y, u)
        ≡ (ok (message_of_event codec (some e)), (record y { client = some after }, u))
  unfolding try_receive_pool_msg
  receives y d after u e up q = ground (arith, up, q)

  -- Where send_pool_message of a message m to a key succeeds, a client with that key whose next
  -- message from its relay is the direct message that was posted receives m from
  -- try_receive_pool_msg, a join without a key as a join of the sender; it receives nothing of a PSBT
  -- and of an input without an amount. The receiver takes that one message from its channel. This
  -- holds where the receiver is connected and decrypts what the sender encrypts, signing keeps an
  -- event's parts, and the codec reads what it writes of m.
  pub try_receive_pool_msg-send_pool_message :
      (signing : IsSigning nip) (m : PoolMessage) (lawful : IsLawful codec m) (n n' : NostrClient S)
      (c : WsClient S) (w v : W) (npub : PublicKey) (y : NostrClient S) (d : WsClient S) (u : W)
      (text : String) (rest : List RecvMsg)
      → n.client ≡ some c
      → send_pool_message nip codec npub m (n, w) ≡ (ok tt, (n', v))
      → IsReadable codec m
      → ((e : Event)
          → e.kind ≡ 4
          → e.pubkey ≡ c.keys.public_key
          → n'.client ≡ some (posted nip e c)
          → Forwards nip text e)
      → y.client ≡ some d
      → d.connected ≡ true
      → d.link.incoming ≡ RecvMsg.msg text ∷ rest
      → d.keys.public_key ≡ npub
      → Shares nip c.keys d.keys
      → try_receive_pool_msg nip codec (y, u) ≡ (
        ok (delivered c.keys.public_key m),
        (record y { client = some (record d { link = record d.link { incoming = rest } }) }, u),
      )
  try_receive_pool_msg-send_pool_message signing m lawful n n' c w v npub y d u text rest joined
        sent readable passes up runs has to shares =
      let mail = send_pool_message-Mailed signing n n' c w v npub m joined sent in
      let dm = mail.is_sent in
      let way = passes dm.event dm.is_dm dm.is_from (mail.keeps ∙ ap some dm.is_posted) in
      let secret : (nip.encrypt c.keys.secret_key d.keys.public_key mail.text dm.salt).0
          ≡ some dm.event.content =
        rw to dm.is_secret in
      let got =
        try_receive_dm nip c.keys d u dm.event dm.salt mail.text text rest shares dm.is_dm
          dm.is_from secret way runs has in
      let clear : Event = record dm.event { content = mail.text } in
      let says = from_str-to_string codec m lawful mail.text mail.is_text readable in
      let read = read_event codec clear m says in
      receives y d _ u clear up got ∙ cc (read, dm.is_from)
