-- ===== src/Nostr/Client.antt =====
-- `NostrClient` of rust/joinstr/src/nostr/sync/mod.rs: a builder until it is connected, the client of
-- a relay afterwards, and the messages of a pool in direct messages.
pub mod Delivery
pub mod Relay
pub mod Lost
pub mod Modes
mod Tests
use Prim.Native.String.{String}
use joinstr.Prelude.{
  ℕ, Option, none, some, Outcome, ok, err, panic, unfinished, Action, gets, pure, throw, throw_if,
  yields, ok_or, map_err, ◌==◌, if◌then◌else◌, ◌>>=◌, ◌>>◌,
}
use joinstr.Nostr.Error.{
  Error, WsError, already_connected, not_connected, keys_missing, serializing, sync_client,
  sync_client_builder_missing,
}
use joinstr.Nostr.Pool.{PublicKey, Keys, Pool, PoolMessage, EventBuilder}
use joinstr.Nostr.Message.{Codec, from_str, to_string}
use joinstr.Nostr.WebSocket as Ws
use joinstr.Nostr.WebSocket.Connect as Connect
use joinstr.Nostr.WebSocket.{Event, Nip, Socket, WsClient, WsClientBuilder, new_builder}

pub record NostrClient (S : Type 0) : Type 0 where
  pub client : Option (WsClient S)
  pub builder : Option WsClientBuilder
  pub name : String

module _ {S : Type 0} where
  unfoldable pub new : String → NostrClient S
  unfolding new_builder
  new name = record { client = none; builder = some new_builder; name = name }

  -- the derived `Default`
  unfoldable pub default_client : NostrClient S
  default_client = record { client = none; builder = none; name = "" }

  unfoldable pub relay : String → NostrClient S → Outcome Error (NostrClient S)
  relay url n = elim n.builder [
    | none ↦ err already_connected
    | some b ↦ ok (record n { builder = some (record b { relay = some url }) })
  ]

  unfoldable pub keys : Keys → NostrClient S → Outcome Error (NostrClient S)
  keys k n = elim n.builder [
    | none ↦ err already_connected
    | some b ↦ ok (record n { builder = some (record b { keys = some k }) })
  ]

  unfoldable pub get_relay : NostrClient S → Option String
  get_relay n = elim n.client [ none ↦ none | some c ↦ some c.relay ]

  unfoldable pub get_keys : NostrClient S → Outcome Error Keys
  get_keys n = elim n.client [
    | some c ↦ ok c.keys
    | none ↦ elim n.builder [
      | none ↦ err keys_missing
      | some b ↦ elim b.keys [ none ↦ err keys_missing | some k ↦ ok k ]
    ]
  ]

  -- `self.client()?`, and a call on it
  unfoldable pub on_client :
      {W A : Type 0} → Action (WsClient S × W) WsError A → Action (NostrClient S × W) Error A
  on_client m (n, w) = elim n.client [
    | none ↦ (err not_connected, (n, w))
    | some c ↦
        let (r, (c', w')) = m (c, w) in (map_err sync_client r, (record n { client = some c' }, w'))
  ]

-- A join that names no key is answered to its sender.
unfoldable pub answer_to : PublicKey → PoolMessage → PoolMessage
answer_to sender (PoolMessage.join none) = PoolMessage.join (some sender)
answer_to sender (PoolMessage.join (some k)) = PoolMessage.join (some k)
answer_to sender (PoolMessage.input i) = PoolMessage.input i
answer_to sender (PoolMessage.output a) = PoolMessage.output a
answer_to sender (PoolMessage.psbt p) = PoolMessage.psbt p
answer_to sender (PoolMessage.transaction tx) = PoolMessage.transaction tx
answer_to sender (PoolMessage.credentials k) = PoolMessage.credentials k

-- What the text of an event says.
unfoldable pub message_of_event : Codec → Option Event → Option PoolMessage
unfolding from_str answer_to
message_of_event codec none = none
message_of_event codec (some e) = elim (from_str codec e.content) [
  | ok m ↦ some (answer_to e.pubkey m)
  | err x ↦ none
  | panic ↦ none
  | unfinished ↦ none
]

-- `Pool::try_from(event).ok()`, of serde_json's reader of pools
unfoldable pub pool_of_event : (String → Option Pool) → Option Event → Option Pool
pool_of_event read none = none
pool_of_event read (some e) = if e.kind == 2022 then read e.content else none

module _ {S W : Type 0} (nip : Nip W) where
  -- What the subscription of a new client leaves: the client, where it succeeds.
  unfoldable pub subscribed : NostrClient S → WsClient S → Action W Error (NostrClient S)
  unfolding Ws.subscribe_dm
  subscribed n c w =
      let (r, (c', w')) = Ws.subscribe_dm nip (c, w) in
      elim r [
        | ok _ ↦ (ok (record n { client = some c' }), w')
        | err e ↦ (err (sync_client e), w')
        | panic ↦ (panic, w')
        | unfinished ↦ (unfinished, w')
      ]

  unfoldable pub post_event : EventBuilder → Action (NostrClient S × W) Error (Unit {0})
  unfolding on_client Ws.post_event
  post_event e = on_client (Ws.post_event nip e)

  unfoldable pub send_dm : PublicKey → String → Action (NostrClient S × W) Error (Unit {0})
  unfolding on_client Ws.send_dm
  send_dm npub content = on_client (Ws.send_dm nip content npub)

  unfoldable pub subscribe_pools : ℕ → Action (NostrClient S × W) Error (Unit {0})
  unfolding on_client Ws.subscribe_pool
  subscribe_pools back = on_client (Ws.subscribe_pool nip back)

  unfoldable pub receive_event : Action (NostrClient S × W) Error (Option Event)
  unfolding on_client Ws.try_receive
  receive_event = on_client (Ws.try_receive nip)

  unfoldable pub receive_pool_notification :
      (String → Option Pool) → Action (NostrClient S × W) Error (Option Pool)
  unfolding ◌>>=◌ pure receive_event pool_of_event
  receive_pool_notification read = do e ← receive_event; pure (pool_of_event read e)

module _ {S W : Type 0} (nip : Nip W) (codec : Codec) where
  unfoldable pub send_pool_message :
      PublicKey → PoolMessage → Action (NostrClient S × W) Error (Unit {0})
  unfolding ◌>>=◌ yields to_string send_dm
  send_pool_message npub m = do
    content ← yields (map_err serializing (to_string codec m))
    send_dm nip npub content

  unfoldable pub try_receive_pool_msg : Action (NostrClient S × W) Error (Option PoolMessage)
  unfolding ◌>>=◌ pure receive_event message_of_event
  try_receive_pool_msg = do e ← receive_event nip; pure (message_of_event codec e)

module _ {S W : Type 0} (socket : Socket S W) (nip : Nip W) where
  unfoldable pub open_client : NostrClient S → WsClientBuilder → Action W Error (NostrClient S)
  unfolding Connect.connect subscribed
  open_client n b w =
      let (r, w') = Connect.connect socket b w in
      elim r [
        | ok c ↦ subscribed nip n c w'
        | err e ↦ (err (sync_client e), w')
        | panic ↦ (panic, w')
        | unfinished ↦ (unfinished, w')
      ]

  -- The builder is used up, whether the relay is reached or not.
  unfoldable pub connect_nostr : Action (NostrClient S × W) Error (Unit {0})
  unfolding open_client
  connect_nostr (n, w) = elim n.builder [
    | none ↦ (err sync_client_builder_missing, (n, w))
    | some b ↦
        let used : NostrClient S = record n { builder = none } in
        let (r, w') = open_client used b w in
        elim r [
          | ok n' ↦ (ok tt, (n', w'))
          | err e ↦ (err e, (used, w'))
          | panic ↦ (panic, (used, w'))
          | unfinished ↦ (unfinished, (used, w'))
        ]
  ]
