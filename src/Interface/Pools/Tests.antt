-- ===== src/Interface/Pools/Tests.antt =====
-- A relay that sends a pool, the end of its stored events, and another pool.
use text.Mathlib.Text.{◌==◌}
use joinstr.Prelude.{
  ◌≡◌, refl, arith, ℕ, suc, true, Option, none, some, List, [], ◌∷◌, if◌then◌else◌, ok, ◌>>=◌, ◌>>◌,
  pure, yields,
}
use joinstr.Json.{Value, string}
use joinstr.Bitcoin.{bitcoin}
use joinstr.Nostr.Pool.{Keys, Pool, create}
use joinstr.Nostr.WebSocket.{Nip, Socket, WsClient, RecvMsg, SendMsg, RelayMessage, read_message}
use joinstr.Nostr.Client.{NostrClient, pool_of_event}
use joinstr.Interface.Pools.{
  open_listener, list_pools, collect, calls, Leads, holding, list_pools_lem,
}

abbrev relayed : Value → Option RelayMessage
relayed (string t) =
    if t == "pool"
    then some (RelayMessage.event (record { kind = 2022; pubkey = 1; content = t }))
    else some RelayMessage.other
relayed v = none

abbrev nip : Nip ℕ
nip = record {
  encrypt = λ k r t w. (some t, suc w);
  decrypt = λ k r t. some t;
  to_event =
      λ b k w. (some (record { kind = b.kind; pubkey = k.public_key; content = b.content }), suc w);
  event_json = λ e. e.content;
  dm_request = λ k w. ("dms", suc w);
  pool_request = λ b w. ("pools", suc w);
  raw_from_json = λ s. some (string s);
  relay_message_of = relayed;
}

abbrev socket : Socket ℕ ℕ
socket = record {
  connect = λ url w. (ok 0, w);
  set_nonblocking = λ s. (true, s);
  send_message = λ m s. (true, s);
  recv_message = λ s. (none, s);
  nanos = λ w. (0, w);
}

abbrev listener_keys : Keys
listener_keys = record { public_key = 1; secret_key = 11 }

abbrev pool : Pool
pool = record {
  versions = none;
  id = "id";
  network = bitcoin;
  pool_type = create;
  public_key = 77;
  payload = none;
}

abbrev messages : List RecvMsg
messages = RecvMsg.msg "pool" ∷ RecvMsg.msg "eose" ∷ RecvMsg.msg "pool" ∷ []

abbrev client : WsClient ℕ
client = record {
  client = none;
  link = record {
    outgoing = SendMsg.msg "dms" ∷ SendMsg.msg "pools" ∷ [];
    incoming = [];
    thread = some (record {
      client = 0;
      backoff = record { current_step = 0; max_sleep = 50 };
      last_ping = 0;
      last_pong = 0;
      ping_nonce = 0;
    });
  };
  connected = true;
  relay = "wss://relay";
  keys = listener_keys;
}

abbrev opened : NostrClient ℕ
opened = record { client = some client; builder = none; name = "pool_listener" }

opens : open_listener socket nip (λ w. (listener_keys, w)) 86400 "wss://relay" 0 ≡ (ok opened, 2)
unfolding open_listener calls ◌>>=◌ ◌>>◌ pure yields
opens = refl

leads : Leads nip (λ t. some pool) listener_keys messages (pool ∷ []) (RecvMsg.msg "pool" ∷ [])
unfolding pool_of_event read_message
leads =
    Leads.pool_first (some (record { kind = 2022; pubkey = 1; content = "pool" })) refl refl
      (Leads.no_pool none refl refl)

-- While the caller sleeps, the relay has sent these messages.
abbrev wait : ℕ → NostrClient ℕ × ℕ → NostrClient ℕ × ℕ
wait t s = (holding opened client messages, s.1)

list_pools_lem_example :
    (list_pools socket nip
        (λ t. some pool)
        (λ w. (listener_keys, w))
        wait
        2
        86400
        500
        "wss://relay"
        0
      ≡ (ok (pool ∷ []), 2))
    × ((collect nip (λ t. some pool) 2 (wait 500 (opened, 2))).1
        ≡ (holding opened client (RecvMsg.msg "pool" ∷ []), 2))
list_pools_lem_example =
    list_pools_lem socket nip (λ t. some pool) (λ w. (listener_keys, w)) wait 2 86400 500
      "wss://relay" 0 2 2 opened opened client _ messages (RecvMsg.msg "pool" ∷ []) (pool ∷ [])
      opens refl refl refl leads (omega arith)
