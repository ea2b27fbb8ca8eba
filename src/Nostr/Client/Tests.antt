-- ===== src/Nostr/Client/Tests.antt =====
-- Two peers of a pool: the first sends its signed input, and the relay passes the message on.
use joinstr.Prelude.{
  ◌≡◌, refl, arith, ℕ, suc, true, Option, none, some, List, [], ◌∷◌, inl, ok, err,
}
use joinstr.Json.{Value, object, string, number, member, no_members}
use joinstr.Bitcoin.{TxIn}
use joinstr.Nostr.Error.{sync_client, connection_closed}
use joinstr.Nostr.Pool.{Keys, PoolMessage}
use joinstr.Nostr.Message.{Codec, to_json, to_string, from_str}
use joinstr.Nostr.Message.Trip.{IsLawful, IsReadable, arrives, from_str-to_string}
use joinstr.Nostr.WebSocket.{Event, Nip, Socket, WsClient, RecvMsg, RelayMessage}
use joinstr.Nostr.Client.{NostrClient, new, send_pool_message, try_receive_pool_msg}
use joinstr.Nostr.Client.Delivery.{
  IsSigning, Shares, Forwards, posted, delivered, try_receive_pool_msg-send_pool_message,
}
use joinstr.Nostr.Client.Modes.{IsExclusive, StaysExclusive, client_exclusive}
use joinstr.Nostr.Client.Lost.{IsSilent, close-IsSilent}

abbrev txin : TxIn
txin = record { previous_output = record { txid = 7; vout = 1 }; sequence = 5; witness = 9 }

abbrev signed : PoolMessage
signed = PoolMessage.input (record { txin = txin; amount = some 1000 })

abbrev signed_json : Value
signed_json = object (
    member "version" (string "1") (
      member "type" (string "input") (
        member "input"
          (object (
            member "txin" (string "txin")
              (member "witness" (string "witness") (member "amount" (number 1000) no_members))))
          no_members)))

-- What these functions read is the one input.
abbrev codec : Codec
codec = record {
  print = λ v. ok "json";
  parse = λ s. ok signed_json;
  txin_to_hex = λ t. "txin";
  txin_of_hex = λ s. some (record txin { witness = 0 });
  witness_to_hex = λ w. "witness";
  witness_of_hex = λ s. some 9;
  transaction_to_hex = λ tx. "";
  transaction_of_hex = λ s. none;
  amount_of_value = λ v. ok 1000;
  psbt_to_value = λ p. err "";
  psbt_of_text = λ s. err "";
  key_to_value = λ k. err "";
  key_of_value = λ v. err "";
  address_to_value = λ a. err "";
  address_of_text = λ s. none;
  secret_to_hex = λ k. "";
  secret_of_value = λ v. err "";
  shape_error = λ v. "";
}

lawful : IsLawful codec signed
lawful = record {
  txin_hex = λ i q. (0, ground (arith, q));
  witness_hex = λ i q. ground (arith, q);
  amount_value = λ i a q has. ground (arith, q, has);
  transaction_hex = λ tx q. ground (arith, q);
  psbt_value = λ p v q has. ground (arith, q);
  key_value = λ k v q has. ground (arith, q);
  address_value = λ a v q has. ground (arith, q);
  secret_value = λ k q. ground (arith, q);
}

readable : IsReadable codec signed
unfolding IsReadable to_json
readable v s made printed = ground (arith, made)

-- A relay that passes a direct message on as its content.
abbrev relayed : Value → Option RelayMessage
relayed (string t) = some (RelayMessage.event (record { kind = 4; pubkey = 1; content = t }))
relayed v = none

abbrev nip : Nip ℕ
nip = record {
  encrypt = λ k r t w. (some t, suc w);
  decrypt = λ k r t. some t;
  to_event =
      λ b k w. (some (record { kind = b.kind; pubkey = k.public_key; content = b.content }), suc w);
  event_json = λ e. e.content;
  dm_request = λ k w. ("dms", suc w);
  pool_request = λ b w. ("pools", suc w);
  raw_from_json = λ s. some (string s);
  relay_message_of = relayed;
}

signing : IsSigning nip
unfolding IsSigning
signing b k w e q = (ground (arith, q), ground (arith, q), ground (arith, q))

shares : (a b : Keys) → Shares nip a b
unfolding Shares
shares a b t secret w q = ground (arith, q)

abbrev client : Keys → List RecvMsg → WsClient ℕ
client keys incoming = record {
  client = none;
  link = record {
    outgoing = [];
    incoming = incoming;
    thread = some (record {
      client = 0;
      backoff = record { current_step = 0; max_sleep = 50 };
      last_ping = 0;
      last_pong = 0;
      ping_nonce = 0;
    });
  };
  connected = true;
  relay = "wss://relay";
  keys = keys;
}

abbrev peer : Keys
peer = record { public_key = 1; secret_key = 11 }

abbrev pool : Keys
pool = record { public_key = 2; secret_key = 22 }

abbrev nostr : WsClient ℕ → NostrClient ℕ
nostr c = record { client = some c; builder = none; name = "peer" }

sends : send_pool_message nip codec 2 signed (nostr (client peer []), 0) ≡ (
  ok tt,
  (nostr (posted nip (record { kind = 4; pubkey = 1; content = "json" }) (client peer [])), 2),
)
unfolding send_pool_message posted
sends = refl

forwards :
    (e : Event)
    → e.kind ≡ 4
    → e.pubkey ≡ 1
    → some (posted nip (record { kind = 4; pubkey = 1; content = "json" }) (client peer []))
      ≡ some (posted nip e (client peer []))
    → Forwards nip "json" e
unfolding posted
forwards e kind from q = record {
  raw = string "json";
  is_raw = refl;
  is_event = ground (arith, kind, from, q);
}

try_receive_pool_msg-send_pool_message_example :
    try_receive_pool_msg nip codec (nostr (client pool (RecvMsg.msg "json" ∷ [])), 0)
    ≡ (ok (delivered 1 signed), (nostr (client pool []), 0))
try_receive_pool_msg-send_pool_message_example =
    try_receive_pool_msg-send_pool_message nip codec signing signed lawful (nostr (client peer []))
      (nostr (posted nip (record { kind = 4; pubkey = 1; content = "json" }) (client peer [])))
      (client peer []) 0 2 2 (nostr (client pool (RecvMsg.msg "json" ∷ [])))
      (client pool (RecvMsg.msg "json" ∷ [])) 0 "json" [] refl sends readable forwards refl refl
      refl refl (shares peer pool)

to_string_runs : to_string codec signed ≡ ok "json"
unfolding to_string
to_string_runs = refl

from_str-to_string_example : from_str codec "json" ≡ arrives signed
from_str-to_string_example = from_str-to_string codec signed lawful "json" to_string_runs readable

close-IsSilent_example :
    ((try_receive_pool_msg nip codec (nostr (client pool (RecvMsg.close ∷ [])), 0)).0
      ≡ err (sync_client connection_closed))
    × IsSilent nip codec
        (try_receive_pool_msg nip codec (nostr (client pool (RecvMsg.close ∷ [])), 0)).1.0
        3
close-IsSilent_example =
    close-IsSilent nip codec (nostr (client pool (RecvMsg.close ∷ [])))
      (client pool (RecvMsg.close ∷ [])) 0 3 [] refl refl refl

-- A relay that takes connections, with a clock that stands.
abbrev socket : Socket ℕ ℕ
socket = record {
  connect = λ url w. (ok 0, w);
  set_nonblocking = λ s. (true, s);
  send_message = λ m s. (true, s);
  recv_message = λ s. (none, s);
  nanos = λ w. (0, w);
}

new-IsExclusive : IsExclusive (new {S = ℕ} "peer")
unfolding new IsExclusive
new-IsExclusive = inl refl

client_exclusive_example : StaysExclusive socket nip codec (new "peer") 0
client_exclusive_example = client_exclusive socket nip codec (new "peer") 0 new-IsExclusive
