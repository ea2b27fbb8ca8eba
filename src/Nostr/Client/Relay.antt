-- ===== src/Nostr/Client/Relay.antt =====
-- The client of rust/joinstr/src/nostr/sync/mod.rs as the nostr client of a Joinstr.
use joinstr.Nostr.Message.{Codec}
use joinstr.Nostr.WebSocket.{Nip, Socket}
use joinstr.Nostr.Client.{
  NostrClient, new, default_client, relay, keys, get_relay, get_keys, connect_nostr, post_event,
  send_pool_message, try_receive_pool_msg,
}
use joinstr.Joinstr.Host as Host

unfoldable pub nostr_client :
    {S W : Type 0} → Socket S W → Nip W → Codec → Host.NostrClient (NostrClient S) W
unfolding new default_client relay keys get_relay get_keys connect_nostr post_event
    send_pool_message try_receive_pool_msg
nostr_client socket nip codec = record {
  new = new;
  default_client = default_client;
  name = λ n. n.name;
  relay = relay;
  keys = keys;
  get_relay = get_relay;
  get_keys = get_keys;
  connect_nostr = connect_nostr socket nip;
  post_event = post_event nip;
  send_pool_message = send_pool_message nip codec;
  try_receive_pool_msg = try_receive_pool_msg nip codec;
}
