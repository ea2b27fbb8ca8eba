-- ===== src/Nostr/Error.antt =====
-- The errors of rust/simple_nostr_client/src/lib.rs (`WsError`) and of the nostr client,
-- rust/joinstr/src/nostr/error.rs. What another crate reports is its text.
use Prim.Native.String.{String}

-- `simple_nostr_client::Error`
pub data WsError : Type 0 where
  web_socket : String → WsError
  parse : String → WsError
  listen send receive non_blocking ws_not_connected ws_keys_missing arg_missing : WsError
  nip04_encrypt nip04_decrypt ws_not_nip04 sign_event connection_closed : WsError
  raw_relay_message relay_message : WsError

-- `SerializeError` of rust/joinstr/src/nostr/mod.rs
pub data SerializeError : Type 0 where
  transaction inputs outputs : SerializeError
  serde_json : String → SerializeError

pub data Error : Type 0 where
  already_connected not_connected disconnected : Error
  event_builder : String → Error
  keys_missing not_nip04 dm_encryption : Error
  serializing : SerializeError → Error
  sync_client : WsError → Error
  sync_client_builder_missing : Error
