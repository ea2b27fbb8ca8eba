-- ===== src/Nostr/WebSocket/Connect.antt =====
-- `WsClientBuilder::connect` of rust/simple_nostr_client/src/lib.rs: the socket is opened, and the
-- thread that holds it starts.
use Prim.Native.String.{String}
use joinstr.Prelude.{
  false, true, none, some, [], if◌then◌else◌, ok, err, panic, unfinished, Action, pure, throw,
  ◌>>=◌,
}
use joinstr.System.{new_us}
use joinstr.Nostr.Error.{WsError, listen, non_blocking, arg_missing}
use joinstr.Nostr.Pool.{Keys}
use joinstr.Nostr.WebSocket.{Socket, Listener, WsClient, WsClientBuilder}

module _ {S : Type 0} where
  -- The client of a socket, before its thread runs.
  unfoldable pub new_client : S → String → Keys → WsClient S
  new_client client relay keys = record {
    client = some client;
    link = record { outgoing = []; incoming = []; thread = none };
    connected = false;
    relay = relay;
    keys = keys;
  }

module _ {S W : Type 0} (socket : Socket S W) where
  -- `WsClient::listen`: the thread starts, with the time for its first ping and pong.
  unfoldable pub start_listen : Action (WsClient S × W) WsError (Unit {0})
  unfolding new_us
  start_listen (c, w) = elim c.client [
    | none ↦ (err listen, (c, w))
    | some client ↦
        let (now, w1) = socket.nanos w in
        let (later, w2) = socket.nanos w1 in
        let t : Listener S = record {
          client = client;
          backoff = new_us 50;
          last_ping = now;
          last_pong = later;
          ping_nonce = 0;
        } in
        (
          ok tt,
          (
            record c { client = none; connected = true; link = record c.link { thread = some t } },
            w2,
          ),
        )
  ]

  unfoldable pub begin : S → String → Keys → Action W WsError (WsClient S)
  unfolding new_client start_listen
  begin client url keys w =
      let (r, (c, w')) = start_listen (new_client client url keys, w) in
      elim r [
        | ok _ ↦ (ok c, w')
        | err e ↦ (err e, w')
        | panic ↦ (panic, w')
        | unfinished ↦ (unfinished, w')
      ]

  unfoldable pub open_url : String → Action W WsError S
  unfolding ◌>>=◌
  open_url url = do
    client ← socket.connect url
    let (done, client) = socket.set_nonblocking client
    if done then pure client else throw non_blocking

  -- `WsClientBuilder::connect`
  unfoldable pub connect : WsClientBuilder → Action W WsError (WsClient S)
  unfolding ◌>>=◌ throw open_url begin
  connect b = elim b.relay [
    | none ↦ throw arg_missing
    | some url ↦ elim b.keys [
      | none ↦ throw arg_missing
      | some keys ↦ do client ← open_url url; begin client url keys
    ]
  ]
