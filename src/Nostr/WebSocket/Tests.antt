-- ===== src/Nostr/WebSocket/Tests.antt =====
-- Rounds of the thread that holds the socket.
use joinstr.Prelude.{◌≡◌, refl, ℕ, true, some, [], ◌∷◌, ok}
use joinstr.System.{System}
use joinstr.Nostr.WebSocket.{Socket, OwnedMessage, SendMsg, RecvMsg}
use joinstr.Nostr.WebSocket.Listen.{Thread, round, listen}
use joinstr.Nostr.WebSocket.Queues.{Passes, listen-Passes}

-- A relay that has one text for the client.
abbrev busy : Socket ℕ ℕ
busy = record {
  connect = λ url w. (ok 0, w);
  set_nonblocking = λ s. (true, s);
  send_message = λ m s. (true, s);
  recv_message = λ s. (some (OwnedMessage.text "hello"), s);
  nanos = λ w. (0, w);
}

abbrev system : System ℕ
system = record {
  now = λ w. (w, w);
  sleep = λ d w. w;
  yield_now = λ w. w;
  random_range = λ a b w. (a, w);
}

abbrev thread : Thread ℕ
thread = record {
  outgoing = SendMsg.msg "first" ∷ SendMsg.msg "second" ∷ [];
  incoming = [];
  held = true;
  locals = record {
    client = 0;
    backoff = record { current_step = 0; max_sleep = 50 };
    last_ping = 0;
    last_pong = 0;
    ping_nonce = 255;
  };
}

listen_runs :
    (listen busy system 1 (thread, 0)).1.0
    ≡ record thread { outgoing = SendMsg.msg "second" ∷ []; incoming = RecvMsg.msg "hello" ∷ [] }
unfolding listen round
listen_runs = refl

listen-Passes_example : Passes thread (listen busy system 1 (thread, 0)).1.0
listen-Passes_example = listen-Passes busy system 1 thread 0
