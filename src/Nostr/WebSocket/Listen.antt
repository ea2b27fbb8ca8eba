-- ===== src/Nostr/WebSocket/Listen.antt =====
-- The thread that holds the socket, `listen` of rust/simple_nostr_client/src/lib.rs: one round of its
-- loop. A round that returns from the thread is an error.
use joinstr.Prelude.{
  ℕ, zero, suc, ◌+◌, ◌-◌, ◌*◌, ◌%◌, Bool, true, false, Option, none, some, List, [], ◌∷◌, ◌++◌, ltb,
  if◌then◌else◌, ok, err, panic, unfinished, Action, ◌>>=◌, ◌>>◌,
}
use joinstr.System.{System, snooze}
use joinstr.Nostr.WebSocket.{Socket, OwnedMessage, SendMsg, RecvMsg, Listener}

-- The thread's ends of the channels, and whether the client still has the others.
pub record Thread (S : Type 0) : Type 0 where
  pub outgoing : List SendMsg
  pub incoming : List RecvMsg
  pub held : Bool
  pub locals : Listener S

-- Why the thread ends.
pub data Ended : Type 0 where
  stopped disconnected timed_out : Ended

abbrev pub ping_interval : ℕ
ping_interval = 5

-- Nanoseconds of seconds.
abbrev pub from_secs : ℕ → ℕ
from_secs s = s * 1000000000

module _ {S : Type 0} where
  unfoldable pub set_socket : S → Thread S → Thread S
  set_socket c t = record t { locals = record t.locals { client = c } }

  -- `sender.send(m)`: the message is lost where the client is gone.
  unfoldable pub notify : RecvMsg → Thread S → Thread S
  notify m t = if t.held then record t { incoming = t.incoming ++ (m ∷ []) } else t

module _ {S W : Type 0} where
  -- A relay that answers no ping is given up.
  unfoldable pub give_up : Bool → Action (Thread S × W) Ended (Unit {0})
  unfolding notify
  give_up late (t, w) =
      (if late then err timed_out else ok tt, (if late then notify RecvMsg.close t else t, w))

  unfoldable pub rest_if : System W → Bool → Action (Thread S × W) Ended (Unit {0})
  unfolding snooze
  rest_if system wait (t, w) =
      if wait
      then (let (b, w') = snooze system t.locals.backoff w in
          (ok tt, (record t { locals = record t.locals { backoff = b } }, w')))
      else (ok tt, (t, w))

module _ {S W : Type 0} (socket : Socket S W) where
  -- What the client wants to send, one message a round; whether there is none, so that the thread may wait.
  unfoldable pub send_next : Action (Thread S × W) Ended Bool
  unfolding set_socket
  send_next (t, w) = elim t.outgoing [
    | [] ↦ (if t.held then ok true else err disconnected, (t, w))
    | m ∷ l ↦ elim m [
      | SendMsg.msg s ↦
          let (sent, c) = socket.send_message (OwnedMessage.text s) t.locals.client in
          (ok false, (set_socket c (record t { outgoing = l }), w))
      | SendMsg.stop ↦ (err stopped, (record t { outgoing = l }, w))
    ]
  ]

  -- The `match` on what the relay sent.
  unfoldable pub take_message : OwnedMessage → Action (Thread S × W) Ended Bool
  unfolding set_socket notify
  take_message (OwnedMessage.text s) (t, w) = (ok false, (notify (RecvMsg.msg s) t, w))
  take_message OwnedMessage.binary (t, w) = (ok false, (t, w))
  take_message OwnedMessage.close (t, w) =
      (if t.held then ok false else panic, (notify RecvMsg.close t, w))
  take_message (OwnedMessage.ping nonce) (t, w) =
      let (sent, c) = socket.send_message (OwnedMessage.pong nonce) t.locals.client in
      (ok false, (set_socket c t, w))
  take_message (OwnedMessage.pong nonce) (t, w) =
      let (now, w') = socket.nanos w in
      (ok false, (record t { locals = record t.locals { last_pong = now } }, w'))

  unfoldable pub pass_on : Bool → Option OwnedMessage → Action (Thread S × W) Ended Bool
  unfolding take_message
  pass_on wait none s = (ok wait, s)
  pass_on wait (some m) s = take_message m s

  unfoldable pub read_socket : Bool → Action (Thread S × W) Ended Bool
  unfolding set_socket pass_on
  read_socket wait (t, w) =
      let (m, c) = socket.recv_message t.locals.client in pass_on wait m (set_socket c t, w)

  -- `SystemTime::now().duration_since(since).expect(..) > Duration::from_secs(secs)`
  unfoldable pub is_over : ℕ → ℕ → Action (Thread S × W) Ended Bool
  is_over since secs (t, w) =
      let (now, w') = socket.nanos w in
      (if ltb now since then panic else ok (ltb (from_secs secs) (now - since)), (t, w'))

  -- A ping, with the next nonce: `wrapping_add(1)` on a `u8`.
  unfoldable pub send_ping : Bool → Action (Thread S × W) Ended (Unit {0})
  unfolding set_socket
  send_ping due (t, w) =
      if due
      then (let (now, w') = socket.nanos w in
          let nonce = (t.locals.ping_nonce + 1) % 256 in
          let (sent, c) = socket.send_message (OwnedMessage.ping (nonce ∷ [])) t.locals.client in
          (
            ok tt,
            (
              record t {
                locals = record t.locals { client = c; last_ping = now; ping_nonce = nonce };
              },
              w',
            ),
          ))
      else (ok tt, (t, w))

  unfoldable pub since_ping : Action (Thread S × W) Ended Bool
  unfolding is_over
  since_ping (t, w) = is_over t.locals.last_ping ping_interval (t, w)

  unfoldable pub since_pong : Action (Thread S × W) Ended Bool
  unfolding is_over
  since_pong (t, w) = is_over t.locals.last_pong (3 * ping_interval) (t, w)

  -- One round of the `loop`.
  unfoldable pub round : System W → Action (Thread S × W) Ended (Unit {0})
  unfolding ◌>>=◌ ◌>>◌ send_next read_socket since_ping send_ping since_pong give_up rest_if
  round system = do
    wait ← send_next
    wait ← read_socket wait
    due ← since_ping
    send_ping due
    late ← since_pong
    give_up late
    rest_if system wait

  -- The thread, for at most so many rounds.
  unfoldable pub listen : System W → ℕ → Action (Thread S × W) Ended (Unit {0})
  unfolding ◌>>◌
  listen system zero s = (unfinished, s)
  listen system (suc n) s = (round system >> listen system n) s
