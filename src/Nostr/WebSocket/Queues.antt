-- ===== src/Nostr/WebSocket/Queues.antt =====
-- What the thread of a websocket client does to the two channels.
use joinstr.Prelude.{
  ◌≡◌, refl, sym, ◌∙◌, ap, arith, ℕ, zero, suc, ◌<◌, Bool, true, false, Bool-cases, Option, none,
  some, inl, inr, List, [], ◌∷◌, ◌++◌, Action, Outcome-cases, ◌>>=◌,
}
use mathlib.Core.List.{append-nil, append_assoc}
use joinstr.System.{System}
use joinstr.Nostr.WebSocket.{Socket, SendMsg, RecvMsg, OwnedMessage}
use joinstr.Nostr.WebSocket.Listen.{
  Thread, Ended, send_next, take_message, pass_on, read_socket, send_ping, give_up, rest_if,
  since_ping, since_pong, round, listen, notify, set_socket,
}

-- A later state of the thread: it has put messages at the end of the one channel, and has taken
-- messages from the front of the other.
pub record Passes {S : Type 0} (t t' : Thread S) : Type 0 where
  pub put : List RecvMsg
  pub puts : t'.incoming ≡ t.incoming ++ put
  pub taken : List SendMsg
  pub takes : t.outgoing ≡ taken ++ t'.outgoing
  pub keeps_held : t'.held ≡ t.held
  pub keeps_nonce : t.locals.ping_nonce < 256 → t'.locals.ping_nonce < 256

-- An action of the thread, however it ends.
pub record IsOrderly {S W A : Type 0} (m : Action (Thread S × W) Ended A) : Type 0 where
  pub passes : (s : Thread S × W) → Passes s.0 (m s).1.0

module _ {S : Type 0} where
  Passes-trans : {a b c : Thread S} → Passes a b → Passes b c → Passes a c
  Passes-trans {a = a} p q = record {
    put = p.put ++ q.put;
    puts = q.puts ∙ ap (λ l. l ++ q.put) p.puts ∙ append_assoc a.incoming p.put q.put;
    taken = p.taken ++ q.taken;
    takes = p.takes ∙ ap (λ l. p.taken ++ l) q.takes ∙ sym (append_assoc p.taken q.taken _);
    keeps_held = q.keeps_held ∙ p.keeps_held;
    keeps_nonce = λ h. q.keeps_nonce (p.keeps_nonce h);
  }

  -- A step that leaves the channels alone.
  stays :
      (t t' : Thread S)
      → t'.incoming ≡ t.incoming
      → t'.outgoing ≡ t.outgoing
      → t'.held ≡ t.held
      → (t.locals.ping_nonce < 256 → t'.locals.ping_nonce < 256)
      → Passes t t'
  stays t t' i o h n = record {
    put = [];
    puts = i ∙ sym (append-nil _);
    taken = [];
    takes = sym o;
    keeps_held = h;
    keeps_nonce = n;
  }

  notify-Passes : (m : RecvMsg) (t : Thread S) → Passes t (notify m t)
  unfolding notify
  notify-Passes m t = elim (Bool-cases t.held) [
    | inl q ↦ rw q (record {
      put = m ∷ [];
      puts = refl;
      taken = [];
      takes = refl;
      keeps_held = refl;
      keeps_nonce = λ h. h;
    })
    | inr q ↦ rw q (stays _ _ refl refl refl (λ h. h))
  ]

module _ {S W A B : Type 0} where
  IsOrderly-bind :
      {m : Action (Thread S × W) Ended A} {k : A → Action (Thread S × W) Ended B}
      → IsOrderly m
      → ((a : A) → IsOrderly (k a))
      → IsOrderly (m >>= k)
  unfolding ◌>>=◌
  IsOrderly-bind {m = m} e g = record {
    passes = λ s. elim (Outcome-cases (m s).0) [
      | inl (a, q) ↦ rw (q, ◌>>=◌) (Passes-trans (e.passes s) ((g a).passes (m s).1))
      | inr (inl (x, q)) ↦ rw (q, ◌>>=◌) (e.passes s)
      | inr (inr (inl q)) ↦ rw (q, ◌>>=◌) (e.passes s)
      | inr (inr (inr q)) ↦ rw (q, ◌>>=◌) (e.passes s)
    ];
  }

give_up-IsOrderly : {S W : Type 0} (late : Bool) → IsOrderly {S = S} {W = W} (give_up late)
unfolding give_up
give_up-IsOrderly true = record { passes = λ s. notify-Passes RecvMsg.close s.0 }
give_up-IsOrderly false = record { passes = λ s. stays _ _ refl refl refl (λ h. h) }

rest_if-IsOrderly :
    {S W : Type 0} (system : System W) (wait : Bool) → IsOrderly {S = S} (rest_if system wait)
unfolding rest_if
rest_if-IsOrderly system true = record { passes = λ s. stays _ _ refl refl refl (λ h. h) }
rest_if-IsOrderly system false = record { passes = λ s. stays _ _ refl refl refl (λ h. h) }

module _ {S W : Type 0} (socket : Socket S W) where
  send_next-Passes :
      (t : Thread S) (w : W) (l : List SendMsg)
      → t.outgoing ≡ l
      → Passes t (send_next socket (t, w)).1.0
  unfolding send_next
  send_next-Passes t w [] q = rw q (stays _ _ refl refl refl (λ h. h))
  send_next-Passes t w (SendMsg.msg x ∷ l) q = rw q (record {
    put = [];
    puts = sym (append-nil _);
    taken = SendMsg.msg x ∷ [];
    takes = refl;
    keeps_held = refl;
    keeps_nonce = λ h. h;
  })
  send_next-Passes t w (SendMsg.stop ∷ l) q = rw q (record {
    put = [];
    puts = sym (append-nil _);
    taken = SendMsg.stop ∷ [];
    takes = refl;
    keeps_held = refl;
    keeps_nonce = λ h. h;
  })

  send_next-IsOrderly : IsOrderly (send_next socket)
  send_next-IsOrderly = record { passes = λ s. send_next-Passes s.0 s.1 s.0.outgoing refl }

  take_message-IsOrderly : (m : OwnedMessage) → IsOrderly (take_message socket m)
  unfolding take_message
  take_message-IsOrderly (OwnedMessage.text x) = record {
    passes = λ s. notify-Passes (RecvMsg.msg x) s.0;
  }
  take_message-IsOrderly OwnedMessage.binary = record {
    passes = λ s. stays _ _ refl refl refl (λ h. h);
  }
  take_message-IsOrderly OwnedMessage.close = record {
    passes = λ s. notify-Passes RecvMsg.close s.0;
  }
  take_message-IsOrderly (OwnedMessage.ping nonce) = record {
    passes = λ s. stays _ _ refl refl refl (λ h. h);
  }
  take_message-IsOrderly (OwnedMessage.pong nonce) = record {
    passes = λ s. stays _ _ refl refl refl (λ h. h);
  }

  pass_on-IsOrderly : (wait : Bool) (m : Option OwnedMessage) → IsOrderly (pass_on socket wait m)
  unfolding pass_on
  pass_on-IsOrderly wait none = record { passes = λ s. stays _ _ refl refl refl (λ h. h) }
  pass_on-IsOrderly wait (some m) = record { passes = (take_message-IsOrderly m).passes }

  read_socket-IsOrderly : (wait : Bool) → IsOrderly (read_socket socket wait)
  unfolding read_socket
  read_socket-IsOrderly wait = record {
    passes = λ s.
        let (m, c) = socket.recv_message s.0.locals.client in
        Passes-trans (stays s.0 (set_socket c s.0) refl refl refl (λ h. h))
          ((pass_on-IsOrderly wait m).passes (set_socket c s.0, s.1));
  }

  since_ping-IsOrderly : IsOrderly (since_ping socket)
  unfolding since_ping
  since_ping-IsOrderly = record { passes = λ s. stays _ _ refl refl refl (λ h. h) }

  since_pong-IsOrderly : IsOrderly (since_pong socket)
  unfolding since_pong
  since_pong-IsOrderly = record { passes = λ s. stays _ _ refl refl refl (λ h. h) }

  send_ping-IsOrderly : (due : Bool) → IsOrderly (send_ping socket due)
  unfolding send_ping
  send_ping-IsOrderly true = record { passes = λ s. stays _ _ refl refl refl (λ h. ground arith) }
  send_ping-IsOrderly false = record { passes = λ s. stays _ _ refl refl refl (λ h. h) }

  round-IsOrderly : (system : System W) → IsOrderly (round socket system)
  unfolding round
  round-IsOrderly system = IsOrderly-bind send_next-IsOrderly (λ a.
      IsOrderly-bind (read_socket-IsOrderly a) (λ wait. IsOrderly-bind since_ping-IsOrderly (λ due.
        IsOrderly-bind (send_ping-IsOrderly due) (λ _.
          IsOrderly-bind since_pong-IsOrderly (λ late.
            IsOrderly-bind (give_up-IsOrderly late) (λ _. rest_if-IsOrderly system wait))))))

  -- The thread, however many rounds it runs and however they end, puts messages only at the end of the
  -- client's queue and takes messages only from the front of what the client wants to send, in their
  -- order, and the nonce of its pings stays a byte.
  pub listen-Passes :
      (system : System W) (n : ℕ) (t : Thread S) (w : W)
      → Passes t (listen socket system n (t, w)).1.0
  unfolding listen
  listen-Passes system zero t w = stays _ _ refl refl refl (λ h. h)
  listen-Passes system (suc n) t w =
      (IsOrderly-bind {k = λ _. listen socket system n} (round-IsOrderly system)
          (λ _. record { passes = λ s. listen-Passes system n s.0 s.1 })).passes
        (t, w)
