-- ===== src/Electrum/Client/Idle.antt =====
-- No call of the electrum client leaves a request behind that waits for its response.
use joinstr.Prelude.{
  ℕ, ◌≡◌, ◌≢◌, refl, inl, inr, none, List, [], ◌∷◌, arith, Outcome, panic, unfinished, Action,
  Outcome-cases, ◌>>=◌, ◌>>◌, pure, yields,
}
use joinstr.Prelude.Dict.{get, insert, get-insert, get-remove}
use joinstr.Bitcoin.{Address, Script, Txid, OutPoint, TxOut, Transaction}
use joinstr.Electrum.Error.{Error}
use joinstr.Electrum.Request.{Request}
use joinstr.Electrum.Client.{
  Sockets, Codec, Client, next_id, exchange, get_tx, get_coins_tx_at, collect_coins, get_coins_at,
  broadcast, address_already_used, get_outpoint_value, value_of,
}

-- No request waits.
abbrev pub IsIdle : {R : Type 0} → Client R → Type 0
IsIdle c = (id : ℕ) → get c.index id ≡ none

-- A call that ends with a value or an error leaves an idle client idle.
pub record Idles {R A : Type 0} (m : Action (Client R) Error A) : Type 0 where
  pub idle : (c : Client R) → IsIdle c → (m c).0 ≢ panic → (m c).0 ≢ unfinished → IsIdle (m c).1

module _ {R A B : Type 0} where
  Idles-bind :
      {m : Action (Client R) Error A} {f : A → Action (Client R) Error B}
      → Idles m
      → ((a : A) → Idles (f a))
      → Idles (m >>= f)
  unfolding ◌>>=◌
  Idles-bind {m = m} p q = record {
    idle = λ c i np nu. elim (Outcome-cases (m c).0) [
      | inl (a, e) ↦
          rw (e, ◌>>=◌)
            ((q a).idle (m c).1 (p.idle c i (λ h. cc) (λ h. cc)) (rw (e, ◌>>=◌) at np)
              (rw (e, ◌>>=◌) at nu))
      | inr (inl (x, e)) ↦ rw (e, ◌>>=◌) (p.idle c i (λ h. cc) (λ h. cc))
      | inr (inr (inl e)) ↦ absurd (np (ground arith))
      | inr (inr (inr e)) ↦ absurd (nu (ground arith))
    ];
  }

module _ {R A : Type 0} where
  Idles-yields : (r : Outcome Error A) → Idles {R = R} (yields r)
  unfolding yields
  Idles-yields r = record { idle = λ c i np nu. i }

  Idles-pure : (a : A) → Idles {R = R} (pure a)
  unfolding pure
  Idles-pure a = record { idle = λ c i np nu. i }

module _ {R W : Type 0} (sockets : Sockets R W) (codec : Codec) where
  Idles-next_id : Idles (next_id sockets codec)
  unfolding next_id
  Idles-next_id = record { idle = λ c i np nu. i }

  -- The request waits from the time it is sent until the responses are there.
  Idles-exchange : (request : Request) → Idles (exchange sockets codec request)
  unfolding exchange ◌>>◌
  Idles-exchange request = record {
    idle = λ c i np nu id. ground (
      arith,
      i id,
      np,
      nu,
      get-insert c.index request.id id request,
      get-remove (insert c.index request.id request) request.id id,
    );
  }

  Idles-get_tx : (txid : Txid) → Idles (get_tx sockets codec txid)
  unfolding get_tx
  Idles-get_tx txid =
      Idles-bind Idles-next_id (λ id. Idles-bind (Idles-exchange _) (λ rs. Idles-yields _))

  Idles-get_coins_tx_at : (script : Script) → Idles (get_coins_tx_at sockets codec script)
  unfolding get_coins_tx_at
  Idles-get_coins_tx_at script =
      Idles-bind Idles-next_id (λ id. Idles-bind (Idles-exchange _) (λ rs. Idles-yields _))

  Idles-collect_coins :
      (script : Script) (txids : List Txid)
      (found : List (TxOut × OutPoint) × List (ℕ × Transaction))
      → Idles (collect_coins sockets codec script txids found)
  unfolding collect_coins
  Idles-collect_coins script [] found = Idles-pure found
  Idles-collect_coins script (txid ∷ txids) found =
      Idles-bind (Idles-get_tx txid) (λ tx. Idles-collect_coins script txids _)

  Idles-get_coins_at : (script : Script) → Idles (get_coins_at sockets codec script)
  unfolding get_coins_at
  Idles-get_coins_at script =
      Idles-bind (Idles-get_coins_tx_at script) (λ txs. Idles-collect_coins script txs _)

  Idles-broadcast : (tx : Transaction) → Idles (broadcast sockets codec tx)
  unfolding broadcast
  Idles-broadcast tx = Idles-bind (Idles-exchange _) (λ rs. Idles-yields _)

  Idles-address_already_used :
      (script_pubkey : Address → Script) (a : Address)
      → Idles (address_already_used sockets codec script_pubkey a)
  unfolding address_already_used
  Idles-address_already_used script_pubkey a =
      Idles-bind (Idles-get_coins_tx_at (script_pubkey a)) (λ txs. Idles-pure _)

  value_of-panic : (o : OutPoint) → value_of sockets codec o panic ≡ panic
  unfolding value_of
  value_of-panic o = refl

  value_of-unfinished : (o : OutPoint) → value_of sockets codec o unfinished ≡ unfinished
  unfolding value_of
  value_of-unfinished o = refl

  Idles-get_outpoint_value : (o : OutPoint) → Idles (get_outpoint_value sockets codec o)
  unfolding get_outpoint_value
  Idles-get_outpoint_value o = record {
    idle = λ c i np nu.
        (Idles-get_tx o.txid).idle c i (λ h. np (rw h (value_of-panic o)))
          (λ h. nu (rw h (value_of-unfinished o)));
  }

  -- Where no request waits, none does after a call that ends with a value or an error: the request
  -- of the call is forgotten whether the responses could be read, and answered it, or not.
  pub client_idle :
      (txid : Txid) (script : Script) (tx : Transaction) (script_pubkey : Address → Script)
      (a : Address) (o : OutPoint)
      → Idles (get_tx sockets codec txid)
        × Idles (get_coins_tx_at sockets codec script)
        × Idles (get_coins_at sockets codec script)
        × Idles (broadcast sockets codec tx)
        × Idles (address_already_used sockets codec script_pubkey a)
        × Idles (get_outpoint_value sockets codec o)
  client_idle txid script tx script_pubkey a o = (
    Idles-get_tx txid,
    Idles-get_coins_tx_at script,
    Idles-get_coins_at script,
    Idles-broadcast tx,
    Idles-address_already_used script_pubkey a,
    Idles-get_outpoint_value o,
  )
