-- ===== src/Electrum/Client/Backend.antt =====
-- The electrum client as the backend of a coinjoin, and as the client of a `Joinstr`.
use joinstr.Prelude.{
  ◌≡◌, refl, ◌⊎◌, inl, inr, none, some, List, arith, Outcome, ok, Option-cases, ◌+◌, ◌%◌, ◌^◌,
}
use joinstr.Bitcoin.{Address, Amount, Script, OutPoint, TxOut, Transaction}
use joinstr.Nostr.Input.{InputDataSigned}
use joinstr.CoinJoin.{CoinJoin, add_input}
use joinstr.CoinJoin.Backend.{BitcoinBackend, electrum}
use joinstr.CoinJoin.Retry.{add_input-Confirms}
use joinstr.CoinJoin.Inputs.{outpoint}
use joinstr.Joinstr.Host.{ElectrumClient}
use joinstr.Electrum.Error.{Error}
use joinstr.Electrum.Response.{Response}
use joinstr.Electrum.Client.{
  Sockets, Codec, Client, new_client, get_tx, get_outpoint_value, value_of, address_already_used,
  broadcast, get_elem?,
}
use joinstr.Electrum.Client.Coins.{Answered, Sent, get_tx_lem, tx_request, numbered}

module _ {R W : Type 0} (sockets : Sockets R W) (codec : Codec)
    (script_pubkey : Address → Script) where
  -- `impl BitcoinBackend for Client`
  abbrev pub backend : BitcoinBackend (Client R) Error
  backend = record {
    into = electrum;
    address_already_used = address_already_used sockets codec script_pubkey;
    get_outpoint_value = get_outpoint_value sockets codec;
  }

  -- What a `Joinstr` uses.
  abbrev pub electrum_client : ElectrumClient (Client R) W
  electrum_client = record {
    new = new_client sockets codec;
    broadcast = broadcast sockets codec;
    backend = backend;
    url = λ c. c.url;
    port = λ c. c.port;
  }

  -- The server sent a transaction with this output, in answer to a request for it.
  pub record Shown (o : OutPoint) (amount : Amount) : Type 0 where
    pub client : Client R
    pub tx : Transaction
    pub output : TxOut
    pub responses : List Response
    pub answered :
        Answered sockets codec
          (tx_request sockets codec o.txid client)
          (numbered sockets codec client)
          responses
    pub sent : Sent sockets codec ((client.last_id + 1) % 2 ^ 64) responses tx
    pub has_output : get_elem? tx.output o.vout ≡ some output
    pub pays : output.value ≡ amount

  value_of-some :
      (o : OutPoint) (r : Outcome Error Transaction) (amount : Amount)
      → value_of sockets codec o r ≡ ok (some amount)
      → (tx : Transaction) × (output : TxOut) × (r ≡ ok tx)
        × (get_elem? tx.output o.vout ≡ some output)
        × (output.value ≡ amount)
  unfolding value_of
  value_of-some o (ok tx) amount e = elim (Option-cases (get_elem? tx.output o.vout)) [
    | inl f ↦ absurd (ground arith)
    | inr (output, f) ↦ (tx, output, refl, f, ground arith)
  ]
  value_of-some o r amount e = absurd (ground arith)

  get_outpoint_value-Shown :
      (o : OutPoint) (c : Client R) (amount : Amount)
      → (get_outpoint_value sockets codec o c).0 ≡ ok (some amount)
      → Shown o amount
  unfolding get_outpoint_value
  get_outpoint_value-Shown o c amount e =
      let (tx, output, f, g, pays) = value_of-some o (get_tx sockets codec o.txid c).0 amount e in
      let (rs, answered, sent) = get_tx_lem sockets codec o.txid c tx f in
      record {
        client = c;
        tx = tx;
        output = output;
        responses = rs;
        answered = answered;
        sent = sent;
        has_output = g;
        pays = pays;
      }

  -- A coinjoin whose client is an electrum client registers an input only if the server sent a
  -- transaction, in answer to a request for the input's txid, that has the output which the input
  -- spends, with the amount that the peer claims, where it claims one.
  pub add_input-Shown :
      (input : InputDataSigned) (s : CoinJoin (Client R)) (c : Client R)
      → s.client ≡ some c
      → (add_input backend input s).0 ≡ ok tt
      → (amount : Amount) × Shown (outpoint input) amount
        × ((input.amount ≡ none) ⊎ (input.amount ≡ some amount))
  add_input-Shown input s c e h =
      let (d, amount, found, fits) = add_input-Confirms backend input s c e h in
      (amount, get_outpoint_value-Shown (outpoint input) d amount found, fits)
