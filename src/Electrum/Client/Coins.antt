-- ===== src/Electrum/Client/Coins.antt =====
-- `get_tx` and `get_coins_at`: what they return is what the server sent.
use Prim.Native.String.{String}
use mathlib.Core.Path.{subst}
use mathlib.Core.List.{mem-cons_self, mem-cons_of_mem}
use joinstr.Prelude.{
  ℕ, zero, suc, ◌+◌, ◌%◌, ◌^◌, ◌≤◌, ◌≡◌, ◌∙◌, ap, refl, inl, inr, true, Bool-cases, ==_iff, ◌==◌,
  some, List, [], ◌∷◌, Mem, All, length, arith, ok, Option-cases, Outcome-cases, ◌>>◌,
}
use joinstr.Prelude.Dict.{insert}
use joinstr.Bitcoin.{Script, Txid, OutPoint, TxOut, Transaction}
use joinstr.Electrum.Request.{Request, with_id, tx_get}
use joinstr.Electrum.Response.{Response, TxGetResult, TxGetResponse}
use joinstr.Electrum.Response.Parse.{parse_str_response}
use joinstr.Electrum.Client.{
  Sockets, Codec, Client, coins_from, get_elem?, find_tx, decode_raw, exchange, try_send, recv,
  get_tx,
}

-- An output of a transaction that pays to a script, with its outpoint.
abbrev pub IsCoin : Script → Txid → List TxOut → TxOut × OutPoint → Type 0
IsCoin script txid outputs (o, p) =
    (o.script_pubkey ≡ script) × (p.txid ≡ txid) × (get_elem? outputs p.vout ≡ some o)

module _ (script : Script) (txid : Txid) where
  -- Where `l` is what is left of the outputs after `i` of them.
  abbrev Rest : List TxOut → ℕ → List TxOut → Type 0
  Rest outputs i l = (j : ℕ) → get_elem? outputs (i + j) ≡ get_elem? l j

  coins_from-IsCoin :
      (outputs : List TxOut) (i : ℕ) (l : List TxOut)
      → Rest outputs i l
      → i + length l ≤ 2 ^ 32
      → All (IsCoin script txid outputs) (coins_from script txid i l)
  unfolding coins_from get_elem?
  coins_from-IsCoin outputs i [] r small = tt
  coins_from-IsCoin outputs i (o ∷ l) r small =
      let later =
        coins_from-IsCoin outputs (suc i) l (λ j. ap (get_elem? outputs) (omega arith) ∙ r (suc j))
          (omega (arith, small)) in
      elim (Bool-cases (o.script_pubkey == script)) [
        | inr other ↦ rw other later
        | inl pays ↦ rw pays (
          (
            (==_iff o.script_pubkey script).0 pays,
            refl,
            ap (get_elem? outputs) (omega (arith, small)) ∙ r 0,
          ),
          later,
        )
      ]

  mem-coins_from :
      (i j : ℕ) (l : List TxOut) (o : TxOut)
      → get_elem? l j ≡ some o
      → o.script_pubkey ≡ script
      → i + length l ≤ 2 ^ 32
      → Mem (o, record { txid = txid; vout = i + j }) (coins_from script txid i l)
  unfolding coins_from get_elem?
  mem-coins_from i j [] o e s small = absurd (ground arith)
  mem-coins_from i zero (x ∷ l) o e s small =
      let same : x ≡ o = ground arith in
      let paid : (x.script_pubkey == script) ≡ true =
        (==_iff x.script_pubkey script).1 (ap (λ t. t.script_pubkey) same ∙ s) in
      let at : i % 2 ^ 32 ≡ i + 0 = omega (arith, small) in rw (paid, at, same) mem-cons_self
  mem-coins_from i (suc j) (x ∷ l) o e s small =
      let later : Mem (o, record { txid = txid; vout = i + suc j })
          (coins_from script txid (suc i) l) =
        subst (λ n. Mem (o, record { txid = txid; vout = n }) (coins_from script txid (suc i) l))
          (omega arith) (mem-coins_from (suc i) j l o e s (omega (arith, small))) in
      elim (Bool-cases (x.script_pubkey == script)) [
        | inl pays ↦ rw pays (mem-cons_of_mem _ later)
        | inr other ↦ rw other later
      ]

-- The coins of a transaction with fewer than 2 ^ 32 outputs are its outputs that pay to the script,
-- each with the outpoint at which the transaction has it.
pub coins_from_lem :
    (script : Script) (txid : Txid) (outputs : List TxOut)
    → length outputs ≤ 2 ^ 32
    → let coins = coins_from script txid 0 outputs in
      All (IsCoin script txid outputs) coins
      × ((j : ℕ) (o : TxOut)
          → get_elem? outputs j ≡ some o
          → o.script_pubkey ≡ script
          → Mem (o, record { txid = txid; vout = j }) coins)
coins_from_lem script txid outputs small = (
  coins_from-IsCoin script txid outputs 0 outputs (λ j. ap (get_elem? outputs) (omega arith))
      (omega (arith, small)),
  λ j o e s.
      subst (λ n. Mem (o, record { txid = txid; vout = n }) (coins_from script txid 0 outputs))
        (omega arith) (mem-coins_from script txid 0 j outputs o e s (omega (arith, small))),
)

module _ {R W : Type 0} (sockets : Sockets R W) (codec : Codec) where
  -- The server sent this transaction, in an answer with this id.
  pub record Sent (id : ℕ) (rs : List Response) (tx : Transaction) : Type 0 where
    pub digits : String
    pub bytes : List ℕ
    pub answer : Mem (Response.tx_get (record { id = id; result = TxGetResult.raw digits })) rs
    pub is_hex : codec.from_hex digits ≡ some bytes
    pub decodes : codec.decode_tx bytes ≡ some tx

  Sent-later :
      {id : ℕ} {rs : List Response} {tx : Transaction} (r : Response)
      → Sent id rs tx
      → Sent id (r ∷ rs) tx
  Sent-later r s = record {
    digits = s.digits;
    bytes = s.bytes;
    answer = mem-cons_of_mem r s.answer;
    is_hex = s.is_hex;
    decodes = s.decodes;
  }

  decode_raw-ok :
      (digits : String) (tx : Transaction)
      → decode_raw sockets codec digits ≡ ok tx
      → (bytes : List ℕ) × (codec.from_hex digits ≡ some bytes) × (codec.decode_tx bytes ≡ some tx)
  unfolding decode_raw
  decode_raw-ok digits tx e = elim (Option-cases (codec.from_hex digits)) [
    | inl f ↦ absurd (ground arith)
    | inr (bytes, f) ↦ (bytes, f, ground arith)
  ]

  tx_get-Sent :
      (id : ℕ) (r : TxGetResponse) (rs : List Response) (tx : Transaction) (result : TxGetResult)
      → r.result ≡ result
      → (find_tx sockets codec id rs ≡ ok tx → Sent id rs tx)
      → find_tx sockets codec id (Response.tx_get r ∷ rs) ≡ ok tx
      → Sent id (Response.tx_get r ∷ rs) tx
  unfolding find_tx
  tx_get-Sent id r rs tx (TxGetResult.verbose v) f later e = Sent-later _ (later (ground arith))
  tx_get-Sent id r rs tx (TxGetResult.raw digits) f later e = elim (Bool-cases (id == r.id)) [
    | inr other ↦ Sent-later _ (later (ground arith))
    | inl own ↦
        let (bytes, h, d) = decode_raw-ok digits tx (ground arith) in
        let same : r ≡ record { id = id; result = TxGetResult.raw digits } =
          ground (arith, (==_iff id r.id).0 own) in
        record {
          digits = digits;
          bytes = bytes;
          answer = rw same mem-cons_self;
          is_hex = h;
          decodes = d;
        }
  ]

  find_tx-Sent :
      (id : ℕ) (rs : List Response) (tx : Transaction)
      → find_tx sockets codec id rs ≡ ok tx
      → Sent id rs tx
  unfolding find_tx
  find_tx-Sent id [] tx e = absurd (ground arith)
  find_tx-Sent id (Response.tx_get r ∷ rs) tx e =
      tx_get-Sent id r rs tx r.result refl (find_tx-Sent id rs tx) e
  find_tx-Sent id (Response.error r ∷ rs) tx e = Sent-later _ (find_tx-Sent id rs tx (ground arith))
  find_tx-Sent id (r ∷ rs) tx e = Sent-later r (find_tx-Sent id rs tx e)

  -- The text that the server sent after the request was sent, and the responses that it holds.
  pub record Answered (request : Request) (c : Client R) (rs : List Response) : Type 0 where
    pub text : String
    pub sent : (try_send sockets codec request c.inner).0 ≡ ok tt
    pub received : (sockets.recv_str (try_send sockets codec request c.inner).1).0 ≡ ok text
    pub read : parse_str_response codec.serde text (insert c.index request.id request) ≡ ok rs

  exchange-Answered :
      (request : Request) (c : Client R) (rs : List Response)
      → (exchange sockets codec request c).0 ≡ ok rs
      → Answered request c rs
  unfolding exchange recv ◌>>◌
  exchange-Answered request c rs e =
      elim (Outcome-cases (try_send sockets codec request c.inner).0) [
        | inr failed ↦ absurd (ground arith)
        | inl (tt, s) ↦
            let inner = (try_send sockets codec request c.inner).1 in
            elim (Outcome-cases (sockets.recv_str inner).0) [
              | inr failed ↦ absurd (ground arith)
              | inl (text, r) ↦
                  elim (Outcome-cases
                    (parse_str_response codec.serde text (insert c.index request.id request))) [
                      | inr failed ↦ absurd (ground arith)
                      | inl (rs', p) ↦ record {
                        text = text;
                        sent = s;
                        received = r;
                        read = p ∙ ap ok (ground arith);
                      }
                    ]
            ]
      ]

  -- The request that `get_tx` makes.
  abbrev pub tx_request : Txid → Client R → Request
  tx_request txid c = with_id (tx_get txid) ((c.last_id + 1) % 2 ^ 64)

  abbrev pub numbered : Client R → Client R
  numbered c = record c { last_id = (c.last_id + 1) % 2 ^ 64 }

  -- Where `get_tx` returns a transaction, the server answered the request for it, in the text that
  -- was received next, with a response that has the id of the request and the digits of this
  -- transaction.
  pub get_tx_lem :
      (txid : Txid) (c : Client R) (tx : Transaction)
      → (get_tx sockets codec txid c).0 ≡ ok tx
      → (rs : List Response) × Answered (tx_request txid c) (numbered c) rs
        × Sent ((c.last_id + 1) % 2 ^ 64) rs tx
  unfolding get_tx ◌>>◌
  get_tx_lem txid c tx e =
      let id = (c.last_id + 1) % 2 ^ 64 in
      elim (Outcome-cases (exchange sockets codec (tx_request txid c) (numbered c)).0) [
        | inr failed ↦ absurd (ground arith)
        | inl (rs, f) ↦
            (rs, exchange-Answered _ (numbered c) rs f, find_tx-Sent id rs tx (ground arith))
      ]
