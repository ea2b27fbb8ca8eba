-- ===== src/Electrum/Client.antt =====
-- `Client` of rust/joinstr/src/electrum.rs, on the raw client of
-- rust/simple_electrum_client/src/raw_client/mod.rs, whose sockets are a parameter.
pub mod Idle
pub mod Coins
pub mod Fetched
pub mod Backend
pub mod Source
pub mod Listen
pub mod Example
mod Tests
use Prim.Native.String.{String}
use joinstr.Prelude.{
  ℕ, zero, suc, ◌+◌, ◌%◌, ◌^◌, Bool, not, Option, none, some, List, [], ◌∷◌, ◌++◌, map, ◌==◌,
  if◌then◌else◌, Outcome, ok, err, panic, unfinished, Action, gets, modify, pure, yields, map_err,
  ok_or_err, ◌>>=◌, ◌>>◌,
}
use joinstr.Prelude.Dict.{insert, remove}
use joinstr.Bitcoin.{Address, Amount, Script, Txid, OutPoint, TxOut, Transaction}
use joinstr.CoinJoin.Backend.{BitcoinBackend, Error as CoinJoinError, electrum as of_electrum}
use joinstr.Electrum.Error.{
  Error, electrum, tx_parsing, wrong_response, wrong_out_point, tx_does_not_exists,
}
use joinstr.Electrum.Params.{ScriptHash, Hex}
use joinstr.Electrum.Request.{Request, with_id, tx_get, sh_get_history, tx_broadcast, request_json}
use joinstr.Electrum.Response.{Response, TxGetResult}
use joinstr.Electrum.Response.Parse.{Error as ProtocolError, Serde, Index, parse_str_response}

-- `Error` of raw_client/mod.rs. What it holds of other crates is text.
pub data RawError : Type 0 where
  tcp_stream ssl_stream ssl_connector : String → RawError
  electrum_error : ProtocolError → RawError
  ssl_peek mutex already_connected not_connected not_configured shut_down : RawError
  set_non_blocking set_blocking serialize_request batch : RawError

-- The sockets: `R` is a raw client that is connected.
pub record Sockets (R W : Type 0) : Type 0 where
  pub connect : (url : String) → (port : ℕ) → (ssl : Bool) → Action W RawError R
  pub send_str : String → Action R RawError (Unit {0})
  pub recv_str : Action R RawError String

-- What the client uses of other crates.
pub record Codec : Type 0 where
  pub serde : Serde
  pub hex : Hex
  -- `ScriptHash::new`
  pub script_hash : Script → ScriptHash
  pub from_hex : String → Option (List ℕ)
  pub decode_tx : List ℕ → Option Transaction
  pub serialize_hex : Transaction → String
  -- `format!("{:?}", e)`
  pub debug : RawError → String
  pub is_ssl : String → Bool
  -- `replace("ssl://", "")`
  pub strip_ssl : String → String

pub record Client (R : Type 0) : Type 0 where
  pub inner : R
  pub index : Index
  pub last_id : ℕ
  pub url : String
  pub port : ℕ

-- The outputs of a transaction that pay to a script, with their outpoints; `i` counts them.
unfoldable pub coins_from : Script → Txid → ℕ → List TxOut → List (TxOut × OutPoint)
coins_from script txid i [] = []
coins_from script txid i (o ∷ l) =
    let rest = coins_from script txid (suc i) l in
    if o.script_pubkey == script
    then (o, record { txid = txid; vout = i % 2 ^ 32 }) ∷ rest
    else rest

-- `get` on a slice
unfoldable pub get_elem? : List TxOut → ℕ → Option TxOut
get_elem? [] i = none
get_elem? (o ∷ l) zero = some o
get_elem? (o ∷ l) (suc i) = get_elem? l i

abbrev pub is_empty : List Txid → Bool
is_empty [] = Bool.true
is_empty (x ∷ l) = Bool.false

module _ {R W : Type 0} (sockets : Sockets R W) (codec : Codec) where
  -- `From<raw_client::Error>`
  abbrev pub of_raw : RawError → Error
  of_raw e = electrum (codec.debug e)

  -- A call on the raw client.
  unfoldable pub on_inner : {A : Type 0} → Action R RawError A → Action (Client R) Error A
  on_inner m c = let (r, inner') = m c.inner in (map_err of_raw r, record c { inner = inner' })

  -- `new`
  unfoldable pub new_client : (address : String) → (port : ℕ) → Action W Error (Client R)
  new_client address port w =
      let url = codec.strip_ssl address in
      let (r, w') = sockets.connect url port (codec.is_ssl address) w in
      (
        map_err of_raw (elim r [
          | ok inner ↦
              ok (record { inner = inner; index = []; last_id = 0; url = url; port = port })
          | err e ↦ err e
          | panic ↦ panic
          | unfinished ↦ unfinished
        ]),
        w',
      )

  -- A new request id: `wrapping_add` on a `usize`.
  unfoldable pub next_id : Action (Client R) Error ℕ
  next_id c = let id = (c.last_id + 1) % 2 ^ 64 in (ok id, record c { last_id = id })

  -- `try_send` of the raw client
  unfoldable pub try_send : Request → Action R RawError (Unit {0})
  unfolding request_json
  try_send request = sockets.send_str (codec.serde.to_string (request_json codec.hex request))

  -- `recv` of the raw client
  unfoldable pub recv : Index → Action R RawError (List Response)
  unfolding parse_str_response
  recv index = do
    raw ← sockets.recv_str
    yields (map_err electrum_error (parse_str_response codec.serde raw index))

  unfoldable pub forget : ℕ → Client R → Client R
  unfolding remove
  forget id c = record c { index = remove c.index id }

  -- The request is taken from the index where there is no response that can be read.
  unfoldable pub receive : ℕ → Action (Client R) Error (List Response)
  unfolding recv on_inner forget
  receive id c =
      let (r, c') = on_inner (recv c.index) c in
      elim r [
        | ok rs ↦ (ok rs, c')
        | err e ↦ (err e, forget id c')
        | panic ↦ (panic, c')
        | unfinished ↦ (unfinished, c')
      ]

  -- A request that is sent, and the responses; afterwards it does not wait any more.
  unfoldable pub exchange : Request → Action (Client R) Error (List Response)
  unfolding try_send on_inner receive insert forget
  exchange request = do
    on_inner (try_send request)
    modify (λ c. record c { index = insert c.index request.id request })
    rs ← receive request.id
    modify (forget request.id)
    pure rs

  -- The transaction that a server sends in hexadecimal digits.
  unfoldable pub decode_raw : String → Outcome Error Transaction
  decode_raw raw = elim (codec.from_hex raw) [
    | none ↦ err tx_parsing
    | some bytes ↦ ok_or_err (codec.decode_tx bytes) tx_parsing
  ]

  -- The first response that answers the request for a transaction.
  unfoldable pub find_tx : ℕ → List Response → Outcome Error Transaction
  unfolding decode_raw
  find_tx id [] = err wrong_response
  find_tx id (Response.tx_get r ∷ rs) =
      let rest = find_tx id rs in
      elim r.result [
        | TxGetResult.raw raw ↦ if id == r.id then decode_raw raw else rest
        | TxGetResult.verbose tx ↦ rest
      ]
  find_tx id (Response.error e ∷ rs) =
      let rest = find_tx id rs in if id == e.id then err tx_does_not_exists else rest
  find_tx id (_ ∷ rs) = find_tx id rs

  unfoldable pub get_tx : Txid → Action (Client R) Error Transaction
  unfolding next_id tx_get with_id exchange find_tx
  get_tx txid = do id ← next_id; rs ← exchange (with_id (tx_get txid) id); yields (find_tx id rs)

  -- The first history with the id of the request.
  unfoldable pub find_history : ℕ → List Response → Outcome Error (List Txid)
  find_history id [] = err wrong_response
  find_history id (Response.sh_get_history r ∷ rs) =
      let rest = find_history id rs in if id == r.id then ok (map (λ h. h.txid) r.history) else rest
  find_history id (_ ∷ rs) = find_history id rs

  unfoldable pub get_coins_tx_at : Script → Action (Client R) Error (List Txid)
  unfolding next_id sh_get_history with_id exchange find_history
  get_coins_tx_at script = do
    id ← next_id
    rs ← exchange (with_id (sh_get_history codec.script_hash script) id)
    yields (find_history id rs)

  -- The `for` over the transactions.
  unfoldable pub collect_coins :
      Script
      → List Txid
      → List (TxOut × OutPoint) × List (ℕ × Transaction)
      → Action (Client R) Error (List (TxOut × OutPoint) × List (ℕ × Transaction))
  unfolding get_tx coins_from insert
  collect_coins script [] found = pure found
  collect_coins script (txid ∷ txids) found = do
    tx ← get_tx txid
    collect_coins script txids
        (found.0 ++ coins_from script txid 0 tx.output, insert found.1 txid tx)

  unfoldable pub get_coins_at :
      Script → Action (Client R) Error (List (TxOut × OutPoint) × List (ℕ × Transaction))
  unfolding get_coins_tx_at collect_coins
  get_coins_at script = do txs ← get_coins_tx_at script; collect_coins script txs ([], [])

  unfoldable pub find_broadcast : ℕ → List Response → Outcome Error (Unit {0})
  find_broadcast id [] = err wrong_response
  find_broadcast id (Response.tx_broadcast r ∷ rs) =
      let rest = find_broadcast id rs in if id == r.id then ok tt else rest
  find_broadcast id (_ ∷ rs) = find_broadcast id rs

  -- The request keeps the id 0, with which it is made.
  unfoldable pub broadcast : Transaction → Action (Client R) Error (Unit {0})
  unfolding tx_broadcast exchange find_broadcast
  broadcast tx = do
    let request = tx_broadcast (codec.serialize_hex tx)
    rs ← exchange request
    yields (find_broadcast request.id rs)

  unfoldable pub address_already_used : (Address → Script) → Address → Action (Client R) Error Bool
  unfolding get_coins_tx_at
  address_already_used script_pubkey addr = do
    txs ← get_coins_tx_at (script_pubkey addr)
    pure (not (is_empty txs))

  -- A transaction that does not exist has no value.
  unfoldable pub value_of : OutPoint → Outcome Error Transaction → Outcome Error (Option Amount)
  unfolding get_elem?
  value_of outpoint (ok tx) = elim (get_elem? tx.output outpoint.vout) [
    | none ↦ err wrong_out_point
    | some o ↦ ok (some o.value)
  ]
  value_of outpoint (err tx_does_not_exists) = ok none
  value_of outpoint (err (electrum e)) = err (electrum e)
  value_of outpoint (err tx_parsing) = err tx_parsing
  value_of outpoint (err wrong_response) = err wrong_response
  value_of outpoint (err wrong_out_point) = err wrong_out_point
  value_of outpoint panic = panic
  value_of outpoint unfinished = unfinished

  unfoldable pub get_outpoint_value : OutPoint → Action (Client R) Error (Option Amount)
  unfolding get_tx value_of
  get_outpoint_value outpoint c = let (r, c') = get_tx outpoint.txid c in (value_of outpoint r, c')
