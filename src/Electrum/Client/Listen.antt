-- ===== src/Electrum/Client/Listen.antt =====
-- The thread that holds the electrum client, `listen_txs` of rust/joinstr/src/electrum.rs: its
-- state, and what it gathers of a batch of responses. A return from the thread is an error.
pub mod Rounds
pub mod Kept
pub mod Pending
mod Tests
use Prim.Native.String.{String, ◌++◌ as ◌⧺◌}
use joinstr.Prelude.{
  ℕ, zero, suc, ◌+◌, ◌%◌, ◌^◌, Bool, true, false, ◌&&◌, ◌||◌, ◌==◌, ltb, Option, none, some,
  is_none, is_some, List, [], ◌∷◌, ◌++◌, push, if◌then◌else◌, Outcome, ok, err, panic, unfinished,
  Action, pure, gets, modify, ◌>>=◌, ◌>>◌,
}
use joinstr.Prelude.Dict.{get, insert, remove}
use joinstr.Prelude.Int.{ℤ, pos, negsuc}
use joinstr.System.{System, Backoff, snooze}
use joinstr.Json.{Values, value, no_values, array}
use joinstr.Bitcoin.{Script, Txid, Transaction}
use joinstr.Electrum.Params.{ScriptHash, Hex}
use joinstr.Electrum.Request.{Request, with_id, tx_get, sh_get_history, subscribe_sh, request_json}
use joinstr.Electrum.Response.{Response, ErrorResponse, HistoryResult, TxGetResult, response_id}
use joinstr.Electrum.Response.Parse.{Index, parse_str_response}
use joinstr.Electrum.Client.{Sockets, Codec, Client, RawError, electrum_error}

pub data CoinRequest : Type 0 where
  subscribe history : List Script → CoinRequest
  txs : List Txid → CoinRequest
  stop : CoinRequest

-- The maps are `BTreeMap`s.
pub data CoinResponse : Type 0 where
  status : List (Script × Option String) → CoinResponse
  history : List (Script × List (Txid × Option ℕ)) → CoinResponse
  txs : List Transaction → CoinResponse
  stopped : CoinResponse
  error : String → CoinResponse

-- What is read without waiting, and the texts of errors.
pub record Feed (R : Type 0) : Type 0 where
  pub try_recv_str : Action R RawError (Option String)
  pub display : RawError → String
  pub show_error : ErrorResponse → String

-- The locals of the thread, and its ends of the channels: the requests that wait, the responses that
-- were sent, and whether the consumer still has the other ends.
pub record Thread (R : Type 0) : Type 0 where
  pub client : Client R
  pub requests : List CoinRequest
  pub asked : Bool
  pub responses : List CoinResponse
  pub heard : Bool
  pub reqid_spk_map : List (ℕ × Script)
  pub watched_spks_sh : List (ℕ × ScriptHash)
  pub sh_sbf_map : List (ScriptHash × Script)
  pub last_request : Option (List Request)
  pub backoff : Backoff

-- Why the thread returns.
pub data Ended : Type 0 where
  stopped dropped : Ended

-- `resp.iter().any(..)`
unfoldable pub answers : ℕ → List Response → Bool
unfolding response_id
answers id [] = false
answers id (r ∷ l) =
    let rest = answers id l in elim (response_id r) [ none ↦ rest | some i ↦ i == id || rest ]

unfoldable pub responses_matches_requests : List Request → List Response → Bool
responses_matches_requests [] l = true
responses_matches_requests (q ∷ qs) l =
    let rest = responses_matches_requests qs l in answers q.id l && rest

-- A height below 1 is none.
unfoldable pub height_of : ℤ → Option ℕ
height_of (pos h) = if ltb h 1 then none else some h
height_of (negsuc h) = none

unfoldable pub history_of : List HistoryResult → List (Txid × Option ℕ)
unfolding height_of
history_of [] = []
history_of (r ∷ l) = (r.txid, height_of r.height) ∷ history_of l

-- The maps that one batch of responses fills.
pub record Gathered : Type 0 where
  pub statuses : List (Script × Option String)
  pub transactions : List Transaction
  pub histories : List (Script × List (Txid × Option ℕ))

-- `deserialize_hex`
unfoldable pub decoded : Codec → String → Option Transaction
decoded codec raw = elim (codec.from_hex raw) [ none ↦ none | some bytes ↦ codec.decode_tx bytes ]

-- `expect("already inserted")`
unfoldable pub found {ℓ} : {S : Type 0} {A : Type ℓ} → Option A → Action S Ended A
found none s = (panic, s)
found (some a) s = (ok a, s)

module _ {R : Type 0} where
  -- A new id, and the request in the index: `register`.
  unfoldable pub register : Request → Client R → Request × Client R
  unfolding with_id insert
  register q c =
      let id = (c.last_id + 1) % 2 ^ 64 in
      (with_id q id, record c { last_id = id; index = insert c.index id (with_id q id) })

module _ {R W : Type 0} where
  -- `send.send(..)`, and what follows where the consumer has gone.
  unfoldable pub tell_or :
      Outcome Ended (Unit {0}) → CoinResponse → Action (Thread R × W) Ended (Unit {0})
  tell_or gone m (t, w) =
      if t.heard then (ok tt, (record t { responses = push t.responses m }, w)) else (gone, (t, w))

  unfoldable pub change : (Thread R → Thread R) → Action (Thread R × W) Ended (Unit {0})
  change f (t, w) = (ok tt, (f t, w))

  -- `self.register(&mut req)`
  unfoldable pub registered : Request → Action (Thread R × W) Ended Request
  unfolding register
  registered q (t, w) = let (q', c) = register q t.client in (ok q', (record t { client = c }, w))

  -- A transaction in hexadecimal digits; `unwrap` where it cannot be decoded.
  unfoldable pub gather_tx : Codec → TxGetResult → Gathered → Action (Thread R × W) Ended Gathered
  unfolding found decoded
  gather_tx codec (TxGetResult.verbose v) g = pure g
  gather_tx codec (TxGetResult.raw raw) g = do
    tx ← λ s. found (decoded codec raw) s
    pure (record g { transactions = push g.transactions tx })

  -- The response to a request, in the maps of the batch.
  unfoldable pub gather :
      (Codec × Feed R) → Response → Gathered → Action (Thread R × W) Ended Gathered
  unfolding found get insert remove history_of change tell_or gather_tx
  gather lib (Response.sh_subscribe r) g = do
    sh ← λ s. found (get s.0.watched_spks_sh r.id) s
    spk ← λ s. found (get s.0.sh_sbf_map sh) s
    pure (record g { statuses = insert g.statuses spk r.result })
  gather lib (Response.sh_notification r) g = do
    spk ← λ s. found (get s.0.sh_sbf_map r.status.0) s
    pure (record g { statuses = insert g.statuses spk r.status.1 })
  gather lib (Response.sh_get_history r) g = do
    spk ← λ s. found (get s.0.reqid_spk_map r.id) s
    change (λ t. record t { reqid_spk_map = remove t.reqid_spk_map r.id })
    pure (record g { histories = insert g.histories spk (history_of r.history) })
  gather (codec, feed) (Response.tx_get r) g = gather_tx codec r.result g
  gather (codec, feed) (Response.error e) g = do
    tell_or (err dropped) (CoinResponse.error (feed.show_error e))
    pure g
  gather lib _ g = pure g

  unfoldable pub gather_all :
      (Codec × Feed R) → List Response → Gathered → Action (Thread R × W) Ended Gathered
  gather_all lib [] g = pure g
  gather_all lib (r ∷ l) g = do g' ← gather lib r g; gather_all lib l g'
