-- ===== src/Electrum/Client/Listen/Rounds.antt =====
-- The rounds of `listen_txs` of rust/joinstr/src/electrum.rs: it sends batches of requests, one at a
-- time, and passes the responses on.
use Prim.Native.String.{◌++◌ as ◌⧺◌}
use joinstr.Prelude.{
  ℕ, zero, suc, ◌+◌, Bool, true, false, ◌||◌, ltb, Option, none, some, is_some, List, [], ◌∷◌,
  if◌then◌else◌, Outcome, ok, err, panic, unfinished, Action, pure, gets, ◌>>=◌, ◌>>◌,
}
use joinstr.Prelude.Dict.{insert}
use joinstr.System.{System, snooze}
use joinstr.Json.{Values, value, no_values, array}
use joinstr.Bitcoin.{Script, Txid}
use joinstr.Electrum.Params.{Hex}
use joinstr.Electrum.Request.{Request, tx_get, sh_get_history, subscribe_sh, request_json}
use joinstr.Electrum.Response.{Response}
use joinstr.Electrum.Response.Parse.{Index, parse_str_response}
use joinstr.Electrum.Client.{Sockets, Codec, RawError, electrum_error}
use joinstr.Electrum.Client.Listen.{
  CoinRequest, CoinResponse, Feed, Thread, Ended, stopped, dropped, responses_matches_requests,
  Gathered, tell_or, change, registered, gather_all,
}

-- `serde_json::to_string(&requests)`
unfoldable pub batch_json : Hex → List Request → Values
batch_json hex [] = no_values
batch_json hex (q ∷ qs) = value (request_json hex q) (batch_json hex qs)

module _ {R W : Type 0} where
  -- A call on the raw client, whose result is looked at.
  unfoldable pub asks_inner :
      {A : Type 0} → Action R RawError A → Action (Thread R × W) Ended (Outcome RawError A)
  asks_inner m (t, w) =
      let (r, inner) = m t.client.inner in
      (ok r, (record t { client = record t.client { inner = inner } }, w))

  unfoldable pub rest : System W → ℕ → Action (Thread R × W) Ended (Unit {0})
  rest system micros (t, w) = (ok tt, (t, system.sleep micros w))

  -- `unwrap()`
  unfoldable pub unwrapped : Outcome RawError (Unit {0}) → Action (Thread R × W) Ended (Unit {0})
  unwrapped (ok _) s = (ok tt, s)
  unwrapped (err e) s = (panic, s)
  unwrapped panic s = (panic, s)
  unwrapped unfinished s = (unfinished, s)

  -- `if !l.is_empty()`
  unfoldable pub tell_if :
      {A : Type 0} → List A → CoinResponse → Action (Thread R × W) Ended (Unit {0})
  tell_if [] m = pure tt
  tell_if (a ∷ l) m = tell_or panic m

  -- What is gathered is passed on, where there is any.
  unfoldable pub pass_on : Gathered → Action (Thread R × W) Ended (Unit {0})
  pass_on g = do
    tell_if g.histories (CoinResponse.history g.histories)
    tell_if g.statuses (CoinResponse.status g.statuses)
    tell_if g.transactions (CoinResponse.txs g.transactions)

  unfoldable pub snooze_unless : System W → Bool → Action (Thread R × W) Ended (Unit {0})
  unfolding snooze
  snooze_unless system received (t, w) =
      if received
      then (ok tt, (t, w))
      else (let (b, w') = snooze system t.backoff w in (ok tt, (record t { backoff = b }, w')))

module _ {R W : Type 0} (sockets : Sockets R W) (codec : Codec) (feed : Feed R) where
  -- `try_send_batch` of the raw client
  unfoldable pub try_send_batch : List Request → Action R RawError (Unit {0})
  unfolding batch_json
  try_send_batch batch =
      sockets.send_str (codec.serde.to_string (array (batch_json codec.hex batch)))

  -- `try_recv` of the raw client
  unfoldable pub try_recv : Index → Action R RawError (Option (List Response))
  try_recv index r =
      let (raw, r') = feed.try_recv_str r in
      (
        elim raw [
          | ok none ↦ ok none
          | ok (some text) ↦ elim (parse_str_response codec.serde text index) [
            | ok rs ↦ ok (some rs)
            | err e ↦ err (electrum_error e)
            | panic ↦ panic
            | unfinished ↦ unfinished
          ]
          | err e ↦ err e
          | panic ↦ panic
          | unfinished ↦ unfinished
        ],
        r',
      )

  module _ (system : System W) where
    -- The text of a batch that is not sent.
    unfoldable pub not_sent : RawError → CoinResponse
    not_sent e =
        CoinResponse.error
          ("electrum::Client::listen_txs() Fail to send bacth request: " ⧺ codec.debug e)

    -- `while let Err(e) = self.inner.try_send_batch(..)`, on fuel: the consumer is told of the eleventh
    -- failure and of each one after it.
    unfoldable pub send_batch :
        (gone : Outcome Ended (Unit {0}))
        → (fuel retry : ℕ) → List Request
        → Action (Thread R × W) Ended (Unit {0})
    unfolding tell_or
    send_batch gone zero retry batch = λ s. (unfinished, s)
    send_batch gone (suc fuel) retry batch = do
      sent ← asks_inner (try_send_batch batch)
      elim sent [
        | ok _ ↦ pure tt
        | err e ↦ (do
          if ltb 10 (retry + 1) then tell_or gone (not_sent e) else pure tt
          rest system 50000
          send_batch gone fuel (retry + 1) batch)
        | panic ↦ λ s. (panic, s)
        | unfinished ↦ λ s. (unfinished, s)
      ]

    -- The requests of a batch, if there are any, which becomes the last request.
    unfoldable pub send_all :
        (gone : Outcome Ended (Unit {0}))
        → (fuel : ℕ) → List Request
        → Action (Thread R × W) Ended (Unit {0})
    send_all gone fuel [] = pure tt
    send_all gone fuel (q ∷ qs) = do
      change (λ t. record t { last_request = some (q ∷ qs) })
      send_batch gone fuel 0 (q ∷ qs)

  -- The `for` loops over what is requested.
  unfoldable pub subscribe_all : List Script → Action (Thread R × W) Ended (List Request)
  unfolding subscribe_sh registered change insert
  subscribe_all [] = pure []
  subscribe_all (spk ∷ l) = do
    q ← registered (subscribe_sh codec.script_hash spk)
    change (λ t. record t {
      watched_spks_sh = insert t.watched_spks_sh q.id (codec.script_hash spk);
      sh_sbf_map = insert t.sh_sbf_map (codec.script_hash spk) spk;
    })
    qs ← subscribe_all l
    pure (q ∷ qs)

  unfoldable pub history_all : List Script → Action (Thread R × W) Ended (List Request)
  unfolding sh_get_history registered change insert
  history_all [] = pure []
  history_all (spk ∷ l) = do
    q ← registered (sh_get_history codec.script_hash spk)
    change (λ t. record t { reqid_spk_map = insert t.reqid_spk_map q.id spk })
    qs ← history_all l
    pure (q ∷ qs)

  unfoldable pub txs_all : List Txid → Action (Thread R × W) Ended (List Request)
  unfolding tx_get registered
  txs_all [] = pure []
  txs_all (txid ∷ l) = do q ← registered (tx_get txid); qs ← txs_all l; pure (q ∷ qs)

  module _ (system : System W) (fuel : ℕ) where
    unfoldable pub handle_request : CoinRequest → Action (Thread R × W) Ended (Unit {0})
    unfolding tell_or
    handle_request (CoinRequest.subscribe spks) = do
      batch ← subscribe_all spks
      send_all system panic fuel batch
    handle_request (CoinRequest.history spks) = do
      batch ← history_all spks
      send_all system panic fuel batch
    handle_request (CoinRequest.txs txids) = do
      batch ← txs_all txids
      send_all system (err dropped) fuel batch
    handle_request CoinRequest.stop = do tell_or panic CoinResponse.stopped; λ s. (err stopped, s)

    -- The next request of the consumer, where no request is pending; whether there was one.
    unfoldable pub take_request : Action (Thread R × W) Ended Bool
    unfolding handle_request
    take_request (t, w) = if is_some t.last_request then (ok false, (t, w)) else elim t.requests [
      | [] ↦ (if t.asked then ok false else err dropped, (t, w))
      | m ∷ l ↦ (handle_request m >> pure true) (record t { requests = l }, w)
    ]

    unfoldable pub resend : List Request → Action (Thread R × W) Ended (Unit {0})
    unfolding unwrapped
    resend batch = do rest system 100000; sent ← asks_inner (try_send_batch batch); unwrapped sent

    -- Responses that do not answer the last request make it sent again.
    unfoldable pub settle_last :
        Option (List Request) → List Response → Action (Thread R × W) Ended (Unit {0})
    unfolding responses_matches_requests change
    settle_last none rs = pure tt
    settle_last (some batch) rs =
        if responses_matches_requests batch rs
        then change (λ t. record t { last_request = none })
        else resend batch

    unfoldable pub settle : List Response → Action (Thread R × W) Ended (Unit {0})
    settle rs = do last ← gets (λ s. s.0.last_request); settle_last last rs

    unfoldable pub handle_responses : List Response → Action (Thread R × W) Ended (Unit {0})
    handle_responses rs = do
      settle rs
      g ← gather_all (codec, feed) rs (record { statuses = []; transactions = []; histories = [] })
      pass_on g

    -- The `match` on what the server has sent; whether it has.
    unfoldable pub take_sent :
        Outcome RawError (Option (List Response)) → Action (Thread R × W) Ended Bool
    unfolding tell_or
    take_sent (ok none) = pure false
    take_sent (ok (some rs)) = do handle_responses rs; pure true
    take_sent (err e) = do tell_or (err dropped) (CoinResponse.error (feed.display e)); pure false
    take_sent panic = λ s. (panic, s)
    take_sent unfinished = λ s. (unfinished, s)

    unfoldable pub take_responses : Action (Thread R × W) Ended Bool
    unfolding asks_inner
    take_responses = do
      index ← gets (λ s. s.0.client.index)
      sent ← asks_inner (try_recv index)
      take_sent sent

    -- One round of the `loop`.
    unfoldable pub round : Action (Thread R × W) Ended (Unit {0})
    unfolding snooze_unless
    round = do
      requested ← take_request
      received ← take_responses
      snooze_unless system (requested || received)

    -- The thread, for at most so many rounds.
    unfoldable pub listen_txs : ℕ → Action (Thread R × W) Ended (Unit {0})
    listen_txs zero s = (unfinished, s)
    listen_txs (suc n) s = (round >> listen_txs n) s
