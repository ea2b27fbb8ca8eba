-- ===== src/Interface/Pools.antt =====
-- `list_pools` of rust/joinstr/src/interface.rs: the pools that a relay has sent, and where it stops.
mod Tests
use Prim.Native.String.{String}
use joinstr.Prelude.{
  ◌≡◌, ◌∙◌, runs, refl, ap, arith, ℕ, zero, suc, ◌<◌, ◌+◌, true, Option, none, some, List, [], ◌∷◌,
  ◌++◌, length, Outcome, ok, err, panic, unfinished, Action, map_err, pure, yields, ◌>>=◌, ◌>>◌,
}
use joinstr.Nostr.Error.{Error as NostrError}
use joinstr.Nostr.Pool.{Pool, Keys}
use joinstr.Nostr.WebSocket.{Socket, Nip, Event, Listener, WsClient, RecvMsg, read_message}
use joinstr.Nostr.Client.{
  NostrClient, new, relay, keys, connect_nostr, subscribe_pools, receive_pool_notification,
  pool_of_event,
}
use joinstr.Interface.{Error, nostr_client}

module _ {S W : Type 0} (nip : Nip W) (read : String → Option Pool) where
  -- `while let Some(pool) = receive_pool_notification()?`, on fuel
  unfoldable pub collect : (fuel : ℕ) → Action (NostrClient S × W) NostrError (List Pool)
  unfolding receive_pool_notification
  collect zero s = (unfinished, s)
  collect (suc fuel) s =
      let (r, s') = receive_pool_notification nip read s in
      elim r [
        | ok none ↦ (ok [], s')
        | ok (some pool) ↦
            let (rest, s'') = collect fuel s' in
            (
              elim rest [
                | ok pools ↦ ok (pool ∷ pools)
                | err e ↦ err e
                | panic ↦ panic
                | unfinished ↦ unfinished
              ],
              s'',
            )
        | err e ↦ (err e, s')
        | panic ↦ (panic, s')
        | unfinished ↦ (unfinished, s')
      ]

-- A call on the client whose result is unwrapped.
unfoldable pub calls :
    {S W : Type 0}
    → Action (NostrClient S × W) NostrError (Unit {0})
    → NostrClient S
    → Action W Error (NostrClient S)
calls m n w =
    let (r, (n', w')) = m (n, w) in
    (elim r [ ok _ ↦ ok n' | err e ↦ panic | panic ↦ panic | unfinished ↦ unfinished ], w')

module _ {S W : Type 0} (socket : Socket S W) (nip : Nip W) (generate_keys : W → Keys × W) where
  -- The client that listens, connected and subscribed.
  unfoldable pub open_listener : (back : ℕ) → String → Action W Error (NostrClient S)
  unfolding new relay keys connect_nostr subscribe_pools
  open_listener back url = do
    with_relay ← yields (map_err nostr_client (relay url (new "pool_listener")))
    own ← λ w. let (k, w') = generate_keys w in (ok k, w')
    with_keys ← yields (map_err nostr_client (keys own with_relay))
    connected ← calls (connect_nostr socket nip) with_keys
    calls (subscribe_pools nip back) connected

-- `wait` is what happens while the caller sleeps for some microseconds: the thread of the client puts
-- what the relay sends on its channel.
module _ {S W : Type 0} (nip : Nip W) (read : String → Option Pool)
    (wait : ℕ → NostrClient S × W → NostrClient S × W) where
  -- What is found once the caller has slept.
  unfoldable pub collect_after : (fuel timeout : ℕ) → NostrClient S → Action W Error (List Pool)
  unfolding collect
  collect_after fuel timeout listener w =
      let (r, (n, w')) = collect nip read fuel (wait timeout (listener, w)) in
      (map_err nostr_client r, w')

module _ {S W : Type 0} (socket : Socket S W) (nip : Nip W) (read : String → Option Pool)
    (generate_keys : W → Keys × W) (wait : ℕ → NostrClient S × W → NostrClient S × W) where
  unfoldable pub list_pools : (fuel back timeout : ℕ) → String → Action W Error (List Pool)
  list_pools fuel back timeout url = do
    listener ← open_listener socket nip generate_keys back url
    collect_after nip read wait fuel timeout listener

-- The pools that the first messages carry, one each, and what is left behind the first message that
-- carries none.
pub data Leads {W : Type 0} (nip : Nip W) (read : String → Option Pool) (key : Keys)
    : List RecvMsg → List Pool → List RecvMsg → Type 0 where
  all_read : Leads nip read key [] [] []
  no_pool :
      {m : RecvMsg} {rest : List RecvMsg} (e : Option Event)
      → read_message nip key (some m) ≡ ok e
      → pool_of_event read e ≡ none
      → Leads nip read key (m ∷ rest) [] rest
  pool_first :
      {m : RecvMsg} {p : Pool} {ms rest : List RecvMsg} {ps : List Pool} (e : Option Event)
      → read_message nip key (some m) ≡ ok e
      → pool_of_event read e ≡ some p
      → Leads nip read key ms ps rest
      → Leads nip read key (m ∷ ms) (p ∷ ps) rest

-- The client with these messages on its channel.
abbrev pub holding : {S : Type 0} → NostrClient S → WsClient S → List RecvMsg → NostrClient S
holding n c l = record n { client = some (record c { link = record c.link { incoming = l } }) }

module _ {S W : Type 0} (nip : Nip W) (read : String → Option Pool) (n : NostrClient S)
    (c : WsClient S) (up : c.connected ≡ true) where
  receives :
      (m : RecvMsg) (rest : List RecvMsg) (e : Option Event) (w : W)
      → read_message nip c.keys (some m) ≡ ok e
      → receive_pool_notification nip read (holding n c (m ∷ rest), w)
        ≡ (ok (pool_of_event read e), (holding n c rest, w))
  unfolding receive_pool_notification
  receives m rest e w q = ground (arith, up, q)

  waits :
      {t : Listener S} (w : W)
      → c.link.thread ≡ some t
      → receive_pool_notification nip read (holding n c [], w) ≡ (ok none, (holding n c [], w))
  unfolding receive_pool_notification pool_of_event
  waits w runs_on = ground (arith, up, runs_on)

  collect_lem :
      {t : Listener S} {l rest : List RecvMsg} {pools : List Pool}
      → Leads nip read c.keys l pools rest
      → (fuel : ℕ) (w : W) → c.link.thread ≡ some t
      → length pools < fuel
      → collect nip read fuel (holding n c l, w) ≡ (ok pools, (holding n c rest, w))
  unfolding collect
  collect_lem leads zero w runs_on enough = absurd (omega arith)
  collect_lem Leads.all_read (suc fuel) w runs_on enough = ground (arith, waits w runs_on)
  collect_lem (Leads.no_pool {m = m} {rest = rest} e q nothing) (suc fuel) w runs_on enough =
      ground (arith, receives m rest e w q, nothing)
  collect_lem (Leads.pool_first {m = m} {ms = ms} {rest = rest} {ps = ps} e q found leads)
        (suc fuel) w runs_on enough =
      ground (arith, receives m ms e w q, found, collect_lem leads fuel w runs_on (omega arith))

module _ {S W : Type 0} (socket : Socket S W) (nip : Nip W) (read : String → Option Pool)
    (generate_keys : W → Keys × W) (wait : ℕ → NostrClient S × W → NostrClient S × W) where
  -- Where the listener is opened and has, once the caller has slept, these messages on its channel,
  -- `list_pools` returns the pools of the first of them, each of which carries one, in their order, as
  -- soon as it has fuel for one round more than there are pools. It stops at the first message that
  -- carries no pool, though it is no error, and the messages behind that one are left unread, whether
  -- or not they carry pools.
  pub list_pools_lem :
      (fuel back timeout : ℕ) (url : String) (w w0 w' : W) (opened n : NostrClient S)
      (c : WsClient S) (t : Listener S) (l rest : List RecvMsg) (pools : List Pool)
      → open_listener socket nip generate_keys back url w ≡ (ok opened, w0)
      → wait timeout (opened, w0) ≡ (holding n c l, w')
      → c.connected ≡ true
      → c.link.thread ≡ some t
      → Leads nip read c.keys l pools rest
      → length pools < fuel
      → (list_pools socket nip read generate_keys wait fuel back timeout url w ≡ (ok pools, w'))
        × ((collect nip read fuel (wait timeout (opened, w0))).1 ≡ (holding n c rest, w'))
  unfolding list_pools collect_after
  list_pools_lem fuel back timeout url w w0 w' opened n c t l rest pools q slept up runs_on leads
        enough =
      let found = collect_lem nip read n c up leads fuel w' runs_on enough in
      (
        runs (open_listener socket nip generate_keys back url)
              (collect_after nip read wait fuel timeout) w opened w0 q
            ∙ ground (arith, slept, found),
        ground (arith, slept, found),
      )
