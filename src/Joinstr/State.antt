-- ===== src/Joinstr/State.antt =====
-- The state of a `Joinstr`, and how its methods reach the parts of it. The `Mutex` is held by one
-- thread at a time, so a method is an action on what it guards and on the world.
use Prim.Native.String.{String}
use joinstr.Prelude.{
  ℕ, Bool, true, false, Option, none, some, List, [], Outcome, ok, err, panic, unfinished, Action,
  map_err,
}
use joinstr.Bitcoin.{Address, Amount, Network, bitcoin, Transaction}
use joinstr.Nostr.Input.{InputDataSigned}
use joinstr.Nostr.Error.{Error as NostrError}
use joinstr.Nostr.Pool.{PublicKey, Fee, Timeline, Pool}
use joinstr.CoinJoin.{CoinJoin}
use joinstr.Signer.{Coin}
use joinstr.Joinstr.Error.{Error, nostr}

pub data Role : Type 0 where
  unknown initiator peer : Role

pub data Step : Type 0 where
  unconfigured configured posting connecting output_registration : Step
  input_registration broadcast mined failed : Step

pub record JoinstrInner (N C : Type 0) : Type 0 where
  pub role : Role
  pub step : Step
  pub confirmations : ℕ
  pub error : Option String
  pub client : N
  pub pool : Option Pool
  pub denomination : Option Amount
  pub peers_count : Option ℕ
  pub timeout : Option Timeline
  pub relay : Option String
  pub fee : Option Fee
  pub network : Network
  pub coinjoin : Option (CoinJoin C)
  pub electrum_client : Option C
  pub input : Option Coin
  pub output : Option Address
  pub final_tx : Option Transaction
  pub peers : List PublicKey
  pub outputs : List Address
  pub inputs : List InputDataSigned

-- A `Joinstr` and the world.
pub record Joinstr (N C W : Type 0) : Type 0 where
  pub inner : JoinstrInner N C
  pub world : W

-- `Default`, with the default nostr client
abbrev pub default_inner : {N C : Type 0} → N → JoinstrInner N C
default_inner client = record {
  role = unknown;
  step = unconfigured;
  confirmations = 0;
  error = none;
  client = client;
  pool = none;
  denomination = none;
  peers_count = none;
  timeout = none;
  relay = none;
  fee = none;
  network = bitcoin;
  coinjoin = none;
  electrum_client = none;
  input = none;
  output = none;
  final_tx = none;
  peers = [];
  outputs = [];
  inputs = [];
}

module _ {ℓ} {N C W : Type 0} {A : Type ℓ} where
  -- A method on `&self`.
  unfoldable pub reads : (JoinstrInner N C → Outcome Error A) → Action (Joinstr N C W) Error A
  reads f s = (f s.inner, s)

  -- A call on the nostr client, with `?`.
  unfoldable pub on_nostr : Action (N × W) NostrError A → Action (Joinstr N C W) Error A
  on_nostr m s =
      let (r, t) = m (s.inner.client, s.world) in
      (map_err nostr r, record s { inner = record s.inner { client = t.0 }; world = t.1 })

  -- What the world answers.
  unfoldable pub asks : (W → A × W) → Action (Joinstr N C W) Error A
  asks f s = let (a, world) = f s.world in (ok a, record s { world = world })

  -- A call on another client, with its error converted.
  unfoldable pub in_world : Action W Error A → Action (Joinstr N C W) Error A
  in_world m s = let (r, world) = m s.world in (r, record s { world = world })

  -- `.ok()` on the result of a call
  unfoldable pub attempt : Action (Joinstr N C W) Error A → Action (Joinstr N C W) Error (Option A)
  attempt m s =
      let (r, s') = m s in
      (
        elim r [ ok a ↦ ok (some a) | err e ↦ ok none | panic ↦ panic | unfinished ↦ unfinished ],
        s',
      )

module _ {N C W : Type 0} where
  unfoldable pub passes : (W → W) → Action (Joinstr N C W) Error (Unit {0})
  passes f s = (ok tt, record s { world = f s.world })

  -- The line names the other ways in, so that a proof names only this one.
  unfoldable pub update :
      (JoinstrInner N C → JoinstrInner N C) → Action (Joinstr N C W) Error (Unit {0})
  unfolding reads on_nostr asks attempt in_world passes
  update f s = (ok tt, record s { inner = f s.inner })

abbrev pub is_initiator : Role → Bool
is_initiator unknown = false
is_initiator initiator = true
is_initiator peer = false
