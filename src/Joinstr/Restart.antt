-- ===== src/Joinstr/Restart.antt =====
-- A `Joinstr` from its saved state: `restart` of rust/joinstr/src/joinstr/mod.rs, and what the thread
-- that it starts does.
pub mod Restored
pub mod Resumed
pub mod Stuck
mod Tests
use Prim.Native.String.{String}
use joinstr.Prelude.{
  ℕ, zero, suc, ◌+◌, Bool, true, false, ◌&&◌, ◌||◌, not, ltb, leb, Option, none, some, is_some,
  List, [], ◌∷◌, ◌++◌, push, length, if◌then◌else◌, Outcome, ok, err, panic, unfinished, Action,
  gets, pure, throw_if, yields, map_err, ok_or_err, ◌>>=◌, ◌>>◌,
}
use joinstr.System.{rand_delay}
use joinstr.Json.{Value}
use joinstr.Bitcoin.{Address, Network, Transaction}
use joinstr.Nostr.Input.{InputDataSigned}
use joinstr.Nostr.Pool.{PublicKey, Keys, Pool, PoolMessage, input_of_psbt}
use joinstr.Signer.{JoinstrSigner}
use joinstr.Joinstr.Error.{Error, wrong_address_network, input_parsing, pool_key, pool_corrupted}
use joinstr.Joinstr.Host.{Host}
use joinstr.Joinstr.State.{JoinstrInner, Joinstr, on_nostr, attempt, update, passes, failed}
use joinstr.Joinstr.Setup.{new, new_electrum, set_network, builds}
use joinstr.Joinstr.Outputs.{register_outputs}
use joinstr.Joinstr.Inputs.{generate_unsigned_tx, register_input, register_inputs, broadcast_tx}
use joinstr.Joinstr.Saved.{State, Vault}

-- The messages that were waiting: peers, outputs and inputs.
pub record Waiting : Type 0 where
  pub peers : List PublicKey
  pub outputs : List Address
  pub inputs : List InputDataSigned

-- The `for` over the saved inputs.
unfoldable pub read_inputs : Vault → List Value → Outcome Error (List InputDataSigned)
read_inputs vault [] = ok []
read_inputs vault (v ∷ l) = elim (vault.input_of_value v) [
  | none ↦ err input_parsing
  | some i ↦ elim (read_inputs vault l) [
    | ok rest ↦ ok (i ∷ rest)
    | err e ↦ err e
    | panic ↦ panic
    | unfinished ↦ unfinished
  ]
]

-- The number of peers of the pool; `expect` where it has no payload.
unfoldable pub expected_of : Pool → Outcome Error ℕ
expected_of pool = elim pool.payload [ none ↦ panic | some payload ↦ ok payload.peers ]

-- More messages than the pool can have.
unfoldable pub is_corrupted : (expected peers outputs inputs : ℕ) → Bool
is_corrupted expected peers outputs inputs =
    ltb expected peers || ltb peers outputs || ltb outputs inputs || ltb peers inputs

module _ {N C W : Type 0} (host : Host N C W) where
  unfoldable pub check_address : Network → Address → Outcome Error (Unit {0})
  check_address network a =
      if host.bitcoin.is_valid_for_network a network then ok tt else err wrong_address_network

  -- The `for` over the saved outputs.
  unfoldable pub check_outputs : Network → List Address → Outcome Error (Unit {0})
  unfolding check_address
  check_outputs network [] = ok tt
  check_outputs network (a ∷ l) = elim (check_address network a) [
    | ok _ ↦ check_outputs network l
    | err e ↦ err e
    | panic ↦ panic
    | unfinished ↦ unfinished
  ]

  unfoldable pub check_output : Network → Option Address → Outcome Error (Unit {0})
  unfolding check_address
  check_output network none = ok tt
  check_output network (some a) = check_address network a

  -- `Client::new` on the saved server, if there was one
  unfoldable pub restore_electrum : Option (String × ℕ) → Action W Error (Option C)
  restore_electrum none = pure none
  restore_electrum (some (url, port)) = do client ← new_electrum host url port; pure (some client)

  -- A message that was waiting.
  unfoldable pub sort_message : Network → PoolMessage → Waiting → Waiting
  unfolding input_of_psbt
  sort_message network (PoolMessage.input i) r = record r { inputs = push r.inputs i }
  sort_message network (PoolMessage.output a) r =
      if host.bitcoin.is_valid_for_network a network
      then record r { outputs = push r.outputs a }
      else r
  sort_message network (PoolMessage.psbt p) r = elim (input_of_psbt host.bitcoin p) [
    | ok i ↦ record r { inputs = push r.inputs i }
    | err e ↦ r
    | panic ↦ r
    | unfinished ↦ r
  ]
  sort_message network (PoolMessage.join (some k)) r = record r { peers = push r.peers k }
  sort_message network (PoolMessage.join none) r = r
  sort_message network (PoolMessage.transaction tx) r = r
  sort_message network (PoolMessage.credentials k) r = r

  -- `while let Ok(Some(msg)) = try_receive_pool_msg()`, on fuel
  unfoldable pub drain : (fuel : ℕ) → Network → Waiting → Action (N × W) Error Waiting
  unfolding sort_message
  drain zero network r s = (unfinished, s)
  drain (suc fuel) network r s =
      let (m, s') = host.nostr.try_receive_pool_msg s in
      elim m [
        | ok none ↦ (ok r, s')
        | ok (some msg) ↦ drain fuel network (sort_message network msg r) s'
        | err e ↦ (ok r, s')
        | panic ↦ (panic, s')
        | unfinished ↦ (unfinished, s')
      ]

  unfoldable pub drain_inner :
      (fuel : ℕ) → JoinstrInner N C → Action W Error (Waiting × JoinstrInner N C)
  drain_inner fuel j w =
      let (r, (client, w')) =
        drain fuel j.network (record { peers = []; outputs = []; inputs = [] }) (j.client, w) in
      (
        elim r [
          | ok waiting ↦ ok (waiting, record j { client = client })
          | err e ↦ err e
          | panic ↦ panic
          | unfinished ↦ unfinished
        ],
        w',
      )

  -- The messages that were waiting are added, where the pool has room for them.
  unfoldable pub catch_up :
      (fuel expected : ℕ) → JoinstrInner N C → Action W Error (JoinstrInner N C)
  unfolding is_corrupted
  catch_up fuel expected j = do
    r ← drain_inner fuel j
    let got = r.0
    throw_if
        (is_corrupted expected (length j.peers + length got.peers)
          (length j.outputs + length got.outputs) (length j.inputs + length got.inputs))
        pool_corrupted
    pure (record r.1 {
      peers = j.peers ++ got.peers;
      outputs = j.outputs ++ got.outputs;
      inputs = j.inputs ++ got.inputs;
    })

  -- The object of a saved state, with its clients connected anew.
  unfoldable pub restore : Vault → State → String → Action W Error (JoinstrInner N C)
  unfolding restore_electrum check_output check_outputs read_inputs
  restore vault st name = do
    key ← yields (ok_or_err (vault.from_hex st.pool_secret_key) pool_key)
    fresh ← new host (host.keys_of key) st.relay name
    j ← builds host (set_network st.network) fresh
    electrum ← restore_electrum st.electrum
    yields (check_output st.network st.output)
    yields (check_outputs st.network st.outputs)
    inputs ← yields (read_inputs vault st.inputs)
    pure (record j {
      role = st.role;
      pool = some st.pool;
      electrum_client = electrum;
      input = st.input;
      output = st.output;
      network = st.network;
      peers = st.peers;
      outputs = st.outputs;
      inputs = inputs;
    })

  -- A finalized pool needs nothing more.
  unfoldable pub finish : (fuel : ℕ) → State → JoinstrInner N C → Action W Error (JoinstrInner N C)
  unfolding expected_of
  finish fuel st j = elim st.final_tx [
    | some tx ↦ pure (record j { final_tx = some tx })
    | none ↦ do expected ← yields (expected_of st.pool); catch_up fuel expected j
  ]

  -- `restart` before it starts its thread.
  unfoldable pub resume : Vault → (fuel : ℕ) → State → String → Action W Error (JoinstrInner N C)
  resume vault fuel st name = do j ← restore vault st name; finish fuel st j

  module _ (notif : W → W) where
    unfoldable pub rejoin_outputs : (fuel expected : ℕ) → Action (Joinstr N C W) Error (Unit {0})
    rejoin_outputs fuel expected = do
      i ← gets (λ s. s.inner)
      if not (leb expected (length i.peers)) || not (leb expected (length i.outputs))
          then register_outputs host notif fuel
          else pure tt

    unfoldable pub sign_again : JoinstrSigner → Action (Joinstr N C W) Error (Unit {0})
    unfolding register_input
    sign_again signer = do
      input ← gets (λ s. s.inner.input)
      if is_some input then register_input host notif signer else pure tt

    unfoldable pub rejoin_inputs :
        (fuel : ℕ) → JoinstrSigner → Action (Joinstr N C W) Error (Unit {0})
    rejoin_inputs fuel signer = do
      generate_unsigned_tx host
      passes notif
      passes (rand_delay host.system)
      sign_again signer
      register_inputs host notif fuel
      broadcast_tx host

    unfoldable pub restart_blocking :
        (fuel expected : ℕ) → JoinstrSigner → Action (Joinstr N C W) Error (Unit {0})
    restart_blocking fuel expected signer = do
      registered ← gets (λ s. leb expected (length s.inner.inputs))
      rejoin_outputs fuel expected
      if registered then pure tt else rejoin_inputs fuel signer

    -- What the thread leaves behind. A panic ends it.
    unfoldable pub restart_thread :
        (fuel expected : ℕ) → JoinstrSigner → Joinstr N C W → Joinstr N C W
    restart_thread fuel expected signer s =
        let (r, s') = restart_blocking fuel expected signer s in
        elim r [
          | ok _ ↦ s'
          | err e ↦ record s' {
            inner = record s'.inner { error = some (host.debug e); step = failed };
          }
          | panic ↦ s'
          | unfinished ↦ s'
        ]

    -- The thread runs, where the pool is not finalized.
    unfoldable pub start_thread :
        (fuel : ℕ) → State → JoinstrSigner → JoinstrInner N C → Action W Error (JoinstrInner N C)
    unfolding expected_of restart_thread
    start_thread fuel st signer j w = elim st.final_tx [
      | some tx ↦ (ok j, w)
      | none ↦ elim (expected_of st.pool) [
        | ok expected ↦
            let s = restart_thread fuel expected signer (record { inner = j; world = w }) in
            (ok s.inner, s.world)
        | err e ↦ (err e, w)
        | panic ↦ (panic, w)
        | unfinished ↦ (unfinished, w)
      ]
    ]

    -- The object that `restart` returns, once the thread that it started has ended.
    unfoldable pub restart :
        Vault → (fuel : ℕ) → State → String → JoinstrSigner → Action W Error (JoinstrInner N C)
    restart vault fuel st name signer = do
      j ← resume vault fuel st name
      start_thread fuel st signer j
