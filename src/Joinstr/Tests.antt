-- ===== src/Joinstr/Tests.antt =====
-- The theorems of `Joinstr` at the host of Joinstr.Example.
use joinstr.Prelude.{
  true, loop, ℕ, ◌≡◌, ◌≢◌, refl, none, some, List, [], ◌∷◌, arith, ok, unfinished, ◌>>◌,
}
use joinstr.Bitcoin.{bitcoin}
use joinstr.Bitcoin.Example.{small-IsLawful, dedup}
use joinstr.Nostr.Pool.{PoolMessage, Pool, Timeline, Fee, create}
use joinstr.Nostr.Input.{InputDataSigned}
use joinstr.Joinstr.Example.{host}
use joinstr.Joinstr.State.{Joinstr, default_inner, initiator, output_registration, update}
use joinstr.Joinstr.Pool.{post, new_pool, publish, check_pool_exists}
use joinstr.Joinstr.Pool.Posted.{IsDraft, post_lem}
use joinstr.Joinstr.Guarantee.Client.{has_electrum}
use joinstr.Joinstr.Guarantee.Whole.{Paid, start_coinjoin_blocking_pays}
use joinstr.Joinstr.Outputs.{
  register_outputs, register_peers, collect_outputs, settle_outputs, peer_test, peer_round,
  output_test, output_round,
}
use joinstr.Joinstr.Start.{enter, run_rounds, sign_own, start_coinjoin_blocking}
use joinstr.Joinstr.Inputs.{
  generate_unsigned_tx, register_inputs, input_test, input_round, broadcast_tx,
}
use joinstr.Joinstr.Progress.{IsTimely}
use joinstr.Joinstr.Progress.Start.{start_coinjoin_blocking_ends}

abbrev host-IsTimely : IsTimely host (λ w. w)
host-IsTimely = record {
  ticks = λ w. w;
  rate = 1;
  now_counts = λ w. omega arith;
  now_follows = λ w. omega arith;
  sleep_later = λ d w. omega arith;
  yield_later = λ w. omega arith;
  random_later = λ a b w. omega arith;
  keys_later = λ w. omega arith;
  pool_id_later = λ k w. omega arith;
  notif_later = λ w. omega arith;
  connect_returns = record { returns = λ s h. cc; later = λ s. omega arith };
  post_returns = λ e. record { returns = λ s h. cc; later = λ s. omega arith };
  send_returns = λ k m. record { returns = λ s h. cc; later = λ s. omega arith };
  receive_returns = record { returns = λ s h. cc; later = λ s. omega arith };
  get_keys_returns = λ n h. cc;
  relay_returns = λ r n h. cc;
  backend_answers = record { address_returns = λ a c h. cc; value_returns = λ o c h. cc };
  broadcast_returns = λ tx c h. cc;
  keys_returns = λ k n h. cc;
}

-- An initiator of a pool for two peers, up to time 9.
abbrev ready : Joinstr (List PoolMessage) ℕ ℕ
ready = record {
  inner = record (default_inner []) {
    role = initiator;
    denomination = some 1000;
    peers_count = some 2;
    timeout = some (Timeline.simple 9);
    relay = some "relay";
    fee = some (Fee.fixed 1);
  };
  world = 0;
}

start_coinjoin_blocking_ends_example :
    (start_coinjoin_blocking host (λ w. w) 10 none none ready).0 ≢ unfinished
start_coinjoin_blocking_ends_example =
    start_coinjoin_blocking_ends host-IsTimely 10 none none ready tt (omega arith)

posted : (post host ready).0 ≡ ok tt
unfolding post new_pool publish ◌>>◌ update
posted = refl

post_lem_example :
    let s' = (post host ready).1 in
    (ready.inner.pool ≡ none)
    × (pool : Pool) × IsDraft host ready.inner pool
    × (s'.inner ≡ record ready.inner {
      client = s'.inner.client;
      pool = some pool;
      step = output_registration;
    })
post_lem_example = post_lem host ready posted

-- A pool whose coinjoin is finalized.
abbrev final : Joinstr (List PoolMessage) ℕ ℕ
final = record ready {
  inner = record ready.inner {
    pool = some (record {
      versions = none;
      id = "id";
      network = bitcoin;
      pool_type = create;
      public_key = 1;
      payload = some (record {
        denomination = 1000;
        peers = 2;
        timeout = Timeline.simple 9;
        relays = [];
        fee = Fee.fixed 1;
        transport = record { vpn = none; tor = none };
      });
    });
    coinjoin = some (record {
      outputs = [];
      psbt = none;
      inputs = [];
      tx = some (record { version = 2; lock_time = 0; input = []; output = [] });
      min_peer = 2;
      denomination = 1000;
      fee = 1;
      client = none;
    });
  };
}

broadcasts : (broadcast_tx host final).0 ≡ ok tt
unfolding broadcast_tx check_pool_exists ◌>>◌ update
broadcasts = refl

-- A run in which two peers join: their messages wait in the order in which they are read.
abbrev paid_input : ℕ → InputDataSigned
paid_input n = record {
  txin = record { previous_output = record { txid = n; vout = 0 }; sequence = 0; witness = 1 };
  amount = some 3000;
}

abbrev waiting : List PoolMessage
waiting =
    PoolMessage.join (some 3)
    ∷ PoolMessage.join (some 4)
    ∷ PoolMessage.output 1005
    ∷ PoolMessage.output 1006
    ∷ PoolMessage.input (paid_input 7)
    ∷ PoolMessage.input (paid_input 8)
    ∷ []

abbrev running : Joinstr (List PoolMessage) ℕ ℕ
running = record {
  inner = record ready.inner {
    client = waiting;
    timeout = some (Timeline.simple 40);
    electrum_client = some 0;
  };
  world = 0;
}

runs : (start_coinjoin_blocking host (λ w. w) 50 none none running).0 ≡ ok tt
unfolding start_coinjoin_blocking enter run_rounds sign_own post new_pool publish register_outputs
    register_peers collect_outputs settle_outputs generate_unsigned_tx register_inputs input_test
    input_round broadcast_tx loop update ◌>>◌ peer_test peer_round output_test output_round dedup
runs = refl

start_coinjoin_blocking_pays_example :
    let s' = (start_coinjoin_blocking host (λ w. w) 50 none none running).1 in
    Paid host none s' × (has_electrum s' ≡ true)
start_coinjoin_blocking_pays_example =
    start_coinjoin_blocking_pays small-IsLawful (λ w. w) 50 none none running runs
