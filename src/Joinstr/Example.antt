-- ===== src/Joinstr/Example.antt =====
-- A host of numbers and lists. The world is a counter, and each reading of the clock is a second;
-- the nostr client is the list of the messages that wait.
use joinstr.Prelude.{ℕ, ◌+◌, false, Option, none, some, List, [], ◌∷◌, ok}
use joinstr.Bitcoin.Example.{small}
use joinstr.CoinJoin.Backend.{electrum}
use joinstr.Nostr.Pool.{PoolMessage, Keys}
use joinstr.Joinstr.Host.{Host}

abbrev pub own_keys : Keys
own_keys = record { public_key = 1; secret_key = 2 }

abbrev pub take : List PoolMessage → Option PoolMessage × List PoolMessage
take [] = (none, [])
take (m ∷ l) = (some m, l)

abbrev pub host : Host (List PoolMessage) ℕ ℕ
host = record {
  system = record {
    now = λ w. (w + 1, w + 1);
    sleep = λ d w. w;
    yield_now = λ w. w;
    random_range = λ a b w. (a, w);
  };
  nostr = record {
    new = λ n. [];
    default_client = [];
    name = λ n. "";
    relay = λ r n. ok n;
    keys = λ k n. ok n;
    get_relay = λ n. some "relay";
    get_keys = λ n. ok own_keys;
    connect_nostr = λ (n, w). (ok tt, (n, w));
    post_event = λ e (n, w). (ok tt, (n, w));
    send_pool_message = λ k m (n, w). (ok tt, (n, w));
    try_receive_pool_msg = λ (n, w). let (m, l) = take n in (ok m, (l, w));
  };
  electrum = record {
    new = λ a p w. (ok 0, w);
    broadcast = λ tx c. (ok tt, c + 1);
    backend = record {
      into = electrum;
      address_already_used = λ a c. (ok false, c);
      get_outpoint_value = λ o c. (ok none, c);
    };
    url = λ c. "";
    port = λ c. 0;
  };
  bitcoin = small;
  generate_keys = λ w. (own_keys, w);
  keys_of = λ k. record { public_key = k; secret_key = k };
  pool_id = λ k w. ("id", w);
  pool_json = λ p. some "pool";
  from_btc = some;
  to_btc = λ a. a;
  debug = λ e. "error";
}
