-- ===== src/Interface/Tests.antt =====
-- Coinjoins with two other peers, whose messages wait in the order in which they are read, and the
-- coins of three indexes.
use mathlib.Core.List.Perm
use Prim.Native.String.{String}
use joinstr.Prelude.{
  ◌≡◌, refl, ℕ, ◌+◌, ◌-◌, none, some, List, [], ◌∷◌, map, Perm, ok, ◌>>=◌, ◌>>◌, loop, pure, yields,
}
use joinstr.Bitcoin.{Transaction, TxOut, OutPoint, bitcoin}
use joinstr.Bitcoin.Example.{small-IsLawful, dedup}
use joinstr.Nostr.Input.{InputDataSigned}
use joinstr.Nostr.Pool.{Pool, PoolMessage, Timeline, Fee, create}
use joinstr.Signer.{Coin, CoinPath}
use joinstr.Signer.Hot.{
  CoinSource, WpkhHotSigner, new_path, set_client, new_from_mnemonics, new_from_xpriv,
}
use joinstr.Signer.Sign.{sign, sign_message, spk_at, hot_signer}
use joinstr.Signer.Example.{keychain}
use joinstr.Joinstr.Host.{Host}
use joinstr.Joinstr.State.{update, asks}
use joinstr.Joinstr.Example.{host as quiet}
use joinstr.Joinstr.Setup.{
  new_initiator, new_with_electrum, new_peer_with_electrum, new_peer, new, connect, set_network,
  set_denomination, set_fee, set_simple_timeout, set_min_peers, set_coin, set_address,
}
use joinstr.Joinstr.Pool.{post, new_pool, publish}
use joinstr.Joinstr.Outputs.{
  register_outputs, register_peers, collect_outputs, settle_outputs, peer_test, peer_round,
  output_test, output_round,
}
use joinstr.Joinstr.Inputs.{
  generate_unsigned_tx, register_input, register_inputs, input_test, input_round, broadcast_tx,
}
use joinstr.Joinstr.Start.{start_coinjoin_blocking, enter, run_rounds, sign_own, sign_with}
use joinstr.Interface.{
  PoolConfig, PeerConfig, initiate_coinjoin, join_coinjoin, initiate_tx, join_tx, setup_initiator,
  open_signer, open_electrum, clone_signer, run_coinjoin, list_coins,
}
use joinstr.Interface.Runs.{Initiated, Joined}
use joinstr.Interface.Coinjoins.{initiate_coinjoin-Initiated, join_coinjoin-Joined}
use joinstr.Interface.Listed.{Derives, coins_between, list_coins_lem}

abbrev paid_input : ℕ → InputDataSigned
paid_input n = record {
  txin = record { previous_output = record { txid = n; vout = 0 }; sequence = 0; witness = 1 };
  amount = some 3000;
}

abbrev waiting : List PoolMessage
waiting =
    PoolMessage.join (some 3)
    ∷ PoolMessage.join (some 4)
    ∷ PoolMessage.output 1005
    ∷ PoolMessage.output 1006
    ∷ PoolMessage.input (paid_input 7)
    ∷ PoolMessage.input (paid_input 8)
    ∷ []

abbrev host : Host (List PoolMessage) ℕ ℕ
host = record quiet { nostr = record quiet.nostr { new = λ n. waiting } }

abbrev config : PoolConfig
config = record { denomination = 1000; fee = 1; max_duration = 40; peers = 2; network = bitcoin }

abbrev coin : Coin
coin = record {
  txout = record { value = 3000; script_pubkey = 30 };
  outpoint = record { txid = 4; vout = 1 };
  sequence = 3;
  coin_path = new_path 0 2;
}

abbrev own : PeerConfig
own = record {
  mnemonics = 1;
  electrum_address = "ssl://server";
  electrum_port = 50002;
  input = coin;
  output = 1007;
  relay = "relay";
}

abbrev txid : Transaction → ℕ
txid tx = tx.version

initiated : (initiate_coinjoin host keychain (λ e. "error") 60 txid config own 0).0 ≡ ok 2
unfolding initiate_coinjoin initiate_tx setup_initiator new_initiator new_with_electrum new connect
    set_network set_denomination set_fee set_simple_timeout set_min_peers set_coin set_address
    open_signer open_electrum clone_signer run_coinjoin start_coinjoin_blocking enter run_rounds
    sign_own sign_with post new_pool publish register_outputs register_peers collect_outputs
    settle_outputs generate_unsigned_tx register_input register_inputs input_test input_round
    broadcast_tx loop update asks ◌>>◌ ◌>>=◌ peer_test peer_round output_test output_round dedup
    hot_signer sign sign_message spk_at new_path pure yields new_from_mnemonics
initiated = refl

initiate_coinjoin-Initiated_example :
    (tx : Transaction) × Initiated host keychain (λ e. "error") 60 config own tx × (2 ≡ txid tx)
initiate_coinjoin-Initiated_example =
    initiate_coinjoin-Initiated host small-IsLawful keychain (λ e. "error") 60 txid config own 0 2
      initiated

abbrev offered : Pool
offered = record {
  versions = none;
  id = "id";
  network = bitcoin;
  pool_type = create;
  public_key = 77;
  payload = some (record {
    denomination = 1000;
    peers = 2;
    timeout = Timeline.simple 40;
    relays = "relay" ∷ [];
    fee = Fee.fixed 1;
    transport = record { vpn = none; tor = none };
  });
}

abbrev text : String
text = "txid"

joined :
    (join_coinjoin host keychain (λ e. "error") 60 txid (λ n. "txid") offered own 0).0 ≡ ok text
unfolding join_coinjoin join_tx new_peer_with_electrum new_peer new connect set_network
    set_denomination set_fee set_simple_timeout set_min_peers open_signer open_electrum clone_signer
    run_coinjoin start_coinjoin_blocking enter run_rounds sign_own sign_with post new_pool publish
    register_outputs register_peers collect_outputs settle_outputs generate_unsigned_tx
    register_input register_inputs input_test input_round broadcast_tx loop update ◌>>◌ ◌>>=◌
    peer_test peer_round output_test output_round dedup hot_signer sign sign_message spk_at new_path
    pure yields new_from_mnemonics
joined = refl

join_coinjoin-Joined_example :
    (tx : Transaction) × Joined host keychain (λ e. "error") 60 offered own tx × (text ≡ text)
join_coinjoin-Joined_example =
    join_coinjoin-Joined host small-IsLawful keychain (λ e. "error") 60 txid (λ n. "txid") offered
      own 0 text joined

-- A server that knows two outputs of the script 30, which is that of all addresses.
abbrev found : ℕ → List (TxOut × OutPoint)
found spk =
    (coin.txout, record { txid = spk; vout = 0 })
    ∷ (coin.txout, record { txid = spk; vout = 1 })
    ∷ []

abbrev source : CoinSource ℕ
source = record { get_coins_at = λ spk c. (ok (found spk), c + 1) }

abbrev opened : WpkhHotSigner ℕ
opened = record {
  key = 12;
  master_xpriv = 12;
  fingerprint = 6;
  mnemonic = none;
  secret_key = 12;
  network = bitcoin;
  coins = [];
  client = some 0;
}

opens : open_signer host keychain bitcoin "words" "server" 50002 0 ≡ (ok opened, 0)
unfolding open_signer open_electrum set_client new_from_mnemonics new_from_xpriv ◌>>=◌ pure yields
opens = refl

derives : Derives host keychain (λ p. 30) 4 3 opened
unfolding spk_at new_path
derives d i h from to = refl

list_coins_lem_example :
    (l : List (CoinPath × Coin)) × (list_coins host keychain source
        (λ l. l)
        "words"
        "server"
        50002
        (4, 7)
        bitcoin
        0
      ≡ (ok (map (λ e. e.1) l), 0))
    × Perm l (coins_between (λ p. 30) found 4 (7 - 4))
list_coins_lem_example =
    list_coins_lem host keychain source (λ p. 30) found (λ l. l) "words" "server" 50002 4 7 bitcoin
      0 0 opened (λ s c. refl) (λ l. Perm.rfl) opens derives
