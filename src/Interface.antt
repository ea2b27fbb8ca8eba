-- ===== src/Interface.antt =====
-- The functions of rust/joinstr/src/interface.rs: to list the coins of a mnemonic, and to initiate or
-- join a coinjoin. Each object is a value here, so an early return drops it.
pub mod Listed
pub mod Runs
pub mod Coinjoins
pub mod Pools
mod Tests
use Prim.Native.String.{String}
use joinstr.Prelude.{
  ℕ, zero, suc, ◌+◌, ◌-◌, ◌^◌, ◌%◌, Option, none, some, List, map, Outcome, ok, err, panic,
  unfinished, Action, pure, yields, map_err, ◌>>=◌, ◌>>◌,
}
use joinstr.Bitcoin.{Address, Network, Transaction, Txid}
use joinstr.Nostr.Error.{Error as NostrError}
use joinstr.Nostr.Pool.{Pool}
use joinstr.Electrum.Error.{Error as ElectrumError}
use joinstr.Signer.{Coin, CoinPath}
use joinstr.Signer.Keychain.{Keychain, Mnemonic}
use joinstr.Signer.Hot.{
  Error as SignerError, CoinSource, WpkhHotSigner, new_from_mnemonics, new_path, set_client,
  list_coins as list_signer,
}
use joinstr.Signer.Sign.{get_coins_at, hot_signer}
use joinstr.Joinstr.Error.{Error as JoinstrError}
use joinstr.Joinstr.Host.{Host, Float}
use joinstr.Joinstr.State.{JoinstrInner, Joinstr, asks}
use joinstr.Joinstr.Setup.{
  builds, new_initiator, new_peer_with_electrum, set_denomination, set_fee, set_simple_timeout,
  set_min_peers, set_coin, set_address,
}
use joinstr.Joinstr.Start.{start_coinjoin_blocking}

pub data Error : Type 0 where
  unknown : Error
  nostr_client : NostrError → Error
  serde_json : String → Error
  joinstr_error : JoinstrError → Error
  signer : SignerError → Error
  electrum : ElectrumError → Error

pub record PoolConfig : Type 0 where
  pub denomination : Float
  pub fee : ℕ
  pub max_duration : ℕ
  pub peers : ℕ
  pub network : Network

pub record PeerConfig : Type 0 where
  pub mnemonics : Mnemonic
  pub electrum_address : String
  pub electrum_port : ℕ
  pub input : Coin
  pub output : Address
  pub relay : String

-- `?` on the result of a method of `Joinstr`
abbrev pub joins : {W A : Type 0} → Action W JoinstrError A → Action W Error A
joins m w = let (r, w') = m w in (map_err joinstr_error r, w')

-- `final_tx().expect(..)`
unfoldable pub expect_final : {N C : Type 0} → JoinstrInner N C → Outcome Error Transaction
expect_final j = elim j.final_tx [ none ↦ panic | some tx ↦ ok tx ]

module _ {N C W : Type 0} (host : Host N C W) where
  -- `Client::new` of the electrum client
  unfoldable pub open_electrum : String → ℕ → Action W Error C
  open_electrum url port w = let (r, w') = host.electrum.new url port w in (map_err electrum r, w')

  -- The object of an initiator: `new_initiator` and its builders.
  unfoldable pub setup_initiator :
      PoolConfig → PeerConfig → Action W JoinstrError (JoinstrInner N C)
  setup_initiator config p = do
    keys ← λ w. let (k, w') = host.generate_keys w in (ok k, w')
    j ←
        new_initiator host keys p.relay (p.electrum_address, p.electrum_port) config.network
          "initiator"
    builds host
        (do
          set_denomination host config.denomination
          set_fee config.fee
          t ← asks host.system.now
          set_simple_timeout ((t + config.max_duration) % 2 ^ 64)
          set_min_peers config.peers)
        j

  -- `Clone` of a signer connects its electrum client anew, and panics where that fails.
  unfoldable pub clone_signer : WpkhHotSigner C → Action W Error (WpkhHotSigner C)
  clone_signer s w = elim s.client [
    | none ↦ (ok s, w)
    | some c ↦
        let (r, w') = host.electrum.new (host.electrum.url c) (host.electrum.port c) w in
        (
          elim r [
            | ok c' ↦ ok (record s { client = some c' })
            | err e ↦ panic
            | panic ↦ panic
            | unfinished ↦ unfinished
          ],
          w',
        )
  ]

module _ {N C W : Type 0} (host : Host N C W) (keychain : Keychain W) where
  -- A hot signer with a client of its own.
  unfoldable pub open_signer : Network → String → String → ℕ → Action W Error (WpkhHotSigner C)
  unfolding set_client
  open_signer network mnemonics url port = do
    s ← yields (map_err signer (new_from_mnemonics keychain network mnemonics))
    client ← open_electrum host url port
    pure (set_client client s)

  module _ (source : CoinSource C) where
    -- `let _ = signer.get_coins_at(..)`
    unfoldable pub look_at : CoinPath → Action (WpkhHotSigner C) Error (Unit {0})
    look_at path s =
        let (r, s') = get_coins_at host.bitcoin keychain source path s in
        elim r [
          | ok n ↦ (ok tt, s')
          | err e ↦ (ok tt, s')
          | panic ↦ (panic, s')
          | unfinished ↦ (unfinished, s')
        ]

    -- The `for` over the indexes, `count` of them.
    unfoldable pub scan : (first count : ℕ) → Action (WpkhHotSigner C) Error (Unit {0})
    unfolding new_path
    scan i zero = pure tt
    scan i (suc count) = do look_at (new_path 0 i); look_at (new_path 1 i); scan (i + 1) count

    -- What is listed once the coins are scanned, in the order in which the map gives its keys.
    unfoldable pub scanned :
        (List CoinPath → List CoinPath) → ℕ × ℕ → WpkhHotSigner C → Outcome Error (List Coin)
    scanned order (first, last) s =
        let (r, s') = scan first (last - first) s in
        elim r [
          | ok _ ↦ elim (list_signer order s') [
            | ok coins ↦ ok (map (λ e. e.1) coins)
            | err e ↦ err (signer e)
            | panic ↦ panic
            | unfinished ↦ unfinished
          ]
          | err e ↦ err e
          | panic ↦ panic
          | unfinished ↦ unfinished
        ]

    unfoldable pub list_coins :
        (List CoinPath → List CoinPath)
        → (mnemonics url : String) → ℕ
        → ℕ × ℕ
        → Network
        → Action W Error (List Coin)
    unfolding open_signer scanned
    list_coins order mnemonics url port range network = do
      s ← open_signer network mnemonics url port
      yields (scanned order range s)

  module _ (display : SignerError → String) (fuel : ℕ) where
    -- `start_coinjoin_blocking` without a pool, and the transaction that it has made.
    unfoldable pub run_coinjoin : WpkhHotSigner C → JoinstrInner N C → Action W Error Transaction
    unfolding expect_final
    run_coinjoin s j w =
        let (r, done) =
          start_coinjoin_blocking host (λ w. w) fuel none
            (some (hot_signer host.bitcoin keychain s display)) (record { inner = j; world = w }) in
        (
          elim r [
            | ok _ ↦ expect_final done.inner
            | err e ↦ err (joinstr_error e)
            | panic ↦ panic
            | unfinished ↦ unfinished
          ],
          done.world,
        )

    -- A signer for the configured mnemonics, and the run with it.
    unfoldable pub initiate_tx : PoolConfig → PeerConfig → Action W Error Transaction
    unfolding open_signer
    initiate_tx config p = do
      j ← joins (setup_initiator host config p)
      s ←
          open_signer config.network (keychain.show_mnemonic p.mnemonics) p.electrum_address
            p.electrum_port
      j' ← joins (builds host (do set_coin p.input; set_address host p.output) j)
      s' ← clone_signer host s
      run_coinjoin s' j'

    -- The pool is not handed on to `start_coinjoin_blocking`.
    unfoldable pub join_tx : Pool → PeerConfig → Action W Error Transaction
    unfolding open_signer
    join_tx pool p = do
      j ← joins (
          new_peer_with_electrum host p.relay pool (p.electrum_address, p.electrum_port) p.input
            p.output pool.network "peer")
      s ←
          open_signer pool.network (keychain.show_mnemonic p.mnemonics) p.electrum_address
            p.electrum_port
      s' ← clone_signer host s
      run_coinjoin s' j

    module _ (compute_txid : Transaction → Txid) where
      unfoldable pub initiate_coinjoin : PoolConfig → PeerConfig → Action W Error Txid
      initiate_coinjoin config p = do tx ← initiate_tx config p; pure (compute_txid tx)

      unfoldable pub join_coinjoin : (Txid → String) → Pool → PeerConfig → Action W Error String
      join_coinjoin show pool p = do tx ← join_tx pool p; pure (show (compute_txid tx))
