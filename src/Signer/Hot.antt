-- ===== src/Signer/Hot.antt =====
-- `WpkhHotSigner` of rust/joinstr/src/signer/mod.rs: the addresses of a key, the coins that an electrum
-- client finds there, and the signature of an input. `C` is the state of the electrum client.
use Prim.Native.String.{String, ◌++◌}
use joinstr.Prelude.{
  ℕ, ◌==◌, ◌&&◌, Bool, true, false, Option, none, some, List, [], ◌∷◌, ◌++◌ as ◌⧺◌, map, push,
  is_none, if◌then◌else◌, Outcome, ok, err, panic, unfinished, Action, map_err, ok_or_err,
}
use joinstr.Prelude.Outcomes.{◌>>=◌}
use joinstr.Bitcoin.{Address, Network, bitcoin, Script, OutPoint, TxOut}
use joinstr.Electrum.Error.{Error as ElectrumError}
use joinstr.Signer.{CoinPath, Coin}
use joinstr.Signer.Keychain.{
  Keychain, Xpriv, Xpub, Fingerprint, Mnemonic, DerivationPath, PrivateKey, Descriptor,
}

-- `Error` of signer/error.rs
pub data Error : Type 0 where
  tx_already_has_input sighash_fail invalid_signature invalid_transaction : Error
  no_electrum_client coin_path_without_index coin_path x_priv_from_seed derivation : Error
  bip39 : String → Error
  electrum : ElectrumError → Error

-- `Client::get_coins_at`, what the signer uses of the electrum client.
pub record CoinSource (C : Type 0) : Type 0 where
  pub get_coins_at : Script → Action C ElectrumError (List (TxOut × OutPoint))

-- The `HashMap` of coins, with each key once.
abbrev pub CoinMap : Type 0
CoinMap = List (CoinPath × List Coin)

pub record WpkhHotSigner (C : Type 0) : Type 0 where
  pub key : PrivateKey
  pub master_xpriv : Xpriv
  pub fingerprint : Fingerprint
  pub mnemonic : Option Mnemonic
  -- `xkey` of the field `secret_key`
  pub secret_key : Xpriv
  pub network : Network
  pub coins : CoinMap
  pub client : Option C

abbrev pub index_eq : Option ℕ → Option ℕ → Bool
index_eq none none = true
index_eq (some a) (some b) = a == b
index_eq none (some b) = false
index_eq (some a) none = false

-- The derived equality of coin paths.
abbrev pub path_eq : CoinPath → CoinPath → Bool
path_eq a b = a.depth == b.depth && index_eq a.index b.index

-- `CoinPath::new`
unfoldable pub new_path : ℕ → ℕ → CoinPath
new_path depth index = record { depth = depth; index = some index }

unfoldable pub deriv_path : Network → String
deriv_path bitcoin = "/84'/0'/0'"
deriv_path Network.testnet = "/84'/1'/0'"
deriv_path Network.signet = "/84'/1'/0'"
deriv_path Network.regtest = "/84'/1'/0'"

abbrev pub is_mainnet : Network → Bool
is_mainnet bitcoin = true
is_mainnet Network.testnet = false
is_mainnet Network.signet = false
is_mainnet Network.regtest = false

-- `expect`
unfoldable pub expect {ℓ} : {A : Type ℓ} → Option A → Outcome Error A
expect none = panic
expect (some a) = ok a

-- The coins of a path, with one more: `get_mut` and `push`, or `insert`.
unfoldable pub push_coin : CoinMap → CoinPath → Coin → CoinMap
push_coin [] path coin = (path, coin ∷ []) ∷ []
push_coin ((p, l) ∷ m) path coin =
    let rest = push_coin m path coin in
    if path_eq p path then (p, push l coin) ∷ m else (p, l) ∷ rest

-- The `for` over what the electrum client found: the coins, and how many.
unfoldable pub add_coins : CoinPath → List (TxOut × OutPoint) → CoinMap → CoinMap
unfolding push_coin
add_coins path [] m = m
add_coins path ((txout, outpoint) ∷ l) m = add_coins path l (
    push_coin m path (record {
      txout = txout;
      outpoint = outpoint;
      -- `Sequence::ENABLE_RBF_NO_LOCKTIME`
      sequence = 4294967293;
      coin_path = path;
    }))

-- `coins.get(&k)`
unfoldable pub get_path : CoinMap → CoinPath → Option (List Coin)
get_path [] path = none
get_path ((p, l) ∷ m) path = if path_eq p path then some l else get_path m path

unfoldable pub with_path : CoinPath → List Coin → List (CoinPath × Coin)
with_path path [] = []
with_path path (c ∷ l) = (path, c) ∷ with_path path l

-- The `for` over the keys; `unreachable!` where a key has no coins.
unfoldable pub list_of_keys : CoinMap → List CoinPath → Outcome Error (List (CoinPath × Coin))
unfolding get_path with_path
list_of_keys m [] = ok []
list_of_keys m (k ∷ ks) = do
  coins ← expect (get_path m k)
  rest ← list_of_keys m ks
  ok (with_path k coins ⧺ rest)

module _ {C : Type 0} where
  unfoldable pub set_client : C → WpkhHotSigner C → WpkhHotSigner C
  set_client client s = if is_none s.client then record s { client = some client } else s

  unfoldable pub drop_client : WpkhHotSigner C → WpkhHotSigner C
  drop_client s = record s { client = none }

-- `list_coins`, for the order in which the map gives its keys
unfoldable pub list_coins :
    {C : Type 0}
    → (List CoinPath → List CoinPath)
    → WpkhHotSigner C
    → Outcome Error (List (CoinPath × Coin))
unfolding list_of_keys
list_coins order s = list_of_keys s.coins (order (map (λ e. e.0) s.coins))

module _ {W : Type 0} (keychain : Keychain W) where
  unfoldable pub descriptor : Xpub → Fingerprint → ℕ → Network → Outcome Error Descriptor
  unfolding deriv_path expect
  descriptor xpub fg multipath network = expect (
      keychain.descriptor_of_text (
        "wpkh(["
        ++ keychain.show_fingerprint fg
        ++ deriv_path network
        ++ "]"
        ++ keychain.show_xpub xpub
        ++ "/"
        ++ keychain.show multipath
        ++ "/*)"))

  unfoldable pub new_from_xpriv : {C : Type 0} → Network → Xpriv → Outcome Error (WpkhHotSigner C)
  unfolding deriv_path expect
  new_from_xpriv network xpriv = do
    d_path ← expect (keychain.path_of_text ("m" ++ deriv_path network))
    xprv ← expect (keychain.derive_priv xpriv d_path)
    ok (record {
      key = keychain.to_priv xprv;
      master_xpriv = xprv;
      fingerprint = keychain.fingerprint xpriv;
      mnemonic = none;
      secret_key = xprv;
      network = network;
      coins = [];
      client = none;
    })

  unfoldable pub new_from_mnemonics :
      {C : Type 0} → Network → String → Outcome Error (WpkhHotSigner C)
  unfolding new_from_xpriv
  new_from_mnemonics network text = do
    mnemonic ← map_err bip39 (keychain.mnemonic_of_text text)
    key ← ok_or_err (keychain.new_master network mnemonic) x_priv_from_seed
    new_from_xpriv network key

  -- `WpkhHotSigner::new`, which panics on mainnet
  unfoldable pub generate : {C : Type 0} → Network → W → Outcome Error (WpkhHotSigner C) × W
  unfolding new_from_mnemonics
  generate network w =
      if is_mainnet network
      then (panic, w)
      else (let (mnemonic, w') = keychain.generate w in
          (
            (do
              signer ← new_from_mnemonics network (keychain.show_mnemonic mnemonic)
              ok (record signer { mnemonic = some mnemonic })),
            w',
          ))

  module _ {C : Type 0} (s : WpkhHotSigner C) where
    unfoldable pub address_at : CoinPath → Outcome Error Address
    unfolding descriptor expect
    address_at path = do
      index ← ok_or_err path.index coin_path_without_index
      d ← descriptor (keychain.xpub_from_priv s.master_xpriv) s.fingerprint path.depth s.network
      definite ← expect (keychain.at_derivation_index d index)
      expect (keychain.address definite s.network)

    -- `.expect("index is not none")` on the address
    unfoldable pub addr_at : ℕ → ℕ → Outcome Error Address
    unfolding address_at new_path
    addr_at depth index = elim (address_at (new_path depth index)) [
      | ok a ↦ ok a
      | err e ↦ panic
      | panic ↦ panic
      | unfinished ↦ unfinished
    ]

    unfoldable pub recv_addr_at : ℕ → Outcome Error Address
    unfolding addr_at
    recv_addr_at index = addr_at 0 index

    unfoldable pub change_addr_at : ℕ → Outcome Error Address
    unfolding addr_at
    change_addr_at index = addr_at 1 index

    unfoldable pub xpriv_at : DerivationPath → Outcome Error Xpriv
    xpriv_at path = ok_or_err (keychain.derive_priv s.master_xpriv path) derivation

    unfoldable pub xpub_at : DerivationPath → Outcome Error Xpub
    unfolding xpriv_at
    xpub_at path = do xpriv ← xpriv_at path; ok (keychain.xpub_from_priv xpriv)
