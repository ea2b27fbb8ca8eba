-- ===== src/Signer/Sign.antt =====
-- The methods of `WpkhHotSigner` that the coinjoin uses: `get_coins_at` and `sign`.
use Prim.Native.String.{String, ◌++◌}
use joinstr.Prelude.{
  ℕ, ◌==◌, Bool, none, some, [], ◌∷◌, push, length, if◌then◌else◌, Outcome, ok, err, panic,
  unfinished, Action, map_err, ok_or_err,
}
use joinstr.Prelude.Outcomes.{◌>>=◌}
use joinstr.Bitcoin.{Script, TxIn, Transaction, Psbt, PsbtInput, Bitcoin}
use joinstr.Nostr.Input.{InputDataSigned}
use joinstr.Signer.{CoinPath, Coin, JoinstrSigner}
use joinstr.Signer.Keychain.{Keychain, PrivateKey, Message}
use joinstr.Signer.Hot.{
  Error, tx_already_has_input, sighash_fail, invalid_signature, invalid_transaction,
  no_electrum_client, coin_path, electrum, CoinSource, WpkhHotSigner, add_coins, expect, address_at,
}

-- `SIGHASH_ALL | SIGHASH_ANYONECANPAY`, 0x81
abbrev pub all_plus_anyone_can_pay : ℕ
all_plus_anyone_can_pay = 129

-- The PSBT with the coin as its only input, not signed yet.
unfoldable pub with_coin : TxIn → Coin → Psbt → Psbt
with_coin txin coin psbt =
    let input : PsbtInput = record {
      witness_utxo = some coin.txout;
      sighash_type = some all_plus_anyone_can_pay;
      final_script_witness = none;
    } in
    record psbt {
      inputs = push psbt.inputs input;
      unsigned_tx = record psbt.unsigned_tx { input = push psbt.unsigned_tx.input txin };
    }

-- `if !c { return Err(e) }`
unfoldable pub ensure : Bool → Error → Outcome Error (Unit {0})
ensure c e = if c then ok tt else err e

-- `assert_eq!`
unfoldable pub assert : Bool → Outcome Error (Unit {0})
assert c = if c then ok tt else panic

-- `if !psbt.inputs.is_empty()`
unfoldable pub check_no_input : Psbt → Outcome Error (Unit {0})
check_no_input psbt = elim psbt.inputs [ [] ↦ ok tt | i ∷ l ↦ err tx_already_has_input ]

module _ {W C : Type 0} (keychain : Keychain W) (s : WpkhHotSigner C) where
  -- The key of a path, below the account.
  unfoldable pub signing_key : CoinPath → Outcome Error PrivateKey
  unfolding expect
  signing_key path = do
    index ← expect path.index
    deriv ←
        expect
          (keychain.path_of_text ("m/" ++ keychain.show path.depth ++ "/" ++ keychain.show index))
    xpriv ← expect (keychain.derive_priv s.secret_key deriv)
    ok (keychain.private_key xpriv)

module _ {W C : Type 0} (lib : Bitcoin) (keychain : Keychain W) (s : WpkhHotSigner C) where
  unfoldable pub spk_at : CoinPath → Outcome Error Script
  unfolding address_at
  spk_at path = do address ← address_at keychain s path; ok (lib.script_pubkey address)

  -- The signature of the message, with the key of the coin.
  unfoldable pub sign_message : TxIn → Coin → Message → Outcome Error InputDataSigned
  unfolding signing_key ensure assert
  sign_message txin coin msg = do
    key ← signing_key keychain s coin.coin_path
    let pubkey = keychain.public_key key
    let expected_spk = lib.script_pubkey (keychain.p2wpkh pubkey s.network)
    _ ← assert (expected_spk == coin.txout.script_pubkey)
    let signature = keychain.sign_ecdsa_low_r msg key
    _ ← ensure (keychain.verify_ecdsa msg signature pubkey) invalid_signature
    ok (record {
      txin = record txin {
        witness = keychain.witness_p2wpkh signature all_plus_anyone_can_pay pubkey;
      };
      amount = some coin.txout.value;
    })

  unfoldable pub sign : Transaction → Coin → Outcome Error InputDataSigned
  unfolding check_no_input ensure with_coin
  sign tx coin = do
    psbt ← ok_or_err (lib.psbt_from_unsigned_tx tx) invalid_transaction
    _ ← check_no_input psbt
    spk ← map_err (λ _. coin_path) (spk_at coin.coin_path)
    _ ← ensure (coin.txout.script_pubkey == spk) coin_path
    let txin : TxIn = record {
      previous_output = coin.outpoint;
      sequence = coin.sequence;
      witness = keychain.default_witness;
    }
    hash ← ok_or_err (keychain.sighash_ecdsa (with_coin txin coin psbt)) sighash_fail
    _ ← ensure (hash.1 == all_plus_anyone_can_pay) sighash_fail
    sign_message txin coin hash.0

  -- `JoinstrSigner for WpkhHotSigner`, with the `Display` of errors
  unfoldable pub hot_signer : (Error → String) → JoinstrSigner
  unfolding sign
  hot_signer display = record { sign_input = λ tx coin. map_err display (sign tx coin) }

module _ {W C : Type 0} (lib : Bitcoin) (keychain : Keychain W) (source : CoinSource C) where
  -- The coins that the electrum client finds for a script.
  unfoldable pub ask_coins : CoinPath → Script → C → Action (WpkhHotSigner C) Error ℕ
  ask_coins path spk client s =
      let (r, client') = source.get_coins_at spk client in
      let s' = record s { client = some client' } in
      elim r [
        | ok coins ↦ (ok (length coins), record s' { coins = add_coins path coins s.coins })
        | err e ↦ (err (electrum e), s')
        | panic ↦ (panic, s')
        | unfinished ↦ (unfinished, s')
      ]

  unfoldable pub get_coins_at : CoinPath → Action (WpkhHotSigner C) Error ℕ
  unfolding ask_coins
  get_coins_at path s = elim (spk_at lib keychain s path) [
    | ok spk ↦ elim s.client [
      | some client ↦ ask_coins path spk client s
      | none ↦ (err no_electrum_client, s)
    ]
    | err e ↦ (err e, s)
    | panic ↦ (panic, s)
    | unfinished ↦ (unfinished, s)
  ]
