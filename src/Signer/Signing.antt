-- ===== src/Signer/Signing.antt =====
-- What the hot signer has signed, where it signs.
use joinstr.Prelude.{
  ◌≡◌, refl, arith, true, none, some, [], ◌∷◌, inl, inr, Outcome-cases, Option-cases, ok,
}
use joinstr.Bitcoin.{Bitcoin, IsLawful, TxIn, Transaction, Psbt}
use joinstr.Nostr.Input.{InputDataSigned}
use joinstr.Signer.{Coin}
use joinstr.Signer.Keychain.{Keychain, PrivateKey, Message}
use joinstr.Signer.Hot.{WpkhHotSigner}
use joinstr.Signer.Sign.{
  sign, sign_message, signing_key, spk_at, with_coin, all_plus_anyone_can_pay,
}

module _ {W C : Type 0} (lib : Bitcoin) (keychain : Keychain W) (s : WpkhHotSigner C) where
  -- A message, signed by the key of the coin.
  pub record SignedMessage (coin : Coin) (txin : TxIn) (msg : Message) (done : InputDataSigned)
      : Type 0 where
    pub key : PrivateKey
    pub is_key : signing_key keychain s coin.coin_path ≡ ok key
    pub owns :
        lib.script_pubkey (keychain.p2wpkh (keychain.public_key key) s.network)
        ≡ coin.txout.script_pubkey
    pub verified :
        keychain.verify_ecdsa msg (keychain.sign_ecdsa_low_r msg key) (keychain.public_key key)
        ≡ true
    pub spends : done.txin.previous_output ≡ txin.previous_output
    pub sequence : done.txin.sequence ≡ txin.sequence
    pub witness :
        done.txin.witness
        ≡ keychain.witness_p2wpkh
            (keychain.sign_ecdsa_low_r msg key)
            all_plus_anyone_can_pay
            (keychain.public_key key)
    pub amount : done.amount ≡ some coin.txout.value

  sign_message-SignedMessage :
      (coin : Coin) (txin : TxIn) (msg : Message) (done : InputDataSigned)
      → sign_message lib keychain s txin coin msg ≡ ok done
      → SignedMessage coin txin msg done
  unfolding sign_message
  sign_message-SignedMessage coin txin msg done q =
      elim (Outcome-cases (signing_key keychain s coin.coin_path)) [
        | inl (key, is) ↦ record {
          key = key;
          is_key = is;
          owns = ground (arith, q, is);
          verified = ground (arith, q, is);
          spends = ground (arith, q, is);
          sequence = ground (arith, q, is);
          witness = ground (arith, q, is);
          amount = ground (arith, q, is);
        }
        | inr failed ↦ ground (arith, q, failed)
      ]

  -- What the hot signer makes of a transaction without inputs: the coin's input, signed.
  pub record SignedInput (tx : Transaction) (coin : Coin) (done : InputDataSigned) : Type 0 where
    pub psbt : Psbt
    pub msg : Message
    -- the transaction with the coin as its only input
    pub is_tx : psbt.unsigned_tx ≡ record tx {
      input =
          record {
            previous_output = coin.outpoint;
            sequence = coin.sequence;
            witness = keychain.default_witness;
          }
          ∷ [];
    }
    -- which pays what the coin is worth, and of which others may add inputs
    pub is_input :
        psbt.inputs
        ≡ record {
          witness_utxo = some coin.txout;
          sighash_type = some all_plus_anyone_can_pay;
          final_script_witness = none;
        }
          ∷ []
    pub is_msg : keychain.sighash_ecdsa psbt ≡ some (msg, all_plus_anyone_can_pay)
    pub key : PrivateKey
    pub is_key : signing_key keychain s coin.coin_path ≡ ok key
    pub is_script : spk_at lib keychain s coin.coin_path ≡ ok coin.txout.script_pubkey
    pub owns :
        lib.script_pubkey (keychain.p2wpkh (keychain.public_key key) s.network)
        ≡ coin.txout.script_pubkey
    pub verified :
        keychain.verify_ecdsa msg (keychain.sign_ecdsa_low_r msg key) (keychain.public_key key)
        ≡ true
    pub is_done : done ≡ record {
      txin = record {
        previous_output = coin.outpoint;
        sequence = coin.sequence;
        witness =
            keychain.witness_p2wpkh
              (keychain.sign_ecdsa_low_r msg key)
              all_plus_anyone_can_pay
              (keychain.public_key key);
      };
      amount = some coin.txout.value;
    }

  -- Where `sign` of a transaction without inputs succeeds, it has signed the transaction with the coin
  -- as its only input, in a way that lets others add inputs, by a key whose address is that of the
  -- coin's output and with a signature that verifies; the script of the coin is the one of its path;
  -- and what it returns is the coin's outpoint and sequence with the witness of that signature, and
  -- the coin's value.
  pub sign-SignedInput :
      (lawful : IsLawful lib) (tx : Transaction) (coin : Coin) (done : InputDataSigned)
      → tx.input ≡ []
      → sign lib keychain s tx coin ≡ ok done
      → SignedInput tx coin done
  unfolding sign
  sign-SignedInput lawful tx coin done empty q =
      let psbt : Psbt = record { unsigned_tx = tx; inputs = [] } in
      let txin : TxIn = record {
        previous_output = coin.outpoint;
        sequence = coin.sequence;
        witness = keychain.default_witness;
      } in
      let made = lawful.psbt_of_outputs tx empty in
      elim (Option-cases (keychain.sighash_ecdsa (with_coin txin coin psbt))) [
        | inl failed ↦ ground (arith, q, made, failed)
        | inr ((msg, type), is) ↦
            let script : spk_at lib keychain s coin.coin_path ≡ ok coin.txout.script_pubkey =
              ground (arith, q, made, is) in
            let kind : type ≡ all_plus_anyone_can_pay = ground (arith, q, made, is) in
            let signed : sign_message lib keychain s txin coin msg ≡ ok done =
              ground (arith, q, made, is) in
            let m = sign_message-SignedMessage coin txin msg done signed in
            record {
              psbt = with_coin txin coin psbt;
              msg = msg;
              is_tx = ground (arith, empty);
              is_input = refl;
              is_msg = rw kind at is;
              key = m.key;
              is_key = m.is_key;
              is_script = script;
              owns = m.owns;
              verified = m.verified;
              is_done = ground (arith, m.spends, m.sequence, m.witness, m.amount);
            }
      ]
