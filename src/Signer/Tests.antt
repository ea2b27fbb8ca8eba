-- ===== src/Signer/Tests.antt =====
-- A hot signer on regtest that signs a coin, and asks for the coins of two paths.
use mathlib.Core.List.Perm
use joinstr.Prelude.{◌≡◌, refl, ℕ, ◌+◌, none, some, List, [], ◌∷◌, ok}
use joinstr.Bitcoin.{Transaction, TxOut, OutPoint, regtest}
use joinstr.Bitcoin.Example.{small, small-IsLawful}
use joinstr.Nostr.Input.{InputDataSigned}
use joinstr.Signer.{CoinPath, Coin}
use joinstr.Signer.Example.{keychain}
use joinstr.Signer.Hot.{WpkhHotSigner, CoinSource, CoinMap, add_coins, get_path}
use joinstr.Signer.Sign.{sign, get_coins_at, sign_message, spk_at}
use joinstr.Signer.Coins.{IsMap}
use joinstr.Signer.Signing.{SignedInput, sign-SignedInput}
use joinstr.Signer.Bag.{Added, get_coins_at-Added}

abbrev path : ℕ → CoinPath
path i = record { depth = 0; index = some i }

abbrev coin : Coin
coin = record {
  txout = record { value = 1000; script_pubkey = 30 };
  outpoint = record { txid = 4; vout = 1 };
  sequence = 3;
  coin_path = path 2;
}

abbrev signer : CoinMap → WpkhHotSigner ℕ
signer coins = record {
  key = 12;
  master_xpriv = 12;
  fingerprint = 6;
  mnemonic = none;
  secret_key = 12;
  network = regtest;
  coins = coins;
  client = some 0;
}

abbrev tx : Transaction
tx = record {
  version = 2;
  lock_time = 0;
  input = [];
  output = record { value = 900; script_pubkey = 31 } ∷ [];
}

-- The key is 12 + 7, and the signature 99 + 19.
abbrev signed : InputDataSigned
signed = record {
  txin = record { previous_output = coin.outpoint; sequence = 3; witness = 118 };
  amount = some 1000;
}

signs : sign small keychain (signer []) tx coin ≡ ok signed
unfolding sign sign_message spk_at
signs = refl

sign-SignedInput_example : SignedInput small keychain (signer []) tx coin signed
sign-SignedInput_example =
    sign-SignedInput small keychain (signer []) small-IsLawful tx coin signed refl signs

abbrev found : ℕ → ℕ → List (TxOut × OutPoint)
found spk c =
    (coin.txout, record { txid = spk; vout = c })
    ∷ (coin.txout, record { txid = spk; vout = c + 1 })
    ∷ []

abbrev source : CoinSource ℕ
source = record { get_coins_at = λ spk c. (ok (found spk c), c + 2) }

abbrev held : CoinMap
held = (path 1, coin ∷ []) ∷ (path 2, coin ∷ []) ∷ []

held-IsMap : IsMap held
unfolding IsMap get_path
held-IsMap = (refl, (refl, tt))

abbrev more : WpkhHotSigner ℕ
more = record (signer (add_coins (path 2) (found 30 0) held)) { client = some 2 }

finds : get_coins_at small keychain source (path 2) (signer held) ≡ (ok 2, more)
unfolding get_coins_at spk_at
finds = refl

get_coins_at-Added_example : Added small keychain source (λ l. l) (path 2) (signer held) more 2
get_coins_at-Added_example =
    get_coins_at-Added small keychain source (λ l. l) (path 2) (signer held) more 2 (λ l. Perm.rfl)
      held-IsMap finds
