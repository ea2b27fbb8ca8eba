-- ===== src/Signer/Bag.antt =====
-- A hot signer holds a bag of coins: `get_coins_at` adds to it, and `list_coins` shows it.
use mathlib.Core.List.Perm
use joinstr.Prelude.{
  ◌≡◌, arith, ℕ, some, List, ◌++◌, map, Perm, length, inl, inr, Option-cases, Outcome-cases, ok,
}
use joinstr.Bitcoin.{OutPoint, TxOut, Bitcoin, Script}
use joinstr.Signer.{CoinPath, Coin}
use joinstr.Signer.Keychain.{Keychain}
use joinstr.Signer.Hot.{WpkhHotSigner, CoinSource, add_coins, list_coins}
use joinstr.Signer.Sign.{get_coins_at, spk_at}
use joinstr.Signer.Coins.{IsMap, bag, coin_of, add_coins-IsMap, add_coins-bag, list_of_keys-bag}

module _ {W C : Type 0} (lib : Bitcoin) (keychain : Keychain W) (source : CoinSource C) where
  -- What a call of `get_coins_at` has added.
  pub record Added (order : List CoinPath → List CoinPath) (path : CoinPath)
      (s s' : WpkhHotSigner C) (n : ℕ) : Type 0 where
    pub client : C
    pub has_client : s.client ≡ some client
    pub spk : Script
    pub is_spk : spk_at lib keychain s path ≡ ok spk
    pub found : List (TxOut × OutPoint)
    pub is_found : (source.get_coins_at spk client).0 ≡ ok found
    pub counted : n ≡ length found
    pub before : List (CoinPath × Coin)
    pub was : list_coins order s ≡ ok before
    pub after : List (CoinPath × Coin)
    pub is_now : list_coins order s' ≡ ok after
    pub adds : Perm after (map (coin_of path) found ++ before)
    pub is_map : IsMap s'.coins

  found_lem :
      (path : CoinPath) (s s' : WpkhHotSigner C) (n : ℕ)
      → get_coins_at lib keychain source path s ≡ (ok n, s')
      → (client : C) × (spk : Script) × (found : List (TxOut × OutPoint)) × (s.client ≡ some client)
        × (spk_at lib keychain s path ≡ ok spk)
        × ((source.get_coins_at spk client).0 ≡ ok found)
        × (n ≡ length found)
        × (s'.coins ≡ add_coins path found s.coins)
  unfolding get_coins_at
  found_lem path s s' n q = elim (Outcome-cases (spk_at lib keychain s path)) [
    | inr failed ↦ ground (arith, q, failed)
    | inl (spk, is) ↦ elim (Option-cases s.client) [
      | inl gone ↦ ground (arith, q, is, gone)
      | inr (client, has) ↦ elim (Outcome-cases (source.get_coins_at spk client).0) [
        | inr failed ↦ ground (arith, q, is, has, failed)
        | inl (found, got) ↦ (
          client,
          spk,
          found,
          has,
          is,
          got,
          ground (arith, q, is, has, got),
          ground (arith, q, is, has, got),
        )
      ]
    ]
  ]

  -- Where `get_coins_at` succeeds, it has asked its electrum client for the coins of the path's script
  -- and returns how many there are; and `list_coins`, which panics neither before nor after, lists up
  -- to order what it listed before and these coins, whatever the order in which the map gives its
  -- keys. No key stands twice in the map then, as before.
  pub get_coins_at-Added :
      (order : List CoinPath → List CoinPath) (path : CoinPath) (s s' : WpkhHotSigner C) (n : ℕ)
      → ((l : List CoinPath) → Perm (order l) l)
      → IsMap s.coins
      → get_coins_at lib keychain source path s ≡ (ok n, s')
      → Added order path s s' n
  unfolding list_coins
  get_coins_at-Added order path s s' n shuffles h q =
      let (client, spk, found, has, is, got, counted, coins) = found_lem path s s' n q in
      let now_map : IsMap s'.coins = rw coins (add_coins-IsMap path found s.coins h) in
      let (before, was, same) = list_of_keys-bag s.coins _ h (shuffles _) in
      let (after, is_now, all) = list_of_keys-bag s'.coins _ now_map (shuffles _) in
      let grown : Perm (bag s'.coins) (map (coin_of path) found ++ bag s.coins) =
        rw coins (add_coins-bag path found s.coins) in
      record {
        client = client;
        has_client = has;
        spk = spk;
        is_spk = is;
        found = found;
        is_found = got;
        counted = counted;
        before = before;
        was = was;
        after = after;
        is_now = is_now;
        adds = Perm.trans all (Perm.trans grown (Perm.append_left _ (Perm.symm same)));
        is_map = now_map;
      }
