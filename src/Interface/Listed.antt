-- ===== src/Interface/Listed.antt =====
-- What `list_coins` lists.
use mathlib.Core.List.Perm
use mathlib.Core.List.{append_assoc, append-nil}
use Prim.Native.String.{String}
use joinstr.Prelude.{
  ◌≡◌, ◌∙◌, ◌<◌, ◌≤◌, runs, Ensures, Ensures-bind, Ensures-yields, Ensures-pure, refl, ap, arith,
  none, map_err, ℕ, zero, suc, ◌+◌, ◌-◌, some, List, [], ◌++◌, map, Perm, Action, ok, Outcome-cases,
  inl, inr, ◌>>◌, pure, yields,
}
use joinstr.Bitcoin.{OutPoint, TxOut, Script, Network}
use joinstr.Signer.{CoinPath, Coin}
use joinstr.Signer.Keychain.{Keychain}
use joinstr.Signer.Hot.{
  WpkhHotSigner, CoinSource, add_coins, new_path, new_from_mnemonics, new_from_xpriv, set_client,
  list_coins as list_signer,
}
use joinstr.Signer.Sign.{get_coins_at, spk_at}
use joinstr.Signer.Coins.{
  IsMap, bag, coin_of, add_coins-IsMap, add_coins-bag, list_of_keys-bag, swap_front,
}
use joinstr.Joinstr.Host.{Host}
use joinstr.Joinstr.Configured.{anything, known}
use joinstr.Interface.{
  Error, signer, open_signer, open_electrum, look_at, scan, scanned, list_coins,
}

module _ (spk : CoinPath → Script) (found : Script → List (TxOut × OutPoint)) where
  -- The coins of a path, in the order in which they are found.
  unfoldable pub coins_of : CoinPath → List (CoinPath × Coin)
  coins_of p = map (coin_of p) (found (spk p))

  -- The coins of the first and second addresses of `count` indexes.
  unfoldable pub coins_between : (first count : ℕ) → List (CoinPath × Coin)
  unfolding coins_of new_path
  coins_between i zero = []
  coins_between i (suc count) =
      coins_of (new_path 0 i) ++ (coins_of (new_path 1 i) ++ coins_between (i + 1) count)

module _ {N C W : Type 0} (host : Host N C W) (keychain : Keychain W)
    (spk : CoinPath → Script) where
  -- The addresses that a signer derives: receive and change, for `count` indexes from the first.
  abbrev pub Derives : (first count : ℕ) → WpkhHotSigner C → Type 0
  Derives first count s =
      (d i : ℕ)
      → d < 2
      → first ≤ i
      → i < first + count
      → spk_at host.bitcoin keychain s (new_path d i) ≡ ok (spk (new_path d i))

module _ {N C W : Type 0} (host : Host N C W) (keychain : Keychain W) (source : CoinSource C)
    (spk : CoinPath → Script) (found : Script → List (TxOut × OutPoint)) where
  -- What a signer has become that has looked at these coins.
  record Sees (s s' : WpkhHotSigner C) (l : List (CoinPath × Coin)) : Type 0 where
    client : C
    has_client : s'.client ≡ some client
    same_key : s' ≡ record s { client = s'.client; coins = s'.coins }
    is_map : IsMap s'.coins
    sees : Perm (bag s'.coins) (l ++ bag s.coins)

  look_at_lem :
      ((s : Script) (c : C) → (source.get_coins_at s c).0 ≡ ok (found s))
      → (d i : ℕ) (s : WpkhHotSigner C) (c : C) → s.client ≡ some c
      → spk_at host.bitcoin keychain s (new_path d i) ≡ ok (spk (new_path d i))
      → look_at host keychain source (new_path d i) s ≡ (
        ok tt,
        record s {
          client = some (source.get_coins_at (spk (new_path d i)) c).1;
          coins = add_coins (new_path d i) (found (spk (new_path d i))) s.coins;
        },
      )
  unfolding look_at get_coins_at
  look_at_lem answers d i s c has derives =
      ground (arith, has, derives, answers (spk (new_path d i)) c)

  -- A call that succeeds, and has looked at these coins.
  abbrev Looks :
      Action (WpkhHotSigner C) Error (Unit {0}) → WpkhHotSigner C → List (CoinPath × Coin) → Type 0
  Looks m s l = (s' : WpkhHotSigner C) × (m s ≡ (ok tt, s')) × Sees s s' l

  Sees-trans :
      {s s' s'' : WpkhHotSigner C} {k l : List (CoinPath × Coin)}
      → Sees s s' l
      → Sees s' s'' k
      → Sees s s'' (l ++ k)
  Sees-trans {s = s} {k = k} {l = l} a b = record {
    client = b.client;
    has_client = b.has_client;
    same_key = ground (arith, a.same_key, b.same_key);
    is_map = b.is_map;
    sees =
        rw (append_assoc l k (bag s.coins)) (
          Perm.trans b.sees
            (Perm.trans (Perm.append_left k a.sees) (swap_front k l (bag s.coins))));
  }

  Looks-then :
      (m k : Action (WpkhHotSigner C) Error (Unit {0})) {s : WpkhHotSigner C}
      {l r : List (CoinPath × Coin)}
      → Looks m s l
      → ((s' : WpkhHotSigner C) → Sees s s' l → Looks k s' r)
      → Looks (m >> k) s (l ++ r)
  unfolding ◌>>◌
  Looks-then m k {s = s} (s', q, sees) next =
      let (s'', q', more) = next s' sees in
      (s'', runs m (λ _. k) s tt s' q ∙ q', Sees-trans sees more)

  module _ (answers : (s : Script) (c : C) → (source.get_coins_at s c).0 ≡ ok (found s)) where
    look_at-Looks :
        (d i : ℕ) (s : WpkhHotSigner C) (c : C)
        → s.client ≡ some c
        → spk_at host.bitcoin keychain s (new_path d i) ≡ ok (spk (new_path d i))
        → IsMap s.coins
        → Looks (look_at host keychain source (new_path d i)) s (coins_of spk found (new_path d i))
    unfolding coins_of spk_at
    look_at-Looks d i s c has derives is_map = (
      _,
      look_at_lem answers d i s c has derives,
      record {
        client = (source.get_coins_at (spk (new_path d i)) c).1;
        has_client = refl;
        same_key = refl;
        is_map = add_coins-IsMap (new_path d i) (found (spk (new_path d i))) s.coins is_map;
        sees = add_coins-bag (new_path d i) (found (spk (new_path d i))) s.coins;
      },
    )

    scan-Looks :
        (first count : ℕ) (s : WpkhHotSigner C) (c : C)
        → s.client ≡ some c
        → Derives host keychain spk first count s
        → IsMap s.coins
        → Looks (scan host keychain source first count) s (coins_between spk found first count)
    unfolding scan coins_between pure spk_at
    scan-Looks i zero s c has derives is_map = (
      s,
      refl,
      record { client = c; has_client = has; same_key = refl; is_map = is_map; sees = Perm.rfl },
    )
    scan-Looks i (suc count) s c has derives is_map =
        let now : (d : ℕ)
            → d < 2
            → spk_at host.bitcoin keychain s (new_path d i) ≡ ok (spk (new_path d i)) =
          λ d h. derives d i h (omega arith) (omega arith) in
        Looks-then _ _ (look_at-Looks 0 i s c has (now 0 (omega arith)) is_map) (λ s1 a.
          Looks-then _ _
            (look_at-Looks 1 i s1 a.client a.has_client (rw a.same_key (now 1 (omega arith)))
              a.is_map)
            (λ s2 b.
              scan-Looks (i + 1) count s2 b.client b.has_client
                (λ d k h from to.
                  rw (b.same_key, a.same_key)
                    (derives d k h (omega (arith, from)) (omega (arith, to))))
                b.is_map))

    scanned_lem :
        (order : List CoinPath → List CoinPath) (first last : ℕ) (s : WpkhHotSigner C) (c : C)
        → ((l : List CoinPath) → Perm (order l) l)
        → s.client ≡ some c
        → Derives host keychain spk first (last - first) s
        → s.coins ≡ []
        → (l : List (CoinPath × Coin)) × (scanned host keychain source order (first, last) s
            ≡ ok (map (λ e. e.1) l))
          × Perm l (coins_between spk found first (last - first))
    unfolding scanned list_signer IsMap bag
    scanned_lem order first last s c shuffles has derives empty =
        let (s', q, sees) = scan-Looks first (last - first) s c has derives (rw empty tt) in
        let (l, listed, all) = list_of_keys-bag s'.coins _ sees.is_map (shuffles _) in
        (
          l,
          ground (arith, q, listed),
          Perm.trans all
              (rw (empty, append-nil (coins_between spk found first (last - first))) at sees.sees),
        )

fresh_lem :
    {W C : Type 0} (keychain : Keychain W) (network : Network) (text : String) (s : WpkhHotSigner C)
    → new_from_mnemonics keychain network text ≡ ok s
    → (s.client ≡ none) × (s.coins ≡ [])
unfolding new_from_mnemonics new_from_xpriv
fresh_lem keychain network text s q = (ground (arith, q), ground (arith, q))

fresh_of_call :
    {W C : Type 0} (keychain : Keychain W) (network : Network) (text : String) (s : WpkhHotSigner C)
    → map_err {F = Error} signer (new_from_mnemonics keychain network text) ≡ ok s
    → (s.client ≡ none) × (s.coins ≡ [])
fresh_of_call {C = C} keychain network text s q =
    elim (Outcome-cases (new_from_mnemonics keychain {C = C} network text)) [
      | inl (fresh, is) ↦ fresh_lem keychain network text s (ground (arith, q, is))
      | inr failed ↦ absurd (ground (arith, q, failed))
    ]

module _ {N C W : Type 0} (host : Host N C W) (keychain : Keychain W) where
  -- A signer that is opened has a client, and no coins.
  opened_lem :
      (network : Network) (mnemonics url : String) (port : ℕ)
      → Ensures
          (λ _. Unit {0})
          (λ s _. (c : C) × (s.client ≡ some c) × (s.coins ≡ []))
          (open_signer host keychain network mnemonics url port)
  unfolding open_signer set_client
  opened_lem network mnemonics url port = Ensures-bind (Ensures-yields {P = λ _. Unit {0}} _) (λ s.
      Ensures-bind (known {Q = λ _ _. Unit {0}} (anything (open_electrum host url port))) (λ c.
        Ensures-pure _ (λ w h.
          let (unset, empty) = fresh_of_call keychain network mnemonics s h.1 in
          (c, ground (arith, unset), ground (arith, unset, empty)))))

  -- Where the electrum server answers every script with the same outputs whenever it is asked, and the
  -- signer can be made and derives the receive and the change address of each index from the first
  -- to before the last, `list_coins` succeeds, and lists, in
  -- some order, exactly the coins of the outputs that the server knows for the receive and the change
  -- address of each index from the first to before the last.
  pub list_coins_lem :
      (source : CoinSource C) (spk : CoinPath → Script) (found : Script → List (TxOut × OutPoint))
      (order : List CoinPath → List CoinPath) (mnemonics url : String) (port first last : ℕ)
      (network : Network) (w w' : W) (s : WpkhHotSigner C)
      → ((s : Script) (c : C) → (source.get_coins_at s c).0 ≡ ok (found s))
      → ((l : List CoinPath) → Perm (order l) l)
      → open_signer host keychain network mnemonics url port w ≡ (ok s, w')
      → Derives host keychain spk first (last - first) s
      → (l : List (CoinPath × Coin)) × (list_coins host keychain source order mnemonics url port
            (first, last)
            network
            w
          ≡ (ok (map (λ e. e.1) l), w'))
        × Perm l (coins_between spk found first (last - first))
  unfolding list_coins yields
  list_coins_lem source spk found order mnemonics url port first last network w w' s answers
        shuffles q derives =
      let (c, has, empty) =
        (opened_lem network mnemonics url port).holds w tt s (ap (λ r. r.0) q) in
      let (l, listed, all) =
        scanned_lem host keychain source spk found answers order first last s c shuffles has derives
          empty in
      (
        l,
        runs (open_signer host keychain network mnemonics url port) _ w s w' q
            ∙ ap (λ r. (r, w')) listed,
        all,
      )
