-- ===== src/Signer/Coins.antt =====
-- The map of coins as the bag of its coins: what `get_coins_at` adds, and what `list_coins` gives.
use mathlib.Core.List.Perm
use mathlib.Core.List.{
  append_assoc, perm_middle, Permᴰ, mem-cons_self, mem-cons_of_mem, eq-or-mem_of_mem-cons,
  not-mem-nil,
}
use mathlib.Core.Logic.{∥∥₁_elim, ∥∥₁_prop}
use mathlib.Core.HLevel.{⊥_prop}
use joinstr.Prelude.{
  ◌≡◌, ◌≢◌, Option-cases, refl, ap, ◌∙◌, arith, true, false, Bool-cases, none, some, List, [], ◌∷◌,
  ◌++◌, map, Mem, Perm, push, inl, inr, ok,
}
use joinstr.Bitcoin.{OutPoint, TxOut}
use joinstr.Signer.{CoinPath, Coin}
use joinstr.Signer.Hot.{
  CoinMap, path_eq, push_coin, add_coins, get_path, with_path, list_of_keys, expect,
}

-- A `HashMap`: no key stands twice.
unfoldable pub IsMap : CoinMap → Type 0
IsMap [] = Unit
IsMap ((p, l) ∷ m) = (get_path m p ≡ none) × IsMap m

-- The coins, each with its path.
unfoldable pub bag : CoinMap → List (CoinPath × Coin)
bag [] = []
bag ((p, l) ∷ m) = with_path p l ++ bag m

path_eq-eq : (a b : CoinPath) → path_eq a b ≡ true → a ≡ b
path_eq-eq a b q = ground (arith, q)

path_eq_comm : (a b : CoinPath) → path_eq a b ≡ path_eq b a
path_eq_comm a b = ground arith

path_eq_refl : (a : CoinPath) → path_eq a a ≡ true
path_eq_refl a = ground arith

get_path-push_coin :
    (m : CoinMap) (path p : CoinPath) (c : Coin)
    → path_eq path p ≡ false
    → get_path (push_coin m path c) p ≡ get_path m p
unfolding get_path push_coin
get_path-push_coin [] path p c q = ground (arith, q)
get_path-push_coin ((j, l) ∷ m) path p c q =
    ground (arith, q, get_path-push_coin m path p c q, path_eq-eq j path)

push_coin-IsMap : (m : CoinMap) (path : CoinPath) (c : Coin) → IsMap m → IsMap (push_coin m path c)
unfolding IsMap push_coin get_path
push_coin-IsMap [] path c h = (refl, tt)
push_coin-IsMap ((p, l) ∷ m) path c (fresh, rest) = elim (Bool-cases (path_eq p path)) [
  | inl same ↦ rw same (fresh, rest)
  | inr other ↦ rw other (
    get_path-push_coin m path p c (path_eq_comm path p ∙ other) ∙ fresh,
    push_coin-IsMap m path c rest,
  )
]

with_path-push :
    (p : CoinPath) (l : List Coin) (c : Coin) → with_path p (push l c) ≡ push (with_path p l) (p, c)
unfolding with_path
with_path-push p [] c = refl
with_path-push p (x ∷ l) c = ap (λ r. (p, x) ∷ r) (with_path-push p l c)

push_coin-bag :
    (m : CoinMap) (path : CoinPath) (c : Coin) → Perm (bag (push_coin m path c)) ((path, c) ∷ bag m)
unfolding bag push_coin with_path
push_coin-bag [] path c = Perm.rfl
push_coin-bag ((p, l) ∷ m) path c = elim (Bool-cases (path_eq p path)) [
  | inl same ↦ rw same (
      rw (with_path-push p l c) (
        rw (append_assoc (with_path p l) ((p, c) ∷ []) (bag m)) (
          Perm.trans (perm_middle (with_path p l) (bag m))
            (Perm.cons' (ap (λ (k : CoinPath). (k, c)) (path_eq-eq p path same)) Perm.rfl))))
  | inr other ↦ rw other (
      Perm.trans (Perm.append_left (with_path p l) (push_coin-bag m path c))
        (perm_middle (with_path p l) (bag m)))
]

-- The coin of an output that pays to a path.
unfoldable pub coin_of : CoinPath → TxOut × OutPoint → CoinPath × Coin
coin_of path (txout, outpoint) =
    (path, record { txout = txout; outpoint = outpoint; sequence = 4294967293; coin_path = path })

pub add_coins-IsMap :
    (path : CoinPath) (l : List (TxOut × OutPoint)) (m : CoinMap)
    → IsMap m
    → IsMap (add_coins path l m)
unfolding add_coins
add_coins-IsMap path [] m h = h
add_coins-IsMap path ((o, p) ∷ l) m h = add_coins-IsMap path l _ (push_coin-IsMap m path _ h)

pub add_coins-bag :
    (path : CoinPath) (l : List (TxOut × OutPoint)) (m : CoinMap)
    → Perm (bag (add_coins path l m)) (map (coin_of path) l ++ bag m)
unfolding add_coins coin_of
add_coins-bag path [] m = Perm.rfl
add_coins-bag path ((o, p) ∷ l) m =
    let c : Coin = record { txout = o; outpoint = p; sequence = 4294967293; coin_path = path } in
    Perm.trans (add_coins-bag path l (push_coin m path c)) (
      Perm.trans (Perm.append_left (map (coin_of path) l) (push_coin-bag m path c))
        (perm_middle (map (coin_of path) l) (bag m)))

-- The coins at a path, none where the map does not know it.
unfoldable pub coins_at : CoinMap → CoinPath → List (CoinPath × Coin)
unfolding get_path with_path
coins_at m k = elim (get_path m k) [ none ↦ [] | some l ↦ with_path k l ]

unfoldable pub coins_of_keys : CoinMap → List CoinPath → List (CoinPath × Coin)
unfolding coins_at
coins_of_keys m [] = []
coins_of_keys m (k ∷ ks) = coins_at m k ++ coins_of_keys m ks

pub swap_front : {A : Type 0} (a b r : List A) → Perm (a ++ (b ++ r)) (b ++ (a ++ r))
swap_front [] b r = Perm.rfl
swap_front (x ∷ a) b r =
    Perm.trans (Perm.cons x (swap_front a b r)) (Perm.symm (perm_middle b (a ++ r)))

coins_of_keys-permᴰ :
    (m : CoinMap) {ks js : List CoinPath}
    → Permᴰ ks js
    → Perm (coins_of_keys m ks) (coins_of_keys m js)
unfolding coins_of_keys
coins_of_keys-permᴰ m Permᴰ.nil = Perm.rfl
coins_of_keys-permᴰ m (Permᴰ.cons {a = a} e p) = rw e (Perm.append_left _ (coins_of_keys-permᴰ m p))
coins_of_keys-permᴰ m (Permᴰ.swap {a' = a'} {b' = b'} {l = l} e f) =
    rw (e, f) (swap_front (coins_at m b') (coins_at m a') (coins_of_keys m l))
coins_of_keys-permᴰ m (Permᴰ.trans p q) =
    Perm.trans (coins_of_keys-permᴰ m p) (coins_of_keys-permᴰ m q)

-- Keys that the map has.
unfoldable pub AllKnown : CoinMap → List CoinPath → Type 0
AllKnown m ks = (k : CoinPath) → Mem k ks → get_path m k ≢ none

list_of_keys-coins_of_keys :
    (m : CoinMap) (ks : List CoinPath) → AllKnown m ks → list_of_keys m ks ≡ ok (coins_of_keys m ks)
unfolding list_of_keys coins_of_keys AllKnown expect
list_of_keys-coins_of_keys m [] known = refl
list_of_keys-coins_of_keys m (k ∷ ks) known =
    let rest = list_of_keys-coins_of_keys m ks (λ j q. known j (mem-cons_of_mem k q)) in
    elim (Option-cases (get_path m k)) [
      | inl unknown ↦ absurd (known k mem-cons_self unknown)
      | inr (l, has) ↦ ground (arith, has, rest)
    ]

-- Another key in front changes nothing for the keys that are not it.
coins_of_keys-skip :
    (p : CoinPath) (l : List Coin) (m : CoinMap) (ks : List CoinPath)
    → ((k : CoinPath) → Mem k ks → path_eq p k ≡ false)
    → coins_of_keys ((p, l) ∷ m) ks ≡ coins_of_keys m ks
unfolding coins_of_keys
coins_of_keys-skip p l m [] apart = refl
coins_of_keys-skip p l m (k ∷ ks) apart = ground (
  arith,
  apart k mem-cons_self,
  coins_of_keys-skip p l m ks (λ j q. apart j (mem-cons_of_mem k q)),
)

abbrev pub keys : CoinMap → List CoinPath
keys m = map (λ (e : CoinPath × List Coin). e.0) m

keys_known : (m : CoinMap) → AllKnown m (keys m)
unfolding AllKnown get_path
keys_known [] k q = absurd (not-mem-nil q)
keys_known ((p, l) ∷ m) k q = λ unknown. ∥∥₁_elim (eq-or-mem_of_mem-cons q) ⊥_prop (λ s. elim s [
  | inl e ↦ ground (arith, e, path_eq_refl k, unknown)
  | inr rest ↦ keys_known m k rest (ground (arith, unknown))
])

fresh_apart :
    (m : CoinMap) (p : CoinPath)
    → get_path m p ≡ none
    → (k : CoinPath) → Mem k (keys m)
    → path_eq p k ≡ false
unfolding AllKnown
fresh_apart m p fresh k mem = elim (Bool-cases (path_eq p k)) [
  | inl same ↦ absurd (keys_known m p (rw (path_eq-eq p k same) mem) fresh)
  | inr other ↦ other
]

coins_of_keys-bag : (m : CoinMap) → IsMap m → coins_of_keys m (keys m) ≡ bag m
unfolding coins_of_keys bag IsMap
coins_of_keys-bag [] h = refl
coins_of_keys-bag ((p, l) ∷ m) (fresh, rest) = ground (
  arith,
  path_eq_refl p,
  coins_of_keys-skip p l m (keys m) (fresh_apart m p fresh),
  coins_of_keys-bag m rest,
)

-- Whatever the order of its keys, all coins of a map are listed.
pub list_of_keys-bag :
    (m : CoinMap) (ks : List CoinPath)
    → IsMap m
    → Perm ks (keys m)
    → (l : List (CoinPath × Coin)) × (list_of_keys m ks ≡ ok l) × Perm l (bag m)
unfolding AllKnown
list_of_keys-bag m ks h p = (
  coins_of_keys m ks,
  list_of_keys-coins_of_keys m ks (λ k q. keys_known m k ((Perm.mem_iff p).0 q)),
  Perm.trans (∥∥₁_elim p ∥∥₁_prop (coins_of_keys-permᴰ m)) (rw (coins_of_keys-bag m h) Perm.rfl),
)
