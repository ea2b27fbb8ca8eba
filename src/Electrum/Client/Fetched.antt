-- ===== src/Electrum/Client/Fetched.antt =====
-- `get_coins_at` against a reference: the coins of all transactions of the history.
use joinstr.Prelude.{
  ℕ, ◌≡◌, ◌∙◌, sym, refl, inl, inr, List, [], ◌∷◌, ◌++◌, arith, ok, Outcome-cases, ◌>>◌,
}
use mathlib.Core.List.{append_assoc, append-nil}
use joinstr.Prelude.Dict.{insert}
use joinstr.Bitcoin.{Script, Txid, OutPoint, TxOut, Transaction}
use joinstr.Electrum.Client.{
  Sockets, Codec, Client, coins_from, get_tx, collect_coins, get_coins_at, get_coins_tx_at,
}

-- The coins of a list of transactions.
pub coins_of : Script → List (Txid × Transaction) → List (TxOut × OutPoint)
coins_of script [] = []
coins_of script ((txid, tx) ∷ l) = coins_from script txid 0 tx.output ++ coins_of script l

pub insert_all : List (ℕ × Transaction) → List (Txid × Transaction) → List (ℕ × Transaction)
insert_all m [] = m
insert_all m ((txid, tx) ∷ l) = insert_all (insert m txid tx) l

module _ {R W : Type 0} (sockets : Sockets R W) (codec : Codec) where
  -- The transactions that `get_tx` returns for the ids, one call after the other.
  abbrev pub Fetched : List Txid → Client R → List (Txid × Transaction) → Client R → Type 0
  Fetched [] c [] d = d ≡ c
  Fetched [] c (f ∷ l) d = ⊥
  Fetched (t ∷ ts) c [] d = ⊥
  Fetched (t ∷ ts) c ((u, tx) ∷ l) d =
      (u ≡ t) × ((get_tx sockets codec t c).0 ≡ ok tx) × Fetched ts (get_tx sockets codec t c).1 l d

  -- What the loop has found of the transactions `l`, from `found`.
  abbrev Gathers :
      Script
      → List Txid
      → List (TxOut × OutPoint) × List (ℕ × Transaction)
      → Client R
      → List (TxOut × OutPoint) × List (ℕ × Transaction)
      → Client R
      → Type 0
  Gathers script txids found c r d =
      (l : List (Txid × Transaction)) × Fetched txids c l d
      × (r.0 ≡ found.0 ++ coins_of script l)
      × (r.1 ≡ insert_all found.1 l)

  collect_coins-Gathers :
      (script : Script) (txids : List Txid)
      (found : List (TxOut × OutPoint) × List (ℕ × Transaction)) (c : Client R)
      (r : List (TxOut × OutPoint) × List (ℕ × Transaction))
      → (collect_coins sockets codec script txids found c).0 ≡ ok r
      → Gathers script txids found c r (collect_coins sockets codec script txids found c).1
  unfolding collect_coins coins_of insert_all ◌>>◌
  collect_coins-Gathers script [] found c r e =
      let same : found ≡ r = ground arith in
      ([], refl, rw (← same) (sym (append-nil _)), rw (← same) refl)
  collect_coins-Gathers script (txid ∷ txids) found c r e =
      elim (Outcome-cases (get_tx sockets codec txid c).0) [
        | inr failed ↦ absurd (ground arith)
        | inl (tx, f) ↦
            let (l, fetched, coins, all) =
              collect_coins-Gathers script txids
                (found.0 ++ coins_from script txid 0 tx.output, insert found.1 txid tx)
                (get_tx sockets codec txid c).1 r (ground arith) in
            let after : (collect_coins sockets codec script (txid ∷ txids) found c).1
                ≡ (collect_coins sockets codec script txids
                    (found.0 ++ coins_from script txid 0 tx.output, insert found.1 txid tx)
                    (get_tx sockets codec txid c).1).1 =
              ground (arith, f) in
            rw after (
              (txid, tx) ∷ l,
              (refl, f, fetched),
              coins ∙ append_assoc found.0 (coins_from script txid 0 tx.output) (coins_of script l),
              all,
            )
      ]

  -- Where `get_coins_at` succeeds, it returns the coins that pay to the script of all transactions
  -- of the script's history, in the order of the history, and these transactions by their ids.
  pub get_coins_at_lem :
      (script : Script) (c : Client R) (coins : List (TxOut × OutPoint))
      (txs : List (ℕ × Transaction))
      → (get_coins_at sockets codec script c).0 ≡ ok (coins, txs)
      → (history : List Txid) × (fetched : List (Txid × Transaction)) × ((get_coins_tx_at sockets
            codec script c).0
          ≡ ok history)
        × Fetched history
            (get_coins_tx_at sockets codec script c).1
            fetched
            (get_coins_at sockets codec script c).1
        × (coins ≡ coins_of script fetched)
        × (txs ≡ insert_all [] fetched)
  unfolding get_coins_at ◌>>◌
  get_coins_at_lem script c coins txs e =
      elim (Outcome-cases (get_coins_tx_at sockets codec script c).0) [
        | inr failed ↦ absurd (ground arith)
        | inl (history, f) ↦
            let (l, fetched, found, all) =
              collect_coins-Gathers script history ([], [])
                (get_coins_tx_at sockets codec script c).1 (coins, txs) (ground arith) in
            let after : (get_coins_at sockets codec script c).1
                ≡ (collect_coins sockets codec script history ([], [])
                    (get_coins_tx_at sockets codec script c).1).1 =
              ground (arith, f) in
            (history, l, f, rw after fetched, found, all)
      ]
