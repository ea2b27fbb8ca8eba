-- ===== src/Bitcoin.antt =====
-- What the program uses of the bitcoin and miniscript crates and of std's `HashSet`. The structs
-- have the fields that the program reads. Values that it only compares (addresses, scripts,
-- witnesses, keys) are numbers; every function on them is a field of `Bitcoin`, and what the
-- program relies on of those functions is a field of `IsLawful`.
pub mod Example
use joinstr.Prelude.{
  ℕ, ◌+◌, ◌*◌, ◌^◌, ◌<◌, ◌≡◌, ◌≢◌, ◌↔◌, Bool, true, Option, none, some, List, [], ◌∷◌, Mem, Nodup,
  ltb, ◌==◌, ◌&&◌, ◌||◌, leb,
}
use joinstr.Prelude.Sort.{IsPreorder}

abbrev pub Address : Type 0
Address = ℕ

abbrev pub Script : Type 0
Script = ℕ

abbrev pub Witness : Type 0
Witness = ℕ

-- Satoshis, a `u64`.
abbrev pub Amount : Type 0
Amount = ℕ

-- The number that the 32 bytes of the hash spell, the first byte the highest.
abbrev pub Txid : Type 0
Txid = ℕ

pub data Network : Type 0 where
  bitcoin testnet signet regtest : Network

pub record OutPoint : Type 0 where
  pub txid : Txid
  pub vout : ℕ

pub record TxIn : Type 0 where
  pub previous_output : OutPoint
  pub sequence : ℕ
  pub witness : Witness

pub record TxOut : Type 0 where
  pub value : Amount
  pub script_pubkey : Script

pub record Transaction : Type 0 where
  pub version : ℕ
  pub lock_time : ℕ
  pub input : List TxIn
  pub output : List TxOut

pub record PsbtInput : Type 0 where
  pub witness_utxo : Option TxOut
  pub sighash_type : Option ℕ
  pub final_script_witness : Option Witness

pub record Psbt : Type 0 where
  pub unsigned_tx : Transaction
  pub inputs : List PsbtInput

-- `OutPoint`'s equality.
abbrev pub outpoint_eq : OutPoint → OutPoint → Bool
outpoint_eq a b = a.txid == b.txid && a.vout == b.vout

pub record Bitcoin : Type 0 where
  pub script_pubkey : Address → Script
  pub is_valid_for_network : Address → Network → Bool
  -- `a <= b` of the scripts' order
  pub script_le : Script → Script → Bool
  -- the elements of the `HashSet` collected from a list, in the order of its iteration
  pub hash_set : List Address → List Address
  pub witness_is_empty : Witness → Bool
  pub psbt_from_unsigned_tx : Transaction → Option Psbt
  -- weight units
  pub weight : Transaction → ℕ
  -- `(fee as f64) / (weight as f64) < (rate as f64)`
  pub rate_below : (fee weight rate : ℕ) → Bool
  -- `+` and `sum` on amounts, `none` where they overflow
  pub amount_add : Amount → Amount → Option Amount
  pub amount_sum : List Amount → Option Amount

abbrev pub sum : List ℕ → ℕ
sum [] = 0
sum (x ∷ xs) = x + sum xs

pub record IsLawful (lib : Bitcoin) : Type 0 where
  pub script_order : IsPreorder lib.script_le
  pub script_antisymm : (a b : Script) → lib.script_le a b ≡ true → lib.script_le b a ≡ true → a ≡ b
  pub hash_set-Nodup : (l : List Address) → Nodup (lib.hash_set l)
  pub mem-hash_set : (a : Address) (l : List Address) → Mem a (lib.hash_set l) ↔ Mem a l
  -- a transaction with no input has no signature, so it makes a PSBT with no input
  pub psbt_of_outputs :
      (tx : Transaction)
      → tx.input ≡ []
      → lib.psbt_from_unsigned_tx tx ≡ some (record { unsigned_tx = tx; inputs = [] })
  -- rate * weight is exact in an f64, and a quotient that is below the rate is so by 1 / weight
  pub rate_below_exact :
      (fee weight rate : ℕ)
      → rate * weight < 2 ^ 53
      → lib.rate_below fee weight rate ≡ ltb fee (rate * weight)
  pub amount_add-eq : (a b c : Amount) → lib.amount_add a b ≡ some c → c ≡ a + b
  pub amount_sum-eq : (l : List Amount) (c : Amount) → lib.amount_sum l ≡ some c → c ≡ sum l
