-- ===== src/CoinJoin/Tests.antt =====
-- Runs of the coinjoin on small inputs, and its theorems at such inputs.
use mathlib.Core.List.{mem-cons_self}
use mathlib.Core.List.Perm
use joinstr.Prelude.{
  ◌>>◌, ℕ, suc, ◌+◌, ◌*◌, ◌≤◌, ◌≡◌, ◌≢◌, ◌↔◌, ◌⊎◌, refl, true, false, Option, none, some, List, [],
  ◌∷◌, map, Mem, Nodup, Perm, arith, length, push, All, ok, err,
}
use joinstr.Prelude.Sort.{IsSorted}
use joinstr.Nostr.Input.{InputDataSigned}
use joinstr.Bitcoin.{Address, Transaction}
use joinstr.Bitcoin.Example.{
  small, small-IsLawful, dedup_backwards, backwards-IsLawful, dedup, dedup-Nodup,
}
use joinstr.CoinJoin.Backend.{BitcoinBackend, double_spend, tx_already_finalyzed, unknown}
use joinstr.CoinJoin.{
  CoinJoin, generate_psbt, add_input, generate_tx, unsigned_tx, output_le, new, check_input,
  is_registered, contains,
}
use joinstr.CoinJoin.Inputs.{add_input_lem, add_input_double_spend}
use joinstr.CoinJoin.Unsigned.{
  payment, generate_psbt_lem, generate_psbt_ok_iff, generate_psbt_agree,
}
use joinstr.CoinJoin.Retry.{
  Confirms, Unused, Fails, add_input-Confirms, generate_psbt-Unused, add_input_fails,
  generate_psbt_fails,
}
use joinstr.CoinJoin.Amounts.{Totals}
use joinstr.CoinJoin.Final.{Finalized, generate_tx-Finalized, generate_tx_fee, generate_tx_again}
use joinstr.CoinJoin.Run.{Call, Inv, Keeps, run, run-new-Inv, run-Keeps}
use joinstr.CoinJoin.Run

-- A backend that knows every outpoint, with 2000 satoshis, and no address; it counts its calls.
abbrev steady : BitcoinBackend ℕ ℕ
steady = record {
  into = λ e. unknown "offline";
  address_already_used = λ a c. (ok false, suc c);
  get_outpoint_value = λ o c. (ok (some 2000), suc c);
}

-- A backend that fails at every call.
abbrev offline : BitcoinBackend ℕ ℕ
offline = record {
  into = λ e. unknown "offline";
  address_already_used = λ a c. (err c, suc c);
  get_outpoint_value = λ o c. (err c, suc c);
}

offline-Fails : Fails offline (λ c. c) suc
offline-Fails = record { value_fails = λ o c. refl; address_fails = λ a c. refl }

abbrev signed : ℕ → InputDataSigned
signed n = record {
  txin = record { previous_output = record { txid = n; vout = 0 }; sequence = 0; witness = n };
  amount = some 2000;
}

-- Three addresses, not in the order of their scripts.
abbrev gathered : Option ℕ → CoinJoin ℕ
gathered client = record {
  outputs = 30 ∷ 10 ∷ 20 ∷ [];
  psbt = none;
  inputs = [];
  tx = none;
  min_peer = 3;
  denomination = 1000;
  fee = 2;
  client = client;
}

abbrev outputs : List Address → Transaction
outputs l = record {
  version = 2;
  lock_time = 0;
  input = [];
  output = map (λ a. record { value = 1000; script_pubkey = a }) l;
}

-- The same after `generate_psbt`, with three inputs.
abbrev signed_by_all : Option ℕ → CoinJoin ℕ
signed_by_all client = record (gathered client) {
  psbt = some (record { unsigned_tx = outputs (10 ∷ 20 ∷ 30 ∷ []); inputs = [] });
  inputs = signed 7 ∷ signed 5 ∷ signed 6 ∷ [];
}

gathered-Nodup : Nodup (gathered none).outputs
unfolding dedup contains
gathered-Nodup = dedup-Nodup (30 ∷ 10 ∷ 20 ∷ [])

generates :
    generate_psbt small steady (gathered (some 0))
    ≡ (ok tt, record (gathered (some 3)) { psbt = (signed_by_all none).psbt })
unfolding generate_psbt dedup contains ◌>>◌
generates = refl

finalizes :
    (generate_tx small steady false (signed_by_all (some 0))).1.inputs
    ≡ signed 5 ∷ signed 6 ∷ signed 7 ∷ []
unfolding generate_tx ◌>>◌
finalizes = refl

generate_psbt_lem_example :
    (tx : Transaction) × (unsigned_tx (generate_psbt small steady (gathered none)).1 ≡ some tx)
    × (tx.input ≡ [])
    × Perm tx.output (map (payment small 1000) (30 ∷ 10 ∷ 20 ∷ []))
    × IsSorted (output_le small) tx.output
    × (3 ≤ length tx.output)
unfolding generate_psbt dedup contains ◌>>◌
generate_psbt_lem_example =
    generate_psbt_lem small-IsLawful steady (gathered none) gathered-Nodup refl

generate_psbt_ok_iff_example :
    ((generate_psbt small steady (gathered none)).0 ≡ ok tt)
    ↔ ((3 ≤ length (dedup (30 ∷ 10 ∷ 20 ∷ []))) × ((gathered none).psbt ≡ none))
generate_psbt_ok_iff_example = generate_psbt_ok_iff small-IsLawful steady (gathered none) refl

-- The addresses of `gathered`, as they reached another peer.
abbrev elsewhere : CoinJoin ℕ
elsewhere = record (gathered none) { outputs = 10 ∷ 30 ∷ 20 ∷ []; min_peer = 2; fee = 5 }

same_addresses : (a : Address) → Mem a (gathered none).outputs ↔ Mem a elsewhere.outputs
same_addresses a = Perm.mem_iff (Perm.swap 10 30 (20 ∷ []))

generate_psbt_agree_example :
    unsigned_tx (generate_psbt small steady (gathered (some 0))).1
    ≡ unsigned_tx (generate_psbt (record small { hash_set = dedup_backwards }) offline elsewhere).1
unfolding generate_psbt dedup contains ◌>>◌
generate_psbt_agree_example =
    generate_psbt_agree dedup_backwards small-IsLawful backwards-IsLawful steady offline
      (gathered (some 0)) elsewhere refl same_addresses refl refl

add_input_lem_example :
    let (r, s') = add_input steady (signed 8) (signed_by_all (some 0)) in
    (((r ≡ ok tt) × (s'.inputs ≡ push (signed_by_all (some 0)).inputs (signed 8)))
      ⊎ ((r ≢ ok tt) × (s'.inputs ≡ (signed_by_all (some 0)).inputs)))
    × (s' ≡ record (signed_by_all (some 0)) { inputs = s'.inputs; client = s'.client })
add_input_lem_example = add_input_lem steady (signed 8) (signed_by_all (some 0))

add_input_double_spend_example :
    add_input steady (signed 7) (signed_by_all none) ≡ (err double_spend, signed_by_all none)
add_input_double_spend_example =
    add_input_double_spend steady (signed 7) (signed_by_all none) mem-cons_self

add_input-Confirms_example : Confirms steady (signed 8)
unfolding add_input check_input ◌>>◌
add_input-Confirms_example =
    add_input-Confirms steady (signed 8) (signed_by_all (some 0)) 0 refl refl

generate_psbt-Unused_example : All (Unused steady) (dedup (30 ∷ 10 ∷ 20 ∷ []))
unfolding generate_psbt dedup contains ◌>>◌
generate_psbt-Unused_example = generate_psbt-Unused steady small (gathered (some 0)) 0 refl refl

add_input_fails_example :
    add_input offline (signed 8) (signed_by_all (some 0))
    ≡ (err (unknown "offline"), signed_by_all (some 5))
unfolding is_registered
add_input_fails_example =
    add_input_fails offline offline-Fails (signed 8) (signed_by_all (some 0)) 0 refl refl

generate_psbt_fails_example :
    generate_psbt small offline (gathered (some 0)) ≡ (err (unknown "offline"), gathered (some 5))
unfolding dedup contains
generate_psbt_fails_example =
    generate_psbt_fails offline offline-Fails small (gathered (some 0)) 30 (10 ∷ 20 ∷ []) 0 refl
      refl refl (omega arith)

finished : (generate_tx small steady false (signed_by_all (some 0))).0 ≡ ok none
unfolding generate_tx ◌>>◌
finished = refl

generate_tx-Finalized_example :
    Finalized small steady
      (signed_by_all (some 0))
      (generate_tx small steady false (signed_by_all (some 0))).1
generate_tx-Finalized_example =
    generate_tx-Finalized small-IsLawful steady (signed_by_all (some 0)) finished

abbrev final : Transaction
final = record (outputs (10 ∷ 20 ∷ 30 ∷ [])) {
  input = (signed 5).txin ∷ (signed 6).txin ∷ (signed 7).txin ∷ [];
}

generate_tx_fee_example :
    (in_total : ℕ) × Totals steady true (signed_by_all (some 0)).inputs in_total
    × (3000 + 2 * 1222 ≤ in_total)
unfolding generate_tx ◌>>◌
generate_tx_fee_example =
    generate_tx_fee small-IsLawful steady (signed_by_all (some 0)) final refl refl (omega arith)

generate_tx_again_example :
    let s' = (generate_tx small steady false (signed_by_all (some 0))).1 in
    (generate_tx small steady true s' ≡ (ok s'.tx, s'))
    × (generate_tx small steady false s' ≡ (err tx_already_finalyzed, s'))
generate_tx_again_example =
    generate_tx_again small-IsLawful steady (signed_by_all (some 0)) finished

run-new-Inv_example : Inv (
    run small steady
      (Run.adds_output 3 ∷ Run.adds_output 3 ∷ Run.generates_psbt ∷ [])
      (new 1000 (some 0)))
run-new-Inv_example =
    run-new-Inv small steady 1000 (some 0)
      (Run.adds_output 3 ∷ Run.adds_output 3 ∷ Run.generates_psbt ∷ [])

run-Keeps_example :
    Keeps
      (signed_by_all (some 0))
      (run small steady (Run.generates_psbt ∷ Run.generates_tx false ∷ []) (signed_by_all (some 0)))
run-Keeps_example =
    run-Keeps small steady (Run.generates_psbt ∷ Run.generates_tx false ∷ [])
      (signed_by_all (some 0))
