-- ===== src/CoinJoin/Unsigned.antt =====
-- The unsigned transaction that `generate_psbt` makes of the outputs.
use mathlib.Core.List.{perm_ext_iff_of_Nodup, map-map}
use mathlib.Core.List.Perm
use joinstr.Prelude.{
  ◌>>◌, ◌≤◌, ◌≡◌, ◌≢◌, ◌↔◌, refl, ap, ◌∙◌, sym, Bool, none, some, List, [], map, Mem, Nodup, Perm,
  arith, length, length-map, length-perm, ok,
}
use joinstr.Prelude.Sort.{
  IsPreorder, sort_by, IsSorted, sort_by-map, sort_by-perm, sort_by-IsSorted, IsSorted-eq_of_perm,
}
use joinstr.Bitcoin.{Address, Amount, Script, TxOut, Transaction, Bitcoin, IsLawful}
use joinstr.CoinJoin.Backend.{BitcoinBackend}
use joinstr.CoinJoin.{CoinJoin, generate_psbt, unsigned_tx, sorted_outputs, output_le, outputs_tx}

-- What a successful `generate_psbt` has found and done; `inputs`, `tx` and the settings stay.
pub record Prepared {C : Type 0} (lib : Bitcoin) (s s' : CoinJoin C) : Type 0 where
  pub enough : s.min_peer ≤ length (lib.hash_set s.outputs)
  pub fresh : s.psbt ≡ none
  pub made :
      lib.psbt_from_unsigned_tx
        (outputs_tx (sorted_outputs lib s.denomination (lib.hash_set s.outputs)))
      ≡ s'.psbt
  pub is_made : s'.psbt ≢ none
  pub same_outputs : s'.outputs ≡ s.outputs
  pub same_inputs : s'.inputs ≡ s.inputs
  pub same_tx : s'.tx ≡ s.tx

module _ (lib : Bitcoin) {C E : Type 0} (backend : BitcoinBackend C E) where
  pub generate_psbt-Prepared :
      (s : CoinJoin C)
      → (generate_psbt lib backend s).0 ≡ ok tt
      → Prepared lib s (generate_psbt lib backend s).1
  unfolding generate_psbt ◌>>◌
  generate_psbt-Prepared s h = ground arith

-- The output that pays the denomination to an address.
abbrev pub payment : Bitcoin → Amount → Address → TxOut
payment lib denomination a = record { value = denomination; script_pubkey = lib.script_pubkey a }

module _ (lib : Bitcoin) where
  abbrev pays : Amount → Script → TxOut
  pays denomination script = record { value = denomination; script_pubkey = script }

  -- Sorting by script does not look at the amount.
  sorted_outputs-eq :
      (denomination : Amount) (l : List Address)
      → sorted_outputs lib denomination l
        ≡ map (pays denomination) (sort_by lib.script_le (map lib.script_pubkey l))
  unfolding sorted_outputs
  sorted_outputs-eq denomination l =
      sort_by-map (payment lib denomination) (output_le lib) l
      ∙ sym (
          ap (map (pays denomination)) (sort_by-map lib.script_pubkey lib.script_le l)
          ∙ map-map (pays denomination) lib.script_pubkey _)

  sorted_outputs-perm :
      (denomination : Amount) (l : List Address)
      → Perm (sorted_outputs lib denomination l) (map (payment lib denomination) l)
  unfolding sorted_outputs
  sorted_outputs-perm denomination l = sort_by-perm (output_le lib) _

  module _ (laws : IsLawful lib) where
    output_le-IsPreorder : IsPreorder (output_le lib)
    output_le-IsPreorder = record {
      le_total = λ a b. laws.script_order.le_total a.script_pubkey b.script_pubkey;
      le_trans =
          λ a b c. laws.script_order.le_trans a.script_pubkey b.script_pubkey c.script_pubkey;
    }

    sorted_outputs-IsSorted :
        (denomination : Amount) (l : List Address)
        → IsSorted (output_le lib) (sorted_outputs lib denomination l)
    unfolding sorted_outputs
    sorted_outputs-IsSorted denomination l =
        sort_by-IsSorted (output_le lib) output_le-IsPreorder (map (payment lib denomination) l)

    -- The order of the addresses does not matter.
    sorted_outputs-eq_of_perm :
        (denomination : Amount) {l r : List Address}
        → Perm l r
        → sorted_outputs lib denomination l ≡ sorted_outputs lib denomination r
    sorted_outputs-eq_of_perm denomination {l} {r} p =
        sorted_outputs-eq denomination l
        ∙ ap (map (pays denomination)) same
        ∙ sym (sorted_outputs-eq denomination r)
      where
        le : Script → Script → Bool
        le = lib.script_le

        same : sort_by le (map lib.script_pubkey l) ≡ sort_by le (map lib.script_pubkey r)
        same =
            IsSorted-eq_of_perm le laws.script_order laws.script_antisymm _ _
              (sort_by-IsSorted le laws.script_order _) (sort_by-IsSorted le laws.script_order _)
              (Perm.trans (sort_by-perm le _)
                (Perm.trans (Perm.map lib.script_pubkey p) (Perm.symm (sort_by-perm le _))))

module _ {lib : Bitcoin} (laws : IsLawful lib) {C E : Type 0} (backend : BitcoinBackend C E) where
  generate_psbt-unsigned_tx :
      (s : CoinJoin C)
      → (generate_psbt lib backend s).0 ≡ ok tt
      → unsigned_tx (generate_psbt lib backend s).1
        ≡ some (outputs_tx (sorted_outputs lib s.denomination (lib.hash_set s.outputs)))
  unfolding unsigned_tx
  generate_psbt-unsigned_tx s h =
      let done = generate_psbt-Prepared lib backend s h in
      let made = sym (laws.psbt_of_outputs _ refl) ∙ done.made in rw (← made, unsigned_tx)

  hash_set-perm : (l : List Address) → Nodup l → Perm (lib.hash_set l) l
  hash_set-perm l h =
      (perm_ext_iff_of_Nodup (laws.hash_set-Nodup l) h).1 (λ a. laws.mem-hash_set a l)

  -- A successful `generate_psbt` of distinct addresses makes an unsigned transaction with no
  -- input and with one output of the denomination for each address, in the order of the scripts;
  -- it has at least `min_peer` outputs.
  pub generate_psbt_lem :
      (s : CoinJoin C)
      → Nodup s.outputs
      → (generate_psbt lib backend s).0 ≡ ok tt
      → (tx : Transaction) × (unsigned_tx (generate_psbt lib backend s).1 ≡ some tx)
        × (tx.input ≡ [])
        × Perm tx.output (map (payment lib s.denomination) s.outputs)
        × IsSorted (output_le lib) tx.output
        × (s.min_peer ≤ length tx.output)
  generate_psbt_lem s nodup h =
      let moved =
        Perm.trans (sorted_outputs-perm lib s.denomination _)
          (Perm.map (payment lib s.denomination) (hash_set-perm s.outputs nodup)) in
      (
        outputs_tx (sorted_outputs lib s.denomination (lib.hash_set s.outputs)),
        generate_psbt-unsigned_tx s h,
        refl,
        moved,
        sorted_outputs-IsSorted lib laws s.denomination (lib.hash_set s.outputs),
        omega (
          arith,
          (generate_psbt-Prepared lib backend s h).enough,
          length-perm moved,
          length-perm (hash_set-perm s.outputs nodup),
          length-map (payment lib s.denomination) s.outputs,
        ),
      )

module _ {lib : Bitcoin} (laws : IsLawful lib) {C E : Type 0} (backend : BitcoinBackend C E) where
  -- Without a client `generate_psbt` succeeds exactly when there are `min_peer` addresses and no
  -- PSBT yet.
  pub generate_psbt_ok_iff :
      (s : CoinJoin C)
      → s.client ≡ none
      → ((generate_psbt lib backend s).0 ≡ ok tt)
        ↔ ((s.min_peer ≤ length (lib.hash_set s.outputs)) × (s.psbt ≡ none))
  unfolding generate_psbt ◌>>◌
  generate_psbt_ok_iff s e = (
    λ h. let done = generate_psbt-Prepared lib backend s h in (done.enough, done.fresh),
    λ (enough, fresh).
        let outputs = sorted_outputs lib s.denomination (lib.hash_set s.outputs) in
        ground (arith, laws.psbt_of_outputs (outputs_tx outputs) refl),
  )

-- Two peers whose coinjoins have the same denomination and the same addresses make the same
-- unsigned transaction, in whatever order the addresses came in, however each peer's `HashSet`
-- iterates and whatever their backends are.
pub generate_psbt_agree :
    {lib : Bitcoin} (hash_set : List Address → List Address)
    → IsLawful lib
    → IsLawful (record lib { hash_set = hash_set })
    → {C E D F : Type 0} (backend : BitcoinBackend C E) (backend' : BitcoinBackend D F)
      (s : CoinJoin C) (t : CoinJoin D)
    → s.denomination ≡ t.denomination
    → ((a : Address) → Mem a s.outputs ↔ Mem a t.outputs)
    → (generate_psbt lib backend s).0 ≡ ok tt
    → (generate_psbt (record lib { hash_set = hash_set }) backend' t).0 ≡ ok tt
    → unsigned_tx (generate_psbt lib backend s).1
      ≡ unsigned_tx (generate_psbt (record lib { hash_set = hash_set }) backend' t).1
unfolding sorted_outputs
generate_psbt_agree {lib} hash_set laws laws' backend backend' s t same mem done done' =
    generate_psbt-unsigned_tx laws backend s done
    ∙ rw same (
        ap (λ output. some (outputs_tx output))
          (sorted_outputs-eq_of_perm lib laws t.denomination addresses))
    ∙ sym (generate_psbt-unsigned_tx laws' backend' t done')
  where
    addresses : Perm (lib.hash_set s.outputs) (hash_set t.outputs)
    addresses =
        (perm_ext_iff_of_Nodup (laws.hash_set-Nodup s.outputs) (laws'.hash_set-Nodup t.outputs)).1
          (λ a. (
            λ m. (laws'.mem-hash_set a _).1 ((mem a).0 ((laws.mem-hash_set a _).0 m)),
            λ m. (laws.mem-hash_set a _).1 ((mem a).1 ((laws'.mem-hash_set a _).0 m)),
          ))
