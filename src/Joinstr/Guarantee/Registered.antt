-- ===== src/Joinstr/Guarantee/Registered.antt =====
-- What `register_outputs` stores where it succeeds.
use mathlib.Core.List.{Nodup-nil}
use Prim.Native.String.{String}
use joinstr.Prelude.{
  if◌then◌else◌, Ensures-knowing, gets, Action, Keeps, yields, pure, ℕ, Option, none, some, ◌≡◌,
  sym, ◌≤◌, refl, arith, ok, length, Keeps-gets, Keeps-ok_or, Keeps-pure, Keeps-if, Keeps-Ensures,
  Keeps-loop, Ensures, Ensures-bind, Ensures-then, Ensures-loop, Ensures-pure, Ensures-mono, ◌>>◌,
}
use joinstr.Bitcoin.{Address}
use joinstr.Nostr.Pool.{Pool, PoolPayload, PublicKey, Fee}
use joinstr.CoinJoin.{CoinJoin, new, with_min_peer, with_fee, outputs_len}
use joinstr.Joinstr.Join.{clock}
use joinstr.Joinstr.Error.{Error}
use joinstr.Joinstr.Host.{Host}
use joinstr.Joinstr.State.{Role, Joinstr, reads, update, is_initiator}
use joinstr.Joinstr.Pool.{payload_as_ref}
use joinstr.Joinstr.Outputs.{
  send_dummy, fixed_fee, register_peers, add_own_output, collect_outputs, settle_outputs,
  register_outputs,
}
use joinstr.Joinstr.Guarantee.{
  view, Keeps-start_timeline, Keeps-end_timeline, Keeps-reads, Keeps-passes,
}
use joinstr.Joinstr.Guarantee.Outputs.{
  still, Filled, Filled-own, Has, Filling, Ensures-output_round, Keeps-output_test, Keeps-peer_test,
  Keeps-peer_round, Keeps-send_dummy, Keeps-register_output,
}

module _ {N C W : Type 0} (host : Host N C W) (pool : Pool) {payload : PoolPayload}
    (has : pool.payload ≡ some payload) (own : Option Address) where
  -- The coinjoin with which the round starts.
  abbrev pub opening : (fee : ℕ) → CoinJoin C
  opening fee = with_fee (with_min_peer (new payload.denomination none) payload.peers) fee

  Ensures-payload :
      Ensures
        (λ (s : Joinstr N C W). Has host pool own (view s))
        (λ p s. Has host pool own (view s) × (p ≡ payload))
        (reads payload_as_ref)
  unfolding payload_as_ref update
  Ensures-payload = record { holds = λ s p a e. ground (arith, has) }

  -- What holds of the state while the round of peers goes on, with what is known of its values.
  abbrev Knowing : Type 0 → Joinstr N C W → Type 0
  Knowing K s = Has host pool own (view s) × K

  knowing :
      {A : Type 0} {m : Action (Joinstr N C W) Error A} (K : Type 0)
      → Keeps view m
      → Ensures (Knowing K) (λ _. Knowing K) m
  knowing K k = Keeps-Ensures (λ v. Has host pool own v × K) k

  module _ (notif : W → W) (fuel : ℕ) where
    abbrev Agreed : PoolPayload → ℕ → Type 0
    Agreed p fee = (p ≡ payload) × (fixed_fee host notif payload.fee ≡ ok fee)

    Ensures-fee :
        (p : PoolPayload)
        → Ensures
            (Knowing (p ≡ payload))
            (λ fee. Knowing (Agreed p fee))
            (yields (fixed_fee host notif p.fee))
    unfolding yields
    Ensures-fee p = record { holds = λ s (h, k) fee e. (h, (k, rw (← k) e)) }

    Ensures-register_peers :
        Ensures
          (λ s. Has host pool own (view s))
          (λ r. Knowing (Agreed r.0 r.1))
          (register_peers host notif fuel)
    unfolding register_peers
    Ensures-register_peers = Ensures-then (Keeps-Ensures (Has host pool own) (Keeps-reads _)) (
        Ensures-bind (Keeps-Ensures (Has host pool own) Keeps-start_timeline) (λ timeline.
          Ensures-bind Ensures-payload (λ p. Ensures-bind (Ensures-fee p) (λ fee.
            Ensures-bind (knowing (Agreed p fee) (Keeps-reads _)) (λ q.
              Ensures-bind (knowing (Agreed p fee) (Keeps-gets _)) (λ role.
                Ensures-bind (knowing (Agreed p fee) (Keeps-gets _)) (λ client.
                  Ensures-bind (knowing (Agreed p fee) (Keeps-ok_or _ _)) (λ relay.
                    Ensures-then (knowing (Agreed p fee) (choose role q.public_key relay)) (
                      Ensures-bind
                        (knowing (Agreed p fee) (
                          Keeps-loop (Keeps-peer_test host notif timeline.0 timeline.1 p.peers)
                            (Keeps-peer_round host notif) fuel _))
                        (λ l. Ensures-pure _ (λ s k. k)))))))))))
      where
        choose :
            (role : Role) (k : PublicKey) (relay : String)
            → Keeps view (
                if is_initiator role
                then send_dummy host notif k relay
                else pure {S = Joinstr N C W} tt)
        choose role k relay =
            Keeps-if (is_initiator role) (Keeps-send_dummy host notif k relay) (Keeps-pure tt)

    Ensures-add_own_output :
        (fee : ℕ) (o : Option Address)
        → o ≡ own
        → Ensures
            (λ s. Has host pool own (view s))
            (Filling host pool own (opening fee))
            (add_own_output host notif (opening fee) o)
    unfolding add_own_output with_fee with_min_peer new
    Ensures-add_own_output fee none e = Ensures-pure _ (λ s h. (
      h,
      record {
        only_outputs = refl;
        distinct = Nodup-nil;
        allowed = tt;
        has_own = λ a f. absurd (ground arith);
      },
    ))
    Ensures-add_own_output fee (some a) e =
        Ensures-then (Keeps-Ensures (Has host pool own) (Keeps-register_output host notif))
          (Ensures-pure _ (λ s h. (h, Filled-own host pool own a refl (sym e))))

    Ensures-output :
        Ensures
          (λ (s : Joinstr N C W). Has host pool own (view s))
          (λ o s. Has host pool own (view s) × (o ≡ own))
          (gets {E = Error} (λ s. s.inner.output))
    unfolding gets
    Ensures-output = record { holds = λ s h o e. (h, ground (arith, h.1)) }

    Ensures-collect_outputs :
        (fee peers : ℕ)
        → Ensures
            (λ s. Has host pool own (view s))
            (λ done. Filling host pool own (opening fee) done.1)
            (collect_outputs host notif fuel (opening fee) peers)
    unfolding collect_outputs
    Ensures-collect_outputs fee peers = Ensures-bind Ensures-output (λ output.
        Ensures-bind (Ensures-knowing (Ensures-add_own_output fee output)) (λ coinjoin.
          Ensures-bind (still host pool own (opening fee) coinjoin Keeps-end_timeline) (λ expired.
            Ensures-bind
              (Ensures-loop (λ l. Filling host pool own (opening fee) l.0)
                (λ l.
                  still host pool own (opening fee) l.0
                    (Keeps-output_test host pool own notif expired peers l))
                (Ensures-output_round host pool own notif) fuel _)
              (λ done. Ensures-pure _ (λ s k. k)))))

    Ensures-settle_outputs :
        (expired needed peers : ℕ) (start c : CoinJoin C)
        → Ensures
            (Filling host pool own start c)
            (λ _ s.
              Filling host pool own start c s
              × (s.inner.coinjoin ≡ some c)
              × (outputs_len c ≡ peers)
              × (needed ≤ peers))
            (settle_outputs host notif expired needed peers c)
    unfolding settle_outputs clock ◌>>◌ update
    Ensures-settle_outputs expired needed peers start c = record {
      holds = λ s (h, f) a e. ((ground (arith, h), f), ground arith, ground arith, ground arith);
    }

-- What `register_outputs` leaves: a coinjoin for the pool, with its outputs.
pub record Registered {N C W : Type 0} (host : Host N C W) (pool : Pool) (payload : PoolPayload)
    (own : Option Address) (s : Joinstr N C W) : Type 0 where
  pub coinjoin : CoinJoin C
  pub fee : ℕ
  pub is_fee : payload.fee ≡ Fee.fixed fee
  pub same_pool : s.inner.pool ≡ some pool
  pub same_output : s.inner.output ≡ own
  pub stored : s.inner.coinjoin ≡ some coinjoin
  pub filled :
      Filled host pool own
        (with_fee (with_min_peer (new payload.denomination none) payload.peers) fee)
        coinjoin
  pub enough : payload.peers ≤ length coinjoin.outputs

module _ {N C W : Type 0} (host : Host N C W) (pool : Pool) {payload : PoolPayload}
    (has : pool.payload ≡ some payload) (own : Option Address) (notif : W → W) (fuel : ℕ) where
  fixed_fee-eq : (f : Fee) (fee : ℕ) → fixed_fee host notif f ≡ ok fee → f ≡ Fee.fixed fee
  unfolding fixed_fee
  fixed_fee-eq (Fee.fixed f) fee e = ground arith
  fixed_fee-eq (Fee.provider p) fee e = absurd (ground arith)

  pub Ensures-register_outputs :
      Ensures
        (λ s. Has host pool own (view s))
        (λ _. Registered host pool payload own)
        (register_outputs host notif fuel)
  unfolding register_outputs outputs_len
  Ensures-register_outputs =
      Ensures-bind (Ensures-register_peers host pool has own notif fuel) (λ (p, fee, peers).
        Ensures-knowing (λ (same, fixed). rw same (
          Ensures-then (Keeps-Ensures (Has host pool own) (Keeps-passes _)) (
            Ensures-bind (Ensures-collect_outputs host pool has own notif fuel fee (length peers))
              (λ (expired, c).
                Ensures-mono (λ s h. h)
                  (λ _ s (f, stored, counted, enough). record {
                    coinjoin = c;
                    fee = fee;
                    is_fee = fixed_fee-eq payload.fee fee fixed;
                    same_pool = f.0.0;
                    same_output = f.0.1;
                    stored = stored;
                    filled = f.1;
                    enough = omega (arith, counted, enough);
                  })
                  (Ensures-settle_outputs host pool has own notif fuel expired payload.peers
                    (length peers) (opening host pool has own fee) c))))))
