-- ===== src/Joinstr/Guarantee/Whole.antt =====
-- What a successful `start_coinjoin_blocking` has stored, and has sent where it has a client.
use joinstr.Prelude.{
  Action, ℕ, ◌≡◌, ◌≤◌, refl, ap, inl, Outcome-cases, inr, Option, none, some, List, map, Mem, Nodup,
  Perm, All, arith, ok, length, Option-cases, Keeps, Keeps-gets, Keeps-throw_if, Keeps-Ensures,
  Ensures, Ensures-bind, Ensures-then, Ensures-mono, Ensures-exists, Ensures-never, ◌>>◌,
}
use joinstr.Bitcoin.{Address, Transaction, IsLawful}
use joinstr.Nostr.Pool.{Pool, PoolPayload}
use joinstr.Signer.{JoinstrSigner}
use joinstr.CoinJoin.{CoinJoin}
use joinstr.CoinJoin.Unsigned.{payment}
use joinstr.CoinJoin.Assembly.{spends}
use joinstr.Joinstr.Error.{Error}
use joinstr.Joinstr.Host.{Host}
use joinstr.Joinstr.State.{Joinstr, update, passes, broadcast}
use joinstr.Joinstr.Pool.{check_pool_exists}
use joinstr.Joinstr.Outputs.{register_outputs, register_peers}
use joinstr.Joinstr.Inputs.{broadcast_tx}
use joinstr.Joinstr.Start.{run_rounds, start_coinjoin_blocking}
use joinstr.Joinstr.Guarantee.{view, Keeps-passes}
use joinstr.Joinstr.Guarantee.Join.{Ensures-enter}
use joinstr.Joinstr.Guarantee.Client.{has_electrum}
use joinstr.Joinstr.Guarantee.Client.Rounds.{Keeps-start_coinjoin_blocking}
use joinstr.Joinstr.Guarantee.Outputs.{Allowed, Has}
use joinstr.Joinstr.Guarantee.Registered.{Ensures-register_outputs}
use joinstr.Joinstr.Guarantee.Unsigned.{Draft, Ensures-generate_unsigned}
use joinstr.Joinstr.Guarantee.Inputs.{Held, Ensures-Held, Keeps-sign_own, Ensures-register_inputs}

still_own :
    {N C W : Type 0} (own : Option Address) {A : Type 0} {m : Action (Joinstr N C W) Error A}
    → Keeps view m
    → Ensures (λ s. s.inner.output ≡ own) (λ _ s. s.inner.output ≡ own) m
still_own own k = Keeps-Ensures (λ v. v.1 ≡ own) k

-- What an electrum client is after the broadcast of a transaction: the state in which it was left by
-- a call that returned Ok. Nothing is asked where there is no client.
abbrev pub Sent : {N C W : Type 0} → Host N C W → Transaction → Option C → Type 0
Sent host tx none = Unit {0}
Sent {C = C} host tx (some after) = (c : C) × (host.electrum.broadcast tx c ≡ (ok tt, after))

-- What is sent for a pool: a transaction that pays its denomination to distinct addresses, at
-- least as many as the pool wants, the own one among them, and that spends no outpoint twice.
pub record Paid {N C W : Type 0} (host : Host N C W) (own : Option Address) (s : Joinstr N C W)
    : Type 0 where
  pub pool : Pool
  pub payload : PoolPayload
  pub tx : Transaction
  pub addresses : List Address
  pub same_pool : s.inner.pool ≡ some pool
  pub has_payload : pool.payload ≡ some payload
  pub stored : s.inner.final_tx ≡ some tx
  pub is_broadcast : s.inner.step ≡ broadcast
  pub sent : Sent host tx s.inner.electrum_client
  pub pays : Perm tx.output (map (payment host.bitcoin payload.denomination) addresses)
  pub distinct : Nodup addresses
  pub enough : payload.peers ≤ length addresses
  pub allowed : All (Allowed host pool own) addresses
  pub pays_own : (a : Address) → own ≡ some a → Mem a addresses
  pub spent_once : Nodup (spends tx)

abbrev pub PaidFor : {N C W : Type 0} → Host N C W → Option Address → Pool → Joinstr N C W → Type 0
PaidFor host own pool s = Paid host own s × (s.inner.pool ≡ some pool)

module _ {N C W : Type 0} (host : Host N C W) (laws : IsLawful host.bitcoin) (notif : W → W)
    (fuel : ℕ) where
  module _ (pool : Pool) {payload : PoolPayload} (has : pool.payload ≡ some payload)
      (own : Option Address) where
    broadcast_tx-Sent :
        (s : Joinstr N C W) {c : CoinJoin C} {tx : Transaction}
        → ((broadcast_tx host >> passes notif) s).0 ≡ ok tt
        → s.inner.coinjoin ≡ some c
        → c.tx ≡ some tx
        → Sent host tx ((broadcast_tx host >> passes notif) s).1.inner.electrum_client
    unfolding broadcast_tx ◌>>◌ update
    broadcast_tx-Sent s {c} {tx} r e f = elim (Option-cases s.inner.electrum_client) [
      | inl g ↦
          let after : ((broadcast_tx host >> passes notif) s).1.inner.electrum_client ≡ none =
            ground (arith, r, e, f, g) in
          rw after tt
      | inr (client, g) ↦ elim (Outcome-cases (host.electrum.broadcast tx client).0) [
        | inr failed ↦ absurd (ground (arith, r, e, f, g, failed))
        | inl (u, answered) ↦
            let after : ((broadcast_tx host >> passes notif) s).1.inner.electrum_client
                ≡ some (host.electrum.broadcast tx client).1 =
              ground (arith, r, e, f, g) in
            rw after (client, ap (λ r. (r, (host.electrum.broadcast tx client).1)) answered)
      ]
    ]

    Ensures-broadcast :
        (d : Draft host pool payload own)
        → Ensures
            (Held host laws pool d.psbt)
            (λ _. PaidFor host own pool)
            (broadcast_tx host >> passes notif)
    unfolding broadcast_tx ◌>>◌ update
    Ensures-broadcast d = record {
      holds = λ s (p, (c, e, a)) u r. elim (Option-cases c.tx) [
        | inl missing ↦ absurd (ground (arith, p, e))
        | inr (tx, f) ↦
            let (same, once) = a.final tx f in
            (
              record {
                pool = pool;
                payload = payload;
                tx = tx;
                addresses = d.addresses;
                same_pool = ground (arith, p, e);
                has_payload = has;
                stored = ground (arith, p, e, f);
                is_broadcast = ground (arith, p, e, f);
                sent = broadcast_tx-Sent s r e f;
                pays = rw same d.pays;
                distinct = d.distinct;
                enough = d.enough;
                allowed = d.allowed;
                pays_own = d.has_own;
                spent_once = once;
              },
              ground (arith, p, e),
            )
      ];
    }

    Ensures-run_rounds :
        (signer : Option JoinstrSigner)
        → Ensures
            (λ s. Has host pool own (view s))
            (λ _. PaidFor host own pool)
            (run_rounds host notif fuel signer)
    unfolding run_rounds
    Ensures-run_rounds signer =
        Ensures-then (Keeps-Ensures (Has host pool own) (Keeps-passes notif)) (
          Ensures-then (Ensures-register_outputs host pool has own notif fuel) (
            Ensures-then (Ensures-generate_unsigned host laws pool payload own) (
              Ensures-exists (λ d.
                Ensures-then (Ensures-Held host laws pool d.psbt (Keeps-passes notif)) (
                  Ensures-then (Ensures-Held host laws pool d.psbt (Keeps-passes _)) (
                    Ensures-then
                      (Ensures-Held host laws pool d.psbt (Keeps-sign_own host notif signer))
                      (Ensures-then (Ensures-register_inputs host laws pool d.psbt notif fuel)
                        (Ensures-broadcast d))))))))

module _ {N C W : Type 0} (host : Host N C W) where
  -- Without a payload there is no round.
  no_rounds :
      (notif : W → W) (fuel : ℕ) (pool : Pool) (own : Option Address)
      → pool.payload ≡ none
      → Ensures {A = Unit {0}}
          (λ s. Has host pool own (view s))
          (λ _ (s : Joinstr N C W). ⊥)
          (register_outputs host notif fuel)
  unfolding register_outputs register_peers check_pool_exists update
  no_rounds notif fuel pool own missing =
      Ensures-bind {R = λ _ _. ⊥}
        (Ensures-then {R = λ _. ⊥} (record { holds = λ s h a r. ground (arith, h, missing) })
          Ensures-never)
        (λ _. Ensures-never)

module _ {N C W : Type 0} {host : Host N C W} (laws : IsLawful host.bitcoin) (notif : W → W)
    (fuel : ℕ) where
  pub Ensures-rounds :
      (own : Option Address) (signer : Option JoinstrSigner) (pool : Pool)
      → Ensures
          (λ s. Has host pool own (view s))
          (λ _. PaidFor host own pool)
          (run_rounds host notif fuel signer)
  unfolding run_rounds
  Ensures-rounds own signer pool = elim (Option-cases pool.payload) [
    | inr (payload, has) ↦ Ensures-run_rounds host laws notif fuel pool has own signer
    | inl missing ↦
        Ensures-then (Keeps-Ensures (Has host pool own) (Keeps-passes notif))
          (Ensures-then {R = λ _. ⊥} (no_rounds host notif fuel pool own missing) Ensures-never)
  ]

  -- A `start_coinjoin_blocking` that succeeds stores, with step `Broadcast`, the transaction of a
  -- coinjoin of the pool that is then stored: it pays the pool's denomination to distinct addresses,
  -- no fewer than the pool's payload asks for and the own one among them, all others valid for the
  -- pool's network; and it spends no outpoint twice. The object has an electrum client afterwards
  -- exactly where it had one before, and then this client is in the state in which a call of its
  -- broadcast with this transaction left it that returned Ok.
  pub start_coinjoin_blocking_pays :
      (given : Option Pool) (signer : Option JoinstrSigner) (s : Joinstr N C W)
      → (start_coinjoin_blocking host notif fuel given signer s).0 ≡ ok tt
      → let s' = (start_coinjoin_blocking host notif fuel given signer s).1 in
        Paid host s.inner.output s' × (has_electrum s' ≡ has_electrum s)
  unfolding start_coinjoin_blocking
  start_coinjoin_blocking_pays given signer s h = (
    (paying s.inner.output).holds s refl tt h,
    (Keeps-start_coinjoin_blocking host notif fuel given signer).kept s,
  )
    where
      paying :
          (own : Option Address)
          → Ensures
              (λ s. s.inner.output ≡ own)
              (λ _. Paid host own)
              (start_coinjoin_blocking host notif fuel given signer)
      paying own = Ensures-bind (still_own own (Keeps-gets _)) (λ role.
          Ensures-then (still_own own (Keeps-throw_if _ _)) (
            Ensures-then (Ensures-enter host fuel given own) (
              Ensures-exists
                (λ pool. Ensures-mono (λ s h. h) (λ a s h. h.0) (Ensures-rounds own signer pool)))))
