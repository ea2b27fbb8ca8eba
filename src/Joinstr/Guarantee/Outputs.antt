-- ===== src/Joinstr/Guarantee/Outputs.antt =====
-- The round of outputs: what `register_outputs` stores.
use mathlib.Core.List.{Nodup-nil}
use Prim.Native.String.{String}
use joinstr.Joinstr.Error.{Error}
use mathlib.Core.Logic.Or
use joinstr.CoinJoin.Outputs.{add_output-Nodup, mem-add_output}
use joinstr.Prelude.{
  Action, Ensures-panic, Ensures-pure, Ensures-option, Bool-cases, All-push, Keeps-option, true, ℕ,
  Bool, Option, none, some, List, [], Mem, Nodup, ◌≡◌, ◌⊎◌, inl, inr, refl, arith, panic, All,
  local, Keeps, Keeps-bind, Keeps-then, Keeps-pure, Keeps-gets, Keeps-ok_or, Keeps-yields, Keeps-if,
  Keeps-Ensures, Ensures, Ensures-bind, Ensures-then, ◌>>◌,
}
use joinstr.Bitcoin.{Address}
use joinstr.Nostr.Pool.{Pool, PoolMessage, PublicKey}
use joinstr.System.{Backoff}
use joinstr.CoinJoin.{CoinJoin, add_output, contains}
use joinstr.Joinstr.Host.{Host}
use joinstr.Joinstr.State.{Joinstr, update, is_initiator}
use joinstr.Joinstr.Pool.{pool_as_ref, get_keys}
use joinstr.Joinstr.Outputs.{
  send_credentials, register_peer, take_join, peer_test, peer_round, receive_output, take_output,
  output_test, output_round, register_output, send_dummy,
}
use joinstr.Joinstr.Guarantee.{
  view, Keeps-reads, Keeps-on_nostr, Keeps-asks, Keeps-in_world, Keeps-passes, Keeps-update,
  Keeps-before, Keeps-rest, Keeps-poll,
}

module _ {N C W : Type 0} (host : Host N C W) (notif : W → W) where
  Keeps-send_credentials : (k : PublicKey) → Keeps view (send_credentials host notif k)
  unfolding send_credentials get_keys
  Keeps-send_credentials k =
      Keeps-bind (Keeps-reads _) (λ pool. Keeps-bind (Keeps-reads _) (λ keys. Keeps-on_nostr _))

  Keeps-register_peer :
      (k : PublicKey) (peers : List PublicKey) → Keeps view (register_peer host notif k peers)
  unfolding register_peer
  Keeps-register_peer k peers = Keeps-if (contains peers k) (Keeps-pure peers) (
      Keeps-bind (Keeps-gets _) (λ role.
        Keeps-then (Keeps-if (is_initiator role) (Keeps-send_credentials k) (Keeps-pure tt)) (
          Keeps-then (Keeps-update _ (λ i. refl))
            (Keeps-then (Keeps-passes notif) (Keeps-pure _)))))

  pub Keeps-take_join :
      (m : PoolMessage) (peers : List PublicKey) → Keeps view (take_join host notif m peers)
  unfolding take_join
  Keeps-take_join (PoolMessage.join (some k)) peers = Keeps-register_peer k peers
  Keeps-take_join (PoolMessage.join none) peers = Keeps-yields panic
  Keeps-take_join (PoolMessage.output _) peers = Keeps-pure peers
  Keeps-take_join (PoolMessage.input _) peers = Keeps-pure peers
  Keeps-take_join (PoolMessage.psbt _) peers = Keeps-pure peers
  Keeps-take_join (PoolMessage.transaction _) peers = Keeps-pure peers
  Keeps-take_join (PoolMessage.credentials _) peers = Keeps-pure peers

  pub Keeps-peer_test :
      (expired : ℕ) (early : Bool) (needed : ℕ) (l : List PublicKey × Backoff)
      → Keeps view (peer_test host notif expired early needed l)
  unfolding peer_test
  Keeps-peer_test expired early needed (peers, b) =
      Keeps-bind (Keeps-before host expired) (λ t. Keeps-pure _)

  pub Keeps-peer_round : (l : List PublicKey × Backoff) → Keeps view (peer_round host notif l)
  unfolding peer_round
  Keeps-peer_round (peers, b) = Keeps-bind (Keeps-poll host) (λ msg.
      Keeps-option msg (λ m. Keeps-bind (Keeps-take_join m peers) (λ p. Keeps-pure _))
        (Keeps-bind (Keeps-rest host b) (λ b'. Keeps-pure _)))

  pub Keeps-send_dummy :
      (k : PublicKey) (relay : String) → Keeps view (send_dummy {C = C} host notif k relay)
  unfolding send_dummy
  Keeps-send_dummy k relay = Keeps-bind (Keeps-asks _) (λ keys.
      Keeps-bind (Keeps-yields _) (λ with_keys. Keeps-bind (Keeps-yields _) (λ with_relay.
        Keeps-bind (Keeps-in_world _)
          (λ dummy. Keeps-bind (Keeps-asks _) (λ response. Keeps-in_world _)))))

  pub Keeps-register_output : Keeps view (register_output host notif)
  unfolding register_output
  Keeps-register_output = Keeps-bind (Keeps-gets _) (λ output.
      Keeps-bind (Keeps-ok_or _ _) (λ address. Keeps-then (Keeps-reads _) (
        Keeps-bind (Keeps-reads _) (λ pool.
          Keeps-then (Keeps-on_nostr _)
            (Keeps-then (Keeps-update _ (λ i. refl)) (Keeps-passes notif))))))

-- The addresses that the round takes: valid for the network of the pool, or the own output.
abbrev pub Allowed : {N C W : Type 0} → Host N C W → Pool → Option Address → Address → Type 0
Allowed host pool own a = (host.bitcoin.is_valid_for_network a pool.network ≡ true) ⊎ (own ≡ some a)

-- What the round makes of a coinjoin that has no output yet: it adds outputs only, each once.
pub record Filled {N C W : Type 0} (host : Host N C W) (pool : Pool) (own : Option Address)
    (start c : CoinJoin C) : Type 0 where
  pub only_outputs : c ≡ record start { outputs = c.outputs }
  pub distinct : Nodup c.outputs
  pub allowed : All (Allowed host pool own) c.outputs
  pub has_own : (a : Address) → own ≡ some a → Mem a c.outputs

module _ {N C W : Type 0} (host : Host N C W) (pool : Pool) (own : Option Address) where
  pub Filled-add_output :
      {start c : CoinJoin C} (a : Address)
      → Allowed host pool own a
      → Filled host pool own start c
      → Filled host pool own start (add_output c a)
  unfolding add_output
  Filled-add_output {start} {c} a ok_a f = record {
    only_outputs = ground (arith, f.only_outputs);
    distinct = add_output-Nodup c a f.distinct;
    allowed = elim (Bool-cases (contains c.outputs a)) [
      | inl old ↦ rw old f.allowed
      | inr fresh ↦ rw fresh (All-push (Allowed host pool own) c.outputs f.allowed ok_a)
    ];
    has_own = λ b e. (mem-add_output c a b).1 (Or.inr (f.has_own b e));
  }

  -- The own output is in, whatever was there.
  pub Filled-own :
      {start : CoinJoin C} (a : Address)
      → start.outputs ≡ []
      → own ≡ some a
      → Filled host pool own start (add_output start a)
  unfolding add_output contains
  Filled-own {start} a empty e = record {
    only_outputs = ground arith;
    distinct = add_output-Nodup start a (rw empty Nodup-nil);
    allowed = rw (empty, contains) (inr e, tt);
    has_own = λ b h. (mem-add_output start a b).1 (Or.inl (ground arith));
  }

  -- The pool and the own output.
  abbrev pub Has : Option Pool × Option Address × Option (CoinJoin C) × Option C → Type 0
  Has v = (v.0 ≡ some pool) × (v.1 ≡ own)

  abbrev pub Filling : CoinJoin C → CoinJoin C → Joinstr N C W → Type 0
  Filling start c s = Has (view s) × Filled host pool own start c

  pub still :
      {A : Type 0} {m : Action (Joinstr N C W) Error A} (start c : CoinJoin C)
      → Keeps view m
      → Ensures (Filling start c) (λ _. Filling start c) m
  still start c k = Keeps-Ensures (λ v. Has v × Filled host pool own start c) k

  module _ (notif : W → W) where
    Ensures-receive_output :
        (a : Address) {start : CoinJoin C} (c : CoinJoin C)
        → Ensures (Filling start c) (Filling start) (receive_output host notif a c)
    unfolding receive_output pool_as_ref update ◌>>◌
    Ensures-receive_output a c = record {
      holds = λ s p c' e. elim (Bool-cases (host.bitcoin.is_valid_for_network a pool.network)) [
        | inl valid ↦
            let same : add_output c a ≡ c' = ground (arith, p.0) in
            rw (← same) (ground (arith, p.0), Filled-add_output a (inl valid) p.1)
        | inr invalid ↦
            let same : c ≡ c' = ground (arith, p.0) in rw (← same) (ground (arith, p.0), p.1)
      ];
    }

    Ensures-take_output :
        (m : PoolMessage) {start : CoinJoin C} (c : CoinJoin C)
        → Ensures (Filling start c) (Filling start) (take_output host notif m c)
    unfolding take_output
    Ensures-take_output (PoolMessage.output a) {start} c =
        Ensures-bind (Ensures-receive_output a c) (λ c'.
          Ensures-then (still start c' (Keeps-update _ (λ i. refl)))
            (Ensures-then (still start c' (Keeps-passes notif)) (Ensures-pure c' (λ s p. p))))
    Ensures-take_output (PoolMessage.input i) c = Ensures-panic
    Ensures-take_output (PoolMessage.join k) c = Ensures-pure c (λ s p. p)
    Ensures-take_output (PoolMessage.psbt k) c = Ensures-pure c (λ s p. p)
    Ensures-take_output (PoolMessage.transaction k) c = Ensures-pure c (λ s p. p)
    Ensures-take_output (PoolMessage.credentials k) c = Ensures-pure c (λ s p. p)

    pub Ensures-output_round :
        {start : CoinJoin C} (l : CoinJoin C × Backoff)
        → Ensures
            (Filling start l.0)
            (λ t. Filling start (local {L = CoinJoin C × Backoff} t).0)
            (output_round host notif l)
    unfolding output_round
    Ensures-output_round {start} (c, b) = Ensures-bind (still start c (Keeps-poll host)) (λ msg.
        Ensures-option msg
          (λ m. Ensures-bind (Ensures-take_output m c) (λ c'. Ensures-pure _ (λ s p. p)))
          (Ensures-bind (still start c (Keeps-rest host b)) (λ b'. Ensures-pure _ (λ s p. p))))

    pub Keeps-output_test :
        (expired peers : ℕ) (l : CoinJoin C × Backoff)
        → Keeps view (output_test host notif expired peers l)
    unfolding output_test
    Keeps-output_test expired peers (c, b) =
        Keeps-bind (Keeps-before host expired) (λ t. Keeps-pure _)
