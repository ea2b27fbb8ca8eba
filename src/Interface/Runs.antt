-- ===== src/Interface/Runs.antt =====
-- Runs of a coinjoin, and what they have sent.
use Prim.Native.String.{String}
use joinstr.Prelude.{
  ◌≤◌, List, map, length, Mem, Nodup, Perm, ◌≡◌, ap, arith, ℕ, ◌+◌, ◌^◌, ◌%◌, none, some,
  Option-cases, Outcome-cases, inl, inr, ok, Action, Ensures,
}
use joinstr.Bitcoin.{Amount, Address, Network, Transaction, IsLawful}
use joinstr.CoinJoin.Unsigned.{payment}
use joinstr.CoinJoin.Assembly.{spends}
use joinstr.Nostr.Pool.{Pool}
use joinstr.Signer.Keychain.{Keychain}
use joinstr.Signer.Hot.{Error as SignerError, WpkhHotSigner}
use joinstr.Signer.Sign.{hot_signer}
use joinstr.Joinstr.Error.{Error as JoinstrError}
use joinstr.Joinstr.Host.{Host, Float}
use joinstr.Joinstr.State.{JoinstrInner, Joinstr}
use joinstr.Joinstr.Configured.{Configured}
use joinstr.Joinstr.Configured.Electrum.{IsOnline}
use joinstr.Joinstr.Configured.Peer.{PeerOf}
use joinstr.Joinstr.Start.{start_coinjoin_blocking}
use joinstr.Joinstr.Guarantee.Hosted.{Hosted, start-Hosted}
use joinstr.Interface.{PoolConfig, PeerConfig, joins, expect_final, run_coinjoin}

-- A call whose error is converted.
pub Ensures-joins :
    {W A : Type 0} {P : W → Type 0} {Q : A → W → Type 0} {m : Action W JoinstrError A}
    → Ensures P Q m
    → Ensures P Q (joins m)
Ensures-joins {m = m} e = record {
  holds = λ w p a r. elim (Outcome-cases (m w).0) [
    | inl (b, is) ↦ e.holds w p a (ground (arith, r, is))
    | inr failed ↦ absurd (ground (arith, r, failed))
  ];
}

-- A call of `broadcast` with this transaction has returned Ok, and the object's electrum client is in
-- the state in which that call left it.
abbrev pub Answered : {N C W : Type 0} → Host N C W → Transaction → Joinstr N C W → Type 0
Answered {C = C} host tx done =
    (before after : C) × (host.electrum.broadcast tx before ≡ (ok tt, after))
    × (done.inner.electrum_client ≡ some after)

pub answered_lem :
    {N C W : Type 0} {host : Host N C W} {j : JoinstrInner N C} {done : Joinstr N C W}
    {tx : Transaction}
    → IsOnline j
    → (h : Hosted host j done) → h.2.0.tx ≡ tx
    → Answered host tx done
answered_lem {host = host} {done = done} online (pool, draft, paid, published, same) is_tx =
    elim (Option-cases done.inner.electrum_client) [
      | inl missing ↦ absurd (ground (arith, online, same, missing))
      | inr (after, is) ↦
          let (before, answered) = rw is at paid.0.sent in (before, after, rw is_tx at answered, is)
    ]

-- A transaction that pays `d` bitcoins to distinct addresses, one of them this output.
pub record Pays {N C W : Type 0} (host : Host N C W) (d : Float) (peers : ℕ) (output : Address)
    (tx : Transaction) : Type 0 where
  pub amount : Amount
  pub is_amount : host.from_btc d ≡ some amount
  pub addresses : List Address
  pub pays : Perm tx.output (map (payment host.bitcoin amount) addresses)
  pub distinct : Nodup addresses
  pub enough : peers ≤ length addresses
  pub pays_own : Mem output addresses
  pub spent_once : Nodup (spends tx)

pub pays_lem :
    {N C W : Type 0} {host : Host N C W} {relay : String} {network : Network} {d : Float}
    {fee t peers : ℕ} {output : Address} {j : JoinstrInner N C} {done : Joinstr N C W}
    {tx : Transaction}
    → Configured host relay network d fee t peers j
    → j.output ≡ some output
    → (h : Hosted host j done) → h.2.0.tx ≡ tx
    → Pays host d peers output tx
pays_lem {host = host} {output = output} c own (pool, draft, (paid, same), published, online)
      is_tx =
    let one : paid.pool ≡ pool = ground (arith, same, paid.same_pool) in
    let payload : paid.payload ≡ draft.payload =
      ground (arith, one, draft.has_payload, paid.has_payload) in
    let amount : paid.payload.denomination ≡ c.amount =
      ground (arith, payload, draft.same_denomination, c.denomination) in
    let peers : paid.payload.peers ≡ _ = ground (arith, payload, draft.same_peers, c.peers_count) in
    rw (← is_tx) (record {
      amount = c.amount;
      is_amount = c.is_amount;
      addresses = paid.addresses;
      pays = rw amount at paid.pays;
      distinct = paid.distinct;
      enough = rw peers at paid.enough;
      pays_own = paid.pays_own output own;
      spent_once = paid.spent_once;
    })

module _ {N C W : Type 0} (host : Host N C W) (keychain : Keychain W)
    (display : SignerError → String) (fuel : ℕ) where
  -- A run of an object to its end, with a hot signer and no pool, and the transaction that it has
  -- stored.
  pub record Ran (j : JoinstrInner N C) (tx : Transaction) : Type 0 where
    pub signer : WpkhHotSigner C
    pub world : W
    pub done : Joinstr N C W
    pub is_done :
        start_coinjoin_blocking host
          (λ w. w)
          fuel
          none
          (some (hot_signer host.bitcoin keychain signer display))
          (record { inner = j; world = world })
        ≡ (ok tt, done)
    pub hosted : Hosted host j done
    pub is_tx : hosted.2.0.tx ≡ tx

  pub Ensures-run :
      (laws : IsLawful host.bitcoin) (s : WpkhHotSigner C) (j : JoinstrInner N C) {K : Type 0}
      → Ensures (λ _. K) (λ tx _. Ran j tx × K) (run_coinjoin host keychain display fuel s j)
  unfolding run_coinjoin expect_final
  Ensures-run laws s j = record {
    holds = λ w k tx r.
        let start =
          start_coinjoin_blocking host (λ w. w) fuel none
            (some (hot_signer host.bitcoin keychain s display)) (record { inner = j; world = w }) in
        elim (Outcome-cases start.0) [
          | inr failed ↦ absurd (ground (arith, r, failed))
          | inl (u, is) ↦
              let hosted = start-Hosted laws (λ w. w) fuel _ (record { inner = j; world = w }) is in
              (
                record {
                  signer = s;
                  world = w;
                  done = start.1;
                  is_done = ap (λ r. (r, start.1)) is;
                  hosted = hosted;
                  is_tx = ground (arith, r, is, hosted.2.0.stored);
                },
                k,
              )
        ];
  }

  -- The object of an initiator, and its end.
  pub record Initiated (config : PoolConfig) (p : PeerConfig) (tx : Transaction) : Type 0 where
    pub object : JoinstrInner N C
    pub now : ℕ
    pub configured :
        Configured host p.relay config.network config.denomination config.fee
          ((now + config.max_duration) % 2 ^ 64)
          config.peers
          object
    pub same_input : object.input ≡ some p.input
    pub same_output : object.output ≡ some p.output
    pub ran : Ran object tx
    pub answered : Answered host tx ran.done
    pub pays : Pays host config.denomination config.peers p.output tx

  -- The object of a peer, and its end.
  pub record Joined (pool : Pool) (p : PeerConfig) (tx : Transaction) : Type 0 where
    pub object : JoinstrInner N C
    pub is_peer : PeerOf host pool p.relay pool.network p.input p.output object
    pub ran : Ran object tx
    pub answered : Answered host tx ran.done
    pub pays :
        Pays host (host.to_btc is_peer.payload.denomination) is_peer.payload.peers p.output tx
