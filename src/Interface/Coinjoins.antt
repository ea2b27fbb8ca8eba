-- ===== src/Interface/Coinjoins.antt =====
-- What `initiate_coinjoin` and `join_coinjoin` have done where they succeed.
use Prim.Native.String.{String}
use joinstr.Prelude.{
  ◌≡◌, refl, arith, ℕ, ◌+◌, ◌^◌, ◌%◌, some, ok, ◌>>◌, Ensures, Ensures-bind, Ensures-then,
  Ensures-mono, Ensures-and, Ensures-pure,
}
use joinstr.Bitcoin.{Transaction, Txid, IsLawful}
use joinstr.Nostr.Pool.{Pool}
use joinstr.Signer.Keychain.{Keychain}
use joinstr.Signer.Hot.{Error as SignerError}
use joinstr.Joinstr.Host.{Host}
use joinstr.Joinstr.State.{JoinstrInner, Joinstr, asks, update}
use joinstr.Joinstr.Setup.{builds, set_coin, set_address}
use joinstr.Joinstr.Configured.{
  Configured, anything, keeping, Ensures-builds, Ensures-new_initiator, Ensures-IsValued,
  Ensures-IsPriced, Ensures-timed,
}
use joinstr.Joinstr.Configured.Electrum.{
  IsOnline, builds-IsOnline, Keeps-configuring, Keeps-owning, new_initiator-IsOnline,
  new_peer_with_electrum-IsOnline,
}
use joinstr.Joinstr.Configured.Peer.{Ensures-new_peer_with_electrum}
use joinstr.Interface.{
  PoolConfig, PeerConfig, setup_initiator, clone_signer, initiate_tx, join_tx, initiate_coinjoin,
  join_coinjoin,
}
use joinstr.Interface.Runs.{Ensures-joins, pays_lem, answered_lem, Ensures-run, Initiated, Joined}

module _ {N C W : Type 0} (host : Host N C W) where
  -- The settings of a pool that is initiated, with the time at which they are made.
  abbrev IsArranged : PoolConfig → PeerConfig → JoinstrInner N C → Type 0
  IsArranged config p j =
      (now : ℕ) × Configured host p.relay config.network config.denomination config.fee
        ((now + config.max_duration) % 2 ^ 64) config.peers j

  Ensures-owned :
      (config : PoolConfig) (p : PeerConfig)
      → Ensures {S = Joinstr N C W}
          (λ s. IsArranged config p s.inner)
          (λ _ s.
            IsArranged config p s.inner
            × (s.inner.input ≡ some p.input)
            × (s.inner.output ≡ some p.output))
          (do set_coin p.input; set_address host p.output)
  unfolding set_coin set_address ◌>>◌ update
  Ensures-owned config p = record {
    holds = λ s (now, c) a r. (
      (
        now,
        record {
          amount = c.amount;
          is_amount = c.is_amount;
          denomination = ground (arith, r, c.denomination);
          is_fee = ground (arith, r, c.is_fee);
          timeout = ground (arith, r, c.timeout);
          peers_count = ground (arith, r, c.peers_count);
          same_relay = ground (arith, r, c.same_relay);
          same_network = ground (arith, r, c.same_network);
        },
      ),
      ground (arith, r),
      ground (arith, r),
    );
  }

module _ {N C W : Type 0} (host : Host N C W) where
  Ensures-setup_initiator :
      (config : PoolConfig) (p : PeerConfig)
      → Ensures (λ _. Unit {0}) (λ j _. IsArranged host config p j) (setup_initiator host config p)
  unfolding setup_initiator asks
  Ensures-setup_initiator config p = Ensures-bind (anything _) (λ keys.
      Ensures-bind (Ensures-new_initiator host keys p.relay _ config.network _) (λ j.
        Ensures-builds host _ (IsArranged host config p)
          (Ensures-then (Ensures-IsValued host p.relay config.network config.denomination) (
            Ensures-then
              (Ensures-IsPriced host p.relay config.network config.denomination config.fee)
              (Ensures-bind (record { holds = λ s h t r. h })
                (λ now.
                  Ensures-mono (λ s h. h) (λ a s c. (now, c))
                    (Ensures-timed host p.relay config.network config.denomination config.fee _
                      _)))))
          j))

module _ {N C W : Type 0} (host : Host N C W) where
  setup_initiator-IsOnline :
      (config : PoolConfig) (p : PeerConfig)
      → Ensures (λ _. Unit {0}) (λ j _. IsOnline j) (setup_initiator host config p)
  unfolding setup_initiator
  setup_initiator-IsOnline config p = Ensures-bind (anything _) (λ keys.
      Ensures-bind (new_initiator-IsOnline host keys p.relay _ config.network _)
        (λ j. builds-IsOnline host (Keeps-configuring host _ _ _ _) j))

  -- The object of an initiator, once it is set up, and once it has its input and output.
  abbrev IsSetup : PoolConfig → PeerConfig → JoinstrInner N C → Type 0
  IsSetup config p j = IsArranged host config p j × IsOnline j

  Ensures-owning :
      (config : PoolConfig) (p : PeerConfig) (j : JoinstrInner N C)
      → Ensures
          (λ _. IsSetup config p j)
          (λ j' _.
            (IsArranged host config p j' × (j'.input ≡ some p.input) × (j'.output ≡ some p.output))
            × IsOnline j')
          (builds host (do set_coin p.input; set_address host p.output) j)
  Ensures-owning config p j =
      Ensures-and
        (Ensures-mono (λ w h. h.0) (λ j' w q. q)
          (Ensures-builds host (IsArranged host config p) _ (Ensures-owned host config p) j))
        (Ensures-mono (λ w h. h.1) (λ j' w q. q)
          (builds-IsOnline host (Keeps-owning host p.input p.output) j))

module _ {N C W : Type 0} (host : Host N C W) (laws : IsLawful host.bitcoin) (keychain : Keychain W)
    (display : SignerError → String) (fuel : ℕ) where
  Ensures-initiate_tx :
      (config : PoolConfig) (p : PeerConfig)
      → Ensures
          (λ _. Unit {0})
          (λ tx _. Initiated host keychain display fuel config p tx)
          (initiate_tx host keychain display fuel config p)
  unfolding initiate_tx
  Ensures-initiate_tx config p =
      Ensures-bind
        (Ensures-joins (
          Ensures-and (Ensures-setup_initiator host config p)
            (setup_initiator-IsOnline host config p)))
        (λ j. Ensures-bind (keeping _) (λ s.
          Ensures-bind (Ensures-joins (Ensures-owning host config p j)) (λ j'.
            Ensures-bind (keeping (clone_signer host s)) (λ s'.
              Ensures-mono (λ w h. h)
                (λ tx w (ran, (((now, configured), same_input, same_output), online)). record {
                  object = j';
                  now = now;
                  configured = configured;
                  same_input = same_input;
                  same_output = same_output;
                  ran = ran;
                  answered = answered_lem online ran.hosted ran.is_tx;
                  pays = pays_lem configured same_output ran.hosted ran.is_tx;
                })
                (Ensures-run host keychain display fuel laws s' j')))))

  Ensures-join_tx :
      (pool : Pool) (p : PeerConfig)
      → Ensures
          (λ _. Unit {0})
          (λ tx _. Joined host keychain display fuel pool p tx)
          (join_tx host keychain display fuel pool p)
  unfolding join_tx
  Ensures-join_tx pool p =
      Ensures-bind
        (Ensures-joins (
          Ensures-and
            (Ensures-new_peer_with_electrum host p.relay pool _ p.input p.output pool.network _)
            (new_peer_with_electrum-IsOnline host p.relay pool _ p.input p.output pool.network _)))
        (λ j. Ensures-bind (keeping _) (λ s. Ensures-bind (keeping (clone_signer host s)) (λ s'.
          Ensures-mono (λ w h. h)
            (λ tx w (ran, (is_peer, online)). record {
              object = j;
              is_peer = is_peer;
              ran = ran;
              answered = answered_lem online ran.hosted ran.is_tx;
              pays = pays_lem is_peer.configured is_peer.same_output ran.hosted ran.is_tx;
            })
            (Ensures-run host keychain display fuel laws s' j))))

  module _ (compute_txid : Transaction → Txid) where
    Ensures-initiate_coinjoin :
        (config : PoolConfig) (p : PeerConfig)
        → Ensures
            (λ _. Unit {0})
            (λ txid _.
              (tx : Transaction) × Initiated host keychain display fuel config p tx
              × (txid ≡ compute_txid tx))
            (initiate_coinjoin host keychain display fuel compute_txid config p)
    unfolding initiate_coinjoin
    Ensures-initiate_coinjoin config p =
        Ensures-bind (Ensures-initiate_tx config p) (λ tx. Ensures-pure _ (λ w h. (tx, h, refl)))

    -- Where `initiate_coinjoin` succeeds, it has run, without a pool, an object with the configured
    -- denomination, fee, number of peers, network and relay, a deadline that lies the configured
    -- duration after a time, and the given input and output. In that run, `post_event` of the object's
    -- own nostr client returned Ok for the event of a pool with these settings, and `broadcast` of its
    -- electrum client returned Ok for a transaction that pays the configured denomination to distinct
    -- addresses, at least as many as the configured peers and the given output among them, and that
    -- spends no outpoint twice; and the id of that transaction is returned.
    pub initiate_coinjoin-Initiated :
        (config : PoolConfig) (p : PeerConfig) (w : W) (txid : Txid)
        → (initiate_coinjoin host keychain display fuel compute_txid config p w).0 ≡ ok txid
        → (tx : Transaction) × Initiated host keychain display fuel config p tx
          × (txid ≡ compute_txid tx)
    initiate_coinjoin-Initiated config p w txid h =
        (Ensures-initiate_coinjoin config p).holds w tt txid h

    Ensures-join_coinjoin :
        (show : Txid → String) (pool : Pool) (p : PeerConfig)
        → Ensures
            (λ _. Unit {0})
            (λ text _.
              (tx : Transaction) × Joined host keychain display fuel pool p tx
              × (text ≡ show (compute_txid tx)))
            (join_coinjoin host keychain display fuel compute_txid show pool p)
    unfolding join_coinjoin
    Ensures-join_coinjoin show pool p =
        Ensures-bind (Ensures-join_tx pool p) (λ tx. Ensures-pure _ (λ w h. (tx, h, refl)))

    -- Where `join_coinjoin` succeeds, it has run an object with the settings of the given pool and the
    -- given input and output, and returns the text of the id of a transaction for which `broadcast` of
    -- the object's electrum client returned Ok, and which pays the pool's denomination to distinct
    -- addresses, no fewer than the pool's peers and the given output among them, and spends no outpoint
    -- twice. The run is one that is given no pool: the pool of its coinjoin is one with these settings
    -- and the public key of the object's own nostr client, for whose event `post_event` of that client
    -- returned Ok.
    pub join_coinjoin-Joined :
        (show : Txid → String) (pool : Pool) (p : PeerConfig) (w : W) (text : String)
        → (join_coinjoin host keychain display fuel compute_txid show pool p w).0 ≡ ok text
        → (tx : Transaction) × Joined host keychain display fuel pool p tx
          × (text ≡ show (compute_txid tx))
    join_coinjoin-Joined show pool p w text h =
        (Ensures-join_coinjoin show pool p).holds w tt text h
