-- ===== src/Joinstr/Configured/Peer.antt =====
-- The settings of the objects that `new_peer` makes, which are those of the pool.
use Prim.Native.String.{String}
use joinstr.Prelude.{
  ◌≡◌, refl, arith, ℕ, some, Option-cases, inl, inr, ◌>>◌, yields, Ensures, Ensures-bind,
  Ensures-then, Ensures-mono, Ensures-pure,
}
use joinstr.Bitcoin.{Network, Address}
use joinstr.Nostr.Pool.{Fee, Timeline, Pool, PoolPayload}
use joinstr.Signer.{Coin}
use joinstr.Joinstr.Host.{Host, Float}
use joinstr.Joinstr.State.{JoinstrInner, Joinstr}
use joinstr.Joinstr.Setup.{
  new_peer, new_peer_with_electrum, peer_settings, set_network, set_denomination, set_fee,
  set_simple_timeout, set_min_peers,
}
use joinstr.Joinstr.Configured.{
  Configured, anything, known, Ensures-network, Ensures-IsValued, Ensures-IsPriced, Ensures-timed,
  Ensures-builds, Ensures-new,
}

module _ {N C W : Type 0} (host : Host N C W) where
  -- A peer takes the settings of its pool, and is given its input and its output.
  pub record PeerOf (pool : Pool) (relay : String) (network : Network) (input : Coin)
      (output : Address) (j : JoinstrInner N C) : Type 0 where
    pub payload : PoolPayload
    pub has_payload : pool.payload ≡ some payload
    pub fee : ℕ
    pub is_fee : payload.fee ≡ Fee.fixed fee
    pub t : ℕ
    pub is_timeout : payload.timeout ≡ Timeline.simple t
    pub configured :
        Configured host relay network (host.to_btc payload.denomination) fee t payload.peers j
    pub same_input : j.input ≡ some input
    pub same_output : j.output ≡ some output

  -- The settings that are read from a pool.
  record SettingsOf (pool : Pool) (settings : Float × ℕ × ℕ × ℕ) : Type 0 where
    payload : PoolPayload
    has_payload : pool.payload ≡ some payload
    is_denomination : settings.0 ≡ host.to_btc payload.denomination
    is_fee : payload.fee ≡ Fee.fixed settings.1
    is_timeout : payload.timeout ≡ Timeline.simple settings.2
    is_peers : settings.3 ≡ payload.peers

  Ensures-peer_settings :
      (pool : Pool)
      → Ensures {S = W}
          (λ _. Unit {0})
          (λ settings _. SettingsOf pool settings)
          (yields (peer_settings host pool))
  unfolding peer_settings yields
  Ensures-peer_settings pool = record {
    holds = λ s p settings r. elim (Option-cases pool.payload) [
      | inl missing ↦ absurd (ground (arith, r, missing))
      | inr (payload, has) ↦ record {
        payload = payload;
        has_payload = has;
        is_denomination = ground (arith, r, has);
        is_fee = ground (arith, r, has);
        is_timeout = ground (arith, r, has);
        is_peers = ground (arith, r, has);
      }
    ];
  }

  Ensures-Configured :
      (relay : String) (network : Network) (d : Float) (fee t peers : ℕ)
      → Ensures {S = Joinstr N C W}
          (λ s. s.inner.relay ≡ some relay)
          (λ _ s. Configured host relay network d fee t peers s.inner)
          (do
            set_network network
            set_denomination host d
            set_fee fee
            set_simple_timeout t
            set_min_peers peers)
  Ensures-Configured relay network d fee t peers =
      Ensures-then (Ensures-network host relay network) (
        Ensures-then (Ensures-IsValued host relay network d) (
          Ensures-then (Ensures-IsPriced host relay network d fee)
            (Ensures-timed host relay network d fee t peers)))

  Ensures-new_peer :
      (relay : String) (pool : Pool) (input : Coin) (output : Address) (network : Network)
      (name : String)
      → Ensures
          (λ _. Unit {0})
          (λ j _. PeerOf pool relay network input output j)
          (new_peer host relay pool input output network name)
  unfolding new_peer
  Ensures-new_peer relay pool input output network name =
      Ensures-bind (Ensures-peer_settings pool) (λ settings.
        Ensures-mono (λ s p. (tt, p)) (λ j s q. q)
          (Ensures-then (known (anything _)) (
            Ensures-bind (known (anything _)) (λ keys.
              Ensures-bind (known (Ensures-new host keys relay name)) (λ j.
                Ensures-bind
                  (known (Ensures-builds host _ _ (Ensures-Configured relay network _ _ _ _) j))
                  (λ j1. Ensures-pure _ (λ s (c, k). record {
                    payload = k.payload;
                    has_payload = k.has_payload;
                    fee = settings.1;
                    is_fee = k.is_fee;
                    t = settings.2;
                    is_timeout = k.is_timeout;
                    configured = record {
                      amount = c.amount;
                      is_amount = rw k.is_denomination at c.is_amount;
                      denomination = c.denomination;
                      is_fee = c.is_fee;
                      timeout = c.timeout;
                      peers_count = rw k.is_peers at c.peers_count;
                      same_relay = c.same_relay;
                      same_network = c.same_network;
                    };
                    same_input = refl;
                    same_output = refl;
                  })))))))

  pub Ensures-new_peer_with_electrum :
      (relay : String) (pool : Pool) (server : String × ℕ) (input : Coin) (output : Address)
      (network : Network) (name : String)
      → Ensures
          (λ _. Unit {0})
          (λ j _. PeerOf pool relay network input output j)
          (new_peer_with_electrum host relay pool server input output network name)
  unfolding new_peer_with_electrum
  Ensures-new_peer_with_electrum relay pool server input output network name =
      Ensures-bind (anything _) (λ client.
        Ensures-bind (Ensures-new_peer relay pool input output network name) (λ j.
          Ensures-pure _ (λ s p. record {
            payload = p.payload;
            has_payload = p.has_payload;
            fee = p.fee;
            is_fee = p.is_fee;
            t = p.t;
            is_timeout = p.is_timeout;
            configured = record {
              amount = p.configured.amount;
              is_amount = p.configured.is_amount;
              denomination = p.configured.denomination;
              is_fee = p.configured.is_fee;
              timeout = p.configured.timeout;
              peers_count = p.configured.peers_count;
              same_relay = p.configured.same_relay;
              same_network = p.configured.same_network;
            };
            same_input = p.same_input;
            same_output = p.same_output;
          })))
