-- ===== src/Joinstr/Configured.antt =====
-- The settings of the objects that `new_initiator` and the builders make.
pub mod Peer
pub mod Electrum
use Prim.Native.String.{String}
use joinstr.Prelude.{
  ◌≡◌, ap, refl, arith, ℕ, Option, none, some, Option-cases, inl, inr, Outcome-cases, ok, Action,
  ◌>>=◌, ◌>>◌, yields, Ensures, Ensures-bind, Ensures-then, Ensures-exists, Ensures-mono,
  Ensures-knowing, Ensures-pure, Ensures-yields,
}
use joinstr.Bitcoin.{Amount, Network, Address}
use joinstr.Nostr.Pool.{Keys, Fee, Timeline, Pool, PoolPayload}
use joinstr.Signer.{Coin}
use joinstr.Joinstr.Error.{Error}
use joinstr.Joinstr.Host.{Host, Float}
use joinstr.Joinstr.State.{JoinstrInner, Joinstr, asks, update}
use joinstr.Joinstr.Setup.{
  builds, connect, new, new_electrum, new_with_electrum, new_initiator, new_peer,
  new_peer_with_electrum, peer_settings, set_network, set_denomination, set_fee, set_simple_timeout,
  set_min_peers, set_coin, set_address,
}

-- An object with these settings.
pub record Configured {N C W : Type 0} (host : Host N C W) (relay : String) (network : Network)
    (d : Float) (fee t peers : ℕ) (j : JoinstrInner N C) : Type 0 where
  pub amount : Amount
  pub is_amount : host.from_btc d ≡ some amount
  pub denomination : j.denomination ≡ some amount
  pub is_fee : j.fee ≡ some (Fee.fixed fee)
  pub timeout : j.timeout ≡ some (Timeline.simple t)
  pub peers_count : j.peers_count ≡ some peers
  pub same_relay : j.relay ≡ some relay
  pub same_network : j.network ≡ network

pub anything : {S E A : Type 0} {P : S → Type 0} (m : Action S E A) → Ensures P (λ a s. Unit {0}) m
anything m = record { holds = λ s p a r. tt }

-- A fact on values is still there afterwards.
pub known :
    {S E A K : Type 0} {P : S → Type 0} {Q : A → S → Type 0} {m : Action S E A}
    → Ensures P Q m
    → Ensures (λ s. P s × K) (λ a s. Q a s × K) m
known e = record { holds = λ s (p, k) a r. (e.holds s p a r, k) }

pub keeping : {S E A K : Type 0} (m : Action S E A) → Ensures (λ _. K) (λ a s. K) m
keeping m = record { holds = λ s p a r. p }

module _ {N C W : Type 0} (host : Host N C W) where
  pub Ensures-builds :
      (P Q : JoinstrInner N C → Type 0) {m : Action (Joinstr N C W) Error (Unit {0})}
      → Ensures (λ s. P s.inner) (λ _ s. Q s.inner) m
      → (j : JoinstrInner N C) → Ensures (λ _. P j) (λ j' _. Q j') (builds host m j)
  Ensures-builds P Q {m = m} e j = record {
    holds = λ w p j' r. elim (Outcome-cases (m (record { inner = j; world = w })).0) [
      | inr failed ↦ absurd (ground (arith, r, failed))
      | inl (u, is) ↦
          let same : (m (record { inner = j; world = w })).1.inner ≡ j' = ground (arith, r, is) in
          rw same at (e.holds _ p u is)
    ];
  }

  pub Ensures-new :
      (keys : Keys) (relay name : String)
      → Ensures (λ _. Unit {0}) (λ j _. j.relay ≡ some relay) (new host keys relay name)
  unfolding new
  Ensures-new keys relay name = Ensures-bind (anything _) (λ a.
      Ensures-bind (anything _)
        (λ b. Ensures-bind (anything _) (λ client. Ensures-pure _ (λ s p. refl))))

  Ensures-new_with_electrum :
      (keys : Keys) (relay : String) (server : String × ℕ) (name : String)
      → Ensures
          (λ _. Unit {0})
          (λ j _. j.relay ≡ some relay)
          (new_with_electrum host keys relay server name)
  unfolding new_with_electrum
  Ensures-new_with_electrum keys relay server name =
      Ensures-bind (anything _)
        (λ client. Ensures-bind (Ensures-new keys relay name) (λ j. Ensures-pure _ (λ s p. p)))

  -- The relay and the network of a new object.
  abbrev IsBased : String → Network → JoinstrInner N C → Type 0
  IsBased relay network i = (i.relay ≡ some relay) × (i.network ≡ network)

  pub Ensures-network :
      (relay : String) (network : Network)
      → Ensures {S = Joinstr N C W}
          (λ s. s.inner.relay ≡ some relay)
          (λ _ s. IsBased relay network s.inner)
          (set_network network)
  unfolding set_network update
  Ensures-network relay network = record { holds = λ s p a r. (p, refl) }

  pub Ensures-new_initiator :
      (keys : Keys) (relay : String) (server : String × ℕ) (network : Network) (name : String)
      → Ensures
          (λ _. Unit {0})
          (λ j _. IsBased relay network j)
          (new_initiator host keys relay server network name)
  unfolding new_initiator
  Ensures-new_initiator keys relay server network name =
      Ensures-bind (Ensures-new_with_electrum keys relay server name) (λ j.
        Ensures-bind
          (Ensures-builds (λ i. i.relay ≡ some relay) (IsBased relay network)
            (Ensures-network relay network) j)
          (λ j1. Ensures-pure _ (λ s p. p)))

  -- With the denomination, then the fee, then the rest.
  abbrev IsValued : String → Network → Float → JoinstrInner N C → Type 0
  IsValued relay network d i =
      IsBased relay network i
      × ((amount : Amount) × (host.from_btc d ≡ some amount) × (i.denomination ≡ some amount))

  abbrev IsPriced : String → Network → Float → ℕ → JoinstrInner N C → Type 0
  IsPriced relay network d fee i = IsValued relay network d i × (i.fee ≡ some (Fee.fixed fee))

  pub Ensures-IsValued :
      (relay : String) (network : Network) (d : Float)
      → Ensures {S = Joinstr N C W}
          (λ s. IsBased relay network s.inner)
          (λ _ s. IsValued relay network d s.inner)
          (set_denomination host d)
  unfolding set_denomination ◌>>◌ update
  Ensures-IsValued relay network d = record {
    holds = λ s (same_relay, same_network) a r. elim (Option-cases (host.from_btc d)) [
      | inl wrong ↦ absurd (ground (arith, r, wrong))
      | inr (amount, is) ↦ (
        (ground (arith, r, same_relay, is), ground (arith, r, same_network, is)),
        (amount, is, ground (arith, r, is)),
      )
    ];
  }

  pub Ensures-IsPriced :
      (relay : String) (network : Network) (d : Float) (fee : ℕ)
      → Ensures {S = Joinstr N C W}
          (λ s. IsValued relay network d s.inner)
          (λ _ s. IsPriced relay network d fee s.inner)
          (set_fee fee)
  unfolding set_fee ◌>>◌ update
  Ensures-IsPriced relay network d fee = record {
    holds = λ s ((same_relay, same_network), (amount, is, set)) a r. (
      (
        (ground (arith, r, same_relay), ground (arith, r, same_network)),
        (amount, is, ground (arith, r, set)),
      ),
      ground (arith, r),
    );
  }

  pub Ensures-timed :
      (relay : String) (network : Network) (d : Float) (fee t peers : ℕ)
      → Ensures {S = Joinstr N C W}
          (λ s. IsPriced relay network d fee s.inner)
          (λ _ s. Configured host relay network d fee t peers s.inner)
          (do set_simple_timeout t; set_min_peers peers)
  unfolding set_simple_timeout set_min_peers ◌>>◌ update
  Ensures-timed relay network d fee t peers = record {
    holds = λ s (((same_relay, same_network), (amount, is, set)), is_fee) a r. record {
      amount = amount;
      is_amount = is;
      denomination = ground (arith, r, set);
      is_fee = ground (arith, r, is_fee);
      timeout = ground (arith, r);
      peers_count = ground (arith, r);
      same_relay = ground (arith, r, same_relay);
      same_network = ground (arith, r, same_network);
    };
  }
