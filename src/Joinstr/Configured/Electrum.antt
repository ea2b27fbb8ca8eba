-- ===== src/Joinstr/Configured/Electrum.antt =====
-- The objects that the callers make have an electrum client.
use Prim.Native.String.{String}
use joinstr.Prelude.{
  ◌≡◌, refl, arith, ℕ, Bool, true, ◌+◌, ◌%◌, ◌^◌, ◌>>=◌, is_some, ◌>>◌, Keeps, Keeps-then,
  Keeps-bind, Keeps-Ensures, Ensures, Ensures-bind, Ensures-pure, Action,
}
use joinstr.Bitcoin.{Network, Address}
use joinstr.Nostr.Pool.{Keys, Pool}
use joinstr.Signer.{Coin}
use joinstr.Joinstr.Error.{Error}
use joinstr.Joinstr.Host.{Host, Float}
use joinstr.Joinstr.State.{JoinstrInner, Joinstr, asks, update}
use joinstr.Joinstr.Setup.{
  builds, new_with_electrum, new_initiator, new_peer_with_electrum, set_network, set_denomination,
  set_fee, set_simple_timeout, set_min_peers, set_coin, set_address,
}
use joinstr.Joinstr.Configured.{anything, Ensures-builds}

-- It has an electrum client.
abbrev pub IsOnline : {N C : Type 0} → JoinstrInner N C → Type 0
IsOnline j = is_some j.electrum_client ≡ true

module _ {N C W : Type 0} (host : Host N C W) where
  -- The builders keep it.
  abbrev client_of : Joinstr N C W → Bool
  client_of s = is_some s.inner.electrum_client

  Keeps-set_network : (network : Network) → Keeps client_of (set_network network)
  unfolding set_network update
  Keeps-set_network network = record { kept = λ s. refl }

  Keeps-settings :
      (d : Float) (fee : ℕ)
      → Keeps client_of (set_denomination host d) × Keeps client_of (set_fee {W = W} fee)
  unfolding set_denomination set_fee ◌>>◌ update
  Keeps-settings d fee = (record { kept = λ s. ground arith }, record { kept = λ s. ground arith })

  Keeps-limits :
      (t peers : ℕ) → Keeps client_of (set_simple_timeout t) × Keeps client_of (set_min_peers peers)
  unfolding set_simple_timeout set_min_peers ◌>>◌ update
  Keeps-limits t peers = (record { kept = λ s. ground arith }, record { kept = λ s. ground arith })

  Keeps-owned :
      (input : Coin) (output : Address)
      → Keeps client_of (set_coin input) × Keeps client_of (set_address host output)
  unfolding set_coin set_address ◌>>◌ update
  Keeps-owned input output =
      (record { kept = λ s. ground arith }, record { kept = λ s. ground arith })

  Keeps-asked : {A : Type 0} (f : W → A × W) → Keeps client_of (asks f)
  unfolding asks
  Keeps-asked f = record { kept = λ s. refl }

  pub builds-IsOnline :
      {m : Action (Joinstr N C W) Error (Unit {0})}
      → Keeps client_of m
      → (j : JoinstrInner N C) → Ensures (λ _. IsOnline j) (λ j' _. IsOnline j') (builds host m j)
  builds-IsOnline k = Ensures-builds host IsOnline IsOnline (Keeps-Ensures (λ b. b ≡ true) k)

  Ensures-new_with_electrum :
      (keys : Keys) (relay : String) (server : String × ℕ) (name : String)
      → Ensures (λ _. Unit {0}) (λ j _. IsOnline j) (new_with_electrum host keys relay server name)
  unfolding new_with_electrum
  Ensures-new_with_electrum keys relay server name =
      Ensures-bind (anything _)
        (λ client. Ensures-bind (anything _) (λ j. Ensures-pure _ (λ s p. refl)))

  pub new_initiator-IsOnline :
      (keys : Keys) (relay : String) (server : String × ℕ) (network : Network) (name : String)
      → Ensures
          (λ _. Unit {0})
          (λ j _. IsOnline j)
          (new_initiator host keys relay server network name)
  unfolding new_initiator
  new_initiator-IsOnline keys relay server network name =
      Ensures-bind (Ensures-new_with_electrum keys relay server name) (λ j.
        Ensures-bind (builds-IsOnline (Keeps-set_network network) j)
          (λ j1. Ensures-pure _ (λ s p. p)))

  pub new_peer_with_electrum-IsOnline :
      (relay : String) (pool : Pool) (server : String × ℕ) (input : Coin) (output : Address)
      (network : Network) (name : String)
      → Ensures
          (λ _. Unit {0})
          (λ j _. IsOnline j)
          (new_peer_with_electrum host relay pool server input output network name)
  unfolding new_peer_with_electrum
  new_peer_with_electrum-IsOnline relay pool server input output network name =
      Ensures-bind (anything _)
        (λ client. Ensures-bind (anything _) (λ j. Ensures-pure _ (λ s p. refl)))

  -- The settings of a pool whose deadline is a while from now.
  pub Keeps-configuring :
      (d : Float) (fee duration peers : ℕ)
      → Keeps client_of (do
        set_denomination host d
        set_fee fee
        t ← asks host.system.now
        set_simple_timeout ((t + duration) % 2 ^ 64)
        set_min_peers peers)
  Keeps-configuring d fee duration peers =
      let (priced, charged) = Keeps-settings d fee in
      Keeps-then priced (
        Keeps-then charged (
          Keeps-bind (Keeps-asked _) (λ t.
            let (timed, limited) = Keeps-limits ((t + duration) % 2 ^ 64) peers in
            Keeps-then timed limited)))

  pub Keeps-owning :
      (input : Coin) (output : Address)
      → Keeps client_of (do set_coin input; set_address host output)
  Keeps-owning input output =
      let (coin, address) = Keeps-owned input output in Keeps-then coin address
