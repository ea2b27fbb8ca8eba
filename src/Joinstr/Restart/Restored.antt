-- ===== src/Joinstr/Restart/Restored.antt =====
-- What `restart` reads of a saved state, before the messages that wait.
use Prim.Native.String.{String}
use joinstr.Prelude.{
  ◌≡◌, refl, arith, none, some, map, ok, Ensures, Ensures-bind, Ensures-then, Ensures-yields,
  Ensures-pure, yields,
}
use joinstr.Nostr.Message.{input_to_json}
use joinstr.Nostr.Pool.{Keys}
use joinstr.Bitcoin.{Network}
use joinstr.Joinstr.Host.{Host}
use joinstr.Joinstr.State.{JoinstrInner, update, unconfigured}
use joinstr.Joinstr.Setup.{new, set_network, builds}
use joinstr.Joinstr.Configured.{anything, keeping}
use joinstr.Joinstr.Saved.{State, Vault, state}
use joinstr.Joinstr.Restart.{restore, restore_electrum, check_output, check_outputs, read_inputs}

-- What a saved state says of the object.
pub record Saves {N C : Type 0} (vault : Vault) (i : JoinstrInner N C) (st : State) : Type 0 where
  pub role : st.role ≡ i.role
  pub pool : i.pool ≡ some st.pool
  pub input : st.input ≡ i.input
  pub output : st.output ≡ i.output
  pub network : st.network ≡ i.network
  pub peers : st.peers ≡ i.peers
  pub outputs : st.outputs ≡ i.outputs
  pub inputs : st.inputs ≡ map (input_to_json vault.codec) i.inputs
  pub final_tx : st.final_tx ≡ i.final_tx

-- A new object, but for its network.
pub record IsFresh {N C : Type 0} (j : JoinstrInner N C) : Type 0 where
  pub step : j.step ≡ unconfigured
  pub coinjoin : j.coinjoin ≡ none
  pub final_tx : j.final_tx ≡ none

-- The object that is made of a saved state.
pub record Restores {N C : Type 0} (vault : Vault) (st : State) (j : JoinstrInner N C)
    : Type 0 where
  pub role : j.role ≡ st.role
  pub pool : j.pool ≡ some st.pool
  pub input : j.input ≡ st.input
  pub output : j.output ≡ st.output
  pub network : j.network ≡ st.network
  pub peers : j.peers ≡ st.peers
  pub outputs : j.outputs ≡ st.outputs
  pub inputs : read_inputs vault st.inputs ≡ ok j.inputs
  pub fresh : IsFresh j

module _ {N C W : Type 0} (host : Host N C W) where
  Ensures-new :
      (keys : Keys) (relay name : String)
      → Ensures (λ _. Unit {0}) (λ j _. IsFresh j) (new host keys relay name)
  unfolding new
  Ensures-new keys relay name = Ensures-bind (anything _) (λ a. Ensures-bind (anything _) (λ b.
      Ensures-bind (anything _) (λ client.
        Ensures-pure _ (λ s p. record { step = refl; coinjoin = refl; final_tx = refl }))))

  Ensures-network :
      (network : Network) (j : JoinstrInner N C)
      → Ensures (λ _. IsFresh j) (λ j' _. IsFresh j') (builds host (set_network network) j)
  unfolding set_network update
  Ensures-network network j = record {
    holds = λ s p j' r. record {
      step = ground (arith, r, p.step);
      coinjoin = ground (arith, r, p.coinjoin);
      final_tx = ground (arith, r, p.final_tx);
    };
  }

  pub Ensures-restore :
      (vault : Vault) (st : State) (name : String)
      → Ensures (λ _. Unit {0}) (λ j _. Restores vault st j) (restore host vault st name)
  unfolding restore
  Ensures-restore vault st name = Ensures-bind (anything _) (λ key.
      Ensures-bind (Ensures-new (host.keys_of key) st.relay name) (λ fresh.
        Ensures-bind (Ensures-network st.network fresh) (λ j.
          Ensures-bind (keeping (restore_electrum host st.electrum)) (λ electrum.
            Ensures-then (keeping (yields (check_output host st.network st.output))) (
              Ensures-then (keeping (yields (check_outputs host st.network st.outputs))) (
                Ensures-bind (Ensures-yields (read_inputs vault st.inputs)) (λ inputs.
                  Ensures-pure _ (λ s p. record {
                    role = refl;
                    pool = refl;
                    input = refl;
                    output = refl;
                    network = refl;
                    peers = refl;
                    outputs = refl;
                    inputs = p.1;
                    fresh = record {
                      step = p.0.step;
                      coinjoin = p.0.coinjoin;
                      final_tx = p.0.final_tx;
                    };
                  }))))))))

  pub state-Saves :
      (vault : Vault) (i : JoinstrInner N C) (st : State)
      → state host vault i ≡ some st
      → Saves vault i st
  unfolding state
  state-Saves vault i st q = record {
    role = ground (arith, q);
    pool = ground (arith, q);
    input = ground (arith, q);
    output = ground (arith, q);
    network = ground (arith, q);
    peers = ground (arith, q);
    outputs = ground (arith, q);
    inputs = ground (arith, q);
    final_tx = ground (arith, q);
  }
