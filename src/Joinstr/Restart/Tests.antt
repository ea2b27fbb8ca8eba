-- ===== src/Joinstr/Restart/Tests.antt =====
-- Restarts from saved states.
use joinstr.Prelude.{
  ◌≡◌, refl, arith, ℕ, none, some, List, [], ◌∷◌, ok, err, ◌>>=◌, ◌>>◌, yields, pure,
}
use joinstr.Json.{null}
use joinstr.Bitcoin.{regtest}
use joinstr.Nostr.Message.{Codec}
use joinstr.Nostr.Pool.{PoolMessage, Pool, PoolPayload, Timeline, Fee, create}
use joinstr.Signer.{JoinstrSigner}
use joinstr.Nostr.Input.{InputDataSigned}
use joinstr.Joinstr.Host.{Host}
use joinstr.Joinstr.Example.{host}
use joinstr.Joinstr.State.{JoinstrInner, default_inner, peer, failed, update, output_registration}
use joinstr.Joinstr.Setup.{new, set_network}
use joinstr.Joinstr.Saved.{State, Vault}
use joinstr.Joinstr.Restart.{restore, resume, finish, catch_up, drain_inner, drain, restart}
use joinstr.Joinstr.Restart.Resumed.{Resumed}
use joinstr.Joinstr.Restart.Stuck.{restart_stuck}

abbrev codec : Codec
codec = record {
  print = λ v. ok "";
  parse = λ s. ok null;
  txin_to_hex = λ t. "";
  txin_of_hex = λ s. none;
  witness_to_hex = λ w. "";
  witness_of_hex = λ s. none;
  transaction_to_hex = λ tx. "";
  transaction_of_hex = λ s. none;
  amount_of_value = λ v. err "";
  psbt_to_value = λ p. err "";
  psbt_of_text = λ s. err "";
  key_to_value = λ k. err "";
  key_of_value = λ v. err "";
  address_to_value = λ a. err "";
  address_of_text = λ s. none;
  secret_to_hex = λ k. "";
  secret_of_value = λ v. err "";
  shape_error = λ v. "";
}

abbrev vault : Vault
vault = record {
  codec = codec;
  to_secret_hex = λ k. "02";
  from_hex = λ s. some 2;
  input_of_value = λ v. none;
}

abbrev payload : PoolPayload
payload = record {
  denomination = 1000;
  peers = 2;
  timeout = Timeline.simple 9;
  relays = [];
  fee = Fee.fixed 1;
  transport = record { vpn = none; tor = none };
}

abbrev pool : Pool
pool = record {
  versions = none;
  id = "id";
  network = regtest;
  pool_type = create;
  public_key = 1;
  payload = some payload;
}

-- A pool in progress: its outputs are registered.
abbrev registered : JoinstrInner (List PoolMessage) ℕ
registered = record (default_inner []) {
  role = peer;
  step = output_registration;
  pool = some pool;
  relay = some "relay";
  network = regtest;
  output = some 10;
  peers = 3 ∷ 4 ∷ [];
  outputs = 10 ∷ 20 ∷ [];
}

abbrev saved : State
saved = record {
  role = peer;
  step = output_registration;
  pool_secret_key = "02";
  relay = "relay";
  electrum = none;
  pool = pool;
  input = none;
  output = some 10;
  network = regtest;
  peers = 3 ∷ 4 ∷ [];
  outputs = 10 ∷ 20 ∷ [];
  inputs = [];
  final_tx = none;
}

-- The object of the saved state.
abbrev resumed : JoinstrInner (List PoolMessage) ℕ
resumed = record (default_inner []) {
  role = peer;
  pool = some pool;
  relay = some "relay";
  network = regtest;
  output = some 10;
  peers = 3 ∷ 4 ∷ [];
  outputs = 10 ∷ 20 ∷ [];
}

resumes : resume host vault 5 saved "peer" 0 ≡ (ok resumed, 0)
unfolding resume restore finish catch_up drain_inner drain new set_network update ◌>>=◌ ◌>>◌ yields
    pure
resumes = refl

-- An input waits for it at the relay.
abbrev waiting : InputDataSigned
waiting = record {
  txin = record { previous_output = record { txid = 7; vout = 0 }; sequence = 0; witness = 1 };
  amount = some 3000;
}

abbrev relayed : Host (List PoolMessage) ℕ ℕ
relayed = record host { nostr = record host.nostr { new = λ name. PoolMessage.input waiting ∷ [] } }

abbrev caught_up : JoinstrInner (List PoolMessage) ℕ
caught_up = record resumed { inputs = waiting ∷ [] }

abbrev signer : JoinstrSigner
signer = record { sign_input = λ t c. err "" }

restart_stuck_example :
    restart host (λ w. w) vault 5 saved "peer" signer 0
    ≡ (ok (record resumed { error = some "error"; step = failed }), 0)
restart_stuck_example =
    restart_stuck host (λ w. w) vault 5 saved "peer" payload signer resumed 0 0 refl refl resumes
      (omega arith) (omega arith) (omega arith)
