-- ===== src/Signer/Example.antt =====
-- Keys, derivations and signatures that are numbers.
use joinstr.Prelude.{ℕ, ◌+◌, true, some, ok}
use joinstr.Signer.Keychain.{Keychain}

-- Every address is 30, and every signature verifies.
abbrev pub keychain : Keychain ℕ
keychain = record {
  show = λ n. "n";
  show_fingerprint = λ n. "f";
  show_xpub = λ n. "x";
  show_mnemonic = λ n. "m";
  mnemonic_of_text = λ t. ok 1;
  generate = λ w. (1, w);
  new_master = λ n m. some 5;
  fingerprint = λ x. 6;
  path_of_text = λ t. some 7;
  derive_priv = λ x p. some (x + p);
  private_key = λ x. x;
  to_priv = λ x. x;
  xpub_from_priv = λ x. x;
  public_key = λ k. k;
  p2wpkh = λ k n. 30;
  descriptor_of_text = λ t. some 8;
  at_derivation_index = λ d i. some d;
  address = λ d n. some 30;
  default_witness = 0;
  sighash_ecdsa = λ p. some (99, 129);
  sign_ecdsa_low_r = λ m k. m + k;
  verify_ecdsa = λ m s k. true;
  witness_p2wpkh = λ s t k. s;
}
