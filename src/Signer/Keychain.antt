-- ===== src/Signer/Keychain.antt =====
-- What the hot signer uses of the bip39, bip32, secp256k1 and miniscript crates. Keys, derivation
-- paths, descriptors, messages and signatures are opaque.
use Prim.Native.String.{String}
use joinstr.Prelude.{ℕ, Bool, Option, Outcome}
use joinstr.Bitcoin.{Address, Network, Psbt, Witness}

abbrev pub Xpriv : Type 0
Xpriv = ℕ

abbrev pub Xpub : Type 0
Xpub = ℕ

abbrev pub Fingerprint : Type 0
Fingerprint = ℕ

abbrev pub PrivateKey : Type 0
PrivateKey = ℕ

abbrev pub PubKey : Type 0
PubKey = ℕ

abbrev pub DerivationPath : Type 0
DerivationPath = ℕ

abbrev pub Descriptor : Type 0
Descriptor = ℕ

abbrev pub Message : Type 0
Message = ℕ

abbrev pub Signature : Type 0
Signature = ℕ

abbrev pub Mnemonic : Type 0
Mnemonic = ℕ

pub record Keychain (W : Type 0) : Type 0 where
  -- `Display`
  pub show : ℕ → String
  pub show_fingerprint : Fingerprint → String
  pub show_xpub : Xpub → String
  pub show_mnemonic : Mnemonic → String
  pub mnemonic_of_text : String → Outcome String Mnemonic
  -- `Mnemonic::generate(12)`
  pub generate : W → Mnemonic × W
  -- `Xpriv::new_master` of the mnemonic's seed without a password
  pub new_master : Network → Mnemonic → Option Xpriv
  pub fingerprint : Xpriv → Fingerprint
  pub path_of_text : String → Option DerivationPath
  pub derive_priv : Xpriv → DerivationPath → Option Xpriv
  -- `xpriv.private_key`
  pub private_key : Xpriv → PrivateKey
  -- `xpriv.to_priv()`
  pub to_priv : Xpriv → PrivateKey
  pub xpub_from_priv : Xpriv → Xpub
  pub public_key : PrivateKey → PubKey
  pub p2wpkh : PubKey → Network → Address
  pub descriptor_of_text : String → Option Descriptor
  pub at_derivation_index : Descriptor → ℕ → Option Descriptor
  pub address : Descriptor → Network → Option Address
  -- the witness of `TxIn::default()`
  pub default_witness : Witness
  -- `psbt.sighash_ecdsa(0, ..)`: the message, and the type of the hash
  pub sighash_ecdsa : Psbt → Option (Message × ℕ)
  pub sign_ecdsa_low_r : Message → PrivateKey → Signature
  pub verify_ecdsa : Message → Signature → PubKey → Bool
  -- `Witness::p2wpkh` of a signature with its type
  pub witness_p2wpkh : Signature → ℕ → PubKey → Witness
