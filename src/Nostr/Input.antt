-- ===== src/Nostr/Input.antt =====
-- `InputDataSigned` of rust/joinstr/src/nostr/mod.rs: an input that its owner has signed.
use joinstr.Prelude.{Option}
use joinstr.Bitcoin.{Amount, TxIn}

pub record InputDataSigned : Type 0 where
  pub txin : TxIn
  pub amount : Option Amount
