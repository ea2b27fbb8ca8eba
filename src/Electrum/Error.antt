-- ===== src/Electrum/Error.antt =====
-- `electrum::Error` of rust/joinstr/src/electrum.rs.
use Prim.Native.String.{String}

pub data Error : Type 0 where
  electrum : String → Error
  tx_parsing wrong_response wrong_out_point tx_does_not_exists : Error
