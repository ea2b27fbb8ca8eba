-- ===== src/Electrum/Client/Example.antt =====
-- A socket that holds the texts to come, and readers of two texts.
use Prim.Native.String.{String}
use text.Mathlib.Text.{◌==◌}
use joinstr.Prelude.{
  Bool, ℕ, zero, suc, Option, none, some, List, [], ◌∷◌, Outcome, ok, err, if◌then◌else◌,
}
use joinstr.Prelude.Int.{pos}
use joinstr.Bitcoin.{Transaction}
use joinstr.Electrum.Params.{Hex}
use joinstr.Electrum.Response.{TxGetResult}
use joinstr.Electrum.Response.Parse.{Serde}
use joinstr.Electrum.Client.{Sockets, Codec, RawError, not_connected}

-- A number as so many strokes.
abbrev pub strokes : ℕ → String
strokes zero = String.[]
strokes (suc n) = String.◌∷◌ "1" (strokes n)

abbrev pub stroke_hex : Hex
stroke_hex = record { script_hash = strokes; txid = strokes }

-- A reader that knows no text.
abbrev pub unread : {A : Type 0} → String → Option A
unread raw = none

abbrev pub read_if : {A : Type 0} → String → A → String → Option A
read_if text a raw = if raw == text then some a else none

abbrev pub serde : Serde
serde = record {
  values = unread;
  to_string = λ v. "json";
  error_response = unread;
  batch_header_notif = unread;
  sh_notification = unread;
  raw_response = λ raw. some (record { jsonrpc = "2.0"; id = if raw == "tx" then 2 else 1 });
  raw_response_error = λ raw. "";
  ping = unread;
  banner = unread;
  header_notif = unread;
  header = unread;
  headers = unread;
  version = unread;
  tx_get = read_if "tx" (record { id = 2; result = TxGetResult.raw "00" });
  sh_subscribe = unread;
  sh_unsubscribe = unread;
  sh_get_balance = unread;
  sh_get_history =
      read_if "history"
        (record { id = 1; history = record { height = pos 9; txid = 5; fee = none } ∷ [] });
  sh_list_unspent = unread;
  features = unread;
  donation = unread;
  estimate_fee = unread;
  fee_histogram = unread;
  relay_fee = unread;
  tx_get_merkle = unread;
  tx_from_position = unread;
  tx_broadcast = unread;
}

abbrev pub next_text : List String → Outcome RawError String × List String
next_text [] = (err not_connected, [])
next_text (t ∷ texts) = (ok t, texts)

abbrev pub sockets : Sockets (List String) ℕ
sockets = record {
  connect = λ url port ssl w. (ok [], w);
  send_str = λ text r. (ok tt, r);
  recv_str = next_text;
}

abbrev pub sent_tx : Transaction
sent_tx = record {
  version = 2;
  lock_time = 0;
  input = [];
  output = record { value = 40; script_pubkey = 8 } ∷ record { value = 50; script_pubkey = 9 } ∷ [];
}

abbrev pub codec : Codec
codec = record {
  serde = serde;
  hex = stroke_hex;
  script_hash = λ s. s;
  from_hex = λ s. some (0 ∷ []);
  decode_tx = λ bytes. some sent_tx;
  serialize_hex = λ tx. "00";
  debug = λ e. "error";
  is_ssl = λ s. Bool.false;
  strip_ssl = λ s. s;
}
