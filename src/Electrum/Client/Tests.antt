-- ===== src/Electrum/Client/Tests.antt =====
-- A socket that holds the texts to come, and the theorems of the electrum client at it.
use Prim.Native.String.{String}
use text.Mathlib.Text.{◌==◌}
use mathlib.Core.Path.{subst}
use text.Mathlib.TextEquality.{eq_iff}
use joinstr.Prelude.{
  ℕ, zero, suc, ◌+◌, ◌%◌, ◌^◌, ◌≡◌, ◌⊎◌, inl, inr, refl, ap, sym, ◌∙◌, Bool-cases, none, some, List,
  [], ◌∷◌, All, Mem, arith, ok, ◌>>◌,
}
use joinstr.Bitcoin.{Txid, OutPoint, TxOut, Transaction}
use joinstr.Nostr.Input.{InputDataSigned}
use joinstr.CoinJoin.{CoinJoin, check_input, add_input}
use joinstr.Electrum.Params.{IsFaithful}
use joinstr.Electrum.Request.{tx_get, with_id}
use joinstr.Electrum.Request.Wire.{gets_tx, numbered, request_json_injective}
use joinstr.Electrum.Response.{Response, RawResponse, TxGetResult, ShGetHistoryResponse}
use joinstr.Electrum.Response.Parse.{Index, parse_str_response}
use joinstr.Electrum.Response.Answers.{IsConsistent, Belongs, parse_str_response-Belongs}
use joinstr.Electrum.Client.{
  Client, get_tx, get_coins_at, get_coins_tx_at, broadcast, address_already_used,
  get_outpoint_value, coins_from, get_elem?,
}
use joinstr.Electrum.Client.Idle.{Idles, client_idle}
use joinstr.Electrum.Client.Coins.{
  IsCoin, coins_from_lem, Answered, Sent, tx_request, numbered as with_number, get_tx_lem,
}
use joinstr.Electrum.Client.Fetched.{Fetched, coins_of, insert_all, get_coins_at_lem}
use joinstr.Electrum.Client.Backend.{backend, Shown, add_input-Shown}
use joinstr.Electrum.Client.Example.{strokes, stroke_hex, serde, sockets, sent_tx, codec}

abbrev tally : String → ℕ
tally String.[] = 0
tally (String.◌∷◌ c s) = suc (tally s)

tally-strokes : (n : ℕ) → tally (strokes n) ≡ n
tally-strokes zero = refl
tally-strokes (suc n) = ap suc (tally-strokes n)

strokes_injective : (a b : ℕ) → strokes a ≡ strokes b → a ≡ b
strokes_injective a b h = sym (tally-strokes a) ∙ ap tally h ∙ tally-strokes b

stroke_hex-IsFaithful : IsFaithful stroke_hex
stroke_hex-IsFaithful = record {
  script_hash_injective = strokes_injective;
  txid_injective = strokes_injective;
}

request_json_injective_example : with_id (tx_get 3) 7 ≡ with_id (tx_get 3) 7
request_json_injective_example =
    request_json_injective stroke_hex-IsFaithful (λ s. s) (with_id (tx_get 3) 7)
      (with_id (tx_get 3) 7) (numbered 7 (gets_tx 3)) (numbered 7 (gets_tx 3)) refl

history_id :
    (raw : String) (rr : RawResponse) (a : ShGetHistoryResponse)
    → serde.raw_response raw ≡ some rr
    → serde.sh_get_history raw ≡ some a
    → a.id ≡ rr.id
history_id raw rr a h e = elim (Bool-cases (raw == "history")) [
  | inr other ↦ absurd (ground arith)
  | inl p ↦
      let h' : serde.raw_response "history" ≡ some rr =
        subst (λ t. serde.raw_response t ≡ some rr) ((eq_iff raw "history").0 p) h in
      ground (arith, h')
]

serde-IsConsistent : IsConsistent serde
serde-IsConsistent = record {
  ping = λ raw rr a h e. absurd (ground arith);
  banner = λ raw rr a h e. absurd (ground arith);
  header = λ raw rr a h e. absurd (ground arith);
  headers = λ raw rr a h e. absurd (ground arith);
  version = λ raw rr a h e. absurd (ground arith);
  tx_get = λ raw rr a h e. ground (arith, eq_iff raw "tx");
  sh_subscribe = λ raw rr a h e. absurd (ground arith);
  sh_unsubscribe = λ raw rr a h e. absurd (ground arith);
  sh_get_balance = λ raw rr a h e. absurd (ground arith);
  sh_get_history = history_id;
  sh_list_unspent = λ raw rr a h e. absurd (ground arith);
  features = λ raw rr a h e. absurd (ground arith);
  donation = λ raw rr a h e. absurd (ground arith);
  estimate_fee = λ raw rr a h e. absurd (ground arith);
  fee_histogram = λ raw rr a h e. absurd (ground arith);
  relay_fee = λ raw rr a h e. absurd (ground arith);
  tx_get_merkle = λ raw rr a h e. absurd (ground arith);
  tx_from_position = λ raw rr a h e. absurd (ground arith);
  tx_broadcast = λ raw rr a h e. absurd (ground arith);
}

abbrev waiting : Index
waiting = (2, tx_get 5) ∷ []

abbrev answer : Response
answer = Response.tx_get (record { id = 2; result = TxGetResult.raw "00" })

reads : parse_str_response serde "tx" waiting ≡ ok (answer ∷ [])
unfolding parse_str_response tx_get
reads = refl

parse_str_response-Belongs_example : All (Belongs waiting) (answer ∷ [])
parse_str_response-Belongs_example =
    parse_str_response-Belongs serde-IsConsistent "tx" waiting (answer ∷ []) reads

abbrev connected : Client (List String)
connected = record { inner = "history" ∷ "tx" ∷ []; index = []; last_id = 0; url = ""; port = 0 }

-- After the history has been read.
abbrev later : Client (List String)
later = record connected { inner = "tx" ∷ []; last_id = 1 }

client_idle_example :
    Idles (get_tx sockets codec 5)
    × Idles (get_coins_tx_at sockets codec 9)
    × Idles (get_coins_at sockets codec 9)
    × Idles (broadcast sockets codec sent_tx)
    × Idles (address_already_used sockets codec (λ a. a) 9)
    × Idles (get_outpoint_value sockets codec (record { txid = 5; vout = 1 }))
client_idle_example =
    client_idle sockets codec 5 9 sent_tx (λ a. a) 9 (record { txid = 5; vout = 1 })

coins_from_lem_example :
    let coins = coins_from 9 5 0 sent_tx.output in
    All (IsCoin 9 5 sent_tx.output) coins
    × ((j : ℕ) (o : TxOut)
        → get_elem? sent_tx.output j ≡ some o
        → o.script_pubkey ≡ 9
        → Mem (o, record { txid = 5; vout = j }) coins)
coins_from_lem_example = coins_from_lem 9 5 sent_tx.output (omega arith)

gets : (get_tx sockets codec 5 later).0 ≡ ok sent_tx
unfolding get_tx ◌>>◌
gets = refl

get_tx_lem_example :
    (rs : List Response) × Answered sockets codec
      (tx_request sockets codec 5 later)
      (with_number sockets codec later)
      rs
    × Sent sockets codec ((later.last_id + 1) % 2 ^ 64) rs sent_tx
get_tx_lem_example = get_tx_lem sockets codec 5 later sent_tx gets

abbrev found_coins : List (TxOut × OutPoint)
found_coins = (record { value = 50; script_pubkey = 9 }, record { txid = 5; vout = 1 }) ∷ []

abbrev found_txs : List (ℕ × Transaction)
found_txs = (5, sent_tx) ∷ []

gets_coins : (get_coins_at sockets codec 9 connected).0 ≡ ok (found_coins, found_txs)
unfolding get_coins_at ◌>>◌
gets_coins = refl

get_coins_at_lem_example :
    (history : List Txid) × (fetched : List (Txid × Transaction)) × ((get_coins_tx_at sockets codec
        9 connected).0
      ≡ ok history)
    × Fetched sockets codec history
        (get_coins_tx_at sockets codec 9 connected).1
        fetched
        (get_coins_at sockets codec 9 connected).1
    × (found_coins ≡ coins_of 9 fetched)
    × (found_txs ≡ insert_all [] fetched)
get_coins_at_lem_example =
    get_coins_at_lem sockets codec 9 connected found_coins found_txs gets_coins

abbrev spending : InputDataSigned
spending = record {
  txin = record { previous_output = record { txid = 5; vout = 1 }; sequence = 0; witness = 1 };
  amount = some 50;
}

abbrev joining : CoinJoin (Client (List String))
joining = record {
  outputs = [];
  psbt = none;
  inputs = [];
  tx = none;
  min_peer = 5;
  denomination = 50;
  fee = 2;
  client = some later;
}

accepts : (add_input (backend sockets codec (λ a. a)) spending joining).0 ≡ ok tt
unfolding add_input check_input get_outpoint_value ◌>>◌
accepts = refl

add_input-Shown_example :
    (amount : ℕ) × Shown sockets codec (λ a. a) (record { txid = 5; vout = 1 }) amount
    × ((spending.amount ≡ none) ⊎ (spending.amount ≡ some amount))
add_input-Shown_example = add_input-Shown sockets codec (λ a. a) spending joining later refl accepts
