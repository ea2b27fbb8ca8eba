-- ===== src/Electrum/Response/Answers.antt =====
-- A response that is read belongs to a request that waits.
use Prim.Native.String.{String}
use joinstr.Prelude.{
  ℕ, Bool, true, false, ◌≡◌, ◌∙◌, ap, refl, ◌⊎◌, inl, inr, Option, none, some, List, [], ◌∷◌, All,
  arith, ok, Option-cases, Outcome-cases,
}
use joinstr.Prelude.Dict.{get}
use joinstr.Json.{Value}
use joinstr.Electrum.Method.{Method}
use joinstr.Electrum.Request.{Request}
use joinstr.Electrum.Response.{Response, RawResponse, response_id}
use joinstr.Electrum.Response.Parse.{
  Serde, Index, parse_as, parse_answer, match_request, try_parse, parse_batch, parse_str_response,
}

-- A reader of a struct with an id finds the id that the reader of every struct finds.
abbrev ReadsId : Serde → {A : Type 0} → (String → Option A) → (A → ℕ) → Type 0
ReadsId serde {A} read id =
    (raw : String) (rr : RawResponse) (a : A)
    → serde.raw_response raw ≡ some rr
    → read raw ≡ some a
    → id a ≡ rr.id

-- serde reads the member `id` of the object, whatever the struct is.
pub record IsConsistent (serde : Serde) : Type 0 where
  pub ping : ReadsId serde serde.ping (λ r. r.id)
  pub banner : ReadsId serde serde.banner (λ r. r.id)
  pub header : ReadsId serde serde.header (λ r. r.id)
  pub headers : ReadsId serde serde.headers (λ r. r.id)
  pub version : ReadsId serde serde.version (λ r. r.id)
  pub tx_get : ReadsId serde serde.tx_get (λ r. r.id)
  pub sh_subscribe : ReadsId serde serde.sh_subscribe (λ r. r.id)
  pub sh_unsubscribe : ReadsId serde serde.sh_unsubscribe (λ r. r.id)
  pub sh_get_balance : ReadsId serde serde.sh_get_balance (λ r. r.id)
  pub sh_get_history : ReadsId serde serde.sh_get_history (λ r. r.id)
  pub sh_list_unspent : ReadsId serde serde.sh_list_unspent (λ r. r.id)
  pub features : ReadsId serde serde.features (λ r. r.id)
  pub donation : ReadsId serde serde.donation (λ r. r.id)
  pub estimate_fee : ReadsId serde serde.estimate_fee (λ r. r.id)
  pub fee_histogram : ReadsId serde serde.fee_histogram (λ r. r.id)
  pub relay_fee : ReadsId serde serde.relay_fee (λ r. r.id)
  pub tx_get_merkle : ReadsId serde serde.tx_get_merkle (λ r. r.id)
  pub tx_from_position : ReadsId serde serde.tx_from_position (λ r. r.id)
  pub tx_broadcast : ReadsId serde serde.tx_broadcast (λ r. r.id)

-- The method that a response answers, if it is not an error or a notification that the server
-- sends by itself.
pub answered : Response → Option Method
answered (Response.ping r) = some Method.ping
answered (Response.banner r) = some Method.banner
answered (Response.header_notif r) = some Method.headers_subscribe
answered (Response.header r) = some Method.block_header
answered (Response.headers r) = some Method.block_headers
answered (Response.version r) = some Method.version
answered (Response.tx_get r) = some Method.transaction_get
answered (Response.sh_subscribe r) = some Method.script_hash_subscribe
answered (Response.sh_unsubscribe r) = some Method.script_hash_unsubscribe
answered (Response.sh_get_balance r) = some Method.script_hash_get_balance
answered (Response.sh_get_history r) = some Method.script_hash_get_history
answered (Response.sh_list_unspent r) = some Method.script_hash_list_unspent
answered (Response.features r) = some Method.features
answered (Response.tx_broadcast r) = some Method.transaction_broadcast
answered (Response.donation r) = some Method.donation
answered (Response.estimate_fee r) = some Method.estimate_fee
answered (Response.fee_histogram r) = some Method.fee_histogram
answered (Response.relay_fee r) = some Method.relay_fee
answered (Response.tx_get_merkle r) = some Method.transaction_get_merkle
answered (Response.tx_from_position r) = some Method.transaction_from_position
answered (Response.list_peers r) = some Method.list_peers
answered (Response.sh_get_mempool r) = none
answered (Response.error r) = none
answered (Response.batch_header_notif r) = none
answered (Response.sh_notification r) = none

-- An error, or what the server sends by itself.
abbrev pub is_unasked : Response → Bool
is_unasked (Response.error r) = true
is_unasked (Response.batch_header_notif n) = true
is_unasked (Response.sh_notification n) = true
is_unasked _ = false

-- It is of the kind that the method of a request that waits asks for, and has the id of the
-- request, but for the answer to a subscription to headers, which shows none.
abbrev pub Belongs : Index → Response → Type 0
Belongs index r =
    (is_unasked r ≡ true)
    ⊎ ((id : ℕ) × (request : Request) × (get index id ≡ some request)
        × (answered r ≡ some request.method)
        × ((response_id r ≡ some id) ⊎ (request.method ≡ Method.headers_subscribe)))

module _ {serde : Serde} (laws : IsConsistent serde) where
  parse_as-ok :
      {A : Type 0} (kind : A → Response) (o : Option A) (raw : String) (r : Response)
      → parse_as kind o raw ≡ ok r
      → (a : A) × (o ≡ some a) × (kind a ≡ r)
  unfolding parse_as
  parse_as-ok kind none raw r e = absurd (ground arith)
  parse_as-ok kind (some a) raw r e = (a, refl, ground arith)

  abbrev IsAnswer : Method → RawResponse → Response → Type 0
  IsAnswer m rr r =
      (answered r ≡ some m) × ((response_id r ≡ some rr.id) ⊎ (m ≡ Method.headers_subscribe))

  read_as :
      {A : Type 0} (kind : A → Response) {read : String → Option A} {id : A → ℕ} {m : Method}
      → ReadsId serde read id
      → ((a : A) → answered (kind a) ≡ some m)
      → ((a : A) → response_id (kind a) ≡ some (id a))
      → (raw : String) (rr : RawResponse) (r : Response) → serde.raw_response raw ≡ some rr
      → parse_as kind (read raw) raw ≡ ok r
      → IsAnswer m rr r
  read_as kind {read = read} law is_kind is_id raw rr r h e =
      let (a, found, same) = parse_as-ok kind (read raw) raw r e in
      rw (← same) (is_kind a, inl (is_id a ∙ ap some (law raw rr a h found)))

  parse_answer-answered :
      (m : Method) (raw : String) (rr : RawResponse) (r : Response)
      → serde.raw_response raw ≡ some rr
      → parse_answer serde m raw ≡ ok r
      → IsAnswer m rr r
  unfolding parse_answer answered response_id
  parse_answer-answered Method.ping raw rr r h e =
      read_as Response.ping laws.ping (λ a. refl) (λ a. refl) raw rr r h e
  parse_answer-answered Method.banner raw rr r h e =
      read_as Response.banner laws.banner (λ a. refl) (λ a. refl) raw rr r h e
  parse_answer-answered Method.block_header raw rr r h e =
      read_as Response.header laws.header (λ a. refl) (λ a. refl) raw rr r h e
  parse_answer-answered Method.block_headers raw rr r h e =
      read_as Response.headers laws.headers (λ a. refl) (λ a. refl) raw rr r h e
  parse_answer-answered Method.version raw rr r h e =
      read_as Response.version laws.version (λ a. refl) (λ a. refl) raw rr r h e
  parse_answer-answered Method.transaction_get raw rr r h e =
      read_as Response.tx_get laws.tx_get (λ a. refl) (λ a. refl) raw rr r h e
  parse_answer-answered Method.script_hash_subscribe raw rr r h e =
      read_as Response.sh_subscribe laws.sh_subscribe (λ a. refl) (λ a. refl) raw rr r h e
  parse_answer-answered Method.script_hash_unsubscribe raw rr r h e =
      read_as Response.sh_unsubscribe laws.sh_unsubscribe (λ a. refl) (λ a. refl) raw rr r h e
  parse_answer-answered Method.script_hash_get_balance raw rr r h e =
      read_as Response.sh_get_balance laws.sh_get_balance (λ a. refl) (λ a. refl) raw rr r h e
  parse_answer-answered Method.script_hash_get_history raw rr r h e =
      read_as Response.sh_get_history laws.sh_get_history (λ a. refl) (λ a. refl) raw rr r h e
  parse_answer-answered Method.script_hash_list_unspent raw rr r h e =
      read_as Response.sh_list_unspent laws.sh_list_unspent (λ a. refl) (λ a. refl) raw rr r h e
  parse_answer-answered Method.features raw rr r h e =
      read_as Response.features laws.features (λ a. refl) (λ a. refl) raw rr r h e
  parse_answer-answered Method.donation raw rr r h e =
      read_as Response.donation laws.donation (λ a. refl) (λ a. refl) raw rr r h e
  parse_answer-answered Method.estimate_fee raw rr r h e =
      read_as Response.estimate_fee laws.estimate_fee (λ a. refl) (λ a. refl) raw rr r h e
  parse_answer-answered Method.fee_histogram raw rr r h e =
      read_as Response.fee_histogram laws.fee_histogram (λ a. refl) (λ a. refl) raw rr r h e
  parse_answer-answered Method.relay_fee raw rr r h e =
      read_as Response.relay_fee laws.relay_fee (λ a. refl) (λ a. refl) raw rr r h e
  parse_answer-answered Method.transaction_get_merkle raw rr r h e =
      read_as Response.tx_get_merkle laws.tx_get_merkle (λ a. refl) (λ a. refl) raw rr r h e
  parse_answer-answered Method.transaction_from_position raw rr r h e =
      read_as Response.tx_from_position laws.tx_from_position (λ a. refl) (λ a. refl) raw rr r h e
  parse_answer-answered Method.transaction_broadcast raw rr r h e =
      read_as Response.tx_broadcast laws.tx_broadcast (λ a. refl) (λ a. refl) raw rr r h e
  parse_answer-answered Method.headers_subscribe raw rr r h e =
      let (a, found, same) = parse_as-ok Response.header_notif (serde.header_notif raw) raw r e in
      rw (← same) (refl, inr refl)
  parse_answer-answered Method.list_peers raw rr r h e = absurd (ground arith)

  match_request-Belongs :
      (index : Index) (raw : String) (r : Response)
      → match_request serde index raw ≡ ok r
      → Belongs index r
  unfolding match_request
  match_request-Belongs index raw r e = elim (Option-cases (serde.raw_response raw)) [
    | inl f ↦ absurd (ground arith)
    | inr (rr, f) ↦ elim (Option-cases (get index rr.id)) [
      | inl g ↦ absurd (ground arith)
      | inr (request, g) ↦
          let (kind, id) = parse_answer-answered request.method raw rr r f (ground arith) in
          inr (rr.id, request, g, kind, id)
    ]
  ]

  -- A text that is read as a response is an error, a notification, or the answer to a request
  -- of the index, of the kind that its method asks for, and with its id.
  pub try_parse-Belongs :
      (raw : String) (index : Index) (r : Response)
      → try_parse serde raw index ≡ ok r
      → Belongs index r
  unfolding try_parse
  try_parse-Belongs raw index r e = elim (Option-cases (serde.error_response raw)) [
    | inr (a, f) ↦ inl (unasked (Response.error a) refl (ground arith))
    | inl f ↦ elim (Option-cases (serde.batch_header_notif raw)) [
      | inr (a, g) ↦ inl (unasked (Response.batch_header_notif a) refl (ground arith))
      | inl g ↦ elim (Option-cases (serde.sh_notification raw)) [
        | inr (a, k) ↦ inl (unasked (Response.sh_notification a) refl (ground arith))
        | inl k ↦ match_request-Belongs index raw r (ground arith)
      ]
    ]
  ]
    where
      unasked : (t : Response) → is_unasked t ≡ true → t ≡ r → is_unasked r ≡ true
      unasked t u same = rw (← same) u

  parse_batch-Belongs :
      (values : List Value) (index : Index) (rs : List Response)
      → parse_batch serde values index ≡ ok rs
      → All (Belongs index) rs
  unfolding parse_batch
  parse_batch-Belongs [] index rs e = let same : [] ≡ rs = ground arith in rw (← same) tt
  parse_batch-Belongs (v ∷ values) index rs e =
      elim (Outcome-cases (try_parse serde (serde.to_string v) index)) [
        | inr failed ↦ absurd (ground arith)
        | inl (r, f) ↦ elim (Outcome-cases (parse_batch serde values index)) [
          | inr failed ↦ absurd (ground arith)
          | inl (batch, g) ↦
              let same : r ∷ batch ≡ rs = ground arith in
              rw (← same) (
                try_parse-Belongs (serde.to_string v) index r f,
                parse_batch-Belongs values index batch g,
              )
        ]
      ]

  -- Where the readers are consistent, that is, what each reads of a text has the id of the raw
  -- response, every response that `parse_str_response` reads of a text, batch or not, is an error or
  -- a notification, or it belongs to a request that waits in the index: it is a response to the
  -- method of that request, and has its id, but for the response to a subscription to headers, which
  -- shows no id.
  pub parse_str_response-Belongs :
      (raw : String) (index : Index) (rs : List Response)
      → parse_str_response serde raw index ≡ ok rs
      → All (Belongs index) rs
  unfolding parse_str_response
  parse_str_response-Belongs raw index rs e = elim (Option-cases (serde.values raw)) [
    | inr (values, f) ↦ parse_batch-Belongs values index rs (ground arith)
    | inl f ↦ elim (Outcome-cases (try_parse serde raw index)) [
      | inr failed ↦ absurd (ground arith)
      | inl (r, g) ↦
          let same : r ∷ [] ≡ rs = ground arith in rw (← same) (try_parse-Belongs raw index r g, tt)
    ]
  ]
