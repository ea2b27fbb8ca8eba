-- ===== src/Electrum/Client/Listen/Pending.antt =====
-- A batch of requests that is pending: no other is sent before the server has answered it.
use mathlib.Core.List.{mem-cons_self, mem-cons_of_mem}
use joinstr.Prelude.{
  ◌≡◌, refl, ap, ◌∙◌, arith, ℕ, Bool, true, false, Bool-cases, Option, none, some, Option-cases,
  List, [], ◌∷◌, Mem, inl, inr, ◌⊎◌, Outcome, ok, err, panic, unfinished, gets, Outcome-cases,
  Action, pure, ◌>>=◌, ◌>>◌, ◌||◌, runs, Keeps, Keeps-bind, Keeps-then, Keeps-pure, if◌then◌else◌,
}
use joinstr.System.{System}
use joinstr.Electrum.Request.{Request}
use joinstr.Electrum.Response.{Response, response_id}
use joinstr.Electrum.Client.{Sockets, Codec, RawError}
use joinstr.Electrum.Client.Listen.{
  CoinResponse, Feed, Thread, Ended, dropped, answers, responses_matches_requests, change,
}
use joinstr.Electrum.Client.Listen.Rounds.{
  round, take_request, take_responses, handle_responses, take_sent, settle, try_recv, asks_inner,
  rest, resend, settle_last, unwrapped,
}
use joinstr.Electrum.Client.Listen.Kept.{
  view, Keeps-tell_or, Keeps-gather_all, Keeps-pass_on, Keeps-snooze_unless,
}

-- Each request has a response with its id.
unfoldable pub IsAnswered : List Request → List Response → Type 0
IsAnswered [] rs = Unit
IsAnswered (q ∷ qs) rs =
    ((r : Response) × Mem r rs × (response_id r ≡ some q.id)) × IsAnswered qs rs

answers_lem :
    (id : ℕ) (rs : List Response)
    → answers id rs ≡ true
    → (r : Response) × Mem r rs × (response_id r ≡ some id)
unfolding answers
answers_lem id [] h = absurd (ground (arith, h))
answers_lem id (r ∷ rs) h = elim (Option-cases (response_id r)) [
  | inl missing ↦
      let (x, mem, is) = answers_lem id rs (ground (arith, h, missing)) in
      (x, mem-cons_of_mem r mem, is)
  | inr (i, is) ↦ elim (Bool-cases (answers id rs)) [
    | inl later ↦ let (x, mem, is) = answers_lem id rs later in (x, mem-cons_of_mem r mem, is)
    | inr never ↦ (r, mem-cons_self, ground (arith, h, is, never))
  ]
]

matches_lem :
    (qs : List Request) (rs : List Response)
    → responses_matches_requests qs rs ≡ true
    → IsAnswered qs rs
unfolding responses_matches_requests IsAnswered
matches_lem [] rs h = tt
matches_lem (q ∷ qs) rs h =
    (answers_lem q.id rs (ground (arith, h)), matches_lem qs rs (ground (arith, h)))

-- What follows a call, and keeps a part of the state, leaves it as the call has.
bind_view :
    {S E A B X : Type 0} (f : S → X) (m : Action S E A) (k : A → Action S E B)
    → ((a : A) → Keeps f (k a))
    → (s : S) → f ((m >>= k) s).1 ≡ f (m s).1
unfolding ◌>>=◌
bind_view f m k e s = elim (Outcome-cases (m s).0) [
  | inl (a, q) ↦ rw (q, ◌>>=◌) ((e a).kept (m s).1)
  | inr (inl (x, q)) ↦ rw (q, ◌>>=◌) refl
  | inr (inr (inl q)) ↦ rw (q, ◌>>=◌) refl
  | inr (inr (inr q)) ↦ rw (q, ◌>>=◌) refl
]

then_view :
    {S E B X : Type 0} (f : S → X) (m : Action S E (Unit {0})) (k : Action S E B)
    → Keeps f k
    → (s : S) → f ((m >> k) s).1 ≡ f (m s).1
unfolding ◌>>◌
then_view f m k e s = bind_view f m (λ _. k) (λ _. e) s

-- What has become of a pending batch, where the server has sent this.
unfoldable pub Follows :
    {R : Type 0} → List Request → Outcome RawError (Option (List Response)) → Thread R → Type 0
Follows batch sent t =
    ((t.last_request ≡ some batch)
      × ((rs : List Response) → sent ≡ ok (some rs) → responses_matches_requests batch rs ≡ false))
    ⊎ ((t.last_request ≡ none) × (rs : List Response) × (sent ≡ ok (some rs)) × IsAnswered batch rs)

Follows-same :
    {R : Type 0} (batch : List Request) (sent : Outcome RawError (Option (List Response)))
    (t t' : Thread R)
    → t'.last_request ≡ t.last_request
    → Follows batch sent t
    → Follows batch sent t'
unfolding Follows
Follows-same batch sent t t' same (inl (pending, others)) = inl (same ∙ pending, others)
Follows-same batch sent t t' same (inr (over, rs, is, answered)) =
    inr (same ∙ over, rs, is, answered)

module _ {R W : Type 0} (sockets : Sockets R W) (codec : Codec) (feed : Feed R) (system : System W)
    (fuel : ℕ) where
  Keeps-resend :
      (batch : List Request)
      → Keeps {S = Thread R × W} view (resend sockets codec feed system fuel batch)
  unfolding resend rest asks_inner unwrapped
  Keeps-resend batch =
      Keeps-then (record { kept = λ s. refl })
        (Keeps-bind (record { kept = λ s. refl }) (λ sent. record { kept = λ s. ground arith }))

  settle_lem :
      (rs : List Response) (t : Thread R) (w : W) (batch : List Request)
      → t.last_request ≡ some batch
      → (((settle sockets codec feed system fuel rs (t, w)).1.0.requests) ≡ t.requests)
        × ((settle sockets codec feed system fuel rs (t, w)).1.0.last_request
            ≡ (if responses_matches_requests batch rs then none else some batch))
  unfolding settle settle_last change ◌>>=◌ gets
  settle_lem rs t w batch pending = elim (Bool-cases (responses_matches_requests batch rs)) [
    | inl same ↦ ground (arith, pending, same)
    | inr other ↦
        let kept = (Keeps-resend batch).kept (t, w) in
        ground (arith, pending, other, ap (λ v. v.0) kept, ap (λ v. v.1) kept)
  ]

  handle_lem :
      (rs : List Response) (s : Thread R × W)
      → view (handle_responses sockets codec feed system fuel rs s).1
        ≡ view (settle sockets codec feed system fuel rs s).1
  unfolding handle_responses
  handle_lem rs s =
      then_view view (settle sockets codec feed system fuel rs) _
        (Keeps-bind (Keeps-gather_all (codec, feed) rs _) (λ g. Keeps-pass_on g)) s

  take_sent_lem :
      (sent : Outcome RawError (Option (List Response))) (t : Thread R) (w : W)
      (batch : List Request)
      → t.last_request ≡ some batch
      → let t' = (take_sent sockets codec feed system fuel sent (t, w)).1.0 in
        (t'.requests ≡ t.requests) × Follows batch sent t'
  unfolding take_sent Follows pure
  take_sent_lem (ok none) t w batch pending = (refl, inl (pending, λ rs q. ground (arith, q)))
  take_sent_lem (ok (some rs)) t w batch pending =
      let (same, last) = settle_lem rs t w batch pending in
      let now =
        then_view view (handle_responses sockets codec feed system fuel rs) _ (Keeps-pure true)
          (t, w)
        ∙ handle_lem rs (t, w) in
      (
        ap (λ v. v.0) now ∙ same,
        elim (Bool-cases (responses_matches_requests batch rs)) [
          | inl whole ↦ inr (
            ap (λ v. v.1) now ∙ last ∙ ground (arith, whole),
            rs,
            refl,
            matches_lem batch rs whole,
          )
          | inr part ↦
              inl (
                ap (λ v. v.1) now ∙ last ∙ ground (arith, part),
                λ other q. ground (arith, q, part),
              )
        ],
      )
  take_sent_lem (err e) t w batch pending =
      let kept =
        (Keeps-then (Keeps-tell_or (err dropped) (CoinResponse.error (feed.display e)))
            (Keeps-pure false)).kept
          (t, w) in
      (ap (λ v. v.0) kept, inl (ap (λ v. v.1) kept ∙ pending, λ rs q. ground (arith, q)))
  take_sent_lem panic t w batch pending = (refl, inl (pending, λ rs q. ground (arith, q)))
  take_sent_lem unfinished t w batch pending = (refl, inl (pending, λ rs q. ground (arith, q)))

  idle :
      (t : Thread R) (w : W) (batch : List Request)
      → t.last_request ≡ some batch
      → take_request sockets codec feed system fuel (t, w) ≡ (ok false, (t, w))
  unfolding take_request
  idle t w batch pending = ground (arith, pending)

  receives :
      (t : Thread R) (w : W)
      → let (sent, inner) = try_recv sockets codec feed t.client.index t.client.inner in
        take_responses sockets codec feed system fuel (t, w)
        ≡ take_sent sockets codec feed system fuel sent
            (record t { client = record t.client { inner = inner } }, w)
  unfolding take_responses gets ◌>>=◌ asks_inner
  receives t w = refl

  view-round :
      (t : Thread R) (w : W) (batch : List Request)
      → t.last_request ≡ some batch
      → view (round sockets codec feed system fuel (t, w)).1
        ≡ view (take_responses sockets codec feed system fuel (t, w)).1
  unfolding round
  view-round t w batch pending =
      ap {A = Outcome Ended (Unit {0}) × (Thread R × W)} (λ r. view r.1)
        (runs (take_request sockets codec feed system fuel) _ (t, w) false (t, w)
          (idle t w batch pending))
      ∙ bind_view view (take_responses sockets codec feed system fuel) _
          (λ received. Keeps-snooze_unless system (false || received)) (t, w)

  -- Where a batch of requests is pending, a round of the thread takes no request of the consumer,
  -- whatever the server has sent and however the round ends; and afterwards the same batch is pending,
  -- and what the server sent was no batch of responses that matches it, or none is pending, and the
  -- server has sent a batch of responses that has one with the id of each request.
  pub round_lem :
      (t : Thread R) (w : W) (batch : List Request)
      → t.last_request ≡ some batch
      → let t' = (round sockets codec feed system fuel (t, w)).1.0 in
        (t'.requests ≡ t.requests)
        × Follows batch (try_recv sockets codec feed t.client.index t.client.inner).0 t'
  round_lem t w batch pending =
      let (sent, inner) = try_recv sockets codec feed t.client.index t.client.inner in
      let (same, follows) =
        take_sent_lem sent (record t { client = record t.client { inner = inner } }) w batch
          pending in
      let left =
        view-round t w batch pending
        ∙ ap {A = Outcome Ended Bool × (Thread R × W)} (λ r. view r.1) (receives t w) in
      (ap (λ v. v.0) left ∙ same, Follows-same _ _ _ _ (ap (λ v. v.1) left) follows)
