-- ===== src/Electrum/Client/Listen/Tests.antt =====
-- The histories of two scripts are asked for, and the server answers for the first script only.
use Prim.Native.String.{String}
use joinstr.Prelude.{
  ◌≡◌, refl, ℕ, ◌+◌, true, Option, none, some, List, [], ◌∷◌, Outcome, ok, panic, ◌>>=◌, ◌>>◌, pure,
  gets,
}
use joinstr.System.{System}
use joinstr.Electrum.Request.{Request, sh_get_history, with_id}
use joinstr.Electrum.Response.Parse.{parse_str_response}
use joinstr.Electrum.Client.{RawError}
use joinstr.Electrum.Client.Example.{sockets, codec}
use joinstr.Electrum.Client.Listen.{
  CoinRequest, CoinResponse, Feed, Thread, gather, gather_all, registered, register, change,
  tell_or, responses_matches_requests, answers,
}
use joinstr.Electrum.Client.Listen.Rounds.{
  round, try_recv, take_request, handle_request, history_all, send_all, send_batch, take_responses,
  take_sent, settle, settle_last, resend, handle_responses, pass_on, tell_if, asks_inner,
  try_send_batch, rest, unwrapped,
}
use joinstr.Electrum.Client.Listen.Pending.{Follows, round_lem}

abbrev next : List String → Outcome RawError (Option String) × List String
next [] = (ok none, [])
next (t ∷ l) = (ok (some t), l)

abbrev feed : Feed (List String)
feed = record { try_recv_str = next; display = λ e. "error"; show_error = λ e. "error" }

abbrev system : System ℕ
system = record {
  now = λ w. (w + 1, w + 1);
  sleep = λ d w. w;
  yield_now = λ w. w;
  random_range = λ a b w. (a, w);
}

abbrev query : ℕ → ℕ → Request
query script id = with_id (sh_get_history (λ s. s) script) id

abbrev thread : List CoinRequest → List String → Thread (List String)
thread requests texts = record {
  client = record { inner = texts; index = []; last_id = 0; url = ""; port = 0 };
  requests = requests;
  asked = true;
  responses = [];
  heard = true;
  reqid_spk_map = [];
  watched_spks_sh = [];
  sh_sbf_map = [];
  last_request = none;
  backoff = record { current_step = 0; max_sleep = 50000 };
}

abbrev start : Thread (List String)
start =
    thread (CoinRequest.history (9 ∷ 10 ∷ []) ∷ CoinRequest.stop ∷ []) ("history" ∷ "history" ∷ [])

-- After a round: the second request is pending, and the first has left the map.
abbrev pending : Thread (List String)
pending = record (thread (CoinRequest.stop ∷ []) ("history" ∷ [])) {
  client = record {
    inner = "history" ∷ [];
    index = (2, query 10 2) ∷ (1, query 9 1) ∷ [];
    last_id = 2;
    url = "";
    port = 0;
  };
  responses = CoinResponse.history ((9, (5, some 9) ∷ []) ∷ []) ∷ [];
  reqid_spk_map = (2, 10) ∷ [];
  last_request = some (query 9 1 ∷ query 10 2 ∷ []);
}

asks : round sockets codec feed system 1 (start, 0) ≡ (ok tt, (pending, 0))
unfolding round take_request handle_request history_all send_all send_batch take_responses take_sent
    settle settle_last resend handle_responses pass_on tell_if gather gather_all try_recv asks_inner
    try_send_batch rest unwrapped responses_matches_requests answers parse_str_response
    sh_get_history with_id registered register change tell_or ◌>>=◌ ◌>>◌ pure gets
asks = refl

-- The answer to the batch that was sent again is not expected any more.
panics : (round sockets codec feed system 1 (pending, 0)).0 ≡ panic
unfolding round take_request take_responses take_sent settle settle_last resend handle_responses
    gather gather_all try_recv asks_inner try_send_batch rest unwrapped responses_matches_requests
    answers parse_str_response sh_get_history with_id ◌>>=◌ ◌>>◌ pure gets
panics = refl

round_lem_example :
    let t' = (round sockets codec feed system 1 (pending, 0)).1.0 in
    (t'.requests ≡ CoinRequest.stop ∷ [])
    × Follows
        (query 9 1 ∷ query 10 2 ∷ [])
        (try_recv sockets codec feed pending.client.index pending.client.inner).0
        t'
round_lem_example =
    round_lem sockets codec feed system 1 pending 0 (query 9 1 ∷ query 10 2 ∷ []) refl
