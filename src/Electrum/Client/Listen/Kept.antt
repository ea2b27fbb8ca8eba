-- ===== src/Electrum/Client/Listen/Kept.antt =====
-- What a round of `listen_txs` leaves as it is: the requests that wait, and the pending one.
use joinstr.Prelude.{
  ◌≡◌, refl, arith, Bool, Option, List, [], ◌∷◌, Outcome, Keeps, Keeps-bind, Keeps-then, Keeps-pure,
}
use joinstr.System.{System}
use joinstr.Electrum.Request.{Request}
use joinstr.Electrum.Response.{Response, TxGetResult}
use joinstr.Electrum.Client.{Codec}
use joinstr.Electrum.Client.Listen.{
  CoinRequest, CoinResponse, Feed, Thread, Ended, Gathered, tell_or, gather, gather_all, gather_tx,
  decoded, change, found,
}
use joinstr.Electrum.Client.Listen.Rounds.{pass_on, tell_if, snooze_unless}

module _ {R W : Type 0} where
  -- The requests that wait, and the one that is pending.
  abbrev pub view : Thread R × W → List CoinRequest × Option (List Request)
  view s = (s.0.requests, s.0.last_request)

  pub Keeps-tell_or :
      (gone : Outcome Ended (Unit {0})) (m : CoinResponse) → Keeps view (tell_or gone m)
  unfolding tell_or
  Keeps-tell_or gone m = record { kept = λ s. ground arith }

  pub Keeps-found :
      {A : Type 0} (f : Thread R → Option A)
      → Keeps {S = Thread R × W} {E = Ended} view (λ s. found (f s.0) s)
  unfolding found
  Keeps-found f = record { kept = λ s. ground arith }

  pub Keeps-change :
      (f : Thread R → Thread R)
      → ((t : Thread R) → ((f t).requests ≡ t.requests) × ((f t).last_request ≡ t.last_request))
      → Keeps {S = Thread R × W} view (change f)
  unfolding change
  Keeps-change f h = record { kept = λ s. ground (arith, h s.0) }

  pub Keeps-gather_tx :
      (codec : Codec) (r : TxGetResult) (g : Gathered)
      → Keeps {S = Thread R × W} view (gather_tx codec r g)
  unfolding gather_tx
  Keeps-gather_tx codec (TxGetResult.verbose v) g = Keeps-pure g
  Keeps-gather_tx codec (TxGetResult.raw raw) g =
      Keeps-bind (Keeps-found (λ t. decoded codec raw)) (λ tx. Keeps-pure _)

  pub Keeps-gather :
      (lib : Codec × Feed R) (r : Response) (g : Gathered)
      → Keeps {S = Thread R × W} view (gather lib r g)
  unfolding gather
  Keeps-gather lib (Response.sh_subscribe r) g =
      Keeps-bind (Keeps-found _) (λ sh. Keeps-bind (Keeps-found _) (λ spk. Keeps-pure _))
  Keeps-gather lib (Response.sh_notification r) g = Keeps-bind (Keeps-found _) (λ spk. Keeps-pure _)
  Keeps-gather lib (Response.sh_get_history r) g =
      Keeps-bind (Keeps-found _)
        (λ spk. Keeps-then (Keeps-change _ (λ t. (refl, refl))) (Keeps-pure _))
  Keeps-gather (codec, feed) (Response.tx_get r) g = Keeps-gather_tx codec r.result g
  Keeps-gather lib (Response.error e) g = Keeps-then (Keeps-tell_or _ _) (Keeps-pure _)
  Keeps-gather lib r g = Keeps-pure g

  pub Keeps-gather_all :
      (lib : Codec × Feed R) (l : List Response) (g : Gathered)
      → Keeps {S = Thread R × W} view (gather_all lib l g)
  unfolding gather_all
  Keeps-gather_all lib [] g = Keeps-pure g
  Keeps-gather_all lib (r ∷ l) g =
      Keeps-bind (Keeps-gather lib r g) (λ g'. Keeps-gather_all lib l g')

  pub Keeps-tell_if :
      {A : Type 0} (l : List A) (m : CoinResponse) → Keeps {S = Thread R × W} view (tell_if l m)
  unfolding tell_if
  Keeps-tell_if [] m = Keeps-pure tt
  Keeps-tell_if (a ∷ l) m = Keeps-tell_or _ m

  pub Keeps-pass_on : (g : Gathered) → Keeps {S = Thread R × W} view (pass_on g)
  unfolding pass_on
  Keeps-pass_on g =
      Keeps-then (Keeps-tell_if g.histories _)
        (Keeps-then (Keeps-tell_if g.statuses _) (Keeps-tell_if g.transactions _))

  pub Keeps-snooze_unless :
      (system : System W) (b : Bool) → Keeps {S = Thread R × W} view (snooze_unless system b)
  unfolding snooze_unless
  Keeps-snooze_unless system b = record { kept = λ s. ground arith }
