-- ===== src/Joinstr/Guarantee/Inputs.antt =====
-- The round of inputs: the coinjoin stays the one whose transaction is assembled.
use joinstr.Prelude.{
  ℕ, false, Option, none, some, ◌≡◌, refl, leb, is_some, Action, Keeps, Keeps-bind, Keeps-then,
  Keeps-pure, Keeps-gets, Keeps-ok_or, Keeps-yields, Keeps-if, Keeps-throw_if, Keeps-Ensures,
  Ensures, Ensures-bind, Ensures-then, Ensures-loop, Ensures-pure, Ensures-option, Ensures-if,
  throw,
}
use joinstr.System.{Backoff}
use joinstr.Bitcoin.{Address, Psbt, IsLawful}
use joinstr.Nostr.Input.{InputDataSigned}
use joinstr.Nostr.Pool.{Pool, PoolMessage, Timeline}
use joinstr.Signer.{JoinstrSigner}
use joinstr.CoinJoin.Backend.{Error as CoinJoinError}
use joinstr.CoinJoin.{CoinJoin, inputs_len, outputs_len}
use joinstr.CoinJoin.Assembly.{Assembling, add_input-Assembling, generate_tx-Assembling}
use joinstr.Joinstr.Error.{Error}
use joinstr.Joinstr.Host.{Host}
use joinstr.Joinstr.State.{Joinstr, attempt}
use joinstr.Joinstr.Inputs.{
  on_coinjoin, register_input, try_register_input, try_finalize_coinjoin, take_signed, take_input,
  input_test, input_round, input_deadline, register_inputs,
}
use joinstr.Joinstr.Start.{sign_with, sign_own}
use joinstr.Joinstr.Guarantee.{
  view, Keeps-reads, Keeps-on_nostr, Keeps-passes, Keeps-update, Keeps-clock, Keeps-before,
  Keeps-rest, Keeps-poll,
}

-- The pool, and the coinjoin that is assembled.
abbrev pub Holding :
    {C : Type 0}
    → Pool
    → Psbt
    → Option Pool × Option Address × Option (CoinJoin C) × Option C
    → Type 0
Holding {C} pool psbt v =
    (v.0 ≡ some pool) × ((c : CoinJoin C) × (v.2 ≡ some c) × Assembling psbt c)

module _ {N C W : Type 0} (host : Host N C W) (notif : W → W) where
  Keeps-register_input : (signer : JoinstrSigner) → Keeps view (register_input host notif signer)
  unfolding register_input
  Keeps-register_input signer = Keeps-bind (Keeps-reads _) (λ c.
      Keeps-bind (Keeps-ok_or _ _) (λ unsigned. Keeps-bind (Keeps-gets _) (λ input.
        Keeps-then (Keeps-update _ (λ i. refl)) (
          Keeps-bind (Keeps-ok_or _ _) (λ coin. Keeps-bind (Keeps-yields _) (λ signed.
            Keeps-then (Keeps-reads _) (
              Keeps-bind (Keeps-reads _) (λ pool.
                Keeps-then (Keeps-on_nostr _)
                  (Keeps-then (Keeps-update _ (λ i. refl)) (Keeps-passes notif))))))))))

  Keeps-sign_with : (signer : Option JoinstrSigner) → Keeps view (sign_with host notif signer)
  unfolding sign_with throw
  Keeps-sign_with none = record { kept = λ s. refl }
  Keeps-sign_with (some signer) = Keeps-register_input signer

  pub Keeps-sign_own : (signer : Option JoinstrSigner) → Keeps view (sign_own host notif signer)
  unfolding sign_own
  Keeps-sign_own signer =
      Keeps-bind (Keeps-gets _)
        (λ input. Keeps-if (is_some input) (Keeps-sign_with signer) (Keeps-pure tt))

  pub Keeps-input_deadline : (t : Timeline) → Keeps view (input_deadline host notif t)
  unfolding input_deadline
  Keeps-input_deadline (Timeline.simple t) = Keeps-pure t
  Keeps-input_deadline (Timeline.fixed s m) = Keeps-pure _
  Keeps-input_deadline (Timeline.timeout t m) = Keeps-bind (Keeps-clock host) (λ now. Keeps-pure _)

  pub Keeps-input_test : (expired : ℕ) (b : Backoff) → Keeps view (input_test host notif expired b)
  unfolding input_test
  Keeps-input_test expired b =
      Keeps-bind (Keeps-before host expired) (λ early.
        Keeps-if early (Keeps-bind (Keeps-reads _) (λ c. Keeps-pure _)) (Keeps-pure false))

module _ {N C W : Type 0} (host : Host N C W) (laws : IsLawful host.bitcoin) (pool : Pool)
    (psbt : Psbt) where
  abbrev pub Held : Joinstr N C W → Type 0
  Held s = Holding pool psbt (view s)

  pub Ensures-Held :
      {A : Type 0} {m : Action (Joinstr N C W) Error A} → Keeps view m → Ensures Held (λ _. Held) m
  Ensures-Held k = Keeps-Ensures (Holding pool psbt) k

  -- However a call on the coinjoin ends.
  Ensures-attempt :
      {A : Type 0} (m : Action (CoinJoin C) CoinJoinError A)
      → ((c : CoinJoin C) → Assembling psbt c → Assembling psbt (m c).1)
      → Ensures Held (λ _. Held) (attempt (on_coinjoin host m))
  unfolding on_coinjoin attempt
  Ensures-attempt m keeps = record {
    holds = λ s (p, (c, e, a)) o r. rw e (p, ((m c).1, refl, keeps c a));
  }

  Ensures-try_finalize : Ensures Held (λ _. Held) (try_finalize_coinjoin host)
  unfolding try_finalize_coinjoin
  Ensures-try_finalize = Ensures-bind (Ensures-Held (Keeps-reads _)) (λ c.
      Ensures-if (leb (outputs_len c) (inputs_len c))
        (Ensures-bind (Ensures-attempt _ (generate_tx-Assembling laws host.electrum.backend))
          (λ done. Ensures-pure _ (λ s h. h)))
        (Ensures-pure false (λ s h. h)))

  module _ (notif : W → W) where
    Ensures-try_register :
        (i : InputDataSigned) → Ensures Held (λ _. Held) (try_register_input host notif i)
    unfolding try_register_input
    Ensures-try_register i = Ensures-then (Ensures-Held (Keeps-reads _)) (
        Ensures-bind (Ensures-attempt _ (add_input-Assembling laws host.electrum.backend i))
          (λ added.
            Ensures-if (is_some added)
              (Ensures-then (Ensures-Held (Keeps-update _ (λ i. refl)))
                (Ensures-Held (Keeps-passes notif)))
              (Ensures-pure tt (λ s h. h))))

    Ensures-take_signed :
        (i : InputDataSigned) → Ensures Held (λ _. Held) (take_signed host notif i)
    unfolding take_signed
    Ensures-take_signed i = Ensures-then (Ensures-try_register i) Ensures-try_finalize

    Ensures-take_input : (m : PoolMessage) → Ensures Held (λ _. Held) (take_input host notif m)
    unfolding take_input
    Ensures-take_input (PoolMessage.psbt p) =
        Ensures-bind (Ensures-Held (Keeps-yields _)) (λ i. Ensures-take_signed i)
    Ensures-take_input (PoolMessage.input i) = Ensures-take_signed i
    Ensures-take_input (PoolMessage.output a) = Ensures-pure false (λ s h. h)
    Ensures-take_input (PoolMessage.transaction t) = Ensures-pure false (λ s h. h)
    Ensures-take_input (PoolMessage.join k) = Ensures-pure false (λ s h. h)
    Ensures-take_input (PoolMessage.credentials c) = Ensures-pure false (λ s h. h)

    Ensures-input_round : (b : Backoff) → Ensures Held (λ _. Held) (input_round host notif b)
    unfolding input_round
    Ensures-input_round b = Ensures-bind (Ensures-Held (Keeps-poll host)) (λ msg.
        Ensures-option msg
          (λ m. Ensures-bind (Ensures-take_input m) (λ done. Ensures-pure _ (λ s h. h)))
          (Ensures-bind (Ensures-Held (Keeps-rest host b)) (λ b'. Ensures-pure _ (λ s h. h))))

    pub Ensures-register_inputs :
        (fuel : ℕ) → Ensures Held (λ _. Held) (register_inputs host notif fuel)
    unfolding register_inputs
    Ensures-register_inputs fuel = Ensures-then (Ensures-Held (Keeps-reads _)) (
        Ensures-then (Ensures-Held (Keeps-reads _)) (
          Ensures-bind (Ensures-Held (Keeps-reads _)) (λ payload.
            Ensures-bind (Ensures-Held (Keeps-input_deadline host notif payload.timeout))
              (λ expired. Ensures-bind (Ensures-Held (Keeps-clock host)) (λ t.
                Ensures-then (Ensures-Held (Keeps-throw_if _ _)) (
                  Ensures-bind
                    (Ensures-loop (λ _. Held)
                      (λ b. Ensures-Held (Keeps-input_test host notif expired b))
                      Ensures-input_round fuel _)
                    (λ l.
                      Ensures-bind (Ensures-Held (Keeps-clock host))
                        (λ t'. Ensures-Held (Keeps-throw_if _ _)))))))))
