-- ===== src/Exporter/Retry/Laws.antt =====
-- internal/exporter/otlphttp.go, `sendWithRetry`: the attempts of a call.
use log_collector.Base.{
  ℕ, ◌≤◌, ◌≡◌, ◌≢◌, refl, ◌⊎◌, inl, inr, Bool, true, false, if◌then◌else◌, List, [], ◌∷◌, nat_eq,
  arith, ℕ_discrete, Bool-cases,
}
use log_collector.Base.Int.{ℤ, pos, ◌+ℤ◌, ◌≤ℤ◌, ◌<ℤ◌, ltb_ℤ, leb_ℤ, wrap64}
use log_collector.Config.{RetryConfig}
use log_collector.Exporter.Retry.{
  SendResult, delivered, status_error, other_error, Attempt, Verdict, success, gave_up,
  context_ended, trying, Decision, stop, wait, is_permanent, is_exhausted, pause, decide,
  next_delay, retry_loop, send_with_retry,
}

-- What may be tried again: an error that is no status, and the statuses 408, 429 and from 500 on.
abbrev pub IsRetryable : SendResult → Type 0
IsRetryable delivered = ⊥
IsRetryable (status_error s after) = (s ≡ 408) ⊎ (s ≡ 429) ⊎ (500 ≤ s)
IsRetryable other_error = Unit

-- The time for retries is over, or they are off.
abbrev pub IsOver : RetryConfig → Attempt → ℤ → Type 0
IsOver cfg a delay =
    (cfg.enabled ≡ false)
    ⊎ ((pos 0 <ℤ cfg.max_elapsed) × (cfg.max_elapsed <ℤ wrap64 (a.elapsed +ℤ delay)))

-- The delay behind an attempt: a reply asks for a longer one than is due, or the one that is due.
abbrev pub IsLater : SendResult → ℤ → ℤ → Type 0
IsLater (status_error s after) delay w =
    ((after ≤ℤ delay) × (w ≡ delay)) ⊎ ((delay <ℤ after) × (w ≡ after))
IsLater _ delay w = w ≡ delay

-- What a delay leads to: the wait, or the end of the call.
abbrev pub IsPause : RetryConfig → Attempt → ℤ → Decision → Type 0
IsPause cfg a delay (wait d) = (d ≡ delay) × (¬ IsOver cfg a delay) × (a.cancelled ≡ false)
IsPause cfg a delay (stop gave_up) = IsOver cfg a delay
IsPause cfg a delay (stop context_ended) = (¬ IsOver cfg a delay) × (a.cancelled ≡ true)
IsPause cfg a delay (stop success) = ⊥
IsPause cfg a delay (stop trying) = ⊥

-- What an attempt leads to.
abbrev pub IsDecision : RetryConfig → Attempt → ℤ → Decision → Type 0
IsDecision cfg a delay o =
    ((a.result ≡ delivered) × (o ≡ stop success))
    ⊎ ((a.result ≢ delivered) × (¬ IsRetryable a.result) × (o ≡ stop gave_up))
    ⊎ (IsRetryable a.result × (w : ℤ) × IsLater a.result delay w × IsPause cfg a w o)

not_permanent : (s : ℕ) (d : ℤ) → is_permanent s ≡ false → IsRetryable (status_error s d)
unfolding is_permanent ℕ_discrete
not_permanent s d e = ground arith

permanent : (s : ℕ) (d : ℤ) → is_permanent s ≡ true → ¬ IsRetryable (status_error s d)
unfolding is_permanent ℕ_discrete
permanent s d e h = ground arith

exhausted :
    (cfg : RetryConfig) (a : Attempt) (delay : ℤ)
    → is_exhausted cfg a.elapsed delay ≡ true
    → IsOver cfg a delay
unfolding is_exhausted
exhausted cfg a delay e = ground arith

not_exhausted :
    (cfg : RetryConfig) (a : Attempt) (delay : ℤ)
    → is_exhausted cfg a.elapsed delay ≡ false
    → ¬ IsOver cfg a delay
unfolding is_exhausted
not_exhausted cfg a delay e h = ground arith

pub pause-IsPause :
    (cfg : RetryConfig) (a : Attempt) (delay : ℤ) → IsPause cfg a delay (pause cfg a delay)
unfolding pause
pause-IsPause cfg a delay = elim (Bool-cases (is_exhausted cfg a.elapsed delay)) [
  | inl over ↦ rw over (exhausted cfg a delay over)
  | inr time_left ↦ elim (Bool-cases a.cancelled) [
    | inl c ↦ rw (time_left, c) (not_exhausted cfg a delay time_left, refl)
    | inr c ↦ rw (time_left, c) (refl, not_exhausted cfg a delay time_left, refl)
  ]
]

longer-IsLater :
    (s : ℕ) (after delay : ℤ)
    → IsLater (status_error s after) delay (if ltb_ℤ delay after then after else delay)
longer-IsLater s after delay = elim (Bool-cases (ltb_ℤ delay after)) [
  | inl more ↦ rw more (inr (ground (arith, more), refl))
  | inr enough ↦ rw enough (inl (ground (arith, enough), refl))
]

decide-IsDecision :
    (cfg : RetryConfig) (r : SendResult) (elapsed : ℤ) (cancelled : Bool) (delay : ℤ)
    → let a : Attempt = record { result = r; elapsed = elapsed; cancelled = cancelled } in
      IsDecision cfg a delay (decide cfg a delay)
unfolding decide
decide-IsDecision cfg delivered elapsed cancelled delay = inl (refl, refl)
decide-IsDecision cfg (status_error s d) elapsed cancelled delay =
    elim (Bool-cases (is_permanent s)) [
      | inl p ↦ rw p (inr (inl ((λ e. cc), permanent s d p, refl)))
      | inr p ↦
          rw p (inr (inr (not_permanent s d p, _, longer-IsLater s d delay, pause-IsPause cfg _ _)))
    ]
decide-IsDecision cfg other_error elapsed cancelled delay =
    inr (inr (tt, delay, refl, pause-IsPause cfg _ _))

module _ (float : ℤ → ℤ) (cfg : RetryConfig) where
  -- The longest delay, half a minute where none is set, and the first one, a second where none is.
  abbrev pub IsLimit : ℤ → Type 0
  IsLimit limit =
      ((cfg.max_interval ≤ℤ pos 0) × (limit ≡ pos 30_000_000_000))
      ⊎ ((pos 0 <ℤ cfg.max_interval) × (limit ≡ cfg.max_interval))

  abbrev pub IsInitial : ℤ → Type 0
  IsInitial d =
      ((cfg.initial ≤ℤ pos 0) × (d ≡ pos 1_000_000_000))
      ⊎ ((pos 0 <ℤ cfg.initial) × (d ≡ cfg.initial))

  -- The delay that is due behind a wait: twice as long, up to the limit.
  abbrev pub IsNextDelay : ℤ → ℤ → Type 0
  IsNextDelay w d =
      (limit : ℤ) × IsLimit limit
      × ((d ≡ float (wrap64 (w +ℤ w)) × (d ≤ℤ float limit))
          ⊎ ((d ≡ float limit) × (d ≤ℤ float (wrap64 (w +ℤ w)))))

  -- A call, from the delay that is due: with no attempt left it goes on; an attempt without a wait
  -- behind it ends it; and a wait is followed by the next attempt.
  abbrev pub IsCall : ℤ → List Attempt → Verdict → List ℤ → Type 0
  IsCall delay [] v waits = (v ≡ trying) × (waits ≡ [])
  IsCall delay (a ∷ rest) v [] = IsDecision cfg a delay (stop v)
  IsCall delay (a ∷ rest) v (w ∷ waits) =
      IsDecision cfg a delay (wait w) × (d : ℤ) × IsNextDelay w d × IsCall d rest v waits

  below : (a b : ℤ) → ltb_ℤ a b ≡ true → a ≤ℤ b
  below a b e = ground arith

  not_below : (a b : ℤ) → ltb_ℤ a b ≡ false → b ≤ℤ a
  not_below a b e = ground arith

  interval_bound :
      IsLimit (if leb_ℤ cfg.max_interval (pos 0) then pos 30_000_000_000 else cfg.max_interval)
  interval_bound = elim (Bool-cases (leb_ℤ cfg.max_interval (pos 0))) [
    | inl unset ↦ rw unset (inl (ground (arith, unset), refl))
    | inr given ↦ rw given (inr (ground (arith, given), refl))
  ]

  first_delay : IsInitial (if leb_ℤ cfg.initial (pos 0) then pos 1_000_000_000 else cfg.initial)
  first_delay = elim (Bool-cases (leb_ℤ cfg.initial (pos 0))) [
    | inl unset ↦ rw unset (inl (ground (arith, unset), refl))
    | inr given ↦ rw given (inr (ground (arith, given), refl))
  ]

  shorter :
      (w limit : ℤ)
      → IsLimit limit
      → IsNextDelay w (
          if ltb_ℤ (float limit) (float (wrap64 (w +ℤ w)))
          then float limit
          else float (wrap64 (w +ℤ w)))
  shorter w limit h = elim (Bool-cases (ltb_ℤ (float limit) (float (wrap64 (w +ℤ w))))) [
    | inl less ↦ rw less (limit, h, inr (refl, below (float limit) (float (wrap64 (w +ℤ w))) less))
    | inr more ↦
        rw more (limit, h, inl (refl, not_below (float limit) (float (wrap64 (w +ℤ w))) more))
  ]

  next_delay-IsNextDelay : (w : ℤ) → IsNextDelay w (next_delay float cfg w)
  unfolding next_delay
  next_delay-IsNextDelay w = shorter w _ interval_bound

  after_decision :
      (a : Attempt) (rest : List Attempt) (delay : ℤ) (o : Decision)
      → decide cfg a delay ≡ o
      → IsDecision cfg a delay o
      → ((d : ℤ) → let (v, waits) = retry_loop float cfg rest d in IsCall d rest v waits)
      → let (v, waits) = retry_loop float cfg (a ∷ rest) delay in IsCall delay (a ∷ rest) v waits
  unfolding retry_loop
  after_decision a rest delay (stop v) e h later = rw (e, retry_loop) h
  after_decision a rest delay (wait w) e h later =
      let d = next_delay float cfg w in rw (e, retry_loop) (h, d, next_delay-IsNextDelay w, later d)

  retry_loop-IsCall :
      (attempts : List Attempt) (delay : ℤ)
      → let (v, waits) = retry_loop float cfg attempts delay in IsCall delay attempts v waits
  unfolding retry_loop
  retry_loop-IsCall [] delay = (refl, refl)
  retry_loop-IsCall (a ∷ rest) delay =
      after_decision a rest delay (decide cfg a delay) refl
        (decide-IsDecision cfg a.result a.elapsed a.cancelled delay) (retry_loop-IsCall rest)

-- The call of sendWithRetry, attempt by attempt: the first delay is the initial one or a second;
-- success ends it with nil, another status than 408, 429 and those from 500 on ends it with an
-- error, and any other error leads to a delay, the one due or the longer one that the reply asks
-- for: the call gives up exactly where retries are off or the elapsed time with that delay is
-- above a positive limit, ends with the context, or waits for that delay; then the next one due
-- is twice as long, up to the interval limit, in float64.
pub send_with_retry-IsCall :
    (float : ℤ → ℤ) (cfg : RetryConfig) (attempts : List Attempt)
    → let (v, waits) = send_with_retry float cfg attempts in
      (delay : ℤ) × IsInitial float cfg delay × IsCall float cfg delay attempts v waits
unfolding send_with_retry
send_with_retry-IsCall float cfg attempts =
    (_, first_delay float cfg, retry_loop-IsCall float cfg attempts _)
