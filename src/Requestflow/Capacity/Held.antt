-- ===== src/Requestflow/Capacity/Held.antt =====
-- internal/requestflow/coordination_adapter.go: what is held after an acquisition, what a reconciled
-- lease has used, and the time of a daily reset.
use llm2api.Prelude.{
  ℕ, ◌+◌, ◌*◌, ◌/◌, ◌≤◌, ◌<◌, ◌≡◌, refl, sym, ap, ◌∙◌, inl, inr, Bool, true, false, List, [], ◌∷◌,
  ◌++◌, ℤ, pos, ltb, ◌==◌, if◌then◌else◌, Option-cases, Bool-cases, less_int, arith, ltb→lt, ltb→ge,
}
use llm2api.Requestflow.Capacity.{
  CoordinationConfig, LeaseRequest, BucketMetric, requests_metric, minute, day, BucketLimit,
  Limited, request_dimensions, token_buckets, token_rate_limits, rate_limits, Answer, granted,
  call_failed, refused, Coordinator, Action, lease_asked, rates_asked, release_asked, Outcome,
  leased, no_capacity, coordination_failed, acquire_rates, acquire_limited, acquire,
  next_daily_reset,
}

-- The token buckets among those from which was taken.
abbrev is_token : BucketMetric → Bool
is_token requests_metric = false
is_token _ = true

abbrev pub tokens_of : List BucketLimit → List BucketLimit
tokens_of [] = []
tokens_of (b ∷ bs) = if is_token b.metric then b ∷ tokens_of bs else tokens_of bs

-- What was asked of the coordinator, and how it answered, where the call ends with an outcome. A
-- lease is held: its acquisition and that of the rates were granted, and it was not given back. No
-- capacity until a time: the lease or the rates were refused until then. A failure: nothing was
-- asked, or the acquisition of the lease or of the rates failed. In the last two no rates were
-- granted, and a lease that was granted was asked to be released.
abbrev pub Holds : Outcome → List Action → Type 0
Holds (leased id buckets) actions =
    (taken : List BucketLimit) × (actions ≡ lease_asked id granted ∷ rates_asked taken granted ∷ [])
    × (buckets ≡ tokens_of taken)
Holds (no_capacity at) (lease_asked id (refused until) ∷ []) = at ≡ until
Holds (no_capacity at)
      (lease_asked id granted
        ∷ rates_asked taken (refused until)
        ∷ release_asked id' released
        ∷ []) =
    (id ≡ id') × (at ≡ until)
Holds coordination_failed [] = Unit {0}
Holds coordination_failed (lease_asked id call_failed ∷ []) = Unit {0}
Holds coordination_failed
      (lease_asked id granted ∷ rates_asked taken call_failed ∷ release_asked id' released ∷ []) =
    id ≡ id'
Holds _ _ = ⊥

tokens_of-append : (bs cs : List BucketLimit) → tokens_of (bs ++ cs) ≡ tokens_of bs ++ tokens_of cs
tokens_of-append [] cs = refl
tokens_of-append (b ∷ bs) cs = ground (arith, tokens_of-append bs cs)

tokens_of-token_buckets :
    (estimate : ℤ) (l : Limited) → tokens_of (token_buckets estimate l) ≡ token_buckets estimate l
tokens_of-token_buckets estimate l = elim (Bool-cases (less_int (pos 0) l.capacity.daily_tokens)) [
  | inl e ↦ rw e refl
  | inr e ↦ rw e refl
]

tokens_of-rate_limits :
    (estimate : ℤ) (ls : List Limited)
    → tokens_of (rate_limits estimate ls) ≡ token_rate_limits estimate ls
unfolding rate_limits token_rate_limits
tokens_of-rate_limits estimate [] = refl
tokens_of-rate_limits estimate (l ∷ ls) =
    tokens_of-append (token_buckets estimate l) (rate_limits estimate ls)
    ∙ ap (λ bs. bs ++ tokens_of (rate_limits estimate ls)) (tokens_of-token_buckets estimate l)
    ∙ ap (λ bs. token_buckets estimate l ++ bs) (tokens_of-rate_limits estimate ls)

abbrev pub HoldsAll : List Action × Outcome → Type 0
HoldsAll r = Holds r.1 r.0

module _ (k : Coordinator) (r : LeaseRequest) (id : ℕ) (ls : List Limited) where
  abbrev asked_rates : Answer → List Action × Outcome
  asked_rates answer =
      let limits = rate_limits r.estimated_tokens ls in
      elim answer [
        | granted ↦
            (rates_asked limits granted ∷ [], leased id (token_rate_limits r.estimated_tokens ls))
        | call_failed ↦ (
          rates_asked limits call_failed ∷ release_asked id (k.release_lease id) ∷ [],
          coordination_failed,
        )
        | refused at ↦ (
          rates_asked limits (refused at) ∷ release_asked id (k.release_lease id) ∷ [],
          no_capacity at,
        )
      ]

  asked_rates-Holds :
      (a : Answer) → HoldsAll (lease_asked id granted ∷ (asked_rates a).0, (asked_rates a).1)
  asked_rates-Holds granted = (_, refl, sym (tokens_of-rate_limits r.estimated_tokens ls))
  asked_rates-Holds call_failed = refl
  asked_rates-Holds (refused at) = (refl, refl)

  asked_lease-Holds :
      (a : Answer)
      → HoldsAll (elim a [
        | granted ↦
            (lease_asked id granted ∷ (acquire_rates k r id ls).0, (acquire_rates k r id ls).1)
        | call_failed ↦ (lease_asked id call_failed ∷ [], coordination_failed)
        | refused at ↦ (lease_asked id (refused at) ∷ [], no_capacity at)
      ])
  unfolding acquire_rates
  asked_lease-Holds granted = asked_rates-Holds (k.acquire_rate (rate_limits r.estimated_tokens ls))
  asked_lease-Holds call_failed = tt
  asked_lease-Holds (refused at) = refl

acquire_limited-Holds :
    (k : Coordinator) (r : LeaseRequest) (ls : List Limited) → HoldsAll (acquire_limited k r ls)
unfolding acquire_limited
acquire_limited-Holds k r ls = elim (Option-cases k.lease_id) [
  | inl e ↦ rw (acquire_limited, e) tt
  | inr (id, e) ↦ rw (acquire_limited, e) (asked_lease-Holds k r id ls (k.acquire_lease id ls))
]

-- Whatever the coordinator answers: where a lease is acquired, the calls were its acquisition and
-- that of the rates, both granted, and it names exactly the token buckets among those that its rates
-- were taken from. Where there is no capacity until a time, the lease or the rates were refused
-- until that time; in every other case nothing was asked or one of the two calls failed. In all of
-- these no rates were granted, and a lease that was granted was asked to be released once, after the
-- rates; whether that release succeeded is not looked at, and a lease whose acquisition failed with
-- an error is not released.
pub acquire-HoldsAll :
    (config : CoordinationConfig) (k : Coordinator) (r : LeaseRequest)
    → HoldsAll (acquire config k r)
unfolding acquire
acquire-HoldsAll config k r = elim (Bool-cases (r.execution_id == 0)) [
  | inl e ↦ rw (acquire, e) tt
  | inr e ↦ elim (Option-cases (request_dimensions config r)) [
    | inl q ↦ rw (acquire, e, q) tt
    | inr (ls, q) ↦ rw (acquire, e, q) (acquire_limited-Holds k r ls)
  ]
]

-- The reset after an observation is the first time after it that is the reset minute of a UTC day:
-- it is later, by at most a day, and a whole number of days and the reset minute from the epoch.
pub next_daily_reset_first :
    (observed_at reset : ℕ)
    → reset < 1440
    → (observed_at < next_daily_reset observed_at reset)
      × (next_daily_reset observed_at reset ≤ observed_at + day)
      × ((days : ℕ) × (next_daily_reset observed_at reset ≡ days * day + reset * minute))
unfolding next_daily_reset
next_daily_reset_first observed_at reset h =
    elim (Bool-cases (ltb observed_at (observed_at / day * day + reset * minute))) [
      | inl e ↦
          let before = ltb→lt _ _ e in
          rw e (omega (arith, before), omega (arith, h), (observed_at / day, refl))
      | inr e ↦
          let behind = ltb→ge _ _ e in
          rw e (omega (arith, h), omega (arith, behind), (observed_at / day + 1, omega arith))
    ]
