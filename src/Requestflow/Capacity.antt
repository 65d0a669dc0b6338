-- ===== src/Requestflow/Capacity.antt =====
-- internal/requestflow/coordination_adapter.go: the dimensions and limits of a request, and the
-- acquisition of its lease. The coordinator is a parameter. A UUID is a number, 0 the nil one; a
-- scope's name is a number, 0 the empty string; a time is a number of nanoseconds since the epoch. The
-- reset minute of a configured capacity is not negative.
use llm2api.Prelude.{
  ℕ, zero, suc, ◌+◌, ◌-◌, ◌*◌, ◌/◌, Bool, true, false, ◌&&◌, ◌||◌, not, Option, none, some, List,
  [], ◌∷◌, ◌++◌, map, ℤ, pos, negsuc, ltb, leb, ◌==◌, if◌then◌else◌, less_int, pos_part,
}
pub mod Held

pub record Capacity : Type 0 where
  pub requests_per_minute : ℤ
  pub tokens_per_minute : ℤ
  pub daily_tokens : ℤ
  pub daily_reset_minute_utc : ℤ
  pub concurrency : ℤ

pub record CoordinationConfig : Type 0 where
  pub global_capacity : Capacity
  pub resource_pool : Capacity
  pub model : Capacity
  pub provider : Capacity
  pub default_credential : Capacity

pub record LeaseRequest : Type 0 where
  pub execution_id : ℕ
  pub model_id : ℕ
  pub provider_id : ℕ
  pub credential_id : ℕ
  pub resource_pool_id : ℕ
  pub estimated_tokens : ℤ
  pub rpm_limit : Option ℤ
  pub tpm_limit : Option ℤ
  pub concurrency : Option ℤ
  pub shared_capacity_scope : Option ℕ
  pub shared_rpm_limit : Option ℤ
  pub shared_tpm_limit : Option ℤ
  pub shared_concurrency : Option ℤ
  pub shared_daily_token_limit : Option ℤ
  pub shared_daily_reset_minute_utc : Option ℤ

pub data Dimension : Type 0 where
  global_dimension : Dimension
  resource_pool_dimension model_dimension provider_dimension : ℕ → Dimension
  credential_dimension : ℕ → Dimension
  shared_dimension : (provider scope : ℕ) → Dimension

pub data BucketMetric : Type 0 where
  requests_metric tokens_metric daily_tokens_metric : BucketMetric

abbrev pub minute : ℕ
minute = 60000000000

abbrev pub day : ℕ
day = 86400000000000

-- A refill of 0 and a window of 0 are the absent ones.
pub record BucketLimit : Type 0 where
  pub dimension : Dimension
  pub metric : BucketMetric
  pub capacity_tokens : ℤ
  pub refill_tokens : ℤ
  pub refill_interval : ℕ
  pub requested_tokens : ℤ
  pub fixed_window : ℕ
  pub fixed_window_offset : ℕ

abbrev given_or : Option ℤ → ℤ → ℤ
given_or none n = n
given_or (some m) n = m

unfoldable pub effective_credential_capacity :
    CoordinationConfig → Option ℤ → Option ℤ → Option ℤ → Capacity
effective_credential_capacity config rpm tpm concurrency =
    let c = config.default_credential in
    record c {
      requests_per_minute = given_or rpm c.requests_per_minute;
      tokens_per_minute = given_or tpm c.tokens_per_minute;
      concurrency = given_or concurrency c.concurrency;
    }

pub data Shared : Type 0 where
  unshared invalid : Shared
  shared : Dimension → Capacity → Shared

abbrev is_given : Option ℤ → Bool
is_given none = false
is_given (some n) = true

-- Less than 1, or absent.
abbrev unpositive : Option ℤ → Bool
unpositive none = true
unpositive (some n) = less_int n (pos 1)

abbrev invalid_daily : Option ℤ → Option ℤ → Bool
invalid_daily none none = false
invalid_daily none (some m) = true
invalid_daily (some n) none = true
invalid_daily (some n) (some m) =
    less_int n (pos 1) || (less_int m (pos 0) || not (less_int m (pos 1440)))

unfoldable pub shared_upstream_capacity : LeaseRequest → Option ℕ → Shared
shared_upstream_capacity r none =
    if is_given r.shared_rpm_limit
      || (is_given r.shared_tpm_limit
          || (is_given r.shared_concurrency
              || (is_given r.shared_daily_token_limit || is_given r.shared_daily_reset_minute_utc)))
    then invalid
    else unshared
shared_upstream_capacity r (some scope) =
    if r.provider_id == 0
      || (scope == 0
          || (unpositive r.shared_rpm_limit
              || (unpositive r.shared_tpm_limit || unpositive r.shared_concurrency)))
    then invalid
    else if invalid_daily r.shared_daily_token_limit r.shared_daily_reset_minute_utc
    then invalid
    else shared (shared_dimension r.provider_id scope) (record {
      requests_per_minute = given_or r.shared_rpm_limit (pos 0);
      tokens_per_minute = given_or r.shared_tpm_limit (pos 0);
      daily_tokens = given_or r.shared_daily_token_limit (pos 0);
      daily_reset_minute_utc = given_or r.shared_daily_reset_minute_utc (pos 0);
      concurrency = given_or r.shared_concurrency (pos 0);
    })

-- A dimension with its capacity.
pub record Limited : Type 0 where
  pub dimension : Dimension
  pub capacity : Capacity

abbrev limited : Dimension → Capacity → Limited
limited d c = record { dimension = d; capacity = c }

abbrev with_shared : Shared → List Limited → Option (List Limited)
with_shared invalid ds = none
with_shared unshared ds = some ds
with_shared (shared d c) ds = some (ds ++ limited d c ∷ [])

unfoldable pub request_dimensions : CoordinationConfig → LeaseRequest → Option (List Limited)
request_dimensions config r = with_shared (shared_upstream_capacity r r.shared_capacity_scope) (
    limited global_dimension config.global_capacity
    ∷ limited (resource_pool_dimension r.resource_pool_id) config.resource_pool
    ∷ limited (model_dimension r.model_id) config.model
    ∷ limited (provider_dimension r.provider_id) config.provider
    ∷ limited (credential_dimension r.credential_id)
        (effective_credential_capacity config r.rpm_limit r.tpm_limit r.concurrency)
    ∷ [])

abbrev pub minute_bucket : Dimension → BucketMetric → ℤ → ℤ → BucketLimit
minute_bucket d metric capacity requested = record {
  dimension = d;
  metric = metric;
  capacity_tokens = capacity;
  refill_tokens = capacity;
  refill_interval = minute;
  requested_tokens = requested;
  fixed_window = 0;
  fixed_window_offset = 0;
}

abbrev pub daily_token_bucket : Dimension → ℤ → ℤ → ℤ → BucketLimit
daily_token_bucket d capacity reset requested = record {
  dimension = d;
  metric = daily_tokens_metric;
  capacity_tokens = capacity;
  refill_tokens = pos 0;
  refill_interval = 0;
  requested_tokens = requested;
  fixed_window = day;
  fixed_window_offset = pos_part reset * minute;
}

-- The token buckets of a dimension.
abbrev pub token_buckets : ℤ → Limited → List BucketLimit
token_buckets estimate l =
    minute_bucket l.dimension tokens_metric l.capacity.tokens_per_minute estimate
    ∷ (if less_int (pos 0) l.capacity.daily_tokens
        then daily_token_bucket l.dimension l.capacity.daily_tokens
            l.capacity.daily_reset_minute_utc estimate
          ∷ []
        else [])

unfoldable pub token_rate_limits : ℤ → List Limited → List BucketLimit
token_rate_limits estimate [] = []
token_rate_limits estimate (l ∷ ls) = token_buckets estimate l ++ token_rate_limits estimate ls

unfoldable pub rate_limits : ℤ → List Limited → List BucketLimit
rate_limits estimate [] = []
rate_limits estimate (l ∷ ls) =
    minute_bucket l.dimension requests_metric l.capacity.requests_per_minute (pos 1)
      ∷ token_buckets estimate l
    ++ rate_limits estimate ls

-- An answer of the coordinator: granted, refused until a time, or an error.
pub data Answer : Type 0 where
  granted call_failed : Answer
  refused : (retry_at : ℕ) → Answer

pub record Coordinator : Type 0 where
  pub lease_id : Option ℕ
  pub acquire_lease : ℕ → List Limited → Answer
  pub acquire_rate : List BucketLimit → Answer
  -- False for an error.
  pub release_lease : ℕ → Bool

-- The calls of the coordinator with their answers, in order. After an error the call may or may not
-- have been carried out.
pub data Action : Type 0 where
  lease_asked : (lease : ℕ) → Answer → Action
  rates_asked : List BucketLimit → Answer → Action
  release_asked : (lease : ℕ) → Bool → Action

pub data Outcome : Type 0 where
  leased : (lease : ℕ) → List BucketLimit → Outcome
  no_capacity : (retry_at : ℕ) → Outcome
  coordination_failed : Outcome

-- An error of the release is passed over.
unfoldable pub acquire_rates : Coordinator → LeaseRequest → ℕ → List Limited → List Action × Outcome
acquire_rates k r id ls =
    let limits = rate_limits r.estimated_tokens ls in
    elim (k.acquire_rate limits) [
      | granted ↦
          (rates_asked limits granted ∷ [], leased id (token_rate_limits r.estimated_tokens ls))
      | call_failed ↦ (
        rates_asked limits call_failed ∷ release_asked id (k.release_lease id) ∷ [],
        coordination_failed,
      )
      | refused at ↦ (
        rates_asked limits (refused at) ∷ release_asked id (k.release_lease id) ∷ [],
        no_capacity at,
      )
    ]

unfoldable pub acquire_limited : Coordinator → LeaseRequest → List Limited → List Action × Outcome
acquire_limited k r ls = elim k.lease_id [
  | none ↦ ([], coordination_failed)
  | some id ↦ elim (k.acquire_lease id ls) [
    | granted ↦
        let (actions, outcome) = acquire_rates k r id ls in
        (lease_asked id granted ∷ actions, outcome)
    | call_failed ↦ (lease_asked id call_failed ∷ [], coordination_failed)
    | refused at ↦ (lease_asked id (refused at) ∷ [], no_capacity at)
  ]
]

unfoldable pub acquire : CoordinationConfig → Coordinator → LeaseRequest → List Action × Outcome
acquire config k r =
    if r.execution_id == 0 then ([], coordination_failed) else elim (request_dimensions config r) [
      | none ↦ ([], coordination_failed)
      | some ls ↦ acquire_limited k r ls
    ]

-- The buckets of `Reconcile`; none where it returns at once.
unfoldable pub reconcile : ℕ → ℤ → List BucketLimit → Option (List BucketLimit)
reconcile estimate (negsuc n) limits = none
reconcile estimate (pos actual) limits =
    if leb estimate actual
    then none
    else some
        (map (λ (l : BucketLimit). record l { requested_tokens = pos (estimate - actual) }) limits)

unfoldable pub next_daily_reset : ℕ → ℕ → ℕ
next_daily_reset observed_at reset =
    let at = observed_at / day * day + reset * minute in if ltb observed_at at then at else at + day
