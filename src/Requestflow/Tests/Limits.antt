-- ===== src/Requestflow/Tests/Limits.antt =====
-- A lease under shared capacity, whose rates the coordinator refuses and whose release fails, and the daily reset at 08:00.
use llm2api.Prelude.{ℕ, ◌+◌, ◌*◌, ◌≤◌, ◌<◌, ◌≡◌, some, none, pos, false, arith}
use llm2api.Requestflow.Capacity.{
  Capacity, CoordinationConfig, LeaseRequest, Coordinator, granted, refused, acquire,
  next_daily_reset, day, minute,
}
use llm2api.Requestflow.Capacity.Held.{HoldsAll, acquire-HoldsAll, next_daily_reset_first}

abbrev capacity : Capacity
capacity = record {
  requests_per_minute = pos 60;
  tokens_per_minute = pos 1000;
  daily_tokens = pos 0;
  daily_reset_minute_utc = pos 0;
  concurrency = pos 4;
}

abbrev config : CoordinationConfig
config = record {
  global_capacity = capacity;
  resource_pool = capacity;
  model = capacity;
  provider = capacity;
  default_credential = capacity;
}

abbrev request : LeaseRequest
request = record {
  execution_id = 1;
  model_id = 2;
  provider_id = 3;
  credential_id = 4;
  resource_pool_id = 5;
  estimated_tokens = pos 100;
  rpm_limit = some (pos 10);
  tpm_limit = none;
  concurrency = none;
  shared_capacity_scope = some 6;
  shared_rpm_limit = some (pos 20);
  shared_tpm_limit = some (pos 500);
  shared_concurrency = some (pos 2);
  shared_daily_token_limit = some (pos 5000);
  shared_daily_reset_minute_utc = some (pos 480);
}

abbrev coordinator : Coordinator
coordinator = record {
  lease_id = some 11;
  acquire_lease = λ id ls. granted;
  acquire_rate = λ bs. refused 70;
  release_lease = λ id. false;
}

acquire-HoldsAll_example : HoldsAll (acquire config coordinator request)
acquire-HoldsAll_example = acquire-HoldsAll config coordinator request

next_daily_reset_first_example :
    (28800000000000 < next_daily_reset 28800000000000 480)
    × (next_daily_reset 28800000000000 480 ≤ 28800000000000 + day)
    × ((days : ℕ) × (next_daily_reset 28800000000000 480 ≡ days * day + 480 * minute))
next_daily_reset_first_example = next_daily_reset_first 28800000000000 480 (omega arith)
