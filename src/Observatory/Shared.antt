-- ===== src/Observatory/Shared.antt =====
-- buffer.py: what `record_request` and `record_turn_route` count in Redis, for all processes. Times
-- are seconds, durations are milliseconds, and the prefix of the keys is left out.
use cognitive_rag_system.Prelude.{
  ℕ, ◌+◌, ◌-◌, ◌*◌, ◌%◌, Bool, not, ◌&&◌, String, Option, none, some, List, [], ◌∷◌, ◌++◌, leb,
  if◌then◌else◌,
}
use cognitive_rag_system.Prelude.Dict.{Dict, lookup, insert}
use cognitive_rag_system.Text.{Text}
use cognitive_rag_system.Observatory.Routes.{BackendRoute, route_value, normalize_backend_route}
use cognitive_rag_system.Observatory.Leases.{zadd, zpurge}
use cognitive_rag_system.Observatory.Requests.{
  Request, Recorded, request, turn, empty_buckets, classify, is_scanner_error, bump,
  observe_duration,
}

-- A hash with the time of its expiry.
pub record Bucket : Type 0 where
  pub fields : Dict ℕ
  pub expires : ℕ

-- The counters by name, the buckets by minute and by hour with their indexes, and the sorted set
-- of the durations of user requests.
pub record RedisMetrics : Type 0 where
  pub total : ℕ
  pub system : ℕ
  pub user : ℕ
  pub app_errors : ℕ
  pub scanner_errors : ℕ
  pub duration_count : ℕ
  pub duration_sum : ℕ
  pub duration_buckets : List (ℕ × ℕ)
  pub durations : Dict ℕ
  pub minutes : Dict Bucket
  pub hours : Dict Bucket
  pub min_index : Dict ℕ
  pub hour_index : Dict ℕ

-- No key is there.
unfoldable pub no_metrics : RedisMetrics
no_metrics = record {
  total = 0;
  system = 0;
  user = 0;
  app_errors = 0;
  scanner_errors = 0;
  duration_count = 0;
  duration_sum = 0;
  duration_buckets = empty_buckets;
  durations = [];
  minutes = [];
  hours = [];
  min_index = [];
  hour_index = [];
}

abbrev pub fields_at : (now : ℕ) → Option Bucket → Dict ℕ
fields_at now none = []
fields_at now (some b) = if leb b.expires now then [] else b.fields

unfoldable pub bump_all : List String → Dict ℕ → Dict ℕ
bump_all [] fields = fields
bump_all (k ∷ ks) fields = bump_all ks (bump k fields)

-- `hincrby` of each key, then `expire`
unfoldable pub count_in_bucket : (now ttl : ℕ) → String → List String → Dict Bucket → Dict Bucket
count_in_bucket now ttl key ks buckets =
    insert key
      (record { fields = bump_all ks (fields_at now (lookup key buckets)); expires = now + ttl })
      buckets

abbrev pub route_key : Option BackendRoute → List String
route_key none = []
route_key (some route) = route_value route ∷ []

-- The fields of a bucket that a request counts in.
unfoldable pub bucket_keys : Option BackendRoute → Request → List String
bucket_keys route r =
    "total" ∷ (if r.is_system then "system" else "user") ∷ route_key route
    ++ (if not r.is_system && leb 500 r.status_code then "app_errors" ∷ [] else [])
    ++ (if is_scanner_error route r then "scanner_errors" ∷ [] else [])

unfoldable pub is_app_error : Request → Bool
is_app_error r = not r.is_system && leb 500 r.status_code

-- `strftime` of a time by minute and by hour, and the member that stands for a duration.
module _ (min_key hour_key : ℕ → String)
    (duration_member : (now duration : ℕ) → String → String) where
  -- The counters of a user request.
  unfoldable pub share_user : (now : ℕ) (req_id : String) → Request → RedisMetrics → RedisMetrics
  share_user now req_id r s = record s {
    user = s.user + 1;
    durations =
        zpurge (30 * 86400) now (zadd (duration_member now r.duration req_id) now s.durations);
    app_errors = if leb 500 r.status_code then s.app_errors + 1 else s.app_errors;
    duration_count = s.duration_count + 1;
    duration_sum = s.duration_sum + r.duration;
    duration_buckets = observe_duration r.duration s.duration_buckets;
  }

  unfoldable pub share_kind : (now : ℕ) (req_id : String) → Request → RedisMetrics → RedisMetrics
  share_kind now req_id r s =
      if r.is_system then record s { system = s.system + 1 } else share_user now req_id r s

  unfoldable pub share_buckets : (now : ℕ) → List String → RedisMetrics → RedisMetrics
  share_buckets now ks s = record s {
    minutes = count_in_bucket now 10800 (min_key now) ks s.minutes;
    min_index = zadd (min_key now) (now - now % 60) s.min_index;
    hours = count_in_bucket now 3024000 (hour_key now) ks s.hours;
    hour_index = zadd (hour_key now) (now - now % 3600) s.hour_index;
  }

  unfoldable pub prune_indexes : (now : ℕ) → RedisMetrics → RedisMetrics
  prune_indexes now s = record s {
    min_index = zpurge 10800 now s.min_index;
    hour_index = zpurge 3024000 now s.hour_index;
  }

  unfoldable pub share_totals : Request → RedisMetrics → RedisMetrics
  share_totals r s = record s {
    total = s.total + 1;
    scanner_errors =
        if is_scanner_error (classify r) r then s.scanner_errors + 1 else s.scanner_errors;
  }

  -- The pipeline of `record_request`, with the given or generated id.
  unfoldable pub share_request : (now : ℕ) (req_id : String) → Request → RedisMetrics → RedisMetrics
  share_request now req_id r s =
      prune_indexes now (
        share_buckets now (bucket_keys (classify r) r) (share_kind now req_id r (share_totals r s)))

  -- The pipeline of `record_turn_route`.
  unfoldable pub share_turn : (now : ℕ) → Text → RedisMetrics → RedisMetrics
  share_turn now route s = share_buckets now (route_value (normalize_backend_route route) ∷ []) s

  unfoldable pub share_one :
      (req_id : ℕ → String) (now : ℕ) → Recorded → RedisMetrics → RedisMetrics
  share_one req_id now (request r) s = share_request now (req_id now) r s
  share_one req_id now (turn route) s = share_turn now route s

  unfoldable pub share_all :
      (req_id : ℕ → String) → List (ℕ × Recorded) → RedisMetrics → RedisMetrics
  share_all req_id [] s = s
  share_all req_id (e ∷ es) s = share_all req_id es (share_one req_id e.0 e.1 s)
