-- ===== src/Observatory/Requests.antt =====
-- buffer.py, `record_request`: what the process itself counts of a request. Times are seconds,
-- durations are milliseconds.
use cognitive_rag_system.Prelude.{
  ℕ, ◌+◌, ◌-◌, Bool, true, false, not, ◌&&◌, ◌||◌, String, Option, none, some, List, [], ◌∷◌, ◌++◌,
  any, leb, ltb, nat_eq, length, take, drop, map, if◌then◌else◌,
}
use cognitive_rag_system.Prelude.Dict.{Dict, lookup, insert, remove}
use cognitive_rag_system.Prelude.Sort.{sort_by}
use Prim.Native.String.{compare}
use text.Mathlib.Text.{is_le}
use cognitive_rag_system.Text.{Text, codes, lower, contains}
use cognitive_rag_system.Observatory.Routes.{
  BackendRoute, scanner, denied, route_value, normalize_backend_route,
}

-- `_PROMETHEUS_DURATION_BUCKETS`
unfoldable pub duration_bounds : List ℕ
duration_bounds =
    100 ∷ 250 ∷ 500 ∷ 1000 ∷ 2500 ∷ 5000 ∷ 10000 ∷ 30000 ∷ 60000 ∷ 120000 ∷ 300000 ∷ []

-- `_SCANNER_PATH_MARKERS`
unfoldable pub scanner_path_markers : List Text
scanner_path_markers = map codes (
    ".env" ∷ "wp-login" ∷ "wp-admin" ∷ "actuator" ∷ "phpmyadmin" ∷ "cgi-bin" ∷ "shell" ∷ ".git"
    ∷ "solr" ∷ "telescope" ∷ ".well-known" ∷ "vendor" ∷ "drupal" ∷ "joomla" ∷ "admin.php" ∷ [])

-- The arguments of `record_request` that it reads.
pub record Request : Type 0 where
  pub path : Text
  pub duration : ℕ
  pub status_code : ℕ
  pub route_type : Option Text
  pub is_system : Bool

pub record Sample : Type 0 where
  pub at : ℕ
  pub duration : ℕ
  pub status_code : ℕ
  pub route_type : Option BackendRoute
  pub path : Text
  pub is_system : Bool

-- The fields of the buffer that requests change, without the cached snapshot of the metrics. An hourly bucket maps its counters; that it also
-- holds its own key is left out.
pub record Local : Type 0 where
  pub samples : List Sample
  pub duration_count : ℕ
  pub duration_sum : ℕ
  pub duration_buckets : List (ℕ × ℕ)
  pub hourly : Dict (Dict ℕ)

unfoldable pub empty_buckets : List (ℕ × ℕ)
empty_buckets = map (λ bound. (bound, 0)) duration_bounds

-- The fields as `__init__` and `reset` leave them.
unfoldable pub reset : Local
reset = record {
  samples = [];
  duration_count = 0;
  duration_sum = 0;
  duration_buckets = empty_buckets;
  hourly = [];
}

unfoldable pub looks_scanned : Text → Bool
looks_scanned lowered_path = any (contains lowered_path) scanner_path_markers

-- The route of a request: the given one, normalised, or a guess from the path and the status.
unfoldable pub classify : Request → Option BackendRoute
classify r = elim r.route_type [
  | some (c ∷ s) ↦ some (normalize_backend_route (c ∷ s))
  | _ ↦
      if looks_scanned (lower r.path)
      then some scanner
      else if nat_eq r.status_code 401 || nat_eq r.status_code 403
      then some denied
      else none
]

abbrev pub is_scanner : Option BackendRoute → Bool
is_scanner (some scanner) = true
is_scanner _ = false

abbrev pub is_scanner_error : Option BackendRoute → Request → Bool
is_scanner_error route r =
    is_scanner route || nat_eq r.status_code 404 && not (contains (lower r.path) (codes "/api/"))

-- The counters of a new hour.
unfoldable pub fresh_hour : Dict ℕ
fresh_hour =
    ("total", 0)
    ∷ ("user", 0)
    ∷ ("system", 0)
    ∷ ("rag", 0)
    ∷ ("sql", 0)
    ∷ ("general", 0)
    ∷ ("attachments", 0)
    ∷ ("denied", 0)
    ∷ ("classification_failure", 0)
    ∷ ("app_errors", 0)
    ∷ ("scanner_errors", 0)
    ∷ []

abbrev pub or_zero : Option ℕ → ℕ
or_zero none = 0
or_zero (some n) = n

-- `bucket[key] = bucket.get(key, 0) + 1`
unfoldable pub bump : String → Dict ℕ → Dict ℕ
bump key bucket = insert key (or_zero (lookup key bucket) + 1) bucket

abbrev pub is_there : Option ℕ → Bool
is_there none = false
is_there (some n) = true

-- `if route_type and route_type in bucket: …`
unfoldable pub bump_route : Option BackendRoute → Dict ℕ → Dict ℕ
bump_route none bucket = bucket
bump_route (some route) bucket =
    if is_there (lookup (route_value route) bucket) then bump (route_value route) bucket else bucket

unfoldable pub bump_errors : Option BackendRoute → Request → Dict ℕ → Dict ℕ
bump_errors route r bucket =
    if not r.is_system && leb 500 r.status_code
    then bump "app_errors" bucket
    else if is_scanner_error route r
    then bump "scanner_errors" bucket
    else bucket

unfoldable pub count_in_hour : Option BackendRoute → Request → Dict ℕ → Dict ℕ
count_in_hour route r bucket =
    bump_errors route r
      (bump_route route (bump (if r.is_system then "system" else "user") (bump "total" bucket)))

abbrev pub or_fresh : Option (Dict ℕ) → Dict ℕ
or_fresh none = fresh_hour
or_fresh (some bucket) = bucket

-- The buckets of the request's duration.
unfoldable pub observe_duration : ℕ → List (ℕ × ℕ) → List (ℕ × ℕ)
observe_duration duration [] = []
observe_duration duration (b ∷ bs) =
    (b.0, (if leb duration b.0 then b.1 + 1 else b.1)) ∷ observe_duration duration bs

unfoldable pub count_duration : Request → Local → Local
count_duration r s = if r.is_system then s else record s {
  duration_count = s.duration_count + 1;
  duration_sum = s.duration_sum + r.duration;
  duration_buckets = observe_duration r.duration s.duration_buckets;
}

abbrev pub key_le : String → String → Bool
key_le a b = is_le (compare a b)

unfoldable pub remove_keys : List String → Dict (Dict ℕ) → Dict (Dict ℕ)
remove_keys [] d = d
remove_keys (k ∷ ks) d = remove_keys ks (remove k d)

-- `for k in sorted(…)[:-720]: del …`, above 750 hours
unfoldable pub prune : Dict (Dict ℕ) → Dict (Dict ℕ)
prune d =
    if ltb 750 (length d)
    then remove_keys (take (length d - 720) (sort_by key_le (map (λ e. e.0) d))) d
    else d

-- `deque(maxlen=max_samples)`
unfoldable pub append_bounded : (max_samples : ℕ) → Sample → List Sample → List Sample
append_bounded max_samples x xs = drop (length xs + 1 - max_samples) (xs ++ x ∷ [])

unfoldable pub sample_of : (now : ℕ) → Request → Sample
sample_of now r = record {
  at = now;
  duration = r.duration;
  status_code = r.status_code;
  route_type = classify r;
  path = r.path;
  is_system = r.is_system;
}

-- What is recorded at a time: a request, or the route of a chat turn.
pub data Recorded : Type 0 where
  request : Request → Recorded
  turn : (route : Text) → Recorded

-- `strftime("%Y-%m-%dT%H:00:00Z")` of a time
module _ (hour_key : ℕ → String) where
  unfoldable pub count_hour : (now : ℕ) → Request → Dict (Dict ℕ) → Dict (Dict ℕ)
  count_hour now r d =
      insert (hour_key now) (count_in_hour (classify r) r (or_fresh (lookup (hour_key now) d))) d

  -- `record_request` up to its use of Redis.
  unfoldable pub record_request : (max_samples now : ℕ) → Request → Local → Local
  record_request max_samples now r s =
      let counted = count_duration r s in
      record counted {
        samples = append_bounded max_samples (sample_of now r) counted.samples;
        hourly = prune (count_hour now r counted.hourly);
      }

  -- `record_turn_route` up to its use of Redis, with the route that it returns.
  unfoldable pub record_turn_route : (now : ℕ) → Text → Local → BackendRoute × Local
  record_turn_route now route s =
      let canonical = normalize_backend_route route in
      (
        canonical,
        record s {
          hourly =
              insert (hour_key now)
                (bump (route_value canonical) (or_fresh (lookup (hour_key now) s.hourly))) s.hourly;
        },
      )

  unfoldable pub record_one : (max_samples now : ℕ) → Recorded → Local → Local
  record_one max_samples now (request r) s = record_request max_samples now r s
  record_one max_samples now (turn route) s = (record_turn_route now route s).1

  unfoldable pub record_all : (max_samples : ℕ) → List (ℕ × Recorded) → Local → Local
  record_all max_samples [] s = s
  record_all max_samples (e ∷ es) s = record_all max_samples es (record_one max_samples e.0 e.1 s)
