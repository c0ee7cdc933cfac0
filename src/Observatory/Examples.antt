-- ===== src/Observatory/Examples.antt =====
-- Three requests, one of which never finishes.
use cognitive_rag_system.Prelude.{
  ℕ, String, true, false, none, some, List, [], ◌∷◌, ◌≡◌, refl, map, length, ◌≤◌, arith,
}
use cognitive_rag_system.Prelude.Dict.{remove, lookup, insert}
use cognitive_rag_system.Prelude.Sort.{sort_by, insert_by}
use cognitive_rag_system.Text.{
  codes, text_eq, lower, lower_code, strip, lstrip_by, rstrip_by, is_space, contains, starts_with,
}
use cognitive_rag_system.Observatory.Routes.{
  aliases, route_named, alias_of, normalize_backend_route, unmapped,
}
use cognitive_rag_system.Observatory.Requests.{
  Request, duration_bounds, scanner_path_markers, empty_buckets, reset, looks_scanned, classify,
  fresh_hour, or_zero, bump, bump_route, bump_errors, count_in_hour, or_fresh, observe_duration,
  count_duration, remove_keys, prune, append_bounded, sample_of, count_hour, record_request,
  record_turn_route, Recorded, request, turn, record_one, record_all,
}
use cognitive_rag_system.Observatory.Shared.{
  no_metrics, bump_all, count_in_bucket, bucket_keys, share_user, share_kind, share_buckets,
  prune_indexes, share_totals, share_request, share_turn, share_one, share_all,
}
use cognitive_rag_system.Observatory.Hours.{AreBalanced}
use cognitive_rag_system.Observatory.Histogram.{within, users, record_all-histogram}
use cognitive_rag_system.Observatory.ActiveSessions.{
  LiveSessions, active_at, see_locally, see_in_redis, record_active_session, forget_in_redis,
  remove_active_session, seen_since, count_seen, legacy_count, get_active_sessions_count,
}
use cognitive_rag_system.Observatory.Alerts.{
  Alert, status_of, fingerprint_of, firing, register_alert, register_alerts, sync_alert,
  sync_alerts, sync_if, record_alerts, get_active_alerts_count,
}
use cognitive_rag_system.Observatory.Leases.{
  members, zadd, zpurge, key_ttl, append_sample, observe, lease_redis, increment_concurrency, zrem,
  release_redis, decrement_concurrency, purge_redis, current_concurrency,
}
use cognitive_rag_system.Observatory.Visible.{
  Call, starts, finishes, asks, flight, counts, call, answers, after_calls,
}
use cognitive_rag_system.Observatory.Contract.{idle, answers-refines, count-heals}

program : Unit {0}
unfolding no_metrics bump_all count_in_bucket bucket_keys share_user share_kind share_buckets
    prune_indexes share_totals share_request share_turn share_one share_all lookup insert sort_by
    insert_by text_eq lower lower_code strip lstrip_by rstrip_by is_space contains starts_with
    aliases route_named alias_of normalize_backend_route duration_bounds scanner_path_markers
    empty_buckets reset looks_scanned classify fresh_hour bump bump_route bump_errors count_in_hour
    observe_duration count_duration remove_keys prune append_bounded sample_of count_hour
    record_request record_turn_route record_one record_all within users active_at see_locally
    see_in_redis record_active_session forget_in_redis remove_active_session seen_since count_seen
    legacy_count get_active_sessions_count status_of fingerprint_of firing register_alert
    register_alerts sync_alert sync_alerts sync_if record_alerts get_active_alerts_count remove
    members zadd zpurge key_ttl append_sample observe lease_redis increment_concurrency zrem
    release_redis decrement_concurrency purge_redis current_concurrency flight counts call answers
    after_calls
program = tt

abbrev traffic : List Call
traffic =
    starts 1000 "a"
    ∷ starts 2000 "b"
    ∷ finishes 2500 (some "a")
    ∷ starts 31500 "c"
    ∷ asks 32000
    ∷ []

traffic-answers : answers 30000 traffic idle ≡ 1 ∷ 2 ∷ 1 ∷ 2 ∷ 1 ∷ []
unfolding program
traffic-answers = refl

answers-refines_example : answers 30000 traffic idle ≡ counts 30000 traffic []
answers-refines_example =
    answers-refines 30000 traffic (omega arith)
      (omega arith, (omega arith, (omega arith, (omega arith, (omega arith, tt)))))

count-heals_example : (current_concurrency 30000 true 62000 (after_calls 30000 traffic idle)).0 ≡ 0
count-heals_example =
    count-heals 30000 traffic 62000 (omega arith)
      (omega arith, (omega arith, (omega arith, (omega arith, (omega arith, tt))))) (omega arith)

without_redis : (decrement_concurrency 30000 false 10 none idle).0 ≡ 0
unfolding program
without_redis = refl

abbrev hour : ℕ → String
hour now = "2024-01-01T10:00:00Z"

abbrev quick : Request
quick = record {
  path = codes "/api/chat";
  duration = 200;
  status_code = 200;
  route_type = none;
  is_system = false;
}

abbrev probe : Request
probe = record quick { path = codes "/wp-login.php"; status_code = 404; duration = 3000 }

abbrev health : Request
health = record quick { path = codes "/health"; is_system = true }

abbrev day : List (ℕ × Recorded)
day =
    (1, request quick) ∷ (2, turn (codes "Vector ")) ∷ (3, request probe) ∷ (4, request health) ∷ []

abbrev member_text : ℕ → ℕ → String → String
member_text now duration id = id

abbrev no_id : ℕ → String
no_id now = "r"

record_all-histogram_example :
    ((record_all hour 2 day reset).duration_buckets ≡ map (λ b. (b, within b day)) duration_bounds)
    × ((record_all hour 2 day reset).duration_count ≡ users day)
    × ((share_all hour hour member_text no_id day no_metrics).duration_buckets
        ≡ map (λ b. (b, within b day)) duration_bounds)
    × ((share_all hour hour member_text no_id day no_metrics).duration_count ≡ users day)
    × (within 250 day ≤ users day)
    × (length (record_all hour 2 day reset).samples ≤ 2)
    × AreBalanced (record_all hour 2 day reset).hourly
record_all-histogram_example = record_all-histogram hour hour member_text no_id 2 day 250

shared_totals :
    (share_all hour hour member_text no_id day no_metrics).total ≡ 3
    × (share_all hour hour member_text no_id day no_metrics).scanner_errors ≡ 1
unfolding program
shared_totals = (refl, refl)

abbrev hour_of_day : List (String × ℕ)
hour_of_day = or_fresh (lookup "2024-01-01T10:00:00Z" (record_all hour 2 day reset).hourly)

hour_counts :
    map
      (λ k. or_zero (lookup k hour_of_day))
      ("total" ∷ "user" ∷ "system" ∷ "rag" ∷ "scanner_errors" ∷ [])
    ≡ 3 ∷ 2 ∷ 1 ∷ 1 ∷ 1 ∷ []
unfolding program
hour_counts = refl

quick_within : within 250 day ≡ 1
unfolding program
quick_within = refl

unknown_route : normalize_backend_route (codes "who am I") ≡ unmapped
unfolding program
unknown_route = refl

abbrev nobody : LiveSessions
nobody = record { active = []; expires = 0; tokens = []; seen = [] }

seen_twice :
    (get_active_sessions_count true 90 60
      (record_active_session true 50 60 "u1" (record_active_session true 20 60 "u2" nobody))).0
    ≡ 1
unfolding program
seen_twice = refl

signed_out :
    (get_active_sessions_count true 60 60
      (remove_active_session true "u1" (record_active_session true 50 60 "u1" nobody))).0
    ≡ 0
unfolding program
signed_out = refl

abbrev disk_full : Alert
disk_full = record {
  status = none;
  alertname = some "DiskFull";
  severity = none;
  fingerprint = none;
  starts_at = none;
}

raised_and_resolved :
    (record_alerts true 5
      (record disk_full { status = some "resolved" } ∷ [])
      (record_alerts true 1 (disk_full ∷ []) (record { active = []; stored = [] })).1).0
    ≡ 0
unfolding program
raised_and_resolved = refl
