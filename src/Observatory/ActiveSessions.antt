-- ===== src/Observatory/ActiveSessions.antt =====
-- buffer.py: the sessions seen within a window. Times are seconds.
use cognitive_rag_system.Prelude.{
  ℕ, ◌+◌, ◌*◌, Bool, true, false, String, [], ◌==◌, leb, ltb, length, select, if◌then◌else◌,
}
use cognitive_rag_system.Prelude.Dict.{Dict, insert, remove}
use cognitive_rag_system.Observatory.Leases.{zadd, zpurge}

-- The sorted set `sessions:active` with the time of its expiry, the keys `api_token:…` with theirs,
-- and the dictionary of the process.
pub record LiveSessions : Type 0 where
  pub active : Dict ℕ
  pub expires : ℕ
  pub tokens : Dict ℕ
  pub seen : Dict ℕ

unfoldable pub active_at : (now : ℕ) → LiveSessions → Dict ℕ
active_at now s = if leb s.expires now then [] else s.active

unfoldable pub see_locally : (now : ℕ) → String → LiveSessions → LiveSessions
see_locally now key s = record s { seen = insert key now s.seen }

unfoldable pub see_in_redis :
    (answers : Bool) (now window : ℕ) → String → LiveSessions → LiveSessions
see_in_redis false now window key s = s
see_in_redis true now window key s = record s {
  active = zadd key now (zpurge window now (active_at now s));
  expires = now + window * 2;
  tokens = insert key (now + window) s.tokens;
}

-- `record_active_session`, with the window of `ttl_seconds` or of the settings, which is positive.
unfoldable pub record_active_session :
    (answers : Bool) (now window : ℕ) → String → LiveSessions → LiveSessions
record_active_session answers now window session_key s =
    if session_key == ""
    then s
    else see_in_redis answers now window session_key (see_locally now session_key s)

unfoldable pub forget_in_redis : (answers : Bool) → String → LiveSessions → LiveSessions
forget_in_redis false key s = s
forget_in_redis true key s = record s { active = remove key s.active; tokens = remove key s.tokens }

unfoldable pub remove_active_session : (answers : Bool) → String → LiveSessions → LiveSessions
remove_active_session answers session_key s =
    if session_key == ""
    then s
    else forget_in_redis answers session_key (record s { seen = remove session_key s.seen })

-- The sessions that the process saw at the cutoff or later; the others are deleted.
unfoldable pub seen_since : (now window : ℕ) → Dict ℕ → Dict ℕ
seen_since now window seen = select (λ e. leb now (e.1 + window)) seen

unfoldable pub count_seen : (now window : ℕ) → LiveSessions → ℕ × LiveSessions
count_seen now window s =
    let seen = seen_since now window s.seen in (length seen, record s { seen = seen })

-- The keys `api_token:…` that have not expired.
unfoldable pub legacy_count : (now : ℕ) → LiveSessions → ℕ
legacy_count now s = length (select (λ e. ltb now e.1) s.tokens)

-- `get_active_sessions_count`: a count of zero is passed on to the next place.
unfoldable pub get_active_sessions_count :
    (answers : Bool) (now window : ℕ) → LiveSessions → ℕ × LiveSessions
get_active_sessions_count false now window s = count_seen now window s
get_active_sessions_count true now window s =
    let purged = record s { active = zpurge window now (active_at now s) } in
    if ltb 0 (length purged.active)
    then (length purged.active, purged)
    else if ltb 0 (legacy_count now purged)
    then (legacy_count now purged, purged)
    else count_seen now window purged
