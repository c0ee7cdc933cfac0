-- ===== src/Observatory/Leases.antt =====
-- buffer.py: requests in flight, as leases in a sorted set of Redis. Times are milliseconds.
use cognitive_rag_system.Prelude.{
  ℕ, ◌+◌, ◌-◌, ◌*◌, ◌/◌, Bool, true, false, String, Option, List, [], ◌∷◌, ◌++◌, truthy, get_or,
  leb, ltb, length, drop, select, if◌then◌else◌,
}
use cognitive_rag_system.Prelude.Dict.{Dict, remove}

-- The key `concurrency:active`, a sorted set by member with the time of its expiry, and the two
-- fields of the process.
pub record Concurrency : Type 0 where
  pub active : Dict ℕ
  pub expires : ℕ
  pub current : ℕ
  pub samples : List (ℕ × ℕ)

-- What Redis has at a time: nothing once the key has expired.
unfoldable pub members : (now : ℕ) → Concurrency → Dict ℕ
members now s = if leb s.expires now then [] else s.active

-- `zadd`: a member has one score. The newest stand first.
unfoldable pub zadd : String → ℕ → Dict ℕ → Dict ℕ
zadd member score z = (member, score) ∷ remove member z

-- Does a request that started then still hold its lease?
abbrev pub is_live : (lease now : ℕ) → String × ℕ → Bool
is_live lease now e = ltb now (e.1 + lease)

-- `zremrangebyscore(key, 0, now - lease_seconds)`
unfoldable pub zpurge : (lease now : ℕ) → Dict ℕ → Dict ℕ
zpurge lease now z = select (is_live lease now) z

-- `int(lease_seconds * 2)`, in milliseconds
unfoldable pub key_ttl : (lease : ℕ) → ℕ
key_ttl lease = lease * 2 / 1000 * 1000

-- `deque(maxlen=3600)`
unfoldable pub append_sample : ℕ × ℕ → List (ℕ × ℕ) → List (ℕ × ℕ)
append_sample x xs = drop (length xs + 1 - 3600) (xs ++ x ∷ [])

unfoldable pub observe : (now val : ℕ) → Concurrency → Concurrency
observe now val s = record s { current = val; samples = append_sample (now, val) s.samples }

-- The transaction of `increment_concurrency`.
unfoldable pub lease_redis : (lease now : ℕ) → String → Concurrency → Concurrency
lease_redis lease now req_id s = record s {
  active = zadd req_id now (zpurge lease now (members now s));
  expires = now + key_ttl lease;
}

-- `increment_concurrency`: `answers` says whether Redis can be reached, and `req_id` is the given
-- or the generated id.
unfoldable pub increment_concurrency :
    (lease : ℕ) (answers : Bool) (now : ℕ) → String → Concurrency → ℕ × Concurrency
increment_concurrency lease true now req_id s =
    let next = lease_redis lease now req_id s in
    (length next.active, observe now (length next.active) next)
increment_concurrency lease false now req_id s = (s.current + 1, observe now (s.current + 1) s)

-- `zrem`, if there is an id
unfoldable pub zrem : Option String → Dict ℕ → Dict ℕ
zrem request_id z = if truthy request_id then remove (get_or "" request_id) z else z

unfoldable pub release_redis : (lease now : ℕ) → Option String → Concurrency → Concurrency
release_redis lease now request_id s = record s {
  active = zpurge lease now (zrem request_id (members now s));
}

unfoldable pub decrement_concurrency :
    (lease : ℕ) (answers : Bool) (now : ℕ) → Option String → Concurrency → ℕ × Concurrency
decrement_concurrency lease true now request_id s =
    let next = release_redis lease now request_id s in
    (length next.active, observe now (length next.active) next)
decrement_concurrency lease false now request_id s = (s.current - 1, observe now (s.current - 1) s)

unfoldable pub purge_redis : (lease now : ℕ) → Concurrency → Concurrency
purge_redis lease now s = record s { active = zpurge lease now (members now s) }

-- The property `current_concurrency`
unfoldable pub current_concurrency :
    (lease : ℕ) (answers : Bool) (now : ℕ) → Concurrency → ℕ × Concurrency
current_concurrency lease true now s =
    let next = purge_redis lease now s in (length next.active, next)
current_concurrency lease false now s = (s.current, s)
