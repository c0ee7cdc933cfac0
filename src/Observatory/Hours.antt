-- ===== src/Observatory/Hours.antt =====
-- The hourly buckets add up.
use cognitive_rag_system.Prelude.{
  ℕ, ◌+◌, ◌-◌, false, not, ◌&&◌, ◌||◌, String, Option, none, some, List, [], ◌∷◌, ◌≡◌, refl, ◌==◌,
  leb, ltb, length, take, map, All, Bool-cases, inl, inr, arith, if◌then◌else◌,
}
use cognitive_rag_system.Prelude.Dict.{Dict, lookup, insert, remove, lookup-insert}
use cognitive_rag_system.Prelude.Sort.{sort_by}
use cognitive_rag_system.Text.{Text}
use cognitive_rag_system.Observatory.Routes.{
  BackendRoute, rag, sql, general, attachments, denied, classification_failure, unmapped, scanner,
  route_value, normalize_backend_route,
}
use cognitive_rag_system.Observatory.Requests.{
  Request, Local, classify, fresh_hour, or_zero, bump, is_there, bump_route, is_scanner_error,
  bump_errors, count_in_hour, or_fresh, count_duration, key_le, remove_keys, prune, count_hour,
  record_request, record_turn_route,
}

-- The requests of an hour are those of users and of the system.
abbrev pub IsBalanced : Dict ℕ → Type 0
IsBalanced b = or_zero (lookup "total" b) ≡ or_zero (lookup "user" b) + or_zero (lookup "system" b)

count-bump :
    (k j : String) (b : Dict ℕ)
    → or_zero (lookup j (bump k b))
      ≡ (if k == j then or_zero (lookup k b) + 1 else or_zero (lookup j b))
unfolding bump
count-bump k j b = elim (Bool-cases (k == j)) [
  | inl same ↦ rw (lookup-insert k j (or_zero (lookup k b) + 1) b, same) refl
  | inr other ↦ rw (lookup-insert k j (or_zero (lookup k b) + 1) b, other) refl
]

other :
    (k : String) (n t u s : ℕ)
    → (k == "total" || k == "user" || k == "system") ≡ false
    → t ≡ u + s
    → (if k == "total" then n else t)
      ≡ (if k == "user" then n else u) + (if k == "system" then n else s)
other k n t u s h e = ground (arith, h, e)

-- Counting under another key keeps the balance.
bump-IsBalanced :
    (k : String) (b : Dict ℕ)
    → (k == "total" || k == "user" || k == "system") ≡ false
    → IsBalanced b
    → IsBalanced (bump k b)
bump-IsBalanced k b h balanced =
    rw (count-bump k "total" b, count-bump k "user" b, count-bump k "system" b)
      (other k (or_zero (lookup k b) + 1) (or_zero (lookup "total" b)) (or_zero (lookup "user" b))
        (or_zero (lookup "system" b)) h balanced)

route_apart :
    (r : BackendRoute)
    → (route_value r == "total" || route_value r == "user" || route_value r == "system") ≡ false
route_apart rag = refl
route_apart sql = refl
route_apart general = refl
route_apart attachments = refl
route_apart denied = refl
route_apart classification_failure = refl
route_apart unmapped = refl
route_apart scanner = refl

bump_route-IsBalanced :
    (o : Option BackendRoute) (b : Dict ℕ) → IsBalanced b → IsBalanced (bump_route o b)
unfolding bump_route
bump_route-IsBalanced none b h = h
bump_route-IsBalanced (some r) b h = elim (Bool-cases (is_there (lookup (route_value r) b))) [
  | inl there ↦ rw there (bump-IsBalanced (route_value r) b (route_apart r) h)
  | inr missing ↦ rw missing h
]

bump_errors-IsBalanced :
    (o : Option BackendRoute) (r : Request) (b : Dict ℕ)
    → IsBalanced b
    → IsBalanced (bump_errors o r b)
unfolding bump_errors
bump_errors-IsBalanced o r b h = elim (Bool-cases (not r.is_system && leb 500 r.status_code)) [
  | inl app ↦ rw app (bump-IsBalanced "app_errors" b refl h)
  | inr fine ↦ elim (Bool-cases (is_scanner_error o r)) [
    | inl scan ↦ rw (fine, scan) (bump-IsBalanced "scanner_errors" b refl h)
    | inr quiet ↦ rw (fine, quiet) h
  ]
]

-- A request counts in the total and for its kind.
counted :
    (r : Request) (b : Dict ℕ)
    → IsBalanced b
    → IsBalanced (bump (if r.is_system then "system" else "user") (bump "total" b))
counted r b h = elim (Bool-cases r.is_system) [
  | inl system ↦ rw system (
      omega (
        arith,
        h,
        count-bump "system" "total" (bump "total" b),
        count-bump "system" "user" (bump "total" b),
        count-bump "system" "system" (bump "total" b),
        count-bump "total" "total" b,
        count-bump "total" "user" b,
        count-bump "total" "system" b,
      ))
  | inr user ↦ rw user (
      omega (
        arith,
        h,
        count-bump "user" "total" (bump "total" b),
        count-bump "user" "user" (bump "total" b),
        count-bump "user" "system" (bump "total" b),
        count-bump "total" "total" b,
        count-bump "total" "user" b,
        count-bump "total" "system" b,
      ))
]

count_in_hour-IsBalanced :
    (o : Option BackendRoute) (r : Request) (b : Dict ℕ)
    → IsBalanced b
    → IsBalanced (count_in_hour o r b)
unfolding count_in_hour
count_in_hour-IsBalanced o r b h =
    bump_errors-IsBalanced o r
      (bump_route o (bump (if r.is_system then "system" else "user") (bump "total" b)))
      (bump_route-IsBalanced o (bump (if r.is_system then "system" else "user") (bump "total" b))
        (counted r b h))

fresh-IsBalanced : IsBalanced fresh_hour
unfolding fresh_hour lookup
fresh-IsBalanced = refl

abbrev pub AreBalanced : Dict (Dict ℕ) → Type 0
AreBalanced d = All (λ e. IsBalanced e.1) d

or_fresh-IsBalanced :
    (k : String) (d : Dict (Dict ℕ)) → AreBalanced d → IsBalanced (or_fresh (lookup k d))
unfolding lookup
or_fresh-IsBalanced k [] h = fresh-IsBalanced
or_fresh-IsBalanced k (e ∷ d) h = elim (Bool-cases (e.0 == k)) [
  | inl here ↦ rw here h.0
  | inr later ↦ rw later (or_fresh-IsBalanced k d h.1)
]

insert-AreBalanced :
    (k : String) (b : Dict ℕ) (d : Dict (Dict ℕ))
    → IsBalanced b
    → AreBalanced d
    → AreBalanced (insert k b d)
unfolding insert
insert-AreBalanced k b [] new h = (new, tt)
insert-AreBalanced k b (e ∷ d) new h = elim (Bool-cases (e.0 == k)) [
  | inl here ↦ rw here (new, h.1)
  | inr later ↦ rw later (h.0, insert-AreBalanced k b d new h.1)
]

remove-AreBalanced : (k : String) (d : Dict (Dict ℕ)) → AreBalanced d → AreBalanced (remove k d)
unfolding remove
remove-AreBalanced k [] h = tt
remove-AreBalanced k (e ∷ d) h = elim (Bool-cases (e.0 == k)) [
  | inl here ↦ rw here (remove-AreBalanced k d h.1)
  | inr later ↦ rw later (h.0, remove-AreBalanced k d h.1)
]

remove_keys-AreBalanced :
    (ks : List String) (d : Dict (Dict ℕ)) → AreBalanced d → AreBalanced (remove_keys ks d)
unfolding remove_keys
remove_keys-AreBalanced [] d h = h
remove_keys-AreBalanced (k ∷ ks) d h =
    remove_keys-AreBalanced ks (remove k d) (remove-AreBalanced k d h)

prune-AreBalanced : (d : Dict (Dict ℕ)) → AreBalanced d → AreBalanced (prune d)
unfolding prune
prune-AreBalanced d h = elim (Bool-cases (ltb 750 (length d))) [
  | inl full ↦
      rw full
        (remove_keys-AreBalanced (take (length d - 720) (sort_by key_le (map (λ e. e.0) d))) d h)
  | inr roomy ↦ rw roomy h
]

duration-AreBalanced :
    (r : Request) (s : Local) → AreBalanced s.hourly → AreBalanced (count_duration r s).hourly
unfolding count_duration
duration-AreBalanced r s h = elim (Bool-cases r.is_system) [
  | inl system ↦ rw system h
  | inr user ↦ rw user h
]

hour-AreBalanced :
    (hour_key : ℕ → String) (now : ℕ) (r : Request) (d : Dict (Dict ℕ))
    → AreBalanced d
    → AreBalanced (count_hour hour_key now r d)
unfolding count_hour
hour-AreBalanced hour_key now r d h =
    insert-AreBalanced (hour_key now)
      (count_in_hour (classify r) r (or_fresh (lookup (hour_key now) d))) d
      (count_in_hour-IsBalanced (classify r) r (or_fresh (lookup (hour_key now) d))
        (or_fresh-IsBalanced (hour_key now) d h))
      h

pub request-AreBalanced :
    (hour_key : ℕ → String) (max_samples now : ℕ) (r : Request) (s : Local)
    → AreBalanced s.hourly
    → AreBalanced (record_request hour_key max_samples now r s).hourly
unfolding record_request
request-AreBalanced hour_key max_samples now r s h =
    prune-AreBalanced (count_hour hour_key now r (count_duration r s).hourly)
      (hour-AreBalanced hour_key now r (count_duration r s).hourly (duration-AreBalanced r s h))

pub turn-AreBalanced :
    (hour_key : ℕ → String) (now : ℕ) (route : Text) (s : Local)
    → AreBalanced s.hourly
    → AreBalanced (record_turn_route hour_key now route s).1.hourly
unfolding record_turn_route
turn-AreBalanced hour_key now route s h =
    insert-AreBalanced (hour_key now)
      (bump (route_value (normalize_backend_route route))
        (or_fresh (lookup (hour_key now) s.hourly)))
      s.hourly
      (bump-IsBalanced (route_value (normalize_backend_route route))
        (or_fresh (lookup (hour_key now) s.hourly)) (route_apart (normalize_backend_route route))
        (or_fresh-IsBalanced (hour_key now) s.hourly h))
      h
