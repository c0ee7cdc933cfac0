-- ===== src/Observatory/Histogram.antt =====
-- The counters of the process against the list of requests that it has seen.
use cognitive_rag_system.Prelude.{
  ℕ, ◌+◌, ◌-◌, ◌≤◌, Bool, true, false, not, ◌&&◌, String, List, [], ◌∷◌, ◌++◌, ◌≡◌, refl, sym, ap,
  ◌∙◌, leb, length, length-append, drop, zero, suc, map, Bool-cases, inl, inr, arith, if◌then◌else◌,
}
use cognitive_rag_system.Text.{Text}
use cognitive_rag_system.Observatory.Hours.{AreBalanced, request-AreBalanced, turn-AreBalanced}
use cognitive_rag_system.Observatory.Shared.{
  RedisMetrics, no_metrics, share_user, share_kind, share_buckets, prune_indexes, share_totals,
  share_request, share_turn, share_one, share_all,
}
use cognitive_rag_system.Observatory.Requests.{
  Request, Sample, Local, duration_bounds, empty_buckets, reset, observe_duration, count_duration,
  append_bounded, sample_of, record_request, record_all, Recorded, request, turn, record_one,
  record_turn_route,
}

-- How many of the requests were user requests that took at most so long, and how many there were.
unfoldable pub within : (bound : ℕ) → List (ℕ × Recorded) → ℕ
within bound [] = 0
within bound ((now, turn route) ∷ es) = within bound es
within bound ((now, request r) ∷ es) =
    let rest = within bound es in if not r.is_system && leb r.duration bound then rest + 1 else rest

unfoldable pub users : List (ℕ × Recorded) → ℕ
users [] = 0
users ((now, turn route) ∷ es) = users es
users ((now, request r) ∷ es) = let rest = users es in if r.is_system then rest else rest + 1

-- Each bucket with the requests within its bound added.
unfoldable pub add_within : List (ℕ × Recorded) → List (ℕ × ℕ) → List (ℕ × ℕ)
add_within es bs = map (λ b. (b.0, b.1 + within b.0 es)) bs

cons_bucket : (k m n : ℕ) (xs ys : List (ℕ × ℕ)) → m ≡ n → xs ≡ ys → (k, m) ∷ xs ≡ (k, n) ∷ ys
cons_bucket k m n xs ys e f = rw (e, f) refl

one_user :
    (d k m w : ℕ) (system : Bool)
    → system ≡ false
    → (if leb d k then m + 1 else m) + w ≡ m + (if not system && leb d k then w + 1 else w)
one_user d k m w system h = ground (arith, h)

one_system :
    (d k m w : ℕ) (system : Bool)
    → system ≡ true
    → m + w ≡ m + (if not system && leb d k then w + 1 else w)
one_system d k m w system h = ground (arith, h)

add-user :
    (now : ℕ) (r : Request) (es : List (ℕ × Recorded)) (bs : List (ℕ × ℕ))
    → r.is_system ≡ false
    → add_within es (observe_duration r.duration bs) ≡ add_within ((now, request r) ∷ es) bs
unfolding add_within within observe_duration
add-user now r es [] h = refl
add-user now r es (b ∷ bs) h =
    cons_bucket b.0 ((if leb r.duration b.0 then b.1 + 1 else b.1) + within b.0 es)
      (b.1 + within b.0 ((now, request r) ∷ es)) (add_within es (observe_duration r.duration bs))
      (add_within ((now, request r) ∷ es) bs)
      (one_user r.duration b.0 b.1 (within b.0 es) r.is_system h) (add-user now r es bs h)

add-system :
    (now : ℕ) (r : Request) (es : List (ℕ × Recorded)) (bs : List (ℕ × ℕ))
    → r.is_system ≡ true
    → add_within es bs ≡ add_within ((now, request r) ∷ es) bs
unfolding add_within within
add-system now r es [] h = refl
add-system now r es (b ∷ bs) h =
    cons_bucket b.0 (b.1 + within b.0 es) (b.1 + within b.0 ((now, request r) ∷ es))
      (add_within es bs) (add_within ((now, request r) ∷ es) bs)
      (one_system r.duration b.0 b.1 (within b.0 es) r.is_system h) (add-system now r es bs h)

add-nothing : (bs : List (ℕ × ℕ)) → add_within [] bs ≡ bs
unfolding add_within within
add-nothing [] = refl
add-nothing (b ∷ bs) =
    cons_bucket b.0 (b.1 + 0) b.1 (add_within [] bs) bs (omega arith) (add-nothing bs)

-- The counters after some requests.
abbrev Counts : List (ℕ × Recorded) → Local → Local → Type 0
Counts es s t =
    (t.duration_buckets ≡ add_within es s.duration_buckets)
    × (t.duration_count ≡ s.duration_count + users es)

within-users : (bound : ℕ) (es : List (ℕ × Recorded)) → within bound es ≤ users es
unfolding within users
within-users bound [] = omega arith
within-users bound ((now, turn route) ∷ es) = within-users bound es
within-users bound ((now, request r) ∷ es) = ground (arith, within-users bound es)

add-turn :
    (now : ℕ) (route : Text) (es : List (ℕ × Recorded)) (bs : List (ℕ × ℕ))
    → add_within es bs ≡ add_within ((now, turn route) ∷ es) bs
unfolding add_within within
add-turn now route es [] = refl
add-turn now route es (b ∷ bs) =
    ap (λ ds. (b.0, b.1 + within b.0 es) ∷ ds) (add-turn now route es bs)

add-empty :
    (es : List (ℕ × Recorded)) (bounds : List ℕ)
    → add_within es (map (λ b. (b, 0)) bounds) ≡ map (λ b. (b, within b es)) bounds
unfolding add_within
add-empty es [] = refl
add-empty es (b ∷ bounds) =
    cons_bucket b (0 + within b es) (within b es) (add_within es (map (λ b. (b, 0)) bounds))
      (map (λ b. (b, within b es)) bounds) (omega arith) (add-empty es bounds)

length-drop : (n : ℕ) (xs : List Sample) → length (drop n xs) ≡ length xs - n
length-drop zero xs = omega arith
length-drop (suc n) [] = omega arith
length-drop (suc n) (x ∷ xs) = omega (arith, length-drop n xs)

append-bounded : (n : ℕ) (x : Sample) (xs : List Sample) → length (append_bounded n x xs) ≤ n
unfolding append_bounded
append-bounded n x xs =
    omega (arith, length-drop (length xs + 1 - n) (xs ++ x ∷ []), length-append xs (x ∷ []))

-- The same of the counters in Redis.
abbrev RedisCounts : List (ℕ × Recorded) → RedisMetrics → RedisMetrics → Type 0
RedisCounts es s t =
    (t.duration_buckets ≡ add_within es s.duration_buckets)
    × (t.duration_count ≡ s.duration_count + users es)

module _ (min_key hour_key : ℕ → String) (duration_member : (now duration : ℕ) → String → String)
    (req_id : ℕ → String) where
  shared-RedisCounts :
      (now : ℕ) (r : Request) (es : List (ℕ × Recorded)) (s t : RedisMetrics)
      → RedisCounts es (share_request min_key hour_key duration_member now (req_id now) r s) t
      → RedisCounts ((now, request r) ∷ es) s t
  unfolding share_request share_totals share_kind share_user share_buckets prune_indexes users
  shared-RedisCounts now r es s t h = elim (Bool-cases r.is_system) [
    | inl system ↦ rw (← add-system now r es s.duration_buckets system, system) (rw system at h)
    | inr user ↦
        rw (← add-user now r es s.duration_buckets user, user)
          (let k = rw user at h in (k.0, omega (arith, k.1)))
  ]

  all-RedisCounts :
      (es : List (ℕ × Recorded)) (s : RedisMetrics)
      → RedisCounts es s (share_all min_key hour_key duration_member req_id es s)
  unfolding share_all share_one share_turn share_buckets users
  all-RedisCounts [] s = (sym (add-nothing s.duration_buckets), omega arith)
  all-RedisCounts ((now, request r) ∷ es) s =
      shared-RedisCounts now r es s
        (share_all min_key hour_key duration_member req_id ((now, request r) ∷ es) s)
        (all-RedisCounts es (share_request min_key hour_key duration_member now (req_id now) r s))
  all-RedisCounts ((now, turn route) ∷ es) s =
      let h = all-RedisCounts es (share_turn min_key hour_key duration_member now route s) in
      (h.0 ∙ add-turn now route es s.duration_buckets, h.1)

module _ (hour_key : ℕ → String) (max_samples : ℕ) where
  next-Counts :
      (now : ℕ) (r : Request) (es : List (ℕ × Recorded)) (s t : Local)
      → Counts es (record_request hour_key max_samples now r s) t
      → Counts ((now, request r) ∷ es) s t
  unfolding record_request count_duration users
  next-Counts now r es s t h = elim (Bool-cases r.is_system) [
    | inl system ↦ rw (← add-system now r es s.duration_buckets system, system) (rw system at h)
    | inr user ↦
        rw (← add-user now r es s.duration_buckets user, user)
          (let k = rw user at h in (k.0, omega (arith, k.1)))
  ]

  all-Counts :
      (es : List (ℕ × Recorded)) (s : Local) → Counts es s (record_all hour_key max_samples es s)
  unfolding record_all record_one record_turn_route users
  all-Counts [] s = (sym (add-nothing s.duration_buckets), omega arith)
  all-Counts ((now, request r) ∷ es) s =
      next-Counts now r es s (record_all hour_key max_samples ((now, request r) ∷ es) s)
        (all-Counts es (record_request hour_key max_samples now r s))
  all-Counts ((now, turn route) ∷ es) s =
      let h = all-Counts es (record_turn_route hour_key now route s).1 in
      (h.0 ∙ add-turn now route es s.duration_buckets, h.1)

  next-samples :
      (now : ℕ) (r : Request) (s : Local)
      → length (record_request hour_key max_samples now r s).samples ≤ max_samples
  unfolding record_request
  next-samples now r s = append-bounded max_samples (sample_of now r) (count_duration r s).samples

  all_samples :
      (es : List (ℕ × Recorded)) (s : Local)
      → length s.samples ≤ max_samples
      → length (record_all hour_key max_samples es s).samples ≤ max_samples
  unfolding record_all record_one record_turn_route
  all_samples [] s h = h
  all_samples ((now, request r) ∷ es) s h =
      all_samples es (record_request hour_key max_samples now r s) (next-samples now r s)
  all_samples ((now, turn route) ∷ es) s h =
      all_samples es (record_turn_route hour_key now route s).1 h

  all_hours :
      (es : List (ℕ × Recorded)) (s : Local)
      → AreBalanced s.hourly
      → AreBalanced (record_all hour_key max_samples es s).hourly
  unfolding record_all record_one
  all_hours [] s h = h
  all_hours ((now, request r) ∷ es) s h =
      all_hours es (record_request hour_key max_samples now r s)
        (request-AreBalanced hour_key max_samples now r s h)
  all_hours ((now, turn route) ∷ es) s h =
      all_hours es (record_turn_route hour_key now route s).1
        (turn-AreBalanced hour_key now route s h)

-- After any requests and chat turns since a reset, each bucket of the histogram, in the process and
-- in Redis while it answers, holds the number of user requests that took at most its bound, both
-- counts are the number of user requests, no bucket is above it, the ring buffer holds no more
-- than its samples, and in every hour that the process keeps the total is the sum of the user and
-- the system requests.
pub record_all-histogram :
    (min_key hour_key : ℕ → String) (duration_member : (now duration : ℕ) → String → String)
    (req_id : ℕ → String) (max_samples : ℕ) (es : List (ℕ × Recorded)) (bound : ℕ)
    → ((record_all hour_key max_samples es reset).duration_buckets
        ≡ map (λ b. (b, within b es)) duration_bounds)
      × ((record_all hour_key max_samples es reset).duration_count ≡ users es)
      × ((share_all min_key hour_key duration_member req_id es no_metrics).duration_buckets
          ≡ map (λ b. (b, within b es)) duration_bounds)
      × ((share_all min_key hour_key duration_member req_id es no_metrics).duration_count
          ≡ users es)
      × (within bound es ≤ users es)
      × (length (record_all hour_key max_samples es reset).samples ≤ max_samples)
      × AreBalanced (record_all hour_key max_samples es reset).hourly
unfolding reset empty_buckets no_metrics
record_all-histogram min_key hour_key duration_member req_id max_samples es bound =
    let c = all-Counts hour_key max_samples es reset in
    let d = all-RedisCounts min_key hour_key duration_member req_id es no_metrics in
    (
      c.0 ∙ add-empty es duration_bounds,
      omega (arith, c.1),
      d.0 ∙ add-empty es duration_bounds,
      omega (arith, d.1),
      within-users bound es,
      all_samples hour_key max_samples es reset (omega arith),
      all_hours hour_key max_samples es reset tt,
    )
