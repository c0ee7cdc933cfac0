-- ===== src/Observatory/Contract.antt =====
-- What the count of requests in flight promises, from an empty buffer.
use cognitive_rag_system.Prelude.{
  ℕ, ◌+◌, ◌≤◌, true, false, String, List, [], ◌∷◌, ◌≡◌, refl, length, select, All, arith,
}
use cognitive_rag_system.Prelude.Dict.{Dict}
use cognitive_rag_system.Observatory.Leases.{
  Concurrency, members, is_live, zpurge, key_ttl, purge_redis, current_concurrency,
}
use cognitive_rag_system.Observatory.Visible.{
  Call, at, InOrder, InFlight, flight, counts, call, answers, after_calls,
}
use cognitive_rag_system.Observatory.Refines.{
  IsBounded, Agrees, members-IsBounded, call-Agrees, answers-counts,
}

-- The buffer of a process that starts next to an empty Redis.
abbrev pub idle : Concurrency
idle = record { active = []; expires = 0; current = 0; samples = [] }

-- The time of the last call.
abbrev pub last_at : ℕ → List Call → ℕ
last_at t [] = t
last_at t (c ∷ cs) = last_at (at c) cs

-- The key outlives a lease of half a second or more.
ttl-fits : (lease : ℕ) → 500 ≤ lease → lease ≤ key_ttl lease
unfolding key_ttl
ttl-fits lease h = omega (arith, h)

-- With a lease of at least half a second and a clock that does not run backwards, and while Redis
-- can be reached, every start, finish and query answers the number of requests that have started,
-- have not finished, and started less than a lease ago.
pub answers-refines :
    (lease : ℕ) (cs : List Call)
    → 500 ≤ lease
    → InOrder 0 cs
    → answers lease cs idle ≡ counts lease cs []
answers-refines lease cs long order =
    answers-counts lease 0 cs idle [] order (omega (arith, long)) (ttl-fits lease long) (refl, tt)

module _ (lease : ℕ) where
  after-IsBounded :
      (t : ℕ) (cs : List Call) (s : Concurrency) (a : InFlight)
      → InOrder t cs
      → lease ≤ key_ttl lease
      → Agrees lease t s a
      → All
          (IsBounded lease (last_at t cs) (after_calls lease cs s).expires)
          (after_calls lease cs s).active
  unfolding after_calls
  after-IsBounded t [] s a order fits k = k.1
  after-IsBounded t (c ∷ cs) s a order fits k =
      after-IsBounded (at c) cs (call lease c s).1 (flight c a) order.1 fits
        (call-Agrees lease t c s a order.0 fits k)

  over : (t now : ℕ) (e : String × ℕ) → t + lease ≤ now → e.1 ≤ t → is_live lease now e ≡ false
  over t now e h b = ground (arith, h, b)

  none_live :
      (t now expires : ℕ) (z : Dict ℕ)
      → t + lease ≤ now
      → All (IsBounded lease t expires) z
      → length (select (is_live lease now) z) ≡ 0
  none_live t now expires [] h b = refl
  none_live t now expires (e ∷ z) h b = rw (over t now e h b.0.0) (none_live t now expires z h b.1)

  -- With a lease of at least half a second and a clock that does not run backwards: a lease after
  -- the last call, the count is back to zero, also for requests that never finished.
  pub count-heals :
      (cs : List Call) (now : ℕ)
      → 500 ≤ lease
      → InOrder 0 cs
      → last_at 0 cs + lease ≤ now
      → (current_concurrency lease true now (after_calls lease cs idle)).0 ≡ 0
  unfolding current_concurrency purge_redis zpurge
  count-heals cs now long order passed =
      let s = after_calls lease cs idle in
      none_live (last_at 0 cs) now s.expires (members now s) passed (
        members-IsBounded lease (last_at 0 cs) now s
          (after-IsBounded 0 cs idle [] order (ttl-fits lease long) (refl, tt)))
