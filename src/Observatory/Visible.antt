-- ===== src/Observatory/Visible.antt =====
-- The leases against a plain record of the requests in flight.
use cognitive_rag_system.Prelude.{
  ℕ, ◌≤◌, Bool, true, String, Option, List, [], ◌∷◌, ◌≡◌, refl, ◌==◌, length, select, All,
  Bool-cases, inl, inr,
}
use cognitive_rag_system.Prelude.Dict.{Dict, remove}
use cognitive_rag_system.Observatory.Leases.{
  Concurrency, zadd, is_live, increment_concurrency, zrem, decrement_concurrency,
  current_concurrency,
}

-- A call at a time.
pub data Call : Type 0 where
  starts : (now : ℕ) (req_id : String) → Call
  finishes : (now : ℕ) (request_id : Option String) → Call
  asks : (now : ℕ) → Call

abbrev pub at : Call → ℕ
at (starts now req_id) = now
at (finishes now request_id) = now
at (asks now) = now

-- Time does not run backwards.
abbrev pub InOrder : ℕ → List Call → Type 0
InOrder t [] = Unit {0}
InOrder t (c ∷ cs) = (t ≤ at c) × InOrder (at c) cs

-- The requests that have started and not finished, with the times of their starts.
abbrev pub InFlight : Type 0
InFlight = Dict ℕ

unfoldable pub flight : Call → InFlight → InFlight
flight (starts now req_id) a = zadd req_id now a
flight (finishes now request_id) a = zrem request_id a
flight (asks now) a = a

-- What is promised: the number of requests in flight whose lease still runs.
unfoldable pub counts : (lease : ℕ) → List Call → InFlight → List ℕ
counts lease [] a = []
counts lease (c ∷ cs) a =
    length (select (is_live lease (at c)) (flight c a)) ∷ counts lease cs (flight c a)

-- What the buffer answers while Redis can be reached.
unfoldable pub call : (lease : ℕ) → Call → Concurrency → ℕ × Concurrency
call lease (starts now req_id) s = increment_concurrency lease true now req_id s
call lease (finishes now request_id) s = decrement_concurrency lease true now request_id s
call lease (asks now) s = current_concurrency lease true now s

unfoldable pub answers : (lease : ℕ) → List Call → Concurrency → List ℕ
answers lease [] s = []
answers lease (c ∷ cs) s = (call lease c s).0 ∷ answers lease cs (call lease c s).1

unfoldable pub after_calls : (lease : ℕ) → List Call → Concurrency → Concurrency
after_calls lease [] s = s
after_calls lease (c ∷ cs) s = after_calls lease cs (call lease c s).1

module _ (p : String × ℕ → Bool) where
  pub select-remove : (k : String) (z : Dict ℕ) → select p (remove k z) ≡ remove k (select p z)
  unfolding remove
  select-remove k [] = refl
  select-remove k (e ∷ z) = elim (Bool-cases (e.0 == k)) [
    | inl same ↦ elim (Bool-cases (p e)) [
      | inl live ↦ rw (same, live, same) (select-remove k z)
      | inr dead ↦ rw (same, dead) (select-remove k z)
    ]
    | inr other ↦ elim (Bool-cases (p e)) [
      | inl live ↦ rw (other, live, other, select-remove k z) refl
      | inr dead ↦ rw (other, dead) (select-remove k z)
    ]
  ]

  -- Selecting again, by what implies the first selection, is selecting once.
  pub select-select :
      (q : String × ℕ → Bool) (z : Dict ℕ)
      → ((e : String × ℕ) → p e ≡ true → q e ≡ true)
      → select p (select q z) ≡ select p z
  select-select q [] h = refl
  select-select q (e ∷ z) h = elim (Bool-cases (q e)) [
    | inl kept ↦ rw (kept, select-select q z h) refl
    | inr left_out ↦ elim (Bool-cases (p e)) [
      | inl live ↦ absurd (cc (h e live, left_out))
      | inr dead ↦ rw (left_out, dead) (select-select q z h)
    ]
  ]

pub remove-All {κ} :
    (P : String × ℕ → Type κ) (k : String) (z : Dict ℕ) → All P z → All P (remove k z)
unfolding remove
remove-All P k [] h = tt
remove-All P k (e ∷ z) h = elim (Bool-cases (e.0 == k)) [
  | inl same ↦ rw same (remove-All P k z h.1)
  | inr other ↦ rw other (h.0, remove-All P k z h.1)
]
