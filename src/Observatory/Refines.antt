-- ===== src/Observatory/Refines.antt =====
-- Each call answers what the plain record of the requests in flight promises.
use cognitive_rag_system.Prelude.{
  ℕ, ◌+◌, ◌≤◌, ◌<◌, true, false, String, Option, List, [], ◌∷◌, ◌≡◌, refl, sym, ap, ◌∙◌, truthy,
  get_or, leb, length, select, select-All, All, Bool-cases, inl, inr, arith,
}
use cognitive_rag_system.Prelude.Dict.{Dict, remove}
use cognitive_rag_system.Observatory.Leases.{
  Concurrency, members, zadd, is_live, zpurge, key_ttl, observe, lease_redis, increment_concurrency,
  zrem, release_redis, decrement_concurrency, purge_redis, current_concurrency,
}
use cognitive_rag_system.Observatory.Visible.{
  Call, starts, finishes, asks, at, InOrder, InFlight, flight, counts, call, answers, select-remove,
  select-select, remove-All,
}

module _ (lease : ℕ) where
  -- An entry is no younger than the last call, and the key outlives its lease.
  abbrev pub IsBounded : ℕ → ℕ → String × ℕ → Type 0
  IsBounded t expires e = (e.1 ≤ t) × (e.1 + lease ≤ expires)

  -- At the time `t`, Redis and the record have the same live requests.
  abbrev pub Agrees : ℕ → Concurrency → InFlight → Type 0
  Agrees t s a =
      (select (is_live lease t) s.active ≡ select (is_live lease t) a)
      × All (IsBounded t s.expires) s.active

  live_mono :
      (t now : ℕ) (e : String × ℕ) → t ≤ now → is_live lease now e ≡ true → is_live lease t e ≡ true
  live_mono t now e h l = ground (arith, h, l)

  pub dead :
      (e : String × ℕ) (now expires : ℕ)
      → leb expires now ≡ true
      → e.1 + lease ≤ expires
      → is_live lease now e ≡ false
  dead e now expires h b = ground (arith, h, b)

  none_left :
      (t now expires : ℕ) (z : Dict ℕ)
      → leb expires now ≡ true
      → All (IsBounded t expires) z
      → select (is_live lease now) z ≡ []
  none_left t now expires [] h b = refl
  none_left t now expires (e ∷ z) h b =
      rw (dead e now expires h b.0.1, none_left t now expires z h b.1) refl

  same_live :
      (t now : ℕ) (s : Concurrency) (a : InFlight)
      → t ≤ now
      → Agrees t s a
      → select (is_live lease now) s.active ≡ select (is_live lease now) a
  same_live t now s a h k =
      sym (select-select (is_live lease now) (is_live lease t) s.active (λ e. live_mono t now e h))
      ∙ ap (select (is_live lease now)) k.0
      ∙ select-select (is_live lease now) (is_live lease t) a (λ e. live_mono t now e h)

  -- At any later time, what Redis still has agrees with the record.
  pub later :
      (t now : ℕ) (s : Concurrency) (a : InFlight)
      → t ≤ now
      → Agrees t s a
      → select (is_live lease now) (members now s) ≡ select (is_live lease now) a
  unfolding members
  later t now s a h k = elim (Bool-cases (leb s.expires now)) [
    | inl gone ↦
        rw gone (sym (none_left t now s.expires s.active gone k.1) ∙ same_live t now s a h k)
    | inr there ↦ rw there (same_live t now s a h k)
  ]

  pub members-IsBounded :
      (t now : ℕ) (s : Concurrency)
      → All (IsBounded t s.expires) s.active
      → All (IsBounded t s.expires) (members now s)
  unfolding members
  members-IsBounded t now s b = elim (Bool-cases (leb s.expires now)) [
    | inl gone ↦ rw gone tt
    | inr there ↦ rw there b
  ]

  later-IsBounded :
      (t now expires : ℕ) (z : Dict ℕ)
      → t ≤ now
      → lease ≤ key_ttl lease
      → All (IsBounded t expires) z
      → All (IsBounded now (now + key_ttl lease)) z
  later-IsBounded t now expires [] h fits b = tt
  later-IsBounded t now expires (e ∷ z) h fits b = (
    (omega (arith, h, b.0.0), omega (arith, h, fits, b.0.0)),
    later-IsBounded t now expires z h fits b.1,
  )

  same_expiry-IsBounded :
      (t now expires : ℕ) (z : Dict ℕ)
      → t ≤ now
      → All (IsBounded t expires) z
      → All (IsBounded now expires) z
  same_expiry-IsBounded t now expires [] h b = tt
  same_expiry-IsBounded t now expires (e ∷ z) h b =
      ((omega (arith, h, b.0.0), b.0.1), same_expiry-IsBounded t now expires z h b.1)

  -- Purging leaves the live entries, and they stay.
  purged :
      (now : ℕ) (z : Dict ℕ) → select (is_live lease now) (zpurge lease now z) ≡ zpurge lease now z
  unfolding zpurge
  purged now z = select-select (is_live lease now) (is_live lease now) z (λ e h. h)

  purge-Agrees :
      (t now : ℕ) (s : Concurrency) (a : InFlight)
      → t ≤ now
      → Agrees t s a
      → Agrees now (purge_redis lease now s) a
  unfolding purge_redis zpurge
  purge-Agrees t now s a h k = (
    select-select (is_live lease now) (is_live lease now) (members now s) (λ e l. l)
        ∙ later t now s a h k,
    select-All (IsBounded now s.expires) (is_live lease now) (members now s)
        (same_expiry-IsBounded t now s.expires (members now s) h (members-IsBounded t now s k.1)),
  )

  -- The live entries without a member.
  live-remove :
      (t now : ℕ) (k : String) (s : Concurrency) (a : InFlight)
      → t ≤ now
      → Agrees t s a
      → select (is_live lease now) (remove k (members now s))
        ≡ select (is_live lease now) (remove k a)
  live-remove t now k s a h g =
      select-remove (is_live lease now) k (members now s)
      ∙ ap (remove k) (later t now s a h g)
      ∙ sym (select-remove (is_live lease now) k a)

  live-zrem :
      (t now : ℕ) (o : Option String) (s : Concurrency) (a : InFlight)
      → t ≤ now
      → Agrees t s a
      → select (is_live lease now) (zrem o (members now s)) ≡ select (is_live lease now) (zrem o a)
  unfolding zrem
  live-zrem t now o s a h g = elim (Bool-cases (truthy o)) [
    | inl named ↦ rw named (live-remove t now (get_or "" o) s a h g)
    | inr unnamed ↦ rw unnamed (later t now s a h g)
  ]

  -- After purging, too.
  purged-remove :
      (t now : ℕ) (k : String) (s : Concurrency) (a : InFlight)
      → t ≤ now
      → Agrees t s a
      → remove k (zpurge lease now (members now s)) ≡ select (is_live lease now) (remove k a)
  unfolding zpurge
  purged-remove t now k s a h g =
      sym (select-remove (is_live lease now) k (members now s)) ∙ live-remove t now k s a h g

  zrem-IsBounded :
      (t expires : ℕ) (o : Option String) (z : Dict ℕ)
      → All (IsBounded t expires) z
      → All (IsBounded t expires) (zrem o z)
  unfolding zrem
  zrem-IsBounded t expires o z b = elim (Bool-cases (truthy o)) [
    | inl named ↦ rw named (remove-All (IsBounded t expires) (get_or "" o) z b)
    | inr unnamed ↦ rw unnamed b
  ]

  release-Agrees :
      (t now : ℕ) (o : Option String) (s : Concurrency) (a : InFlight)
      → t ≤ now
      → Agrees t s a
      → Agrees now (release_redis lease now o s) (zrem o a)
  unfolding release_redis zpurge
  release-Agrees t now o s a h k = (
    purged now (zrem o (members now s)) ∙ live-zrem t now o s a h k,
    select-All (IsBounded now s.expires) (is_live lease now) (zrem o (members now s)) (
        zrem-IsBounded now s.expires o (members now s) (
          same_expiry-IsBounded t now s.expires (members now s) h (members-IsBounded t now s k.1))),
  )

  purged-IsBounded :
      (t now : ℕ) (s : Concurrency) (a : InFlight)
      → t ≤ now
      → lease ≤ key_ttl lease
      → Agrees t s a
      → All (IsBounded now (now + key_ttl lease)) (zpurge lease now (members now s))
  unfolding zpurge
  purged-IsBounded t now s a h fits k =
      select-All (IsBounded now (now + key_ttl lease)) (is_live lease now) (members now s)
        (later-IsBounded t now s.expires (members now s) h fits (members-IsBounded t now s k.1))

  lease-Agrees :
      (t now : ℕ) (id : String) (s : Concurrency) (a : InFlight)
      → t ≤ now
      → lease ≤ key_ttl lease
      → Agrees t s a
      → Agrees now (lease_redis lease now id s) (zadd id now a)
  unfolding lease_redis zadd
  lease-Agrees t now id s a h fits k = (
    rw
        (
          purged-remove t now id s a h k,
          select-select (is_live lease now) (is_live lease now) (remove id a) (λ e l. l),
        )
        refl,
    (
      (omega arith, omega (arith, fits)),
      remove-All (IsBounded now (now + key_ttl lease)) id (zpurge lease now (members now s))
          (purged-IsBounded t now s a h fits k),
    ),
  )

  pub call-Agrees :
      (t : ℕ) (c : Call) (s : Concurrency) (a : InFlight)
      → t ≤ at c
      → lease ≤ key_ttl lease
      → Agrees t s a
      → Agrees (at c) (call lease c s).1 (flight c a)
  unfolding call flight increment_concurrency decrement_concurrency current_concurrency observe
  call-Agrees t (starts now id) s a h fits k = lease-Agrees t now id s a h fits k
  call-Agrees t (finishes now o) s a h fits k = release-Agrees t now o s a h k
  call-Agrees t (asks now) s a h fits k = purge-Agrees t now s a h k

  fresh-live : (now : ℕ) (id : String) → 0 < lease → is_live lease now (id, now) ≡ true
  fresh-live now id pos = ground (arith, pos)

  call-count :
      (t : ℕ) (c : Call) (s : Concurrency) (a : InFlight)
      → t ≤ at c
      → 0 < lease
      → Agrees t s a
      → (call lease c s).0 ≡ length (select (is_live lease (at c)) (flight c a))
  unfolding call flight increment_concurrency decrement_concurrency current_concurrency lease_redis
      release_redis purge_redis zadd zpurge zrem
  call-count t (starts now id) s a h pos k =
      rw (fresh-live now id pos, purged-remove t now id s a h k) refl
  call-count t (finishes now o) s a h pos k = ap length (live-zrem t now o s a h k)
  call-count t (asks now) s a h pos k = ap length (later t now s a h k)

  pub answers-counts :
      (t : ℕ) (cs : List Call) (s : Concurrency) (a : InFlight)
      → InOrder t cs
      → 0 < lease
      → lease ≤ key_ttl lease
      → Agrees t s a
      → answers lease cs s ≡ counts lease cs a
  unfolding answers counts
  answers-counts t [] s a order pos fits k = refl
  answers-counts t (c ∷ cs) s a order pos fits k =
      rw
        (
          call-count t c s a order.0 pos k,
          answers-counts (at c) cs (call lease c s).1 (flight c a) order.1 pos fits
              (call-Agrees t c s a order.0 fits k),
        )
        refl
