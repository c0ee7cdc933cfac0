-- ===== src/Text/Pieces.antt =====
-- Lemmas on stripping the end of a text and on splitting it.
use cognitive_rag_system.Prelude.{
  ℕ, Bool, true, false, ◌||◌, List, [], ◌∷◌, ◌++◌, ◌≡◌, refl, ◌∙◌, any, nat_eq, Bool-cases, inl,
  inr, arith,
}
use mathlib.Core.List.{reverse, reverse-append, reverse-cons, reverse-reverse}
use cognitive_rag_system.Text.{Text, lstrip_by, rstrip_by, split_on, prepend, join}

module _ (p : ℕ → Bool) where
  any-append : (s t : Text) → any p (s ++ t) ≡ (any p s || any p t)
  any-append [] t = refl
  any-append (c ∷ s) t = ground (arith, any-append s t)

  any-reverse : (s : Text) → any p (reverse s) ≡ any p s
  any-reverse [] = refl
  any-reverse (c ∷ s) =
      rw (reverse-cons c s, any-append (reverse s) (c ∷ []), any-reverse s) (ground arith)

  pub lstrip-none : (s : Text) → any p s ≡ false → lstrip_by p s ≡ s
  unfolding lstrip_by
  lstrip-none [] h = refl
  lstrip-none (c ∷ s) h = ground (arith, h)

  -- A text without the characters is not stripped.
  pub rstrip-none : (s : Text) → any p s ≡ false → rstrip_by p s ≡ s
  unfolding rstrip_by
  rstrip-none s h = rw (lstrip-none (reverse s) (any-reverse s ∙ h), reverse-reverse s) refl

  -- One of the characters at the end is stripped.
  pub rstrip-last : (s : Text) (c : ℕ) → p c ≡ true → rstrip_by p (s ++ c ∷ []) ≡ rstrip_by p s
  unfolding rstrip_by lstrip_by
  rstrip-last s c h = rw (reverse-append s (c ∷ []), h) refl

-- A piece without the separator, and the last one.
pub split-piece :
    (sep : ℕ) (s rest : Text)
    → any (λ c. nat_eq c sep) s ≡ false
    → split_on sep (s ++ sep ∷ rest) ≡ s ∷ split_on sep rest
unfolding split_on
split-piece sep [] rest h = ground arith
split-piece sep (c ∷ s) rest h = elim (Bool-cases (nat_eq c sep)) [
  | inl here ↦ absurd (ground (arith, h, here))
  | inr other ↦ rw (split-piece sep s rest (ground (arith, h, other)), other) refl
]

pub split-last : (sep : ℕ) (s : Text) → any (λ c. nat_eq c sep) s ≡ false → split_on sep s ≡ s ∷ []
unfolding split_on
split-last sep [] h = refl
split-last sep (c ∷ s) h = elim (Bool-cases (nat_eq c sep)) [
  | inl here ↦ absurd (ground (arith, h, here))
  | inr other ↦ rw (split-last sep s (ground (arith, h, other)), other) refl
]

abbrev pub IsFull : List Text → Type 0
IsFull [] = ⊥
IsFull (s ∷ ss) = Unit {0}

prepend-IsFull : (c : ℕ) (ss : List Text) → IsFull (prepend c ss)
prepend-IsFull c [] = tt
prepend-IsFull c (s ∷ ss) = tt

pub split-IsFull : (sep : ℕ) (s : Text) → IsFull (split_on sep s)
unfolding split_on
split-IsFull sep [] = tt
split-IsFull sep (c ∷ s) = elim (Bool-cases (nat_eq c sep)) [
  | inl here ↦ rw here tt
  | inr other ↦ rw other (prepend-IsFull c (split_on sep s))
]

join-prepend :
    (sep c : ℕ) (ss : List Text)
    → IsFull ss
    → join (sep ∷ []) (prepend c ss) ≡ c ∷ join (sep ∷ []) ss
unfolding join
join-prepend sep c [] h = elim h [ ]
join-prepend sep c (s ∷ []) h = refl
join-prepend sep c (s ∷ t ∷ ss) h = refl

join-first :
    (sep : ℕ) (ss : List Text) → IsFull ss → join (sep ∷ []) ([] ∷ ss) ≡ sep ∷ join (sep ∷ []) ss
unfolding join
join-first sep [] h = elim h [ ]
join-first sep (s ∷ ss) h = refl

same : (c d : ℕ) → nat_eq c d ≡ true → c ≡ d
same c d h = ground (arith, h)

-- Joining the pieces gives the text back.
pub join-split : (sep : ℕ) (s : Text) → join (sep ∷ []) (split_on sep s) ≡ s
unfolding split_on join
join-split sep [] = refl
join-split sep (c ∷ s) = elim (Bool-cases (nat_eq c sep)) [
  | inl here ↦ rw here (
      join-first sep (split_on sep s) (split-IsFull sep s) ∙ cc (join-split sep s, same c sep here))
  | inr other ↦
      rw other
        (join-prepend sep c (split_on sep s) (split-IsFull sep s) ∙ rw (join-split sep s) refl)
]
