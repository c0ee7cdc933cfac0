-- ===== src/Graph/Grounding.antt =====
-- What the validator's verdict means.
use mathlib.Core.Path.{ap₂}
use Prim.Native.Nat.{max}
use cognitive_rag_system.Prelude.{
  ℕ, ◌-◌, ◌≤◌, Bool, true, false, not, ◌&&◌, ◌≡◌, ◌∙◌, refl, List, [], ◌∷◌, all, select, distinct,
  arith, Bool-cases, inl, inr, ap, if◌then◌else◌,
}
use cognitive_rag_system.Text.{Text, contains, text_eq, text_eq_sound}
use cognitive_rag_system.Graph.Turn.{Report, GraphState}
use cognitive_rag_system.Graph.Validator.{
  numbers, check_number, check_numbers, is_unsupported, first_report, retrieved, grounding_of,
}

all-select :
    (p keep : Text → Bool) (xs : List Text)
    → ((y : Text) → keep y ≡ false → p y ≡ true)
    → all p (select keep xs) ≡ all p xs
all-select p keep [] h = refl
all-select p keep (x ∷ xs) h = elim (Bool-cases (keep x)) [
  | inl kept ↦ rw kept (ap (λ b. p x && b) (all-select p keep xs h))
  | inr left_out ↦ rw (left_out, h x left_out) (all-select p keep xs h)
]

-- A test of texts holds of all the members of a set if it holds of all the texts.
all-distinct : (p : Text → Bool) (xs : List Text) → all p (distinct text_eq xs) ≡ all p xs
all-distinct p [] = refl
all-distinct p (x ∷ xs) = elim (Bool-cases (p x)) [
  | inl holds ↦
      rw holds (
        all-select p (λ y. not (text_eq x y)) (distinct text_eq xs) (same holds)
        ∙ all-distinct p xs)
  | inr fails ↦ rw fails
]
  where
    same : p x ≡ true → (y : Text) → not (text_eq x y) ≡ false → p y ≡ true
    same holds y h = rw (text_eq_sound x y (ground arith)) at holds

is_grounded-check_number :
    (context num : Text) (r : Report)
    → (check_number context num r).is_grounded ≡ (r.is_grounded && contains context num)
unfolding check_number
is_grounded-check_number context num r = ground arith

is_grounded-check_numbers :
    (context : Text) (nums : List Text) (r : Report)
    → (check_numbers context nums r).is_grounded ≡ (r.is_grounded && all (contains context) nums)
unfolding check_numbers
is_grounded-check_numbers context [] r = ground arith
is_grounded-check_numbers context (num ∷ nums) r = ground (
  arith,
  is_grounded-check_numbers context nums (check_number context num r),
  is_grounded-check_number context num r,
)

-- A grounded report has the full confidence, an ungrounded one at most 0.70.
abbrev pub IsRated : Report → Type 0
IsRated r = if r.is_grounded then r.confidence ≡ 95 else (r.confidence ≤ 70)

check_number-IsRated :
    (context num : Text) (r : Report) → IsRated r → IsRated (check_number context num r)
unfolding check_number
check_number-IsRated context num r h = elim (Bool-cases (contains context num)) [
  | inl held ↦ rw held h
  | inr missing ↦ rw missing (ceiling r.is_grounded r.confidence h)
]
  where
    ceiling : (b : Bool) (c : ℕ) → (if b then c ≡ 95 else (c ≤ 70)) → max 40 (c - 25) ≤ 70
    ceiling true c e = omega arith
    ceiling false c e = omega arith

check_numbers-IsRated :
    (context : Text) (nums : List Text) (r : Report)
    → IsRated r
    → IsRated (check_numbers context nums r)
unfolding check_numbers
check_numbers-IsRated context [] r h = h
check_numbers-IsRated context (num ∷ nums) r h =
    check_numbers-IsRated context nums (check_number context num r)
      (check_number-IsRated context num r h)

first_report-IsRated : (b : Bool) → IsRated (first_report b)
unfolding first_report
first_report-IsRated true = omega arith
first_report-IsRated false = refl

is_grounded-first_report : (b : Bool) → (first_report b).is_grounded ≡ not b
unfolding first_report
is_grounded-first_report true = refl
is_grounded-first_report false = refl

module _ {Item : Type 0} (render : List Item → Text) where
  -- The validator passes an answer exactly if the answer is not a long assertive one to an empty
  -- context and each of its numbers of four digits or more stands in the rendered context; it then
  -- gives a confidence of 0.95, and otherwise one of at most 0.70.
  pub grounding_of_lem :
      (s : GraphState Item)
      → ((grounding_of render s).is_grounded ≡ (
          not (is_unsupported (retrieved s) s.synthesized_response)
          && all (contains (render (retrieved s))) (numbers s.synthesized_response)))
        × IsRated (grounding_of render s)
  unfolding grounding_of
  grounding_of_lem s =
      let context = render (retrieved s) in
      let nums = numbers s.synthesized_response in
      let bare = is_unsupported (retrieved s) s.synthesized_response in
      (
        is_grounded-check_numbers context (distinct text_eq nums) (first_report bare)
            ∙ ap₂ ◌&&◌ (is_grounded-first_report bare) (all-distinct (contains context) nums),
        check_numbers-IsRated context (distinct text_eq nums) (first_report bare)
            (first_report-IsRated bare),
      )
