-- ===== src/Text/Regex/Defs.antt =====
-- Python's `re.search` for the patterns of the program: literals, character classes and their
-- repetitions, alternatives, word boundaries, and a negated class looked back on. Whether a
-- pattern is found does not depend on how greedy its repetitions are.
use Prim.Native.Char.{code}
use cognitive_rag_system.Prelude.{
  ℕ, Bool, true, false, ◌&&◌, ◌||◌, not, String, Option, none, some, List, [], ◌∷◌, nat_eq,
}
use cognitive_rag_system.Text.{is_word}

pub data Regex : Type 0 where
  empty : Regex
  set : (ℕ → Bool) → Regex
  star : (ℕ → Bool) → Regex
  cat : Regex → Regex → Regex
  alt : Regex → Regex → Regex
  -- `\b`
  boundary : Regex
  -- `(?<![…])`
  not_after : (ℕ → Bool) → Regex
  -- `^`, `$` at the ends of the text
  at_start at_end : Regex

-- What stands before a position: nothing at the start of the text.
abbrev pub holds_of : (ℕ → Bool) → Option ℕ → Bool
holds_of p none = false
holds_of p (some c) = p c

abbrev pub next_char : List ℕ → Option ℕ
next_char [] = none
next_char (c ∷ s) = some c

abbrev pub differ : Bool → Bool → Bool
differ true b = not b
differ false b = b

-- `star_from p before s k` tries `k` after each prefix of `s` whose characters satisfy `p`.
unfoldable pub star_from : (ℕ → Bool) → Option ℕ → List ℕ → (Option ℕ → List ℕ → Bool) → Bool
star_from p before [] k = k before []
star_from p before (c ∷ s) k = k before (c ∷ s) || (p c && star_from p (some c) s k)

abbrev is_none : Option ℕ → Bool
is_none none = true
is_none (some c) = false

-- `$` holds at the end, and before a line feed that ends the text.
abbrev is_end : List ℕ → Bool
is_end [] = true
is_end (c ∷ []) = nat_eq c 10
is_end (c ∷ d ∷ s) = false

-- Does some match of the pattern at this position go on to satisfy `k`?
unfoldable pub match_at : Regex → Option ℕ → List ℕ → (Option ℕ → List ℕ → Bool) → Bool
unfolding star_from is_word
match_at empty before s k = k before s
match_at (set p) before [] k = false
match_at (set p) before (c ∷ s) k = p c && k (some c) s
match_at (star p) before s k = star_from p before s k
match_at (cat r q) before s k = match_at r before s (λ b t. match_at q b t k)
match_at (alt r q) before s k = match_at r before s k || match_at q before s k
match_at boundary before s k =
    differ (holds_of is_word before) (holds_of is_word (next_char s)) && k before s
match_at (not_after p) before s k = not (holds_of p before) && k before s
match_at at_start before s k = is_none before && k before s
match_at at_end before s k = is_end s && k before s

unfoldable pub search_from : Regex → Option ℕ → List ℕ → Bool
unfolding match_at
search_from r before [] = match_at r before [] (λ b t. true)
search_from r before (c ∷ s) = match_at r before (c ∷ s) (λ b t. true) || search_from r (some c) s

-- `re.search(r, s) is not None`
unfoldable pub found : Regex → List ℕ → Bool
unfolding search_from
found r s = search_from r none s

-- A literal text.
abbrev pub literal : String → Regex
literal String.[] = empty
literal (String.◌∷◌ c s) = cat (set (λ d. nat_eq d (code c))) (literal s)

-- `(?:w1|w2|...)`
abbrev pub one_of : List String → Regex
one_of [] = set (λ c. false)
one_of (w ∷ []) = literal w
one_of (w ∷ ws) = alt (literal w) (one_of ws)

-- `[…]+`
abbrev pub plus : (ℕ → Bool) → Regex
plus p = cat (set p) (star p)
