-- ===== src/Text/Regex/Laws.antt =====
-- Where a pattern is found: literals and repetitions at a position inside a text.
use Prim.Native.Char.{code}
use cognitive_rag_system.Prelude.{
  ℕ, Bool, true, ◌≡◌, refl, String, Option, none, some, List, [], ◌∷◌, ◌++◌, all, arith,
}
use cognitive_rag_system.Text.{codes}
use cognitive_rag_system.Text.Regex.Defs.{Regex, literal, star_from, match_at, search_from, found}

-- The character before the position that follows `s`.
abbrev pub after : Option ℕ → List ℕ → Option ℕ
after before [] = before
after before (c ∷ s) = after (some c) s

pub search_from-append :
    (r : Regex) (before : Option ℕ) (pre s : List ℕ)
    → match_at r (after before pre) s (λ b t. true) ≡ true
    → search_from r before (pre ++ s) ≡ true
unfolding search_from
search_from-append r before [] [] h = h
search_from-append r before [] (c ∷ s) h = rw h
search_from-append r before (d ∷ pre) s h = ground (arith, search_from-append r (some d) pre s h)

pub found-append :
    (r : Regex) (pre s : List ℕ)
    → match_at r (after none pre) s (λ b t. true) ≡ true
    → found r (pre ++ s) ≡ true
unfolding found
found-append r pre s h = search_from-append r none pre s h

pub match_at-literal :
    (w : String) (before : Option ℕ) (s : List ℕ) (k : Option ℕ → List ℕ → Bool)
    → match_at (literal w) before (codes w ++ s) k ≡ k (after before (codes w)) s
unfolding match_at
match_at-literal String.[] before s k = refl
match_at-literal (String.◌∷◌ c w) before s k =
    ground (arith, match_at-literal w (some (code c)) s k)

pub star_from-append :
    (p : ℕ → Bool) (before : Option ℕ) (ws s : List ℕ) (k : Option ℕ → List ℕ → Bool)
    → all p ws ≡ true
    → k (after before ws) s ≡ true
    → star_from p before (ws ++ s) k ≡ true
unfolding star_from
star_from-append p before [] [] k h m = m
star_from-append p before [] (c ∷ s) k h m = rw m
star_from-append p before (w ∷ ws) s k h m = ground (arith, star_from-append p (some w) ws s k)
