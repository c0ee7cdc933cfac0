-- ===== src/Guard/Keywords.antt =====
-- sql_guard.py's `validate_query` turns away every statement with a forbidden keyword, in whatever
-- letters the keyword is written.
use cognitive_rag_system.Prelude.{
  ℕ, ◌+◌, Bool, true, false, ◌&&◌, ◌||◌, ◌≡◌, ◌≢◌, refl, String, List, [], ◌∷◌, ◌++◌, map, all, any,
  All, member, leb, nat_eq, arith, eq_iff, and-left, and-right, Bool-cases, inl, inr, ◌==◌,
}
use cognitive_rag_system.Text.{
  Text, codes, upper, upper_code, strip, is_space, text_in, text_eq_refl,
}
use cognitive_rag_system.Text.Pieces.{lstrip-none, rstrip-none}
use cognitive_rag_system.Guard.Query.{
  Statement, accepted, forbidden_keywords, nonblank, clean_sql, validate_query,
}
use cognitive_rag_system.Guard.Rejects.{IsAllowedToken, validate_query-IsAccepted}

-- Does a text read as a word in capital letters, each of its letters large or small?
unfoldable pub spells : Text → Text → Bool
spells [] [] = true
spells (c ∷ s) (d ∷ w) = (nat_eq c d || nat_eq c (d + 32)) && spells s w
spells _ _ = false

abbrev is_capital : ℕ → Bool
is_capital c = leb b'A' c && leb c b'Z'

upper-spells : (s w : Text) → spells s w ≡ true → all is_capital w ≡ true → upper s ≡ w
unfolding spells upper upper_code
upper-spells [] [] h k = refl
upper-spells [] (d ∷ w) h k = cc
upper-spells (c ∷ s) [] h k = cc
upper-spells (c ∷ s) (d ∷ w) h k = ground (arith, upper-spells s w)

no_spaces : (w : Text) → all is_capital w ≡ true → any is_space w ≡ false
unfolding is_space
no_spaces [] k = refl
no_spaces (c ∷ w) k = ground (arith, no_spaces w)

capitals_of :
    (kw : String) (kws : List String)
    → all (λ k. all is_capital (codes k)) kws ≡ true
    → member kw kws ≡ true
    → all is_capital (codes kw) ≡ true
capitals_of kw [] h m = cc
capitals_of kw (k ∷ kws) h m = elim (Bool-cases (kw == k)) [
  | inl same ↦ rw ((eq_iff kw k).0 same) (and-left (all is_capital (codes k)) _ h)
  | inr other ↦ capitals_of kw kws (and-right (all is_capital (codes k)) _ h) (rw other at m)
]

-- The table holds words in capital letters.
keyword_capitals :
    (kw : String) → member kw forbidden_keywords ≡ true → all is_capital (codes kw) ≡ true
unfolding forbidden_keywords
keyword_capitals kw m = capitals_of kw forbidden_keywords refl m

text_in-member :
    (kw : String) (kws : List String)
    → member kw kws ≡ true
    → text_in (codes kw) (map codes kws) ≡ true
unfolding text_in
text_in-member kw [] m = cc
text_in-member kw (k ∷ kws) m =
    ground (arith, eq_iff kw k, text_eq_refl (codes k), text_in-member kw kws)

strip_word : (w : Text) → any is_space w ≡ false → strip w ≡ w
unfolding strip
strip_word w h = rw (lstrip-none is_space w h) (rstrip-none is_space w h)

spelled_token :
    (t : Text) (kw : String)
    → member kw forbidden_keywords ≡ true
    → spells t (codes kw) ≡ true
    → text_in (strip (upper t)) (map codes forbidden_keywords) ≡ true
spelled_token t kw m h =
    let capitals = keyword_capitals kw m in
    rw (upper-spells t (codes kw) h capitals, strip_word (codes kw) (no_spaces (codes kw) capitals))
      (text_in-member kw forbidden_keywords m)

All-middle :
    (P : Text → Type 0) (pre : List Text) (t : Text) (post : List Text)
    → All P (pre ++ (t ∷ post))
    → P t
All-middle P [] t post h = h.0
All-middle P (x ∷ pre) t post h = All-middle P pre t post h.1

-- No query is accepted whose one statement has a forbidden keyword among its tokens, whichever of
-- its letters are large or small.
pub validate_query_rejects_keywords :
    (parse : Text → List Statement) (q c : Text) (statement : Statement) (kw : String)
    (pre : List Text) (token : Text) (post : List Text)
    → nonblank (parse (clean_sql q)) ≡ statement ∷ []
    → member kw forbidden_keywords ≡ true
    → statement.tokens ≡ pre ++ (token ∷ post)
    → spells token (codes kw) ≡ true
    → validate_query parse q ≢ accepted c
validate_query_rejects_keywords parse q c statement kw pre token post single listed split spelled
      h =
    let a = validate_query-IsAccepted parse q c h in
    let same : a.statement ≡ statement = cc (a.single, single) in
    let tokens = rw (same, split) at a.read_only.tokens in
    let allowed = All-middle IsAllowedToken pre token post tokens in
    cc (allowed, spelled_token token kw listed spelled)
