-- ===== src/Guard/Calls.antt =====
-- Where the pattern of a function call is found.
use cognitive_rag_system.Prelude.{
  ℕ, Bool, true, false, ◌≡◌, ◌∙◌, refl, String, Option, none, some, ◌∷◌, ◌++◌, all,
}
use cognitive_rag_system.Text.{Text, codes, is_space}
use cognitive_rag_system.Text.Regex.{
  match_at, found, holds_of, after, found-append, match_at-literal, star_from-append,
}
use cognitive_rag_system.Guard.Query.{is_name_char, open_paren, call_of}

pub open_paren-found :
    (before : Option ℕ) (ws post : Text) (k : Option ℕ → Text → Bool)
    → all is_space ws ≡ true
    → k (some b'(') post ≡ true
    → match_at open_paren before (ws ++ b'(' ∷ post) k ≡ true
unfolding open_paren match_at
open_paren-found before ws post k h m = star_from-append is_space before ws (b'(' ∷ post) _ h m

call_of-found :
    (f : String) (before : Option ℕ) (ws post : Text)
    → holds_of is_name_char before ≡ false
    → all is_space ws ≡ true
    → match_at (call_of f) before (codes f ++ (ws ++ b'(' ∷ post)) (λ b t. true) ≡ true
unfolding call_of match_at
call_of-found f before ws post h w = rw h (
    match_at-literal f before (ws ++ b'(' ∷ post) (λ b t. match_at open_paren b t (λ c u. true))
    ∙ open_paren-found (after before (codes f)) ws post (λ c u. true) w refl)

-- A call of `f`, with white space before its parenthesis, is found wherever it stands, unless the
-- character before makes it part of a longer name.
pub found-call_of :
    (f : String) (pre ws post : Text)
    → holds_of is_name_char (after none pre) ≡ false
    → all is_space ws ≡ true
    → found (call_of f) (pre ++ (codes f ++ (ws ++ b'(' ∷ post))) ≡ true
found-call_of f pre ws post h w =
    found-append (call_of f) pre (codes f ++ (ws ++ b'(' ∷ post))
      (call_of-found f (after none pre) ws post h w)
