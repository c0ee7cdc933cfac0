-- ===== src/Guard/Rejects.antt =====
-- What `validate_query` turns away, and what an accepted query satisfies.
use cognitive_rag_system.Prelude.{
  Bool, true, false, not, ◌≡◌, ◌≢◌, refl, String, none, List, [], ◌∷◌, ◌++◌, map, all, All, member,
  eq_iff, if◌then◌else◌, arith, Bool-cases, inl, inr,
}
use cognitive_rag_system.Text.{Text, codes, upper, strip, text_in, is_empty, is_space}
use cognitive_rag_system.Text.Regex.{found, holds_of, after}
use cognitive_rag_system.Guard.Calls.{found-call_of}
use cognitive_rag_system.Guard.Query.{
  Statement, QueryError, Verdict, accepted, rejected, forbidden_keywords, side_effecting_functions,
  is_name_char, call_of, dblink_pattern, outfile_pattern, double_dot_pattern, four_part_regex,
  next_value_pattern, check_tokens, check_functions, check_patterns, normalized_sql,
  check_statement, nonblank, check_single, clean_sql, validate_query,
}

-- The keyword check.
abbrev pub IsAllowedToken : Text → Type 0
IsAllowedToken t = text_in (strip (upper t)) (map codes forbidden_keywords) ≡ false

check_tokens-accepted :
    (ts : List Text) (pass : Verdict) (c : Text)
    → check_tokens ts pass ≡ accepted c
    → All IsAllowedToken ts × (pass ≡ accepted c)
unfolding check_tokens
check_tokens-accepted [] pass c h = (tt, h)
check_tokens-accepted (t ∷ ts) pass c h = ground (arith, check_tokens-accepted ts pass c)

abbrev IsCallFree : Text → List String → Type 0
IsCallFree sql fs = All (λ f. found (call_of f) sql ≡ false) fs

check_functions-accepted :
    (fs : List String) (sql : Text) (pass : Verdict) (c : Text)
    → check_functions fs sql pass ≡ accepted c
    → IsCallFree sql fs × (pass ≡ accepted c)
unfolding check_functions
check_functions-accepted [] sql pass c h = (tt, h)
check_functions-accepted (f ∷ fs) sql pass c h =
    ground (arith, check_functions-accepted fs sql pass c)

not_called :
    (f : String) (fs : List String) (sql : Text)
    → member f fs ≡ true
    → IsCallFree sql fs
    → found (call_of f) sql ≡ false
not_called f [] sql m h = cc
not_called f (g ∷ fs) sql m h = ground (arith, eq_iff f g, not_called f fs sql)

abbrev pub IsPatternFree : Text → Type 0
IsPatternFree sql =
    (found dblink_pattern sql ≡ false)
    × (found outfile_pattern sql ≡ false)
    × (found double_dot_pattern sql ≡ false)
    × (found four_part_regex sql ≡ false)
    × (found next_value_pattern sql ≡ false)

check_patterns-accepted :
    (sql : Text) (pass : Verdict) (c : Text)
    → check_patterns sql pass ≡ accepted c
    → IsPatternFree sql × (pass ≡ accepted c)
unfolding check_patterns
check_patterns-accepted sql pass c h = ground arith

-- What the guard promises of a statement that it lets through.
pub record IsReadOnly (statement : Statement) : Type 0 where
  pub select : text_in (upper statement.get_type) (codes "SELECT" ∷ codes "UNKNOWN" ∷ []) ≡ true
  pub tokens : All IsAllowedToken statement.tokens
  pub functions : IsCallFree (normalized_sql statement) side_effecting_functions
  pub patterns : IsPatternFree (normalized_sql statement)

kind_of_accepted :
    (b : Bool) (e : QueryError) (rest : Verdict) {c : Text}
    → (if not b then rejected e else rest) ≡ accepted c
    → b ≡ true
kind_of_accepted true e rest h = refl
kind_of_accepted false e rest h = cc

check_statement-accepted :
    (statement : Statement) (cleaned c : Text)
    → check_statement statement cleaned ≡ accepted c
    → IsReadOnly statement × (cleaned ≡ c)
unfolding check_statement
check_statement-accepted statement cleaned c h =
    let select = kind_of_accepted _ _ _ h in
    let (tokens, rest) = check_tokens-accepted statement.tokens _ c (rw select at h) in
    let (functions, last) = check_functions-accepted side_effecting_functions _ _ c rest in
    let (patterns, end) = check_patterns-accepted _ _ c last in
    (
      record { select = select; tokens = tokens; functions = functions; patterns = patterns },
      cc end,
    )

single_of_accepted :
    (ss : List Statement) (cleaned c : Text)
    → check_single ss cleaned ≡ accepted c
    → (statement : Statement) × (ss ≡ statement ∷ [])
      × (check_statement statement cleaned ≡ accepted c)
unfolding check_single
single_of_accepted [] cleaned c h = cc
single_of_accepted (s ∷ []) cleaned c h = (s, refl, h)
single_of_accepted (s ∷ t ∷ ss) cleaned c h = cc

module _ (parse : Text → List Statement) where
  -- The checks that `validate_query q` has passed when it returns `c`.
  pub record IsAccepted (q c : Text) : Type 0 where
    pub nonempty : is_empty (strip q) ≡ false
    pub cleaned : clean_sql q ≡ c
    pub statement : Statement
    pub single : nonblank (parse (clean_sql q)) ≡ statement ∷ []
    pub read_only : IsReadOnly statement

  pub validate_query-IsAccepted :
      (q c : Text) → validate_query parse q ≡ accepted c → IsAccepted q c
  unfolding validate_query
  validate_query-IsAccepted q c h = elim (Bool-cases (is_empty (strip q))) [
    | inl blank ↦ cc (rw blank at h)
    | inr some_text ↦
        let (statement, single, ok) =
          single_of_accepted (nonblank (parse (clean_sql q))) (clean_sql q) c (rw some_text at h) in
        let (read_only, cleaned) = check_statement-accepted statement (clean_sql q) c ok in
        record {
          nonempty = some_text;
          cleaned = cleaned;
          statement = statement;
          single = single;
          read_only = read_only;
        }
  ]

  -- No query is accepted whose normalised text holds a call of a side-effecting function, with any
  -- white space before the parenthesis, unless a letter, digit or underscore stands before the name.
  pub validate_query_rejects_calls :
      (q c : Text) (statement : Statement) (f : String) (pre ws post : Text)
      → nonblank (parse (clean_sql q)) ≡ statement ∷ []
      → member f side_effecting_functions ≡ true
      → normalized_sql statement ≡ pre ++ (codes f ++ (ws ++ b'(' ∷ post))
      → holds_of is_name_char (after none pre) ≡ false
      → all is_space ws ≡ true
      → validate_query parse q ≢ accepted c
  validate_query_rejects_calls q c statement f pre ws post single listed text before space h =
      let a = validate_query-IsAccepted q c h in
      let same : a.statement ≡ statement = cc (a.single, single) in
      let absent = not_called f side_effecting_functions _ listed a.read_only.functions in
      cc (found-call_of f pre ws post before space, absent, text, same)
