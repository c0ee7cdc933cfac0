-- ===== src/Guard/Escapes.antt =====
-- sql_guard.py's `validate_query` turns every text of the shapes away.
use cognitive_rag_system.Prelude.{
  ℕ, Bool, true, false, not, ◌≡◌, ◌≢◌, refl, none, some, List, [], ◌∷◌, ◌++◌, all, nat_eq, Option,
  arith, and-left, and-right,
}
use mathlib.Core.List.{append_assoc}
use cognitive_rag_system.Text.{Text, codes, is_space, is_word, is_ascii_word}
use cognitive_rag_system.Text.Regex.{
  Regex, holds_of, next_char, after, match_at, plus, cat, alt, literal, one_of, boundary,
  found-append, star_from-append,
}
use cognitive_rag_system.Guard.Shapes.{
  Part, plain, quoted, bracketed, spelled, IsPart, FileKind, outfile, dumpfile, file_word, IsEscape,
  dblink_call, file_export, double_dot, four_part, next_value,
}
use cognitive_rag_system.Guard.Calls.{open_paren-found}
use cognitive_rag_system.Guard.Query.{
  Statement, accepted, is_name_char, dblink_pattern, outfile_pattern, double_dot_pattern, name_part,
  four_part_regex, next_value_pattern, normalized_sql, nonblank, clean_sql, validate_query,
}
use cognitive_rag_system.Guard.Rejects.{IsPatternFree, validate_query-IsAccepted}

-- Nothing more is asked of the rest of the text.
abbrev always : Option ℕ → Text → Bool
always b t = true

match_at-plus :
    (p : ℕ → Bool) (before : Option ℕ) (c : ℕ) (w s : Text) (k : Option ℕ → Text → Bool)
    → all p (c ∷ w) ≡ true
    → k (after (some c) w) s ≡ true
    → match_at (plus p) before (c ∷ (w ++ s)) k ≡ true
unfolding match_at
match_at-plus p before c w s k h m =
    rw (and-left (p c) (all p w) h)
      (star_from-append p (some c) w s k (and-right (p c) (all p w) h) m)

dblink-found :
    (before : Option ℕ) (name ws post : Text)
    → holds_of is_name_char before ≡ false
    → all is_name_char name ≡ true
    → all is_space ws ≡ true
    → match_at dblink_pattern before (codes "dblink" ++ (name ++ (ws ++ (b'(' ∷ post)))) always
      ≡ true
unfolding dblink_pattern match_at
dblink-found before name ws post h n w = rw h (
    star_from-append is_name_char (some b'k') name (ws ++ (b'(' ∷ post)) _ n
      (open_paren-found (after (some b'k') name) ws post always w refl))

file_end :
    (kind : FileKind) (before : Option ℕ) (post : Text)
    → holds_of is_word (next_char post) ≡ false
    → match_at
        (cat (one_of ("out" ∷ "dump" ∷ [])) (cat (literal "file") boundary))
        before
        (file_word kind ++ post)
        always
      ≡ true
unfolding match_at is_word is_ascii_word
file_end outfile before post h = rw h refl
file_end dumpfile before post h = rw h refl

file-found :
    (before : Option ℕ) (space : ℕ) (ws : Text) (kind : FileKind) (post : Text)
    → holds_of is_word before ≡ false
    → all is_space (space ∷ ws) ≡ true
    → holds_of is_word (next_char post) ≡ false
    → match_at outfile_pattern before
        (codes "into" ++ ((space ∷ ws) ++ (file_word kind ++ post)))
        always
      ≡ true
unfolding outfile_pattern match_at is_word is_ascii_word
file-found before space ws kind post h w e = rw h (
    match_at-plus is_space (some b'o') space ws (file_word kind ++ post) _ w
      (file_end kind (after (some space) ws) post e))

value-found :
    (before : Option ℕ) (space : ℕ) (ws : Text) (space' : ℕ) (ws' post : Text)
    → holds_of is_word before ≡ false
    → all is_space (space ∷ ws) ≡ true
    → all is_space (space' ∷ ws') ≡ true
    → holds_of is_word (next_char post) ≡ false
    → match_at next_value_pattern before
        (codes "next"
          ++ ((space ∷ ws) ++ (codes "value" ++ ((space' ∷ ws') ++ (codes "for" ++ post)))))
        always
      ≡ true
unfolding next_value_pattern match_at is_word is_ascii_word
value-found before space ws space' ws' post h v w e = rw h (
    match_at-plus is_space (some b't') space ws
      (codes "value" ++ ((space' ∷ ws') ++ (codes "for" ++ post))) _ v
      (match_at-plus is_space (some b'e') space' ws' (codes "for" ++ post) _ w (rw e refl)))

alt-left :
    (r q : Regex) (before : Option ℕ) (s : Text) (k : Option ℕ → Text → Bool)
    → match_at r before s k ≡ true
    → match_at (alt r q) before s k ≡ true
unfolding match_at
alt-left r q before s k h = rw h refl

alt-right :
    (r q : Regex) (before : Option ℕ) (s : Text) (k : Option ℕ → Text → Bool)
    → match_at q before s k ≡ true
    → match_at (alt r q) before s k ≡ true
unfolding match_at
alt-right r q before s k h = ground arith

quoted-matches :
    (c : ℕ) (w : Text) (before : Option ℕ) (s : Text) (k : Option ℕ → Text → Bool)
    → IsPart (quoted c w)
    → ((b : Option ℕ) → k b s ≡ true)
    → match_at
        (cat (literal "\"") (cat (plus (λ d. not (nat_eq d 34))) (literal "\"")))
        before
        (spelled (quoted c w) ++ s)
        k
      ≡ true
unfolding match_at
quoted-matches c w before s k h m = rw (append_assoc w (34 ∷ []) s) (
    match_at-plus (λ d. not (nat_eq d 34)) (some 34) c w (34 ∷ s)
      (λ b t. match_at (literal "\"") b t k) h (m (some 34)))

bracketed-matches :
    (c : ℕ) (w : Text) (before : Option ℕ) (s : Text) (k : Option ℕ → Text → Bool)
    → IsPart (bracketed c w)
    → ((b : Option ℕ) → k b s ≡ true)
    → match_at
        (cat (literal "[") (cat (plus (λ d. not (nat_eq d 93))) (literal "]")))
        before
        (spelled (bracketed c w) ++ s)
        k
      ≡ true
unfolding match_at
bracketed-matches c w before s k h m = rw (append_assoc w (93 ∷ []) s) (
    match_at-plus (λ d. not (nat_eq d 93)) (some 91) c w (93 ∷ s)
      (λ b t. match_at (literal "]") b t k) h (m (some 93)))

-- A part is matched, whatever stands before it.
part-matches :
    (part : Part) (before : Option ℕ) (s : Text) (k : Option ℕ → Text → Bool)
    → IsPart part
    → ((b : Option ℕ) → k b s ≡ true)
    → match_at name_part before (spelled part ++ s) k ≡ true
unfolding name_part
part-matches (plain c w) before s k h m =
    alt-right _ _ before _ k
      (alt-left _ _ before _ k (match_at-plus is_name_char before c w s k h (m _)))
part-matches (quoted c w) before s k h m =
    alt-left _ _ before _ k (quoted-matches c w before s k h m)
part-matches (bracketed c w) before s k h m =
    alt-right _ _ before _ k (alt-right _ _ before _ k (bracketed-matches c w before s k h m))

dot-matches :
    (part : Part) (before : Option ℕ) (r : Regex) (s : Text) (k : Option ℕ → Text → Bool)
    → IsPart part
    → match_at r (some b'.') s k ≡ true
    → match_at (cat name_part (cat (literal ".") r)) before (spelled part ++ (b'.' ∷ s)) k ≡ true
unfolding match_at
dot-matches part before r s k h m = part-matches part before (b'.' ∷ s) _ h (λ b. m)

four_part-found :
    (before : Option ℕ) (server catalog schema table : Part) (post : Text)
    → IsPart server
    → IsPart catalog
    → IsPart schema
    → IsPart table
    → match_at four_part_regex before
        (spelled server
          ++ (b'.'
              ∷ (spelled catalog ++ (b'.' ∷ (spelled schema ++ (b'.' ∷ (spelled table ++ post)))))))
        always
      ≡ true
unfolding four_part_regex
four_part-found before server catalog schema table post a b c d =
    dot-matches server before _ _ always a (
      dot-matches catalog _ _ _ always b
        (dot-matches schema _ _ _ always c (part-matches table _ post always d (λ x. refl))))

double_dot-found :
    (before : Option ℕ) (post : Text)
    → match_at double_dot_pattern before (codes ".." ++ post) always ≡ true
unfolding double_dot_pattern match_at
double_dot-found before post = refl

-- An escape is found by one of the patterns.
escape-found : (sql : Text) → IsEscape sql → IsPatternFree sql → ⊥
escape-found sql (dblink_call pre name ws post h n w) free =
    cc
      (free.0, found-append dblink_pattern pre _ (dblink-found (after none pre) name ws post h n w))
escape-found sql (file_export pre space ws kind post h w e) free = cc (
  free.1,
  found-append outfile_pattern pre _ (file-found (after none pre) space ws kind post h w e),
)
escape-found sql (double_dot pre post) free =
    cc (free.2, found-append double_dot_pattern pre _ (double_dot-found (after none pre) post))
escape-found sql (four_part pre server catalog schema table post a b c d) free = cc (
  free.3,
  found-append four_part_regex pre _
      (four_part-found (after none pre) server catalog schema table post a b c d),
)
escape-found sql (next_value pre space ws space' ws' post h v w e) free = cc (
  free.4,
  found-append next_value_pattern pre _
      (value-found (after none pre) space ws space' ws' post h v w e),
)

-- No query is accepted whose one statement, in small letters and with its white space collapsed,
-- holds an escape: a call of a function whose name begins with dblink, an export with INTO OUTFILE
-- or INTO DUMPFILE, two dots in a row, a name of four plain, quoted or bracketed parts, or a NEXT
-- VALUE FOR of a sequence. The words of the first, the second and the last are whole words, not
-- parts of longer ones, but for what may follow dblink in the name.
pub validate_query_rejects_escapes :
    (parse : Text → List Statement) (q c : Text) (statement : Statement)
    → nonblank (parse (clean_sql q)) ≡ statement ∷ []
    → IsEscape (normalized_sql statement)
    → validate_query parse q ≢ accepted c
validate_query_rejects_escapes parse q c statement single escape h =
    let a = validate_query-IsAccepted parse q c h in
    let same : a.statement ≡ statement = cc (a.single, single) in
    escape-found (normalized_sql statement) escape (rw same at a.read_only.patterns)
