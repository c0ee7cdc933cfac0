-- ===== src/Guard/Shapes.antt =====
-- The normalised texts that lead out of a database or out of its read-only mode, by their shape:
-- what steps 4 to 7 of sql_guard.py's `validate_query` are there to catch.
use cognitive_rag_system.Prelude.{ℕ, true, false, not, ◌≡◌, none, [], ◌∷◌, ◌++◌, all, nat_eq}
use cognitive_rag_system.Text.{Text, codes, is_space, is_word}
use cognitive_rag_system.Text.Regex.{holds_of, next_char, after}
use cognitive_rag_system.Guard.Query.{is_name_char}

-- A part of a qualified name: plain, in double quotes, or in brackets. Each has a first character.
pub data Part : Type 0 where
  plain quoted bracketed : ℕ → Text → Part

-- The text of a part.
abbrev pub spelled : Part → Text
spelled (plain c w) = c ∷ w
spelled (quoted c w) = b'"' ∷ ((c ∷ w) ++ (b'"' ∷ []))
spelled (bracketed c w) = b'[' ∷ ((c ∷ w) ++ (b']' ∷ []))

abbrev pub IsPart : Part → Type 0
IsPart (plain c w) = all is_name_char (c ∷ w) ≡ true
IsPart (quoted c w) = all (λ d. not (nat_eq d b'"')) (c ∷ w) ≡ true
IsPart (bracketed c w) = all (λ d. not (nat_eq d b']')) (c ∷ w) ≡ true

-- The files that MySQL writes a result to.
pub data FileKind : Type 0 where
  outfile dumpfile : FileKind

abbrev pub file_word : FileKind → Text
file_word outfile = codes "outfile"
file_word dumpfile = codes "dumpfile"

-- The normalised texts that hold a call of a function whose name begins with dblink, an export to a
-- file, two dots in a row, a name of four parts, or a step of a sequence, at any place.
pub data IsEscape : Text → Type 0 where
  dblink_call :
      (pre name ws post : Text)
      → holds_of is_name_char (after none pre) ≡ false
      → all is_name_char name ≡ true
      → all is_space ws ≡ true
      → IsEscape (pre ++ (codes "dblink" ++ (name ++ (ws ++ (b'(' ∷ post)))))
  file_export :
      (pre : Text) (space : ℕ) (ws : Text) (kind : FileKind) (post : Text)
      → holds_of is_word (after none pre) ≡ false
      → all is_space (space ∷ ws) ≡ true
      → holds_of is_word (next_char post) ≡ false
      → IsEscape (pre ++ (codes "into" ++ ((space ∷ ws) ++ (file_word kind ++ post))))
  double_dot : (pre post : Text) → IsEscape (pre ++ (codes ".." ++ post))
  four_part :
      (pre : Text) (server catalog schema table : Part) (post : Text)
      → IsPart server
      → IsPart catalog
      → IsPart schema
      → IsPart table
      → IsEscape (
          pre
          ++ (spelled server
              ++ (b'.'
                  ∷ (spelled catalog
                      ++ (b'.' ∷ (spelled schema ++ (b'.' ∷ (spelled table ++ post))))))))
  next_value :
      (pre : Text) (space : ℕ) (ws : Text) (space' : ℕ) (ws' post : Text)
      → holds_of is_word (after none pre) ≡ false
      → all is_space (space ∷ ws) ≡ true
      → all is_space (space' ∷ ws') ≡ true
      → holds_of is_word (next_char post) ≡ false
      → IsEscape (
          pre
          ++ (codes "next"
              ++ ((space ∷ ws) ++ (codes "value" ++ ((space' ∷ ws') ++ (codes "for" ++ post))))))
