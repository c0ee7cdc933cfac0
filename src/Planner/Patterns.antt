-- ===== src/Planner/Patterns.antt =====
-- query_planner.py: the patterns and keywords that a question is searched for.
use cognitive_rag_system.Prelude.{
  ℕ, Bool, false, ◌||◌, String, List, [], ◌∷◌, nat_eq, leb, any, ◌&&◌,
}
use cognitive_rag_system.Text.{Text, is_space}
use cognitive_rag_system.Text.Regex.{
  Regex, empty, set, star, cat, alt, boundary, at_start, at_end, literal, one_of, plus, found,
}

abbrev optional : Regex → Regex
optional r = alt r empty

-- A sequence of patterns.
abbrev seq : List Regex → Regex
seq [] = empty
seq (r ∷ []) = r
seq (r ∷ rs) = cat r (seq rs)

-- `\s`, `\s*`, `\s+`
abbrev spaces : Regex
spaces = star is_space

abbrev gap : Regex
gap = plus is_space

-- The words with `\s+` between them.
abbrev words : List String → Regex
words [] = empty
words (w ∷ []) = literal w
words (w ∷ ws) = cat (literal w) (cat gap (words ws))

-- `\b(w1|w2|...)\b`
abbrev bounded : Regex → Regex
bounded r = cat boundary (cat r boundary)

-- `^\s*(w1|w2|...)\b`
abbrev opening : List String → Regex
opening ws = seq (at_start ∷ spaces ∷ one_of ws ∷ boundary ∷ [])

abbrev is_blank_or : List ℕ → ℕ → Bool
is_blank_or marks c = is_space c || any (nat_eq c) marks

-- `^\s*(w1|w2|...)[\s…]*$`
abbrev whole : List String → List ℕ → Regex
whole ws marks = seq (at_start ∷ spaces ∷ one_of ws ∷ star (is_blank_or marks) ∷ at_end ∷ [])

-- `SESSION_IDENTITY_PATTERNS`
unfoldable pub session_identity_patterns : List Regex
session_identity_patterns =
    whole
      ("who am i" ∷ "what is my name" ∷ "what is my role" ∷ "who is logged in" ∷ "my profile"
        ∷ "my user info" ∷ "about me" ∷ [])
      (b'.' ∷ b'?' ∷ b'!' ∷ [])
    ∷ bounded (alt (words ("who" ∷ "am" ∷ "i" ∷ [])) (words ("who" ∷ "is" ∷ "logged" ∷ "in" ∷ [])))
    ∷ seq (
        boundary
        ∷ literal "what"
        ∷ gap
        ∷ optional (cat (literal "is") gap)
        ∷ optional (cat (words ("the" ∷ "name" ∷ "of" ∷ [])) gap)
        ∷ literal "my"
        ∷ gap
        ∷ one_of (
            "organization" ∷ "company" ∷ "org" ∷ "employer" ∷ "role" ∷ "profile" ∷ "details"
            ∷ "info" ∷ [])
        ∷ boundary
        ∷ [])
    ∷ bounded (words ("what" ∷ "organization" ∷ "do" ∷ "i" ∷ "belong" ∷ "to" ∷ []))
    ∷ bounded (words ("what" ∷ "company" ∷ "do" ∷ "i" ∷ "work" ∷ "for" ∷ []))
    ∷ []

-- `CONVERSATIONAL_PATTERNS`
unfoldable pub conversational_patterns : List Regex
conversational_patterns =
    opening (
      "hi" ∷ "hello" ∷ "hey" ∷ "good morning" ∷ "good afternoon" ∷ "good evening" ∷ "howdy"
      ∷ "greetings" ∷ [])
    ∷ opening (
        "who are you" ∷ "what can you do" ∷ "help me" ∷ "how does this work" ∷ "what is your name"
        ∷ [])
    ∷ opening ("thank you" ∷ "thanks" ∷ "bye" ∷ "goodbye" ∷ "see you" ∷ "good night" ∷ [])
    ∷ opening ("how are you" ∷ "how's it going" ∷ "what's up" ∷ [])
    ∷ whole
        ("alright" ∷ "all right" ∷ "okay" ∷ "ok" ∷ "cool" ∷ "great" ∷ "got it" ∷ "sure" ∷ "noted"
          ∷ "yes" ∷ "no" ∷ "yeah" ∷ "yep" ∷ "nope" ∷ "fine" ∷ "understood" ∷ "sounds good"
          ∷ "perfect" ∷ "awesome" ∷ "nice" ∷ [])
        (b'.' ∷ b'!' ∷ b',' ∷ [])
    ∷ []

-- A word with an optional last `s`, for each of the list.
abbrev plurals : List String → Regex
plurals [] = set (λ c. false)
plurals (w ∷ []) = cat (literal w) (optional (literal "s"))
plurals (w ∷ ws) = alt (cat (literal w) (optional (literal "s"))) (plurals ws)

-- `STRUCTURED_SQL_KEYWORDS`
unfoldable pub structured_sql_keywords : List Regex
structured_sql_keywords =
    bounded (
      alt
        (one_of (
          "how many" ∷ "total" ∷ "sum" ∷ "count" ∷ "average" ∷ "highest" ∷ "lowest" ∷ "minimum"
          ∷ "maximum" ∷ "min" ∷ "max" ∷ "revenue" ∷ "salary" ∷ "salaries" ∷ "database" ∷ "aggregate"
          ∷ "dataset" ∷ "breakdown" ∷ "per" ∷ "group by" ∷ "filter by" ∷ "distinct" ∷ []))
        (plurals ("invoice" ∷ "order" ∷ "record" ∷ "row" ∷ "table" ∷ "metric" ∷ "column" ∷ [])))
    ∷ bounded (
        one_of (
          "id" ∷ "code" ∷ "number" ∷ "reference" ∷ "mrn" ∷ "msisdn" ∷ "imsi" ∷ "imei" ∷ "vin"
          ∷ "bvn" ∷ "nin" ∷ "ssn" ∷ "tin" ∷ "iban" ∷ "cif" ∷ "swift" ∷ "sku" ∷ "uuid" ∷ "guid"
          ∷ []))
    ∷ bounded (
        alt
          (one_of (
            "beneficiary" ∷ "beneficiaries" ∷ "repayment" ∷ "repayments" ∷ "collateral" ∷ "pos"
            ∷ "atm" ∷ "branch" ∷ "branches" ∷ "kyc" ∷ "aml" ∷ "sanctions" ∷ "fraud" ∷ "vitals"
            ∷ "telemetry" ∷ "cdr" ∷ "tower" ∷ "towers" ∷ "inventory" ∷ "sensor" ∷ "refinery" ∷ []))
          (alt
            (plurals (
              "customer" ∷ "patient" ∷ "subscriber" ∷ "client" ∷ "account" ∷ "transaction"
              ∷ "transfer" ∷ "loan" ∷ "balance" ∷ "merchant" ∷ "employee" ∷ "encounter"
              ∷ "prescription" ∷ "admission" ∷ "shipment" ∷ "asset" ∷ "carrier" ∷ []))
            (seq (
              literal "call"
              ∷ set (λ c. nat_eq c b'_' || is_space c)
              ∷ literal "record"
              ∷ optional (literal "s")
              ∷ []))))
    ∷ bounded (
        one_of (
          "organization" ∷ "organizations" ∷ "company" ∷ "companies" ∷ "employer" ∷ "employers"
          ∷ "industry" ∷ "industries" ∷ "sector" ∷ "sectors" ∷ "corporate" ∷ "corporations" ∷ "firm"
          ∷ "firms" ∷ "serving" ∷ "clientele" ∷ "partners" ∷ "institution" ∷ "institutions" ∷ []))
    ∷ opening (
        "who is" ∷ "find" ∷ "lookup" ∷ "verify" ∷ "verification status" ∷ "get details" ∷ "check"
        ∷ "which" ∷ "associated with" ∷ "details for" ∷ "status of" ∷ "search for" ∷ "list all"
        ∷ "show all" ∷ [])
    ∷ []

-- `SYSTEM_META_KEYWORDS`
unfoldable pub system_meta_keywords : List Regex
system_meta_keywords =
    bounded (
      alt
        (plurals (
          "data source" ∷ "connected database" ∷ "connected system" ∷ "internal data source"
          ∷ "connected knowledge source" ∷ "knowledge source" ∷ []))
        (alt (one_of ("how many sources" ∷ "what systems" ∷ "registered connectors" ∷ [])) (
          seq (
            literal "database"
            ∷ optional (literal "s")
            ∷ literal " "
            ∷ one_of ("registered" ∷ "connected" ∷ "available" ∷ [])
            ∷ []))))
    ∷ seq (
        boundary
        ∷ one_of ("how many" ∷ "what" ∷ "list" ∷ "show" ∷ "which" ∷ [])
        ∷ gap
        ∷ alt (words ("data" ∷ "sources" ∷ [])) (
            alt (words ("connected" ∷ "databases" ∷ [])) (
              alt (words ("available" ∷ "databases" ∷ [])) (
                alt (words ("registered" ∷ "connectors" ∷ []))
                  (words ("knowledge" ∷ "sources" ∷ [])))))
        ∷ boundary
        ∷ [])
    ∷ seq (
        boundary
        ∷ alt (words ("data" ∷ "sources" ∷ [])) (words ("connected" ∷ "databases" ∷ []))
        ∷ gap
        ∷ one_of ("do we have" ∷ "are there" ∷ "available" ∷ "registered" ∷ [])
        ∷ boundary
        ∷ [])
    ∷ []

-- `DOCUMENT_RAG_KEYWORDS`
unfoldable pub document_rag_keywords : List Regex
document_rag_keywords =
    bounded (
      alt
        (one_of (
          "policy" ∷ "policies" ∷ "document" ∷ "documents" ∷ "file" ∷ "files" ∷ "uploaded" ∷ "pdf"
          ∷ "docx" ∷ "handbook" ∷ "manual" ∷ "contract" ∷ "procedure" ∷ "agreement" ∷ "revenue"
          ∷ "report" ∷ "internal" ∷ "nda" ∷ "org" ∷ "department" ∷ "guideline" ∷ "compliance"
          ∷ "sop" ∷ "s3" ∷ "sharepoint" ∷ "drive" ∷ "cloud" ∷ "folder" ∷ "bucket" ∷ "spreadsheet"
          ∷ []))
        (alt (plurals ("sheet" ∷ "spec" ∷ []))
          (cat (literal "q") (set (λ c. leb b'1' c && leb c b'4')))))
    ∷ []

-- `GENERAL_KNOWLEDGE_PATTERNS`
unfoldable pub general_knowledge_patterns : List Regex
general_knowledge_patterns =
    opening (
      "what is the capital of" ∷ "who wrote" ∷ "when was" ∷ "translate" ∷ "calculate" ∷ "write a"
      ∷ "code a" ∷ "explain the concept of" ∷ [])
    ∷ bounded (
        alt (plurals ("continent" ∷ "planet" ∷ "ocean" ∷ [])) (
          one_of (
            "countries" ∷ "pythagorean" ∷ "fibonacci" ∷ "javascript" ∷ "python" ∷ "css" ∷ "html"
            ∷ [])))
    ∷ []

-- The words of a counting question.
unfoldable pub aggregate_words : List String
aggregate_words =
    "how many" ∷ "count" ∷ "sum" ∷ "average" ∷ "total" ∷ "select" ∷ "rows" ∷ "table" ∷ []

-- `any(re.search(p, s) for p in patterns)`
unfoldable pub matches_any : List Regex → Text → Bool
matches_any patterns s = any (λ (p : Regex). found p s) patterns
