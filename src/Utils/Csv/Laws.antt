-- ===== src/Utils/Csv/Laws.antt =====
-- What src/utils/csv.rs writes, an RFC 4180 reader reads back, and no cell of it is a formula.
use setlyst_api.Prelude.{
  ℕ, Bool, true, false, ◌==◌, nat_eq, List, [], ◌∷◌, ◌++◌, map, some, ◌≡◌, refl, arith, any, ◌⊎◌,
  Bool-cases, ap, inl, ==→≡, inr, ◌∙◌, ◌&&◌,
}
use setlyst_api.Utils.Csv.{
  Chars, comma, double_quote, carriage_return, line_feed, is_risky, is_break, defuse, double_quotes,
  quote_if, field, needs_quotes, push_fields, push_row, apostrophe,
}
use setlyst_api.Utils.Csv.Reader.{before, bare, quoted, behind_quote, Record, put, read}

abbrev glue : Chars → Record → Record
glue [] r = r
glue (c ∷ cs) r = put c (glue cs r)

plain_char :
    (c : ℕ) (cs : Chars)
    → any needs_quotes (c ∷ cs) ≡ false
    → ((c == comma) ≡ false)
      × ((c == double_quote) ≡ false)
      × ((c == carriage_return) ≡ false)
      × ((c == line_feed) ≡ false)
      × (any needs_quotes cs ≡ false)
unfolding needs_quotes
plain_char c cs h = (ground arith, ground arith, ground arith, ground arith, ground arith)

read-bare_text :
    (cs rest : Chars)
    → any needs_quotes cs ≡ false
    → read bare (cs ++ rest) ≡ glue cs (read bare rest)
unfolding read
read-bare_text [] rest plain = refl
read-bare_text (c ∷ cs) rest plain =
    let (no_comma, no_quote, no_return, no_feed, plain_rest) = plain_char c cs plain in
    rw (no_comma, no_return, no_quote, no_feed, read-bare_text cs rest plain_rest) refl

read-quoted_text :
    (cs rest : Chars)
    → read quoted (double_quotes cs ++ (double_quote ∷ rest)) ≡ glue cs (read behind_quote rest)
unfolding read double_quotes
read-quoted_text [] rest = refl
read-quoted_text (c ∷ cs) rest = elim (Bool-cases (c == double_quote)) [
  | inl quote ↦ rw (quote, ==→≡ c double_quote quote, read-quoted_text cs rest) refl
  | inr other ↦ rw (other, other, read-quoted_text cs rest) refl
]

-- The two characters that follow a field.
abbrev IsEnd : ℕ → Type 0
IsEnd x = (x ≡ comma) ⊎ (x ≡ carriage_return)

behind_quote_lem :
    (x : ℕ) (rest : Chars) → IsEnd x → read behind_quote (x ∷ rest) ≡ read bare (x ∷ rest)
unfolding read
behind_quote_lem x rest (inl e) = rw e refl
behind_quote_lem x rest (inr e) = rw e refl

before_end : (x : ℕ) (rest : Chars) → IsEnd x → read before (x ∷ rest) ≡ read bare (x ∷ rest)
unfolding read
before_end x rest (inl e) = rw e refl
before_end x rest (inr e) = rw e refl

read-before_text :
    (cs : Chars) (x : ℕ) (rest : Chars)
    → IsEnd x
    → any needs_quotes cs ≡ false
    → read before (cs ++ (x ∷ rest)) ≡ glue cs (read bare (x ∷ rest))
unfolding read
read-before_text [] x rest end plain = before_end x rest end
read-before_text (c ∷ cs) x rest end plain =
    let (no_comma, no_quote, no_return, no_feed, plain_rest) = plain_char c cs plain in
    rw (no_quote, no_comma, no_return, no_feed, read-bare_text cs (x ∷ rest) plain_rest) refl

++-assoc : (a b c : Chars) → (a ++ b) ++ c ≡ a ++ (b ++ c)
++-assoc [] b c = refl
++-assoc (x ∷ a) b c = ap (λ t. x ∷ t) (++-assoc a b c)

read-quoted_field :
    (cs : Chars) (x : ℕ) (rest : Chars)
    → IsEnd x
    → read before (quote_if true cs ++ (x ∷ rest)) ≡ glue cs (read bare (x ∷ rest))
unfolding read quote_if
read-quoted_field cs x rest end =
    rw
      (
        ++-assoc (double_quotes cs) (double_quote ∷ []) (x ∷ rest),
        read-quoted_text cs (x ∷ rest),
        behind_quote_lem x rest end,
      )
      refl

-- A field, quoted or not, is read as its defused value.
read-field :
    (value : Chars) (x : ℕ) (rest : Chars)
    → IsEnd x
    → read before (field value ++ (x ∷ rest)) ≡ glue (defuse true value) (read bare (x ∷ rest))
unfolding field quote_if
read-field value x rest end = elim (Bool-cases (any needs_quotes (defuse true value))) [
  | inl special ↦ rw special (read-quoted_field (defuse true value) x rest end)
  | inr plain ↦ rw plain (read-before_text (defuse true value) x rest end plain)
]

-- What follows the first field of a record.
abbrev tail_text : List Chars → Chars
tail_text [] = carriage_return ∷ line_feed ∷ []
tail_text (value ∷ values) = comma ∷ (field value ++ tail_text values)

push_fields-tail :
    (values : List Chars) (out : Chars)
    → push_fields false out values ++ (carriage_return ∷ line_feed ∷ []) ≡ out ++ tail_text values
unfolding push_fields
push_fields-tail [] out = refl
push_fields-tail (value ∷ values) out =
    rw
      (
        push_fields-tail values ((out ++ (comma ∷ [])) ++ field value),
        ++-assoc (out ++ (comma ∷ [])) (field value) (tail_text values),
        ++-assoc out (comma ∷ []) (field value ++ tail_text values),
      )
      refl

glue-cell :
    (cs : Chars) (cells : List Chars) (rest : Chars)
    → glue cs (some ([] ∷ cells, rest)) ≡ some (cs ∷ cells, rest)
glue-cell [] cells rest = refl
glue-cell (c ∷ cs) cells rest = rw (glue-cell cs cells rest) refl

read-record :
    (value : Chars) (values : List Chars) (rest : Chars)
    → read before (field value ++ (tail_text values ++ rest))
      ≡ some (defuse true value ∷ map (defuse true) values, rest)
unfolding read
read-record value [] rest =
    rw (read-field value carriage_return (line_feed ∷ rest) (inr refl))
      (glue-cell (defuse true value) [] rest)
read-record value (next ∷ values) rest =
    rw
      (
        read-field value comma ((field next ++ tail_text values) ++ rest) (inl refl),
        ++-assoc (field next) (tail_text values) rest,
        read-record next values rest,
      )
      (glue-cell (defuse true value) (map (defuse true) (next ∷ values)) rest)

-- `push_row` appends a record of at least one value that a reader of RFC 4180, whatever text comes
-- behind it, reads as exactly these values, each of them defused, and then goes on behind it.
pub push_row-read :
    (out value : Chars) (values : List Chars)
    → (text : Chars) × (push_row out (value ∷ values) ≡ out ++ text)
      × ((rest : Chars)
          → read before (text ++ rest) ≡ some (defuse true value ∷ map (defuse true) values, rest))
unfolding push_row push_fields
push_row-read out value values = (
  field value ++ tail_text values,
  push_fields-tail values (out ++ field value) ∙ ++-assoc out (field value) (tail_text values),
  λ rest. rw (++-assoc (field value) (tail_text values) rest) (read-record value values rest),
)

-- The characters that make a cell a formula: `=`, `+`, `-`, `@`, tab and carriage return.
abbrev pub formula_starts : Chars
formula_starts = 61 ∷ 43 ∷ 45 ∷ 64 ∷ 9 ∷ 13 ∷ []

-- Where some spreadsheet splits a value: at a semicolon, a tab and a line break.
abbrev pub separators : Chars
separators = 59 ∷ 9 ∷ 10 ∷ 13 ∷ []

abbrev pub is_among : Chars → ℕ → Bool
is_among cs c = any (λ d. c == d) cs

-- Whether a cell starts behind the text.
abbrev pub starts_cell : Bool → Chars → Bool
starts_cell first [] = first
starts_cell first (c ∷ cs) = starts_cell (is_among separators c) cs

is_risky-is_among : (c : ℕ) → is_risky c ≡ is_among formula_starts c
unfolding is_risky
is_risky-is_among c = ground arith

is_break-is_among : (c : ℕ) → is_break c ≡ is_among separators c
unfolding is_break
is_break-is_among c = ground arith

tail-same : {A : Type 0} {x y : A} {xs ys : List A} → x ∷ xs ≡ y ∷ ys → (x ≡ y) × (xs ≡ ys)
tail-same h = (cc, cc)

-- No cell that starts in the text, which may itself start one, is a formula.
abbrev IsSafe : Bool → Chars → Type 0
IsSafe first text =
    (left : Chars) (c : ℕ) (right : Chars)
    → text ≡ left ++ (c ∷ right)
    → starts_cell first left ≡ true
    → is_among formula_starts c ≡ false

cons-IsSafe :
    (first : Bool) (x : ℕ) (text : Chars)
    → (first ≡ true → is_among formula_starts x ≡ false)
    → IsSafe (is_among separators x) text
    → IsSafe first (x ∷ text)
cons-IsSafe first x text head rest [] c right e start = rw (← (tail-same e).0) (head start)
cons-IsSafe first x text head rest (y ∷ left) c right e start =
    rest left c right (tail-same e).1 (rw (← (tail-same e).0) at start)

nil-IsSafe : (first : Bool) → IsSafe first []
nil-IsSafe first [] c right e start = absurd (ground arith)
nil-IsSafe first (y ∷ left) c right e start = absurd (ground arith)

defuse-IsSafe : (first : Bool) (value : Chars) → IsSafe first (defuse first value)
unfolding defuse
defuse-IsSafe first [] = nil-IsSafe first
defuse-IsSafe first (x ∷ value) =
    let rest : IsSafe (is_among separators x) (defuse (is_break x) value) =
      rw (← is_break-is_among x) (defuse-IsSafe (is_break x) value) in
    let same = is_risky-is_among x in
    elim (Bool-cases (first && is_risky x)) [
      | inl risky ↦ rw risky (
          cons-IsSafe first apostrophe (x ∷ defuse (is_break x) value) (λ _. refl)
            (cons-IsSafe false x (defuse (is_break x) value) (λ e. absurd (ground (arith, e)))
              rest))
      | inr other ↦ rw other (
          cons-IsSafe first x (defuse (is_break x) value) (λ e. ground (arith, e, other, same))
            rest)
    ]

-- In a defused value no cell is a formula: at its start, and behind each semicolon, tab, line feed
-- and carriage return in it, there is none of `=`, `+`, `-`, `@`, tab and carriage return.
pub defuse-starts_cell :
    (value left : Chars) (c : ℕ) (right : Chars)
    → defuse true value ≡ left ++ (c ∷ right)
    → starts_cell true left ≡ true
    → is_among formula_starts c ≡ false
defuse-starts_cell value left c right e start = defuse-IsSafe true value left c right e start
