-- ===== src/Utils/Csv.antt =====
-- src/utils/csv.rs: the CSV writer of the staff exports. A `char` is its code point.
pub mod Reader
pub mod Laws
use setlyst_api.Prelude.{
  ℕ, Bool, ◌&&◌, ◌||◌, ◌==◌, nat_eq, List, [], ◌∷◌, ◌++◌, any, if◌then◌else◌, true, false,
}

abbrev pub Chars : Type 0
Chars = List ℕ

abbrev pub tab : ℕ
tab = 9

abbrev pub line_feed : ℕ
line_feed = 10

abbrev pub carriage_return : ℕ
carriage_return = 13

abbrev pub double_quote : ℕ
double_quote = 34

abbrev pub apostrophe : ℕ
apostrophe = 39

abbrev pub comma : ℕ
comma = 44

abbrev pub semicolon : ℕ
semicolon = 59

-- `=`, `+`, `-`, `@`, tab or carriage return.
unfoldable pub is_risky : ℕ → Bool
is_risky c = c == 61 || (c == 43 || (c == 45 || (c == 64 || (c == tab || c == carriage_return))))

-- Where a spreadsheet may start a cell after the character.
unfoldable pub is_break : ℕ → Bool
is_break c = c == semicolon || (c == tab || (c == line_feed || c == carriage_return))

-- The loop of `field`, from its variable `cell_start`.
unfoldable pub defuse : Bool → Chars → Chars
defuse cell_start [] = []
defuse cell_start (c ∷ cs) =
    let rest = c ∷ defuse (is_break c) cs in
    if cell_start && is_risky c then apostrophe ∷ rest else rest

unfoldable pub needs_quotes : ℕ → Bool
needs_quotes c = c == comma || (c == double_quote || (c == line_feed || c == carriage_return))

-- `replace('"', "\"\"")`
unfoldable pub double_quotes : Chars → Chars
double_quotes [] = []
double_quotes (c ∷ cs) =
    let rest = c ∷ double_quotes cs in if c == double_quote then double_quote ∷ rest else rest

unfoldable pub quote_if : Bool → Chars → Chars
quote_if quoted cs = if quoted then double_quote ∷ (double_quotes cs ++ (double_quote ∷ [])) else cs

unfoldable pub field : Chars → Chars
field value = let defused = defuse true value in quote_if (any needs_quotes defused) defused

-- The loop of `push_row`, from its variable `first`.
unfoldable pub push_fields : Bool → Chars → List Chars → Chars
push_fields first out [] = out
push_fields first out (value ∷ values) =
    push_fields false ((if first then out else out ++ (comma ∷ [])) ++ field value) values

unfoldable pub push_row : Chars → List Chars → Chars
push_row out values = push_fields true out values ++ (carriage_return ∷ line_feed ∷ [])
