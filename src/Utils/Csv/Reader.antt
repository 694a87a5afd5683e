-- ===== src/Utils/Csv/Reader.antt =====
-- A reader of one CSV record after RFC 4180, as the receiver of an export reads it: the description
-- that src/utils/csv.rs is measured against. A cell without quotes holds no quote, comma, carriage
-- return or line feed; a record with one is refused (none). Any other character is text.
use setlyst_api.Prelude.{ℕ, ◌==◌, ◌||◌, nat_eq, List, [], ◌∷◌, Option, none, some, if◌then◌else◌}
use setlyst_api.Utils.Csv.{Chars, comma, double_quote, carriage_return, line_feed}

-- The reader is before a cell, in a bare cell, in a quoted one, behind a quote within a quoted
-- cell, or behind the carriage return that ends the record.
pub data Mode : Type 0 where
  before bare quoted behind_quote ending : Mode

abbrev pub Record : Type 0
Record = Option (List Chars × Chars)

abbrev pub put : ℕ → Record → Record
put c none = none
put c (some ([], rest)) = none
put c (some (cell ∷ cells, rest)) = some ((c ∷ cell) ∷ cells, rest)

abbrev pub next_cell : Record → Record
next_cell none = none
next_cell (some (cells, rest)) = some ([] ∷ cells, rest)

-- The cells from the current one on, and the text behind the record.
unfoldable pub read : Mode → Chars → Record
read mode [] = none
read before (c ∷ cs) =
    let cells = read before cs in
    let last = read ending cs in
    let more = read bare cs in
    let text = read quoted cs in
    if c == double_quote
    then text
    else if c == comma
    then next_cell cells
    else if c == carriage_return
    then last
    else if c == line_feed
    then none
    else put c more
read bare (c ∷ cs) =
    let cells = read before cs in
    let last = read ending cs in
    let more = read bare cs in
    if c == comma
    then next_cell cells
    else if c == carriage_return
    then last
    else if c == double_quote || c == line_feed
    then none
    else put c more
read quoted (c ∷ cs) =
    let after = read behind_quote cs in
    let more = read quoted cs in if c == double_quote then after else put c more
read behind_quote (c ∷ cs) =
    let more = read quoted cs in
    let cells = read before cs in
    let last = read ending cs in
    if c == double_quote
    then put c more
    else if c == comma
    then next_cell cells
    else if c == carriage_return
    then last
    else none
read ending (c ∷ cs) = if c == line_feed then some ([] ∷ [], cs) else none
