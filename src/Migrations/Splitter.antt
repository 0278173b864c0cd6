-- ===== src/Migrations/Splitter.antt =====
-- `splitSQLStatements` of internal/migrations/runner.go: the SQL lexer that cuts a migration
-- file into statements. The file is a list of bytes. The loop's flags are one `Mode`, since each
-- is set only where the others are clear; `i++` and `i += n` are the count of bytes to skip.
pub mod Round
pub mod Lossless
pub mod Segment
pub mod Copies
pub mod Closed
use across_backend_api.Prelude.{
  ℕ, zero, suc, ◌+◌, ◌-◌, ◌*◌, ◌/◌, ◌%◌, ◌^◌, ◌≤◌, ◌<◌, min, max, ◌≡◌, refl, sym, ap, subst, ◌∙◌,
  ◌≢◌, ◌↔◌, ◌⊎◌, inl, inr, Bool, true, false, not, ◌&&◌, ◌||◌, Option, none, some, List, [], ◌∷◌,
  ◌++◌, map, arith, ltb, leb, ◌==◌, if◌then◌else◌, ==_iff, Bool-cases, Option-cases, if_branches,
  length, take, drop, filter_by, length-append, take-append-drop, length-filter_by-le, All,
  All-append, append_assoc, append-nil,
}
use across_backend_api.Prelude.Text.{
  Text, codes, text_eq, text_eq_refl, text_eq_sound, text_eq_iff, is_empty, lower_byte, upper_byte,
  to_lower, to_upper, is_space, trim_left, trim_right, trim_space, has_prefix, contains, mem_text,
}
use mathlib.Core.Option

pub data Mode : Type 0 where
  normal single_quote double_quote line_comment : Mode
  block_comment : ℕ → Mode  -- the depth
  dollar : Text → Mode  -- the tag

pub record Scanner : Type 0 where
  pub mode : Mode
  pub builder : Text
  pub statements : List Text
  pub skip : ℕ

-- `i+1 < len(input) && input[i+1] == b`
abbrev pub next_is : ℕ → Text → Bool
next_is b [] = false
next_is b (d ∷ rest) = d == b

unfoldable pub is_tag_byte : ℕ → Bool
is_tag_byte c =
    leb b'a' c && leb c b'z' || leb b'A' c && leb c b'Z' || leb b'0' c && leb c b'9' || c == b'_'

-- The loop of `scanDollarTag`, from the byte behind the first `$`.
unfoldable pub tag_end : Text → Option Text
unfolding is_tag_byte
tag_end [] = none
tag_end (c ∷ s) =
    let rest = Option.map (◌∷◌ c) (tag_end s) in
    if c == b'$' then some (c ∷ []) else if is_tag_byte c then rest else none

unfoldable pub scan_dollar_tag : Text → Option Text
unfolding tag_end
scan_dollar_tag [] = none
scan_dollar_tag (c ∷ s) = if c == b'$' then Option.map (◌∷◌ c) (tag_end s) else none

abbrev pub write : Scanner → ℕ → Scanner
write s c = record s { builder = s.builder ++ c ∷ [] }

-- `WriteByte(ch); WriteByte(input[i+1]); i++`
abbrev pub write_two : Scanner → ℕ → Text → Scanner
write_two s c [] = write s c
write_two s c (d ∷ _) = record s { builder = s.builder ++ c ∷ d ∷ []; skip = 1 }

-- The statement that a piece of text yields: none if it is blank.
unfoldable pub trimmed : Text → List Text
unfolding trim_space
trimmed b = let t = trim_space b in if is_empty t then [] else t ∷ []

unfoldable pub flush : Scanner → Scanner
unfolding trimmed
flush s = record s { statements = s.statements ++ trimmed s.builder; builder = [] }

-- The `switch ch` at the end of the loop's body.
unfoldable pub step_normal : Scanner → ℕ → Text → Scanner
unfolding scan_dollar_tag flush
step_normal s c rest =
    if c == b'\''
    then record (write s c) { mode = single_quote }
    else if c == b'"'
    then record (write s c) { mode = double_quote }
    else if c == b'-'
    then (if next_is b'-' rest
        then record (write_two s c rest) { mode = line_comment }
        else write s c)
    else if c == b'/'
    then (if next_is b'*' rest
        then record (write_two s c rest) { mode = block_comment 1 }
        else write s c)
    else if c == b'$'
    then (elim (scan_dollar_tag (c ∷ rest)) [
      | none ↦ write s c
      | some tag ↦ record s { mode = dollar tag; builder = s.builder ++ tag; skip = length tag - 1 }
    ])
    else if c == b';'
    then flush s
    else write s c

-- `blockCommentDepth--`, which ends the comment at 0.
abbrev pub leave_comment : ℕ → Mode
leave_comment depth = if depth == 1 then normal else block_comment (depth - 1)

-- The loop's body at the byte `c`, with `rest` behind it.
unfoldable pub step : Mode → Scanner → ℕ → Text → Scanner
unfolding step_normal has_prefix
step normal s c rest = step_normal s c rest
step line_comment s c rest = if c == b'\n' then record (write s c) { mode = normal } else write s c
step (block_comment zero) s c rest = step_normal s c rest
step (block_comment (suc d)) s c rest =
    if c == b'/' && next_is b'*' rest
    then record (write_two s c rest) { mode = block_comment (suc d + 1) }
    else if c == b'*' && next_is b'/' rest
    then record (write_two s c rest) { mode = leave_comment (suc d) }
    else write s c
step (dollar []) s c rest = step_normal s c rest
step (dollar (d ∷ tag)) s c rest =
    if has_prefix (c ∷ rest) (d ∷ tag)
    then record s { mode = normal; builder = s.builder ++ (d ∷ tag); skip = length tag }
    else write s c
step single_quote s c rest =
    if c == b'\\'
    then write_two s c rest
    else if c == b'\''
    then (if next_is b'\'' rest then write_two s c rest else record (write s c) { mode = normal })
    else write s c
step double_quote s c rest =
    if c == b'"'
    then (if next_is b'"' rest then write_two s c rest else record (write s c) { mode = normal })
    else write s c

-- One round of the loop; a byte that an earlier round has consumed is passed over.
unfoldable pub advance : ℕ → Scanner → ℕ → Text → Scanner
unfolding step
advance zero s c rest = step s.mode s c rest
advance (suc k) s c rest = record s { skip = k }

unfoldable pub scan : Scanner → Text → Scanner
unfolding advance
scan s [] = s
scan s (c ∷ rest) = scan (advance s.skip s c rest) rest

abbrev pub start : Scanner
start = record { mode = normal; builder = []; statements = []; skip = 0 }

unfoldable pub split_sql_statements : Text → List Text
unfolding scan flush
split_sql_statements input = (flush (scan start input)).statements
