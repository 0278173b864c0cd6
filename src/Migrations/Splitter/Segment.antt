-- ===== src/Migrations/Splitter/Segment.antt =====
-- Stretches of SQL that leave the lexer of the migration files in its normal state, after the
-- states of `splitSQLStatements` (internal/migrations/runner.go).
use across_backend_api.Prelude.{ℕ, ◌≡◌, Bool, true, false, not, ◌&&◌, ◌||◌, [], ◌∷◌, ◌++◌, ◌==◌}
use across_backend_api.Prelude.Text.{Text}
use across_backend_api.Migrations.Splitter.{is_tag_byte, next_is}

-- Bytes that the lexer copies in its normal state whatever follows.
abbrev pub is_plain : ℕ → Bool
is_plain c = not (c == b'\'' || c == b'"' || c == b'-' || c == b'/' || c == b'$' || c == b';')

abbrev pub all_bytes : (ℕ → Bool) → Text → Bool
all_bytes ok [] = true
all_bytes ok (c ∷ s) = ok c && all_bytes ok s

abbrev pub other_than : ℕ → ℕ → Bool
other_than b c = not (c == b)

-- A byte of a string literal: no quote and no backslash.
abbrev pub is_literal : ℕ → Bool
is_literal c = other_than b'\'' c && other_than b'\\' c

abbrev pub is_tag : ℕ → Bool
is_tag c = is_tag_byte c && other_than b'$' c

-- `$tag$`
abbrev pub tag_of : Text → Text
tag_of tag = b'$' ∷ (tag ++ b'$' ∷ [])

-- A stretch of SQL that leaves the lexer in its normal state.
pub data Segment : Text → Type 0 where
  plain : (c : ℕ) → is_plain c ≡ true → Segment (c ∷ [])
  literal : (body : Text) → all_bytes is_literal body ≡ true → Segment (b'\'' ∷ body ++ b'\'' ∷ [])
  identifier :
      (body : Text) → all_bytes (other_than b'"') body ≡ true → Segment (b'"' ∷ body ++ b'"' ∷ [])
  comment :
      (body : Text)
      → all_bytes (other_than b'\n') body ≡ true
      → Segment (b'-' ∷ b'-' ∷ body ++ b'\n' ∷ [])
  dollar_quote :
      (tag body : Text)
      → all_bytes is_tag tag ≡ true
      → all_bytes (other_than b'$') body ≡ true
      → Segment (tag_of tag ++ (body ++ tag_of tag))

-- A quote behind a closing quote would double it.
abbrev pub clashes : {u : Text} → Segment u → Text → Bool
clashes (literal body h) t = next_is b'\'' t
clashes (identifier body h) t = next_is b'"' t
clashes _ t = false

pub data IsClosed : Text → Type 0 where
  done : IsClosed []
  after : {u t : Text} (g : Segment u) → clashes g t ≡ false → IsClosed t → IsClosed (u ++ t)
