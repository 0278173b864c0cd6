-- ===== src/Migrations/Splitter/Closed.antt =====
-- The cut behind a text that is made of closed segments, internal/migrations/runner.go.
use across_backend_api.Prelude.{
  ℕ, zero, suc, ◌≡◌, refl, sym, ap, ◌∙◌, List, [], ◌∷◌, ◌++◌, arith, append_assoc, append-nil,
}
use across_backend_api.Prelude.Text.{Text}
use across_backend_api.Migrations.Splitter.{
  Mode, normal, line_comment, block_comment, dollar, Scanner, step_normal, step, advance, scan,
  flush, trimmed, start, split_sql_statements, write_two,
}
use across_backend_api.Migrations.Splitter.Segment.{IsClosed, done, after}
use across_backend_api.Migrations.Splitter.Copies.{at, Segment-copies, clashes-append}

-- A closed text is copied whole.
closed-copies :
    {a : Text}
    → IsClosed a
    → (rest b : Text) (out : List Text)
    → scan (at normal b out) (a ++ b';' ∷ rest) ≡ scan (at normal (b ++ a) out) (b';' ∷ rest)
closed-copies done rest b out = rw append-nil
closed-copies (after {u} {t} g q c) rest b out =
    ap (scan (at normal b out)) (append_assoc u t (b';' ∷ rest))
    ∙ Segment-copies g (t ++ b';' ∷ rest) b out (clashes-append g t rest q)
    ∙ closed-copies c rest (b ++ u) out
    ∙ ap (λ x. scan (at normal x out) (b';' ∷ rest)) (append_assoc b u t)

-- What has been put out stays in front, and has no influence.
prepend : List Text → Scanner → Scanner
prepend out s = record s { statements = out ++ s.statements }

step_normal-prepend :
    (out : List Text) (s : Scanner) (c : ℕ) (rest : Text)
    → step_normal (prepend out s) c rest ≡ prepend out (step_normal s c rest)
unfolding step_normal flush prepend
step_normal-prepend out s c [] = ground (arith, append_assoc out s.statements (trimmed s.builder))
step_normal-prepend out s c (d ∷ rest) =
    ground (arith, append_assoc out s.statements (trimmed s.builder))

write_two-prepend :
    (out : List Text) (s : Scanner) (c : ℕ) (rest : Text)
    → write_two (prepend out s) c rest ≡ prepend out (write_two s c rest)
unfolding prepend
write_two-prepend out s c [] = refl
write_two-prepend out s c (d ∷ rest) = refl

step-prepend :
    (m : Mode) (out : List Text) (s : Scanner) (c : ℕ) (rest : Text)
    → step m (prepend out s) c rest ≡ prepend out (step m s c rest)
unfolding step prepend
step-prepend normal out s c rest = step_normal-prepend out s c rest
step-prepend (block_comment zero) out s c rest = step_normal-prepend out s c rest
step-prepend (dollar []) out s c rest = step_normal-prepend out s c rest
step-prepend line_comment out s c rest = ground arith
step-prepend (dollar (d ∷ tag)) out s c rest = ground arith
step-prepend _ out s c [] = ground arith
step-prepend _ out s c (d ∷ rest) = ground arith

advance-prepend :
    (k : ℕ) (out : List Text) (s : Scanner) (c : ℕ) (rest : Text)
    → advance k (prepend out s) c rest ≡ prepend out (advance k s c rest)
unfolding advance prepend
advance-prepend zero out s c rest = step-prepend s.mode out s c rest
advance-prepend (suc k) out s c rest = refl

scan-prepend :
    (out : List Text) (s : Scanner) (r : Text)
    → (flush (scan (prepend out s) r)).statements ≡ out ++ (flush (scan s r)).statements
unfolding scan flush prepend
scan-prepend out s [] = append_assoc out s.statements (trimmed s.builder)
scan-prepend out s (c ∷ r) =
    ap (λ x. (flush (scan x r)).statements) (advance-prepend s.skip out s c r)
    ∙ scan-prepend out (advance s.skip s c r) r

-- A text made of the segments of `IsClosed` and a separator behind it are one statement, or none if
-- the text is blank, and the file behind the separator is split on its own; so a semicolon within
-- such a segment does not cut. The segments are bytes other than quotes, dashes, slashes, dollar
-- signs and semicolons, string literals without a quote or a
-- backslash in them, quoted identifiers without a quote in them, line comments with their newline,
-- and dollar-quoted bodies without a dollar sign. Nothing is said of literals with doubled quotes
-- or backslashes, nor of block comments.
pub split-closed :
    {a : Text}
    → IsClosed a
    → (rest : Text)
    → split_sql_statements (a ++ b';' ∷ rest) ≡ trimmed a ++ split_sql_statements rest
unfolding split_sql_statements scan advance step step_normal flush prepend
split-closed {a} c rest =
    ap (λ x. (flush x).statements) (closed-copies c rest [] [])
    ∙ ap (λ x. (flush (scan (at normal [] x) rest)).statements) (sym (append-nil (trimmed a)))
    ∙ scan-prepend (trimmed a) start rest
