-- ===== src/Migrations/Splitter/Lossless.antt =====
-- The statements of a file as its pieces between separators, internal/migrations/runner.go.
use across_backend_api.Prelude.{
  ℕ, zero, suc, ◌≡◌, refl, ap, ◌∙◌, List, [], ◌∷◌, ◌++◌, drop, append_assoc, append-nil,
}
use across_backend_api.Prelude.Text.{Text}
use across_backend_api.Migrations.Splitter.{
  Scanner, advance, scan, flush, trimmed, start, split_sql_statements,
}
use across_backend_api.Migrations.Splitter.Round.{
  drop-nil, join, kept, Round, moves, closes, step-Round,
}

-- The pieces of what is left of the file, `b` bytes of it in the builder.
abbrev Lossless : List Text → Text → Scanner → Text → Type 0
Lossless before b t r =
    (p : Text) × (ps : List Text) × ((flush (scan t r)).statements ≡ before ++ kept (p ∷ ps))
    × (join p ps ≡ b)

Round-Lossless :
    {s : Scanner} {c : ℕ} {r : Text} {t : Scanner}
    → Round s c r t
    → Lossless t.statements (t.builder ++ drop t.skip r) t r
    → Lossless s.statements (s.builder ++ c ∷ r) t r
Round-Lossless {s} (moves a b) (p, ps, e, j) = (p, ps, e ∙ ap (λ x. x ++ kept (p ∷ ps)) a, j ∙ b)
Round-Lossless {s} {c} {r} {t} (closes semicolon a b k) (p, ps, e, j) = (
  s.builder,
  p ∷ ps,
  e ∙ rw a (append_assoc s.statements (trimmed s.builder) (kept (p ∷ ps))),
  rw (semicolon, j, b, k),
)

advance-Lossless :
    (s : Scanner) (c : ℕ) (r : Text) (k : ℕ)
    → s.skip ≡ k
    → ((t : Scanner) → Lossless t.statements (t.builder ++ drop t.skip r) t r)
    → Lossless s.statements (s.builder ++ drop k (c ∷ r)) (advance k s c r) r
unfolding advance
advance-Lossless s c r zero z ih = Round-Lossless (step-Round s.mode s c r z) (ih _)
advance-Lossless s c r (suc k) z ih = ih (record s { skip = k })

scan-Lossless : (r : Text) (s : Scanner) → Lossless s.statements (s.builder ++ drop s.skip r) s r
unfolding scan flush
scan-Lossless [] s =
    (s.builder, [], rw (append-nil (trimmed s.builder)), rw (drop-nil s.skip, append-nil s.builder))
scan-Lossless (c ∷ r) s = advance-Lossless s c r s.skip refl (scan-Lossless r)

-- The statements are the trimmed, non-blank pieces of a cut of the file at some of its
-- semicolons: put back together, the pieces are the file, byte for byte.
pub split-lossless :
    (input : Text)
    → (p : Text) × (ps : List Text) × (split_sql_statements input ≡ kept (p ∷ ps))
      × (join p ps ≡ input)
unfolding split_sql_statements
split-lossless input = scan-Lossless input start
