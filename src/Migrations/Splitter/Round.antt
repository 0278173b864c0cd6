-- ===== src/Migrations/Splitter/Round.antt =====
-- What a step of the scanner does to the text, internal/migrations/runner.go.
use across_backend_api.Prelude.{
  ℕ, zero, suc, ◌-◌, ◌≡◌, refl, ap, ◌∙◌, ◌≢◌, inl, inr, Bool, true, ◌&&◌, none, some, List, [], ◌∷◌,
  ◌++◌, arith, ◌==◌, if◌then◌else◌, ==_iff, Option-cases, if_branches, length, drop, append_assoc,
}
use across_backend_api.Prelude.Text.{Text, has_prefix}
use across_backend_api.Migrations.Splitter.{
  Mode, normal, single_quote, double_quote, line_comment, block_comment, dollar, Scanner,
  scan_dollar_tag, tag_end, step_normal, step, flush, trimmed, next_is, write, write_two,
}

pub drop-nil : (n : ℕ) → drop {A = ℕ} n [] ≡ []
drop-nil zero = refl
drop-nil (suc n) = refl

-- The pieces put back together with the separators between them.
abbrev pub join : Text → List Text → Text
join p [] = p
join p (q ∷ qs) = p ++ b';' ∷ join q qs

-- What the pieces come to: each is trimmed, and blank ones are dropped.
abbrev pub kept : List Text → List Text
kept [] = []
kept (p ∷ ps) = trimmed p ++ kept ps

-- A round either moves bytes into the builder or closes a piece at a separator.
pub data Round (s : Scanner) (c : ℕ) (rest : Text) (t : Scanner) : Type 0 where
  moves :
      t.statements ≡ s.statements
      → t.builder ++ drop t.skip rest ≡ s.builder ++ c ∷ rest
      → Round s c rest t
  closes :
      c ≡ b';'
      → t.statements ≡ s.statements ++ trimmed s.builder
      → t.builder ≡ []
      → t.skip ≡ 0
      → Round s c rest t

has_prefix_split : (s p : Text) → has_prefix s p ≡ true → p ++ drop (length p) s ≡ s
unfolding has_prefix
has_prefix_split s [] h = refl
has_prefix_split [] (b ∷ p) h = ground arith
has_prefix_split (a ∷ s) (b ∷ p) h = ground (arith, has_prefix_split s p)

tag_end_split : (s : Text) {t : Text} → tag_end s ≡ some t → t ++ drop (length t) s ≡ s
unfolding tag_end
tag_end_split [] h = cc
tag_end_split (c ∷ s) {t} h = elim (Option-cases (tag_end s)) [
  | inl e ↦ ground arith
  | inr (u, e) ↦ ground (arith, tag_end_split s e)
]

write_moves :
    (s t : Scanner) (c : ℕ) (rest : Text)
    → t.statements ≡ s.statements
    → t.builder ≡ s.builder ++ c ∷ []
    → t.skip ≡ 0
    → Round s c rest t
write_moves s t c rest a b k = moves a (rw (b, k) (append_assoc s.builder (c ∷ []) rest))

write_two_moves :
    (s t : Scanner) (c : ℕ) (rest : Text)
    → t.statements ≡ s.statements
    → t.builder ≡ (write_two s c rest).builder
    → t.skip ≡ (write_two s c rest).skip
    → s.skip ≡ 0
    → Round s c rest t
write_two_moves s t c [] a b k z = write_moves s t c [] a b (k ∙ z)
write_two_moves s t c (d ∷ rest) a b k z =
    moves a (rw (b, k) (append_assoc s.builder (c ∷ d ∷ []) rest))

-- A dollar tag that is found stands at the front of the text.
scan_dollar_tag_split :
    (s : Text) {t : Text} → scan_dollar_tag s ≡ some t → t ++ drop (length t) s ≡ s
unfolding scan_dollar_tag
scan_dollar_tag_split [] h = cc
scan_dollar_tag_split (c ∷ s) {t} h = elim (Option-cases (tag_end s)) [
  | inl e ↦ ground arith
  | inr (u, e) ↦ ground (arith, tag_end_split s e)
]

tag_moves :
    (s t : Scanner) (tag : Text) (c : ℕ) (rest : Text)
    → t.statements ≡ s.statements
    → t.builder ≡ s.builder ++ tag
    → t.skip ≡ length tag - 1
    → tag ≢ []
    → tag ++ drop (length tag) (c ∷ rest) ≡ c ∷ rest
    → Round s c rest t
tag_moves s t [] c rest a b k ne e = absurd (ne refl)
tag_moves s t (d ∷ tag) c rest a b k ne e =
    let k' : t.skip ≡ length tag = omega arith in
    moves a (
      rw (b, k')
        (append_assoc s.builder (d ∷ tag) (drop (length tag) rest) ∙ ap (◌++◌ s.builder) e))

scan_dollar_tag_ne : (s : Text) {t : Text} → scan_dollar_tag s ≡ some t → t ≢ []
unfolding scan_dollar_tag
scan_dollar_tag_ne [] h e = cc
scan_dollar_tag_ne (c ∷ s) h e = ground arith

-- One byte written, whatever the mode becomes.
one-Round :
    (s t : Scanner) (c : ℕ) (rest : Text)
    → s.skip ≡ 0
    → t.statements ≡ s.statements
    → t.builder ≡ s.builder ++ c ∷ []
    → t.skip ≡ s.skip
    → Round s c rest t
one-Round s t c rest z a b k = write_moves s t c rest a b (k ∙ z)

write_two-statements :
    (s : Scanner) (c : ℕ) (rest : Text) → (write_two s c rest).statements ≡ s.statements
write_two-statements s c [] = refl
write_two-statements s c (d ∷ rest) = refl

pair-Round :
    (s : Scanner) (c : ℕ) (rest : Text) (m : Mode)
    → s.skip ≡ 0
    → Round s c rest (record (write_two s c rest) { mode = m })
pair-Round s c rest m z = write_two_moves s _ c rest (write_two-statements s c rest) refl refl z

-- A closing quote, or a doubled one.
close-Round :
    (s : Scanner) (c : ℕ) (rest : Text) (quote : ℕ)
    → s.skip ≡ 0
    → Round s c rest
        (if next_is quote rest then write_two s c rest else record (write s c) { mode = normal })
close-Round s c rest quote z =
    if_branches (Round s c rest) (next_is quote rest)
      (λ _. write_two_moves s _ c rest (write_two-statements s c rest) refl refl z)
      (λ _. one-Round s _ c rest z refl refl refl)

-- Two bytes written if the second is there, and else one.
two-Round :
    (s : Scanner) (c : ℕ) (rest : Text) (b : Bool) (m : Mode)
    → s.skip ≡ 0
    → Round s c rest (if b then record (write_two s c rest) { mode = m } else write s c)
two-Round s c rest b m z =
    if_branches (Round s c rest) b
      (λ _. write_two_moves s _ c rest (write_two-statements s c rest) refl refl z)
      (λ _. one-Round s _ c rest z refl refl refl)

tag-Round :
    (s : Scanner) (c : ℕ) (rest : Text)
    → s.skip ≡ 0
    → Round s c rest (elim (scan_dollar_tag (c ∷ rest)) [
      | none ↦ write s c
      | some tag ↦ record s { mode = dollar tag; builder = s.builder ++ tag; skip = length tag - 1 }
    ])
tag-Round s c rest z = elim (Option-cases (scan_dollar_tag (c ∷ rest))) [
  | inl e ↦ rw e (one-Round s _ c rest z refl refl refl)
  | inr (tag, e) ↦ rw e (
      tag_moves s _ tag c rest refl refl refl (scan_dollar_tag_ne (c ∷ rest) e)
        (scan_dollar_tag_split (c ∷ rest) e))
]

step_normal-Round :
    (s : Scanner) (c : ℕ) (rest : Text) → s.skip ≡ 0 → Round s c rest (step_normal s c rest)
unfolding step_normal flush
step_normal-Round s c rest z =
    if_branches R (c == b'\'') (λ _. one-Round s _ c rest z refl refl refl)
      λ _.
        if_branches R (c == b'"') (λ _. one-Round s _ c rest z refl refl refl)
          λ _.
            if_branches R (c == b'-') (λ _. two-Round s c rest (next_is b'-' rest) _ z)
              λ _.
                if_branches R (c == b'/') (λ _. two-Round s c rest (next_is b'*' rest) _ z)
                  λ _.
                    if_branches R (c == b'$') (λ _. tag-Round s c rest z)
                      λ _.
                        if_branches R (c == b';') (λ e. closes ((==_iff c b';').0 e) refl refl z)
                          (λ _. one-Round s _ c rest z refl refl refl)
  where
    R : Scanner → Type 0
    R = Round s c rest

-- Every round of the loop, in every mode.
pub step-Round :
    (m : Mode) (s : Scanner) (c : ℕ) (rest : Text) → s.skip ≡ 0 → Round s c rest (step m s c rest)
unfolding step
step-Round normal s c rest z = step_normal-Round s c rest z
step-Round line_comment s c rest z =
    if_branches (Round s c rest) (c == b'\n') (λ _. one-Round s _ c rest z refl refl refl)
      (λ _. one-Round s _ c rest z refl refl refl)
step-Round (block_comment zero) s c rest z = step_normal-Round s c rest z
step-Round (block_comment (suc d)) s c rest z =
    if_branches (Round s c rest) (c == b'/' && next_is b'*' rest) (λ _. pair-Round s c rest _ z)
      (λ _. two-Round s c rest (c == b'*' && next_is b'/' rest) _ z)
step-Round (dollar []) s c rest z = step_normal-Round s c rest z
step-Round (dollar (d ∷ tag)) s c rest z =
    if_branches (Round s c rest) (has_prefix (c ∷ rest) (d ∷ tag))
      (λ e.
        tag_moves s _ (d ∷ tag) c rest refl refl (omega arith) (λ q. cc)
          (has_prefix_split (c ∷ rest) (d ∷ tag) e))
      (λ _. one-Round s _ c rest z refl refl refl)
step-Round single_quote s c rest z =
    if_branches (Round s c rest) (c == b'\\')
      (λ _. write_two_moves s _ c rest (write_two-statements s c rest) refl refl z)
      λ _.
        if_branches (Round s c rest) (c == b'\'') (λ _. close-Round s c rest b'\'' z)
          (λ _. one-Round s _ c rest z refl refl refl)
step-Round double_quote s c rest z =
    if_branches (Round s c rest) (c == b'"') (λ _. close-Round s c rest b'"' z)
      (λ _. one-Round s _ c rest z refl refl refl)
