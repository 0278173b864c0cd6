-- ===== src/Migrations/Splitter/Copies.antt =====
-- The lexer copies a segment byte for byte and is back in its normal state behind it.
use across_backend_api.Prelude.{
  ℕ, ◌-◌, ◌≡◌, refl, ap, ◌∙◌, Bool, true, false, some, List, [], ◌∷◌, ◌++◌, arith, length,
  append_assoc, append-nil,
}
use across_backend_api.Prelude.Text.{Text, has_prefix}
use mathlib.Core.Option
use across_backend_api.Migrations.Splitter.{
  Mode, normal, single_quote, double_quote, line_comment, dollar, Scanner, scan_dollar_tag, tag_end,
  step_normal, step, advance, scan, next_is, write,
}
use across_backend_api.Migrations.Splitter.Segment.{
  is_plain, all_bytes, other_than, is_literal, is_tag, tag_of, Segment, plain, literal, identifier,
  comment, dollar_quote, clashes,
}

abbrev pub at : Mode → Text → List Text → Scanner
at m b out = record { mode = m; builder = b; statements = out; skip = 0 }

-- Bytes that a mode copies one by one.
copy_body :
    (m : Mode) (ok : ℕ → Bool)
    → ((s : Scanner) (c : ℕ) (rest : Text) → ok c ≡ true → step m s c rest ≡ write s c)
    → (body r b : Text) (out : List Text) → all_bytes ok body ≡ true
    → scan (at m b out) (body ++ r) ≡ scan (at m (b ++ body) out) r
unfolding scan advance
copy_body m ok keep [] r b out h = rw append-nil
copy_body m ok keep (c ∷ body) r b out h =
    ap (λ x. scan x (body ++ r)) (keep (at m b out) c (body ++ r) (ground arith))
    ∙ copy_body m ok keep body r (b ++ c ∷ []) out (ground arith)
    ∙ ap (λ x. scan (at m x out) r) (append_assoc b (c ∷ []) body)

-- Bytes that were read ahead are passed over.
scan_skip :
    (m : Mode) (u r b : Text) (out : List Text)
    → scan (record { mode = m; builder = b; statements = out; skip = length u }) (u ++ r)
      ≡ scan (at m b out) r
unfolding scan advance
scan_skip m [] r b out = refl
scan_skip m (c ∷ u) r b out = scan_skip m u r b out

literal_byte :
    (s : Scanner) (c : ℕ) (rest : Text)
    → is_literal c ≡ true
    → step single_quote s c rest ≡ write s c
unfolding step
literal_byte s c rest h = ground arith

identifier_byte :
    (s : Scanner) (c : ℕ) (rest : Text)
    → other_than b'"' c ≡ true
    → step double_quote s c rest ≡ write s c
unfolding step
identifier_byte s c rest h = ground arith

comment_byte :
    (s : Scanner) (c : ℕ) (rest : Text)
    → other_than b'\n' c ≡ true
    → step line_comment s c rest ≡ write s c
unfolding step
comment_byte s c rest h = ground arith

plain_byte :
    (s : Scanner) (c : ℕ) (rest : Text) → is_plain c ≡ true → step normal s c rest ≡ write s c
unfolding step
plain_byte s c rest h = ground arith

dollar_byte :
    (tag : Text) (s : Scanner) (c : ℕ) (rest : Text)
    → other_than b'$' c ≡ true
    → step (dollar (b'$' ∷ tag)) s c rest ≡ write s c
unfolding step has_prefix
dollar_byte tag s c rest h = ground arith

tag_end_found :
    (tag r : Text)
    → all_bytes is_tag tag ≡ true
    → tag_end (tag ++ b'$' ∷ r) ≡ some (tag ++ b'$' ∷ [])
unfolding tag_end
tag_end_found [] r h = refl
tag_end_found (c ∷ tag) r h = ground (arith, tag_end_found tag r)

has_prefix_append : (p r : Text) → has_prefix (p ++ r) p ≡ true
unfolding has_prefix
has_prefix_append [] [] = refl
has_prefix_append [] (c ∷ r) = refl
has_prefix_append (c ∷ p) r = ground (arith, has_prefix_append p r)

next_is-append :
    (b : ℕ) (t r : Text) → next_is b t ≡ false → next_is b r ≡ false → next_is b (t ++ r) ≡ false
next_is-append b [] r h k = k
next_is-append b (c ∷ t) r h k = h

pub clashes-append :
    {u : Text} (g : Segment u) (t rest : Text)
    → clashes g t ≡ false
    → clashes g (t ++ b';' ∷ rest) ≡ false
clashes-append (literal body h) t rest q = next_is-append b'\'' t (b';' ∷ rest) q refl
clashes-append (identifier body h) t rest q = next_is-append b'"' t (b';' ∷ rest) q refl
clashes-append _ t rest q = refl

close_single :
    (s : Scanner) (r : Text)
    → next_is b'\'' r ≡ false
    → step single_quote s b'\'' r ≡ record (write s b'\'') { mode = normal }
unfolding step
close_single s r h = ground arith

close_double :
    (s : Scanner) (r : Text)
    → next_is b'"' r ≡ false
    → step double_quote s b'"' r ≡ record (write s b'"') { mode = normal }
unfolding step
close_double s r h = ground arith

-- Inside quotes: the opening byte has been read.
quoted :
    (m : Mode) (quote : ℕ) (ok : ℕ → Bool)
    → ((s : Scanner) (c : ℕ) (rest : Text) → ok c ≡ true → step m s c rest ≡ write s c)
    → (body r b : Text) (out : List Text) → all_bytes ok body ≡ true
    → ((s : Scanner) → step m s quote r ≡ record (write s quote) { mode = normal })
    → scan (at m b out) ((body ++ quote ∷ []) ++ r)
      ≡ scan (at normal (b ++ (body ++ quote ∷ [])) out) r
unfolding scan advance
quoted m quote ok keep body r b out h close =
    ap (scan (at m b out)) (append_assoc body (quote ∷ []) r)
    ∙ copy_body m ok keep body (quote ∷ r) b out h
    ∙ ap (λ x. scan x r) (close (at m (b ++ body) out))
    ∙ ap (λ x. scan (at normal x out) r) (append_assoc b body (quote ∷ []))

scan_dollar_tag_found :
    (tag r : Text)
    → all_bytes is_tag tag ≡ true
    → scan_dollar_tag (tag_of tag ++ r) ≡ some (tag_of tag)
unfolding scan_dollar_tag
scan_dollar_tag_found tag r h =
    ap (λ x. Option.map (◌∷◌ b'$') (tag_end x)) (append_assoc tag (b'$' ∷ []) r)
    ∙ ap (Option.map (◌∷◌ b'$')) (tag_end_found tag r h)

open_tag :
    (tag r b : Text) (out : List Text)
    → all_bytes is_tag tag ≡ true
    → step normal (at normal b out) b'$' ((tag ++ b'$' ∷ []) ++ r) ≡ record {
      mode = dollar (tag_of tag);
      builder = b ++ tag_of tag;
      statements = out;
      skip = length (tag ++ b'$' ∷ []);
    }
unfolding step step_normal
open_tag tag r b out h =
    let e : length (tag_of tag) - 1 ≡ length (tag ++ b'$' ∷ []) = omega arith in
    rw (scan_dollar_tag_found tag r h, e)

close_tag :
    (tag r b : Text) (out : List Text)
    → step (dollar (tag_of tag)) (at (dollar (tag_of tag)) b out) b'$' ((tag ++ b'$' ∷ []) ++ r)
      ≡ record {
        mode = normal;
        builder = b ++ tag_of tag;
        statements = out;
        skip = length (tag ++ b'$' ∷ []);
      }
unfolding step
close_tag tag r b out = rw (has_prefix_append (tag_of tag) r)

dollar_copies :
    (tag body r b : Text) (out : List Text)
    → all_bytes is_tag tag ≡ true
    → all_bytes (other_than b'$') body ≡ true
    → scan (at normal b out) ((tag_of tag ++ (body ++ tag_of tag)) ++ r)
      ≡ scan (at normal (b ++ (tag_of tag ++ (body ++ tag_of tag))) out) r
unfolding scan advance
dollar_copies tag body r b out h k =
    ap (scan (at normal b out)) (append_assoc t (body ++ t) r)
    ∙ ap (λ x. scan x (u ++ ((body ++ t) ++ r))) (open_tag tag ((body ++ t) ++ r) b out h)
    ∙ scan_skip m u ((body ++ t) ++ r) (b ++ t) out
    ∙ ap (scan (at m (b ++ t) out)) (append_assoc body t r)
    ∙ copy_body m (other_than b'$') (dollar_byte u) body (t ++ r) (b ++ t) out k
    ∙ ap (λ x. scan x (u ++ r)) (close_tag tag r (b ++ t ++ body) out)
    ∙ scan_skip normal u r (b ++ t ++ body ++ t) out
    ∙ ap (λ x. scan (at normal x out) r)
        (append_assoc (b ++ t) body t ∙ append_assoc b t (body ++ t))
  where
    u : Text
    u = tag ++ b'$' ∷ []

    t : Text
    t = tag_of tag

    m : Mode
    m = dollar t

pub Segment-copies :
    {u : Text} (g : Segment u) (r b : Text) (out : List Text)
    → clashes g r ≡ false
    → scan (at normal b out) (u ++ r) ≡ scan (at normal (b ++ u) out) r
unfolding scan advance step
Segment-copies (plain c h) r b out q =
    copy_body normal is_plain plain_byte (c ∷ []) r b out (ground arith)
Segment-copies (literal body h) r b out q =
    quoted single_quote b'\'' is_literal literal_byte body r (b ++ b'\'' ∷ []) out h
      (λ s. close_single s r q)
    ∙ ap (λ x. scan (at normal x out) r) (append_assoc b (b'\'' ∷ []) (body ++ b'\'' ∷ []))
Segment-copies (identifier body h) r b out q =
    quoted double_quote b'"' (other_than b'"') identifier_byte body r (b ++ b'"' ∷ []) out h
      (λ s. close_double s r q)
    ∙ ap (λ x. scan (at normal x out) r) (append_assoc b (b'"' ∷ []) (body ++ b'"' ∷ []))
Segment-copies (comment body h) r b out q =
    quoted line_comment b'\n' (other_than b'\n') comment_byte body r (b ++ b'-' ∷ b'-' ∷ []) out h
      (λ s. refl)
    ∙ ap (λ x. scan (at normal x out) r) (append_assoc b (b'-' ∷ b'-' ∷ []) (body ++ b'\n' ∷ []))
Segment-copies (dollar_quote tag body h k) r b out q = dollar_copies tag body r b out h k
