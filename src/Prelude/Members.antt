-- ===== src/Prelude/Members.antt =====
-- The members of a list of texts, one by one.
use across_backend_api.Prelude.{
  ◌≡◌, ◌≢◌, ◌⊎◌, inl, inr, true, List, [], ◌∷◌, Bool-cases, sym, arith,
}
use across_backend_api.Prelude.Text.{Text, text_eq, text_eq_sound, mem_text}

pub mem_text_nil : (s : Text) → mem_text s [] ≢ true
unfolding mem_text
mem_text_nil s h = absurd (ground arith)

pub mem_text_cons :
    (s t : Text) (ts : List Text) → mem_text s (t ∷ ts) ≡ true → (s ≡ t) ⊎ (mem_text s ts ≡ true)
unfolding mem_text
mem_text_cons s t ts h = elim (Bool-cases (text_eq t s)) [
  | inl same ↦ inl (sym (text_eq_sound t s same))
  | inr other ↦ inr (rw other at h)
]

pub mem_text_single : (s t : Text) → mem_text s (t ∷ []) ≡ true → s ≡ t
mem_text_single s t h = elim (mem_text_cons s t [] h) [
  | inl same ↦ same
  | inr more ↦ absurd (mem_text_nil s more)
]
