-- ===== src/Migrations/Runner/Pending.antt =====
-- The migrations that are not applied yet, internal/migrations/runner.go.
use across_backend_api.Prelude.{
  ◌≡◌, refl, ◌∙◌, inl, inr, true, false, not, ◌||◌, List, [], ◌∷◌, ◌++◌, arith, Bool-cases,
  filter_by, All,
}
use across_backend_api.Prelude.Text.{Text, text_eq_refl, text_eq_sound, mem_text}

-- No name stands twice.
abbrev pub Distinct : List Text → Type 0
Distinct [] = Unit
Distinct (n ∷ ns) = (mem_text n ns ≡ false) × Distinct ns

-- The names that the ledger lacks.
abbrev pub pending : List Text → List Text → List Text
pending applied ns = filter_by (λ n. not (mem_text n applied)) ns

mem_text-append :
    (x : Text) (ns ms : List Text) → mem_text x (ns ++ ms) ≡ (mem_text x ns || mem_text x ms)
unfolding mem_text
mem_text-append x [] ms = refl
mem_text-append x (n ∷ ns) ms = ground (arith, mem_text-append x ns ms)

pub mem_text-pending :
    (x : Text) (applied ns : List Text)
    → mem_text x ns ≡ false
    → mem_text x (pending applied ns) ≡ false
unfolding mem_text
mem_text-pending x applied [] h = refl
mem_text-pending x applied (n ∷ ns) h = ground (arith, mem_text-pending x applied ns)

abbrev pub Lacks : List Text → Text → Type 0
Lacks ledger n = mem_text n ledger ≡ false

pub Lacks-step :
    (n : Text) (ledger ns : List Text)
    → mem_text n ns ≡ false
    → All (Lacks ledger) ns
    → All (Lacks (ledger ++ n ∷ [])) ns
unfolding mem_text
Lacks-step n ledger [] h a = tt
Lacks-step n ledger (m ∷ ns) h a = (
  ground (arith, mem_text-append m ledger (n ∷ []), text_eq_sound n m, text_eq_refl m),
  Lacks-step n ledger ns (ground arith) a.1,
)

pub pending-Lacks : (ledger ns : List Text) → All (Lacks ledger) (pending ledger ns)
pending-Lacks ledger [] = tt
pending-Lacks ledger (n ∷ ns) = elim (Bool-cases (mem_text n ledger)) [
  | inl old ↦ rw old (pending-Lacks ledger ns)
  | inr new ↦ rw new (new, pending-Lacks ledger ns)
]

pending-mem :
    (x : Text) (ledger ns : List Text)
    → mem_text x ns ≡ true
    → (mem_text x ledger || mem_text x (pending ledger ns)) ≡ true
unfolding mem_text
pending-mem x ledger [] h = cc
pending-mem x ledger (n ∷ ns) h = ground (arith, text_eq_sound n x, pending-mem x ledger ns)

All-mem_text :
    (P : Text → Type 0) (ns : List Text) → ((x : Text) → mem_text x ns ≡ true → P x) → All P ns
unfolding mem_text
All-mem_text P [] h = tt
All-mem_text P (n ∷ ns) h =
    (h n (ground (arith, text_eq_refl n)), All-mem_text P ns (λ x m. h x (ground (arith, m))))

-- Old and pending names together are all names.
pub pending-covers :
    (ledger ns : List Text) → All (λ n. mem_text n (ledger ++ pending ledger ns) ≡ true) ns
pending-covers ledger ns =
    All-mem_text _ ns
      λ x m. mem_text-append x ledger (pending ledger ns) ∙ pending-mem x ledger ns m
