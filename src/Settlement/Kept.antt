-- ===== src/Settlement/Kept.antt =====
-- What a settlement keeps of a payment, row by row, internal/controllers/settlement_reconciliation.go.
use across_backend_api.Prelude.{
  ◌≡◌, refl, ◌∙◌, inl, inr, Bool, true, false, ◌&&◌, ◌||◌, List, [], ◌∷◌, arith, Bool-cases,
}
use across_backend_api.Prelude.Text.{Text, text_eq}
use across_backend_api.Settlement.Tables.{Payment, Entry}
use across_backend_api.Settlement.Apply.{
  is_settled, is_reversed, may_move, is_meant, settle_payment, update_payments,
}

-- Two lists of the same length that are related entry by entry.
abbrev pub Pointwise : {A : Type 0} → (A → A → Type 0) → List A → List A → Type 0
Pointwise R [] [] = Unit
Pointwise R (x ∷ xs) (y ∷ ys) = R x y × Pointwise R xs ys
Pointwise R _ _ = ⊥

pub Pointwise-refl :
    {A : Type 0} (R : A → A → Type 0) → ((x : A) → R x x) → (xs : List A) → Pointwise R xs xs
Pointwise-refl R r [] = tt
Pointwise-refl R r (x ∷ xs) = (r x, Pointwise-refl R r xs)

pub Pointwise-trans :
    {A : Type 0} (R : A → A → Type 0)
    → ((x y z : A) → R x y → R y z → R x z)
    → (xs ys zs : List A) → Pointwise R xs ys
    → Pointwise R ys zs
    → Pointwise R xs zs
Pointwise-trans R t [] [] [] p q = tt
Pointwise-trans R t (x ∷ xs) (y ∷ ys) (z ∷ zs) p q =
    (t x y z p.0 q.0, Pointwise-trans R t xs ys zs p.1 q.1)
Pointwise-trans R t [] [] (_ ∷ _) p q = absurd q
Pointwise-trans R t [] (_ ∷ _) _ p q = absurd p
Pointwise-trans R t (_ ∷ _) [] _ p q = absurd p
Pointwise-trans R t (_ ∷ _) (_ ∷ _) [] p q = absurd q

-- Money that was released or taken back.
abbrev pub is_final : Payment → Bool
is_final p = is_settled p.settlement_status || is_reversed p.settlement_status

-- What stays of a payment when a settlement of a seller's account is entered: its order, the money
-- paid and who gets it, and that its money was released or taken back, if it was; a payment of
-- another seller, or one that did not succeed, stays as it is.
pub record Keeps (subaccount : Text) (p p' : Payment) : Type 0 where
  pub order : p'.order ≡ p.order
  pub seller : p'.subaccount ≡ p.subaccount
  pub transaction : p'.transaction ≡ p.transaction
  pub success : p'.succeeded ≡ p.succeeded
  pub final : is_final p ≡ true → is_final p' ≡ true
  pub foreign : text_eq p.subaccount subaccount && p.succeeded ≡ false → p' ≡ p

pub Keeps-refl : (s : Text) (p : Payment) → Keeps s p p
Keeps-refl s p = record {
  order = refl;
  seller = refl;
  transaction = refl;
  success = refl;
  final = λ h. h;
  foreign = λ _. refl;
}

pub Keeps-trans : (s : Text) (p q r : Payment) → Keeps s p q → Keeps s q r → Keeps s p r
Keeps-trans s p q r a b = record {
  order = b.order ∙ a.order;
  seller = b.seller ∙ a.seller;
  transaction = b.transaction ∙ a.transaction;
  success = b.success ∙ a.success;
  final = λ h. b.final (a.final h);
  foreign = λ h. b.foreign (rw (a.seller, a.success) h) ∙ a.foreign h;
}

settle_payment-Keeps :
    (e : Entry) (p : Payment)
    → is_meant e p ≡ true
    → may_move e p ≡ true
    → Keeps e.subaccount p (settle_payment e p)
unfolding is_meant may_move
settle_payment-Keeps e p meant moves = record {
  order = refl;
  seller = refl;
  transaction = refl;
  success = refl;
  final = λ h. ground arith;
  foreign = λ h. absurd (ground arith);
}

pub update_payments-Keeps :
    (e : Entry) (ps : List Payment) → Pointwise (Keeps e.subaccount) ps (update_payments e ps).0
unfolding update_payments
update_payments-Keeps e [] = tt
update_payments-Keeps e (p ∷ ps) = elim (Bool-cases (is_meant e p && may_move e p)) [
  | inl hit ↦ rw hit (
    settle_payment-Keeps e p (ground arith) (ground arith),
    Pointwise-refl (Keeps e.subaccount) (Keeps-refl e.subaccount) ps,
  )
  | inr miss ↦ rw miss (Keeps-refl e.subaccount p, update_payments-Keeps e ps)
]
