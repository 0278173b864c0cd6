-- ===== src/Email/Effects.antt =====
-- Deliveries in another order, internal/services/email_outbox.go.
use across_backend_api.Prelude.{
  ℕ, ◌≡◌, refl, sym, ap, subst, ◌∙◌, inl, inr, false, List, [], ◌∷◌, ◌++◌, Bool-cases,
}
use across_backend_api.Prelude.Text.{Text, text_eq, text_eq_sound}
use across_backend_api.Email.Outbox.{Mail, Mailbox}
use across_backend_api.Email.Claims.{Sender, DeliveryFaults}
use across_backend_api.Email.Delivery.{set_mail, deliver_email, deliver_items}
use across_backend_api.Email.Effect.{deliver_email-Effect}

-- Boxes that agree but for the mails that went out.
abbrev pub Agree : Mailbox → Mailbox → Type 0
Agree a b = (a.outbox ≡ b.outbox) × (a.accounts ≡ b.accounts) × (a.suppressions ≡ b.suppressions)

set_mail-set_mail :
    (i j : Text) (f g : Mail → Mail)
    → text_eq i j ≡ false
    → ((m : Mail) → (f m).id ≡ m.id)
    → ((m : Mail) → (g m).id ≡ m.id)
    → (rows : List Mail) → set_mail i f (set_mail j g rows) ≡ set_mail j g (set_mail i f rows)
unfolding set_mail
set_mail-set_mail i j f g differ kf kg [] = refl
set_mail-set_mail i j f g differ kf kg (m ∷ more) =
    let rest = set_mail-set_mail i j f g differ kf kg more in
    elim (Bool-cases (text_eq m.id i)) [
      | inl a ↦
          let b : text_eq m.id j ≡ false =
            subst (λ k. text_eq k j ≡ false) (sym (text_eq_sound m.id i a)) differ in
          rw (a, b, ap (λ k. text_eq k j) (kf m), b, a, rest) refl
      | inr a ↦ elim (Bool-cases (text_eq m.id j)) [
        | inl b ↦ rw (a, b, ap (λ k. text_eq k i) (kg m), a, rest) refl
        | inr b ↦ rw (a, b, a, rest) refl
      ]
    ]

-- A delivery reads no more of a box than `Agree` compares.
deliver_email-Agree :
    (send : Sender) (fails : DeliveryFaults) (now : ℕ) (item : Mail) (a b : Mailbox)
    → Agree a b
    → Agree (deliver_email send fails now item a).0 (deliver_email send fails now item b).0
deliver_email-Agree send fails now item a b (o, c, s) =
    let (f, keeps, runs) = deliver_email-Effect b.accounts b.suppressions send fails now item in
    let (oa, ca, sa) = runs a c s in
    let (ob, cb, sb) = runs b refl refl in
    (oa ∙ (ap (set_mail item.id f) o ∙ sym ob), ca ∙ (c ∙ sym cb), sa ∙ (s ∙ sym sb))

deliver_items-Agree :
    (send : Sender) (fails : Text → DeliveryFaults) (now : ℕ) (items : List Mail) (a b : Mailbox)
    → Agree a b
    → Agree (deliver_items send fails now items a).0 (deliver_items send fails now items b).0
deliver_items-Agree send fails now [] a b h = h
deliver_items-Agree send fails now (i ∷ more) a b h =
    deliver_items-Agree send fails now more (deliver_email send (fails i.id) now i a).0
      (deliver_email send (fails i.id) now i b).0
      (deliver_email-Agree send (fails i.id) now i a b h)

deliver_email-swap :
    (send : Sender) (fails : Text → DeliveryFaults) (now : ℕ) (i j : Mail) (box : Mailbox)
    → text_eq i.id j.id ≡ false
    → Agree
        (deliver_email send (fails j.id) now j (deliver_email send (fails i.id) now i box).0).0
        (deliver_email send (fails i.id) now i (deliver_email send (fails j.id) now j box).0).0
deliver_email-swap send fails now i j box differ =
    let (f, kf, run_i) =
      deliver_email-Effect box.accounts box.suppressions send (fails i.id) now i in
    let (g, kg, run_j) =
      deliver_email-Effect box.accounts box.suppressions send (fails j.id) now j in
    let one = (deliver_email send (fails i.id) now i box).0 in
    let other = (deliver_email send (fails j.id) now j box).0 in
    let (o1, a1, s1) = run_i box refl refl in
    let (o2, a2, s2) = run_j box refl refl in
    let (o3, a3, s3) = run_j one a1 s1 in
    let (o4, a4, s4) = run_i other a2 s2 in
    (
      o3
          ∙ (ap (set_mail j.id g) o1
              ∙ (sym (set_mail-set_mail i.id j.id f g differ kf kg box.outbox)
                  ∙ (sym (ap (set_mail i.id f) o2) ∙ sym o4))),
      a3 ∙ (a1 ∙ (sym a2 ∙ sym a4)),
      s3 ∙ (s1 ∙ (sym s2 ∙ sym s4)),
    )

-- Two deliveries of a batch that follow each other can change places when they are of different
-- rows: the outbox, the accounts and the suppressions are the same at the end of the batch. So the
-- order in which the goroutines finish does not matter.
pub deliver_items-swap :
    (send : Sender) (fails : Text → DeliveryFaults) (now : ℕ) (before after : List Mail)
    (i j : Mail) (box : Mailbox)
    → text_eq i.id j.id ≡ false
    → Agree
        (deliver_items send fails now (before ++ i ∷ j ∷ after) box).0
        (deliver_items send fails now (before ++ j ∷ i ∷ after) box).0
deliver_items-swap send fails now [] after i j box differ =
    deliver_items-Agree send fails now after
      (deliver_email send (fails j.id) now j (deliver_email send (fails i.id) now i box).0).0
      (deliver_email send (fails i.id) now i (deliver_email send (fails j.id) now j box).0).0
      (deliver_email-swap send fails now i j box differ)
deliver_items-swap send fails now (b ∷ before) after i j box differ =
    deliver_items-swap send fails now before after i j (deliver_email send (fails b.id) now b box).0
      differ
