-- ===== src/Email/Posting.antt =====
-- Where the mails of a batch go, internal/services/email_outbox.go.
use across_backend_api.Prelude.{
  ℕ, ◌≡◌, refl, sym, ap, subst, ◌∙◌, inl, inr, Bool, true, false, Option, none, some, List, [], ◌∷◌,
  ◌++◌, Bool-cases, All, All-append, append_assoc,
}
use across_backend_api.Prelude.Text.{Text, codes, mem_text}
use across_backend_api.Prelude.Outcome.{Outcome-cases}
use across_backend_api.Email.Outbox.{Mail, Mailbox}
use across_backend_api.Email.Claims.{Sender, DeliveryFaults, claim_items}
use across_backend_api.Email.Delivery.{
  BatchFaults, fail_email, retry_email, record_sending, deliver_owned, owned_item, deliver_email,
  deliver_items, run_email_delivery_batch, swept, claimed,
}

-- From one box to another, mails went out to addresses that are not suppressed, and to no others.
abbrev pub Posts : Mailbox → Mailbox → Type 0
Posts box box' =
    (box'.suppressions ≡ box.suppressions)
    × (new : List (Text × Text)) × (box'.posted ≡ new ++ box.posted)
    × All (λ p. mem_text p.0 box.suppressions ≡ false) new

no-Posts :
    (box box' : Mailbox)
    → box'.suppressions ≡ box.suppressions
    → box'.posted ≡ box.posted
    → Posts box box'
no-Posts box box' s p = (s, [], p, tt)

fail_email-Posts :
    (fails : Bool) (item : Mail) (message : Text) (box : Mailbox)
    → Posts box (fail_email fails item message box).0
unfolding fail_email
fail_email-Posts true item message box = no-Posts box box refl refl
fail_email-Posts false item message box = (refl, [], refl, tt)

retry_email-Posts :
    (fails : Bool) (now : ℕ) (item : Mail) (message : Text) (box : Mailbox)
    → Posts box (retry_email fails now item message box).0
unfolding retry_email
retry_email-Posts true now item message box = (refl, [], refl, tt)
retry_email-Posts false now item message box = (refl, [], refl, tt)

record_sending-Posts :
    (fails : Bool) (now : ℕ) (item : Mail) (answer : Option Text) (box : Mailbox)
    → mem_text item.recipient_email box.suppressions ≡ false
    → Posts box (record_sending fails now item answer box).0
unfolding record_sending
record_sending-Posts fails now item (some e) box h = retry_email-Posts fails now item e box
record_sending-Posts true now item none box h =
    (refl, (item.recipient_email, item.id) ∷ [], refl, (h, tt))
record_sending-Posts false now item none box h =
    (refl, (item.recipient_email, item.id) ∷ [], refl, (h, tt))

deliver_owned-Posts :
    (send : Sender) (fails : DeliveryFaults) (now : ℕ) (item : Mail) (box : Mailbox)
    → Posts box (deliver_owned send fails now item box).0
unfolding deliver_owned
deliver_owned-Posts send fails now item box = elim (Bool-cases fails.lookup) [
  | inl f ↦ rw f (retry_email-Posts fails.update now item (codes "database") box)
  | inr f ↦ elim (Bool-cases (mem_text item.recipient_email box.suppressions)) [
    | inl listed ↦ elim (Bool-cases fails.update) [
      | inl u ↦ rw (f, listed, u) (no-Posts box box refl refl)
      | inr u ↦ rw (f, listed, u) (refl, [], refl, tt)
    ]
    | inr free ↦ rw (f, free) (record_sending-Posts fails.update now item _ box free)
  ]
]

deliver_email-Posts :
    (send : Sender) (fails : DeliveryFaults) (now : ℕ) (item : Mail) (box : Mailbox)
    → Posts box (deliver_email send fails now item box).0
unfolding deliver_email
deliver_email-Posts send fails now item box =
    elim (Outcome-cases (owned_item fails.owner item item.user box.accounts)) [
      | inl (owned, e) ↦ rw e (deliver_owned-Posts send fails now owned box)
      | inr (message, e) ↦ rw e (fail_email-Posts fails.update item message box)
    ]

Posts-trans : (a b c : Mailbox) → Posts a b → Posts b c → Posts a c
Posts-trans a b c (s, new, p, h) (s', new', p', h') = (
  s' ∙ s,
  new' ++ new,
  p' ∙ (ap (λ z. new' ++ z) p ∙ sym (append_assoc new' new a.posted)),
  All-append _ new' new (subst (λ z. All (λ q. mem_text q.0 z ≡ false) new') s h') h,
)

deliver_items-Posts :
    (send : Sender) (fails : Text → DeliveryFaults) (now : ℕ) (items : List Mail) (box : Mailbox)
    → Posts box (deliver_items send fails now items box).0
deliver_items-Posts send fails now [] box = no-Posts box box refl refl
deliver_items-Posts send fails now (i ∷ more) box =
    let one = (deliver_email send (fails i.id) now i box).0 in
    Posts-trans box one (deliver_items send fails now more one).0
      (deliver_email-Posts send (fails i.id) now i box)
      (deliver_items-Posts send fails now more one)

-- A batch posts mails only to addresses that are not on the suppression list, whatever statements
-- fail and whatever the SMTP server answers.
pub run_email_delivery_batch-Posts :
    (send : Sender) (fails : BatchFaults) (now : ℕ) (box : Mailbox)
    → Posts box (run_email_delivery_batch send fails now box).0
unfolding run_email_delivery_batch
run_email_delivery_batch-Posts send fails now box = elim (Bool-cases fails.expire) [
  | inl a ↦ rw a (refl, [], refl, tt)
  | inr a ↦ elim (Bool-cases fails.suppress) [
    | inl b ↦ rw (a, b) (refl, [], refl, tt)
    | inr b ↦ elim (Bool-cases fails.claim) [
      | inl c ↦ rw (a, b, c) (refl, [], refl, tt)
      | inr c ↦
          rw (a, b, c)
            (deliver_items-Posts send fails.deliveries now (claim_items now (swept now box).outbox)
              (claimed now (swept now box)))
    ]
  ]
]
