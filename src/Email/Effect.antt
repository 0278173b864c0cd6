-- ===== src/Email/Effect.antt =====
-- A delivery as an update of its own row, internal/services/email_outbox.go.
use across_backend_api.Prelude.{
  ℕ, ◌≡◌, refl, sym, inl, inr, Bool, true, false, Option, none, some, List, [], ◌∷◌, arith,
  Bool-cases,
}
use across_backend_api.Prelude.Text.{Text, codes, text_eq, mem_text}
use across_backend_api.Prelude.Outcome.{Outcome, ok, Outcome-cases}
use across_backend_api.Email.Outbox.{Mail, Account, Mailbox, Queued, find_account}
use across_backend_api.Email.Claims.{Sender, DeliveryFaults, suppress_row}
use across_backend_api.Email.Delivery.{
  set_mail, fail_email, retry_email, record_sending, deliver_owned, owned_item, current_owner,
  deliver_email, retry_row,
}

-- What a delivery does to the outbox of a box with these accounts and suppressions.
abbrev pub Effect : Text → List Account → List Text → (Mailbox → Queued) → Type 0
Effect id accounts suppressions run =
    (f : Mail → Mail) × ((m : Mail) → (f m).id ≡ m.id)
    × ((box : Mailbox)
        → box.accounts ≡ accounts
        → box.suppressions ≡ suppressions
        → ((run box).0.outbox ≡ set_mail id f box.outbox)
          × ((run box).0.accounts ≡ box.accounts)
          × ((run box).0.suppressions ≡ box.suppressions))

set_mail-same : (id : Text) (rows : List Mail) → set_mail id (λ m. m) rows ≡ rows
unfolding set_mail
set_mail-same id [] = refl
set_mail-same id (m ∷ more) = elim (Bool-cases (text_eq m.id id)) [
  | inl e ↦ rw (e, set_mail-same id more) refl
  | inr e ↦ rw (e, set_mail-same id more) refl
]

current_owner-id :
    (fails : Bool) (item owned : Mail) (a : Option Account)
    → current_owner fails item a ≡ ok owned
    → owned.id ≡ item.id
unfolding current_owner
current_owner-id fails item owned none e = absurd (ground arith)
current_owner-id true item owned (some a) e = absurd (ground arith)
current_owner-id false item owned (some a) e = ground arith

module _ (accounts : List Account) (suppressions : List Text) where
  fail_email-Effect :
      (fails : Bool) (item : Mail) (message : Text)
      → Effect item.id accounts suppressions (fail_email fails item message)
  unfolding fail_email
  fail_email-Effect true item message =
      (λ m. m, λ m. refl, λ box a s. (sym (set_mail-same item.id box.outbox), refl, refl))
  fail_email-Effect false item message = (_, λ m. refl, λ box a s. (refl, refl, refl))

  retry_email-Effect :
      (fails : Bool) (now : ℕ) (item : Mail) (message : Text)
      → Effect item.id accounts suppressions (retry_email fails now item message)
  unfolding retry_email retry_row
  retry_email-Effect true now item message =
      (λ m. m, λ m. refl, λ box a s. (sym (set_mail-same item.id box.outbox), refl, refl))
  retry_email-Effect false now item message =
      (retry_row now item.attempts message, λ m. refl, λ box a s. (refl, refl, refl))

  record_sending-Effect :
      (fails : Bool) (now : ℕ) (item : Mail) (answer : Option Text)
      → Effect item.id accounts suppressions (record_sending fails now item answer)
  unfolding record_sending
  record_sending-Effect fails now item (some e) = retry_email-Effect fails now item e
  record_sending-Effect true now item none =
      (λ m. m, λ m. refl, λ box a s. (sym (set_mail-same item.id box.outbox), refl, refl))
  record_sending-Effect false now item none = (_, λ m. refl, λ box a s. (refl, refl, refl))

  mem_at :
      {b : Bool} (email : Text) (listed : List Text)
      → listed ≡ suppressions
      → mem_text email suppressions ≡ b
      → mem_text email listed ≡ b
  mem_at email listed s h = rw s h

  deliver_owned-Effect :
      (send : Sender) (fails : DeliveryFaults) (now : ℕ) (item : Mail)
      → Effect item.id accounts suppressions (deliver_owned send fails now item)
  unfolding deliver_owned
  deliver_owned-Effect send fails now item = elim (Bool-cases fails.lookup) [
    | inl f ↦ rw f (retry_email-Effect fails.update now item (codes "database"))
    | inr f ↦ elim (Bool-cases (mem_text item.recipient_email suppressions)) [
      | inl listed ↦ elim (Bool-cases fails.update) [
        | inl u ↦ (
          λ m. m,
          λ m. refl,
          λ box a s.
              rw (f, mem_at item.recipient_email box.suppressions s listed, u)
                (sym (set_mail-same item.id box.outbox), refl, refl),
        )
        | inr u ↦ (
          suppress_row,
          λ m. refl,
          λ box a s.
              rw (f, mem_at item.recipient_email box.suppressions s listed, u) (refl, refl, refl),
        )
      ]
      | inr free ↦
          let (g, keeps, runs) =
            record_sending-Effect fails.update now item
              (send item.recipient_email item.recipient_name item) in
          (
            g,
            keeps,
            λ box a s. rw (f, mem_at item.recipient_email box.suppressions s free) (runs box a s),
          )
    ]
  ]

  owned_item-id :
      (fails : Bool) (item owned : Mail) (user : Option Text)
      → owned_item fails item user accounts ≡ ok owned
      → owned.id ≡ item.id
  unfolding owned_item
  owned_item-id fails item owned none e = ground arith
  owned_item-id fails item owned (some u) e =
      current_owner-id fails item owned (find_account u accounts) e

  owned_at :
      (fails : Bool) (item : Mail) (user : Option Text) {r : Outcome Text Mail}
      (known : List Account)
      → known ≡ accounts
      → owned_item fails item user accounts ≡ r
      → owned_item fails item user known ≡ r
  owned_at fails item user known a h = rw a h

  pub deliver_email-Effect :
      (send : Sender) (fails : DeliveryFaults) (now : ℕ) (item : Mail)
      → Effect item.id accounts suppressions (deliver_email send fails now item)
  unfolding deliver_email
  deliver_email-Effect send fails now item =
      elim (Outcome-cases (owned_item fails.owner item item.user accounts)) [
        | inl (owned, e) ↦
            let (g, keeps, runs) = deliver_owned-Effect send fails now owned in
            let same : owned.id ≡ item.id = owned_item-id fails.owner item owned item.user e in
            (
              g,
              keeps,
              λ box a s.
                  rw (owned_at fails.owner item item.user box.accounts a e, sym same)
                    (runs box a s),
            )
        | inr (message, e) ↦
            let (g, keeps, runs) = fail_email-Effect fails.update item message in
            (
              g,
              keeps,
              λ box a s. rw (owned_at fails.owner item item.user box.accounts a e) (runs box a s),
            )
      ]
