-- ===== src/Email/Queueing.antt =====
-- Theorems on the functions that queue a mail, internal/services/email_outbox.go.
use across_backend_api.Prelude.{
  ℕ, ◌≡◌, refl, inl, inr, Bool, true, false, some, Bool-cases, Option-cases,
}
use across_backend_api.Prelude.Text.{Text, text_eq_refl, to_lower}
use across_backend_api.Email.Outbox.{
  Mail, Mailbox, Queued, has_key, status_of, insert_mail, belongs, queue_user_email, queued,
  find_account, btrim,
}

insert_mail-again :
    (m n : Mail) (p : Mail → Bool) (box : Mailbox)
    → n.dedupe_key ≡ m.dedupe_key
    → p m ≡ true
    → insert_mail n p (insert_mail m p box).0 ≡ insert_mail m p box
unfolding insert_mail has_key status_of
insert_mail-again m n p box e hit = elim (Bool-cases (has_key m.dedupe_key box.outbox)) [
  | inl there ↦ rw (there, e, there) refl
  | inr absent ↦ rw (absent, e, text_eq_refl m.dedupe_key, hit) refl
]

insert_mail-accounts :
    (m : Mail) (p : Mail → Bool) (box : Mailbox) → (insert_mail m p box).0.accounts ≡ box.accounts
unfolding insert_mail
insert_mail-accounts m p box = elim (Bool-cases (has_key m.dedupe_key box.outbox)) [
  | inl there ↦ rw there refl
  | inr absent ↦ rw absent refl
]

-- A mail that was queued for a user and is queued again under the same key, whatever it says this
-- time and whatever came of it the first time, is answered as it was, and the box stays as it is.
pub queue_user_email-again :
    (now later : ℕ) (id id' user key template template' payload payload' : Text) (box : Mailbox)
    → let once : Queued = queue_user_email false now id user key template payload box in
      queue_user_email false later id' user key template' payload' once.0 ≡ once
unfolding queue_user_email
queue_user_email-again now later id id' user key template template' payload payload' box =
    elim (Option-cases (find_account user box.accounts)) [
      | inl e ↦ rw (e, e) refl
      | inr (a, e) ↦
          let email : Text = to_lower (btrim a.email) in
          let m : Mail =
            queued now id (some a.id) key email (btrim a.full_name) template payload
              box.suppressions in
          rw (e, insert_mail-accounts m (belongs a.id email) box, e)
            (insert_mail-again m _ (belongs a.id email) box refl
              (rw (text_eq_refl a.id, text_eq_refl email) refl))
    ]
