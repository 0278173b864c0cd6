-- ===== src/Email/Tests.antt =====
-- The outbox on one mail, and on two.
use across_backend_api.Prelude.{
  ◌+◌, ◌*◌, ◌≤◌, ◌≡◌, refl, false, none, some, [], ◌∷◌, arith, length, filter_by,
}
use across_backend_api.Prelude.Text.{Text, codes, text_eq, mem_text}
use across_backend_api.Email.Outbox.{
  MailStatus, pending, retry, sent, failed, Mail, Mailbox, Queued, queue_user_email,
}
use across_backend_api.Email.Claims.{Sender, DeliveryFaults, is_due, expire_leases, suppress_listed}
use across_backend_api.Email.Delivery.{
  BatchFaults, deliver_items, retry_delay, swept, run_email_delivery_batch,
}
use across_backend_api.Email.Posting.{Posts, run_email_delivery_batch-Posts}
use across_backend_api.Email.Finished.{AllFinished, rows_of, rows_of-run_email_delivery_batch}
use across_backend_api.Email.Effects.{Agree, deliver_items-swap}
use across_backend_api.Email.Queueing.{queue_user_email-again}
use across_backend_api.Email.Refused.{run_email_delivery_batch_refused}
use across_backend_api.Email.Attempts.{retry_delay-bounds}

abbrev mail : Text → Text → MailStatus → Mail
mail id address status = record {
  id = id;
  user = some (codes "u1");
  dedupe_key = id;
  recipient_email = address;
  recipient_name = [];
  template_type = codes "welcome";
  payload = [];
  status = status;
  attempts = 4;
  next_attempt_at = 0;
  created_at = 0;
  locked_at = none;
  sent_at = none;
  last_error = [];
}

abbrev ann : Mail
ann = mail (codes "m1") (codes "ann@x.io") pending

abbrev bob : Mail
bob = mail (codes "m2") (codes "bob@x.io") retry

abbrev old : Mail
old = mail (codes "m3") (codes "ann@x.io") sent

abbrev box : Mailbox
box = record {
  outbox = ann ∷ bob ∷ old ∷ [];
  accounts = record { id = codes "u1"; email = codes "Ann@x.io"; full_name = codes "Ann" } ∷ [];
  suppressions = codes "bob@x.io" ∷ [];
  posted = [];
}

-- A server that takes every mail.
abbrev takes : Sender
takes address name m = none

abbrev works : DeliveryFaults
works = record { owner = false; lookup = false; update = false }

abbrev all_works : BatchFaults
all_works = record { expire = false; suppress = false; claim = false; deliveries = λ id. works }

run_email_delivery_batch-Posts_example :
    Posts box (run_email_delivery_batch takes all_works 9 box).0
run_email_delivery_batch-Posts_example = run_email_delivery_batch-Posts takes all_works 9 box

old_rows : AllFinished (rows_of (codes "m3") box.outbox)
unfolding text_eq
old_rows = (refl, tt)

rows_of-run_email_delivery_batch_example :
    rows_of (codes "m3") (run_email_delivery_batch takes all_works 9 box).0.outbox
    ≡ rows_of (codes "m3") box.outbox
rows_of-run_email_delivery_batch_example =
    rows_of-run_email_delivery_batch takes all_works 9 (codes "m3") box old_rows

ids_differ : text_eq (codes "m1") (codes "m2") ≡ false
unfolding text_eq
ids_differ = refl

deliver_items-swap_example :
    Agree
      (deliver_items takes (λ id. works) 9 (ann ∷ bob ∷ old ∷ []) box).0
      (deliver_items takes (λ id. works) 9 (bob ∷ ann ∷ old ∷ []) box).0
deliver_items-swap_example =
    deliver_items-swap takes (λ id. works) 9 [] (old ∷ []) ann bob box ids_differ

abbrev queued_once : Queued
queued_once =
    queue_user_email false 3 (codes "m4") (codes "u1") (codes "k") (codes "welcome") [] box

queue_user_email-again_example :
    queue_user_email false 8
      (codes "m5")
      (codes "u1")
      (codes "k")
      (codes "other")
      (codes "p")
      queued_once.0
    ≡ queued_once
queue_user_email-again_example =
    queue_user_email-again 3 8 (codes "m4") (codes "m5") (codes "u1") (codes "k") (codes "welcome")
      (codes "other") [] (codes "p") box

retry_delay-bounds_example :
    (30 ≤ retry_delay 4)
    × (retry_delay 4 ≤ 15360)
    × (retry_delay 4 ≤ retry_delay 5)
    × ((1 ≤ 4) → (4 ≤ 9) → retry_delay 5 ≡ 2 * retry_delay 4)
retry_delay-bounds_example = retry_delay-bounds 4

-- A mail to an address of its own, after five attempts, and a server that takes none.
abbrev guest : Mail
guest = record (mail (codes "m6") (codes "zed@x.io") retry) { user = none; attempts = 5 }

abbrev guest_box : Mailbox
guest_box = record box { outbox = ann ∷ guest ∷ old ∷ [] }

abbrev refuses : Sender
refuses address name m = some (codes "refused")

guest_found : rows_of (codes "m6") guest_box.outbox ≡ guest ∷ []
unfolding text_eq
guest_found = refl

guest_free : mem_text (codes "zed@x.io") guest_box.suppressions ≡ false
unfolding mem_text text_eq
guest_free = refl

few_due : length (filter_by (is_due 9) (swept 9 guest_box).outbox) ≤ 25
unfolding expire_leases suppress_listed mem_text text_eq
few_due = omega arith

run_email_delivery_batch_refused_example :
    (m' : Mail) × (rows_of
        (codes "m6")
        (run_email_delivery_batch refuses all_works 9 guest_box).0.outbox
      ≡ m' ∷ [])
    × (m'.attempts ≡ 6)
    × (6 ≤ 6 → m'.status ≡ failed)
    × (6 ≤ 5 → (m'.status ≡ retry) × (m'.next_attempt_at ≡ 9 + retry_delay 6))
    × (m'.locked_at ≡ none)
run_email_delivery_batch_refused_example =
    run_email_delivery_batch_refused refuses all_works 9 (codes "refused") guest guest_box
      guest_found refl refl refl guest_free (λ row. refl) refl refl refl refl refl few_due
