-- ===== src/Email/Delivery.antt =====
-- The lock of the claimed mails and their deliveries: `RunEmailDeliveryBatch`, `deliverEmail`,
-- `failEmail` and `retryEmail` of internal/services/email_outbox.go. The SMTP server is a parameter,
-- `Sender`: it takes a mail, or answers with an error. The four goroutines of a batch deliver its
-- items in some order; a batch is modelled with the items in the order of the claim.
use across_backend_api.Prelude.{
  ℕ, suc, ◌+◌, ◌-◌, ◌*◌, ◌^◌, min, Bool, true, false, Option, none, some, List, [], ◌∷◌, ltb, leb,
  if◌then◌else◌, take,
}
use across_backend_api.Prelude.Text.{Text, codes, text_eq, to_lower, trim_space, mem_text}
use across_backend_api.Prelude.Outcome.{Outcome, ok, err}
use across_backend_api.Email.Outbox.{
  MailStatus, sending, retry, sent, failed, Mail, Account, Mailbox, Queued, find_account, btrim,
}
use across_backend_api.Email.Claims.{
  Sender, DeliveryFaults, suppress_row, expire_leases, suppress_listed, claim_items,
}

-- `UPDATE email_outbox SET ... WHERE id = $1`
unfoldable pub set_mail : Text → (Mail → Mail) → List Mail → List Mail
unfolding text_eq
set_mail id f [] = []
set_mail id f (m ∷ more) = (if text_eq m.id id then f m else m) ∷ set_mail id f more

abbrev pub begin_sending : ℕ → Mail → Mail
begin_sending now m = record m { status = sending; attempts = suc m.attempts; locked_at = some now }

unfoldable pub lock_items : ℕ → List Mail → List Mail → List Mail
unfolding set_mail
lock_items now [] rows = rows
lock_items now (i ∷ more) rows = lock_items now more (set_mail i.id (begin_sending now) rows)

-- `left(s, 500)`, of a text whose characters are bytes
abbrev left_500 : Text → Text
left_500 s = take 500 s

abbrev update_outbox : Bool → Text → (Mail → Mail) → Mailbox → Queued
update_outbox true id f box = (box, some (codes "database"))
update_outbox false id f box = (record box { outbox = set_mail id f box.outbox }, none)

abbrev pub fail_row : Text → Mail → Mail
fail_row message m = record m { status = failed; locked_at = none; last_error = left_500 message }

-- `failEmail`
unfoldable pub fail_email : Bool → Mail → Text → Mailbox → Queued
unfolding set_mail
fail_email fails item message box = update_outbox fails item.id (fail_row message) box

-- The pause before the next attempt, in seconds.
unfoldable pub retry_delay : ℕ → ℕ
retry_delay attempts =
    let delay : ℕ = 30 * 2 ^ min (attempts - 1) 9 in if ltb 21600 delay then 21600 else delay

abbrev pub retry_status : ℕ → MailStatus
retry_status attempts = if leb 6 attempts then failed else retry

unfoldable pub retry_row : ℕ → ℕ → Text → Mail → Mail
unfolding retry_delay
retry_row now attempts message m = record m {
  status = retry_status attempts;
  next_attempt_at = now + retry_delay attempts;
  locked_at = none;
  last_error = left_500 message;
}

abbrev deferred : Queued → Queued
deferred (box, some e) = (box, some e)
deferred (box, none) = (box, some (codes "email delivery deferred"))

-- `retryEmail`
unfoldable pub retry_email : Bool → ℕ → Mail → Text → Mailbox → Queued
unfolding set_mail retry_row
retry_email fails now item message box =
    deferred (update_outbox fails item.id (retry_row now item.attempts message) box)

abbrev pub sent_row : ℕ → Mail → Mail
sent_row now m = record m { status = sent; sent_at = some now; locked_at = none; last_error = [] }

-- What follows the answer of the SMTP server.
unfoldable pub record_sending : Bool → ℕ → Mail → Option Text → Mailbox → Queued
unfolding retry_email set_mail
record_sending fails now item (some message) box = retry_email fails now item message box
record_sending fails now item none box =
    update_outbox fails item.id (sent_row now)
      (record box { posted = (item.recipient_email, item.id) ∷ box.posted })

-- `deliverEmail` behind the test of the owner.
unfoldable pub deliver_owned : Sender → DeliveryFaults → ℕ → Mail → Mailbox → Queued
unfolding record_sending retry_email mem_text set_mail
deliver_owned send fails now item box =
    if fails.lookup
    then retry_email fails.update now item (codes "database") box
    else if mem_text item.recipient_email box.suppressions
    then update_outbox fails.update item.id suppress_row box
    else record_sending fails.update now item (send item.recipient_email item.recipient_name item)
        box

-- The current address and name of the owner, or why the mail fails.
unfoldable pub current_owner : Bool → Mail → Option Account → Outcome Text Mail
unfolding to_lower trim_space btrim text_eq
current_owner fails item none = err (codes "email owner no longer exists")
current_owner fails item (some a) =
    let email : Text = to_lower (btrim a.email) in
    if fails
    then err (codes "email owner no longer exists")
    else if text_eq email (to_lower (trim_space item.recipient_email))
    then ok (record item { recipient_email = email; recipient_name = btrim a.full_name })
    else err (codes "email recipient no longer belongs to the queued account")

unfoldable pub owned_item : Bool → Mail → Option Text → List Account → Outcome Text Mail
unfolding current_owner find_account
owned_item fails item none accounts = ok item
owned_item fails item (some user) accounts = current_owner fails item (find_account user accounts)

abbrev deliver_item : Sender → DeliveryFaults → ℕ → Mail → Outcome Text Mail → Mailbox → Queued
deliver_item send fails now item (err message) box = fail_email fails.update item message box
deliver_item send fails now item (ok owned) box = deliver_owned send fails now owned box

-- `deliverEmail`
unfoldable pub deliver_email : Sender → DeliveryFaults → ℕ → Mail → Mailbox → Queued
unfolding owned_item fail_email deliver_owned
deliver_email send fails now item box =
    deliver_item send fails now item (owned_item fails.owner item item.user box.accounts) box

-- The results of a batch: how many deliveries end without an error, and the first error.
abbrev pub tally : Option Text → ℕ × Option Text → ℕ × Option Text
tally none (n, e) = (suc n, e)
tally (some x) (n, e) = (n, some x)

abbrev pub deliver_items :
    Sender → (Text → DeliveryFaults) → ℕ → List Mail → Mailbox → Mailbox × ℕ × Option Text
deliver_items send fails now [] box = (box, 0, none)
deliver_items send fails now (i ∷ more) box =
    let (one, e) = deliver_email send (fails i.id) now i box in
    let (last, n, first) = deliver_items send fails now more one in
    let (m, error) = tally e (n, first) in (last, m, error)

-- Which of the statements before the deliveries the database refuses.
pub record BatchFaults : Type 0 where
  pub expire : Bool
  pub suppress : Bool
  pub claim : Bool
  pub deliveries : Text → DeliveryFaults

-- The box in which the batch starts: without expired leases and without suppressed mails.
abbrev pub swept : ℕ → Mailbox → Mailbox
swept now box = record box {
  outbox = suppress_listed box.suppressions (expire_leases now box.outbox);
}

-- The claim, as one transaction.
abbrev pub claimed : ℕ → Mailbox → Mailbox
claimed now box = record box { outbox = lock_items now (claim_items now box.outbox) box.outbox }

-- `RunEmailDeliveryBatch` of a sender that is there.
unfoldable pub run_email_delivery_batch :
    Sender → BatchFaults → ℕ → Mailbox → Mailbox × ℕ × Option Text
unfolding expire_leases suppress_listed claim_items lock_items deliver_email
run_email_delivery_batch send fails now box =
    let expired = record box { outbox = expire_leases now box.outbox } in
    let ready = swept now box in
    let rest =
      deliver_items send fails.deliveries now (claim_items now ready.outbox) (claimed now ready) in
    if fails.expire
    then (box, 0, some (codes "database"))
    else if fails.suppress
    then (expired, 0, some (codes "database"))
    else if fails.claim
    then (ready, 0, some (codes "database"))
    else rest
