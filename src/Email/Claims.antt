-- ===== src/Email/Claims.antt =====
-- The mails that a batch claims: the first statements of `RunEmailDeliveryBatch`,
-- internal/services/email_outbox.go.
use across_backend_api.Prelude.{
  ℕ, suc, ◌+◌, Bool, true, false, ◌&&◌, ◌||◌, Option, none, some, List, [], ◌∷◌, map, ltb, leb,
  ◌==◌, if◌then◌else◌, take, filter_by,
}
use across_backend_api.Prelude.Text.{Text, codes, mem_text}
use across_backend_api.Migrations.Runner.{text_leb}
use across_backend_api.Email.Outbox.{MailStatus, pending, sending, retry, suppressed, Mail}

-- `SendOutboxTemplate`: the address, the name and the row.
abbrev pub Sender : Type 0
Sender = Text → Text → Mail → Option Text

-- Which statements of a delivery the database refuses: the owner, the suppression, the update.
pub record DeliveryFaults : Type 0 where
  pub owner : Bool
  pub lookup : Bool
  pub update : Bool

abbrev pub is_open : MailStatus → Bool
is_open pending = true
is_open retry = true
is_open _ = false

abbrev pub is_sending : MailStatus → Bool
is_sending sending = true
is_sending _ = false

abbrev pub locked_before : Option ℕ → ℕ → Bool
locked_before none t = false
locked_before (some l) t = ltb (l + 300) t

-- The first update: a lease of five minutes that has expired.
abbrev pub expire_mail : ℕ → Mail → Mail
expire_mail now m =
    if is_sending m.status && locked_before m.locked_at now
    then record m {
      status = retry;
      next_attempt_at = now;
      locked_at = none;
      last_error = codes "delivery lease expired";
    }
    else m

abbrev pub suppress_row : Mail → Mail
suppress_row m = record m {
  status = suppressed;
  locked_at = none;
  last_error = codes "recipient is on the email suppression list";
}

-- The second update: an open mail to a suppressed address.
abbrev pub suppress_mail : List Text → Mail → Mail
suppress_mail suppressions m =
    if is_open m.status && mem_text m.recipient_email suppressions then suppress_row m else m

unfoldable pub expire_leases : ℕ → List Mail → List Mail
expire_leases now = map (expire_mail now)

unfoldable pub suppress_listed : List Text → List Mail → List Mail
unfolding mem_text
suppress_listed suppressions = map (suppress_mail suppressions)

-- `ORDER BY next_attempt_at, created_at, id`
unfoldable pub mail_leb : Mail → Mail → Bool
unfolding text_leb
mail_leb m n =
    ltb m.next_attempt_at n.next_attempt_at
    || m.next_attempt_at == n.next_attempt_at
      && (ltb m.created_at n.created_at || m.created_at == n.created_at && text_leb m.id n.id)

unfoldable pub insert_by_time : Mail → List Mail → List Mail
unfolding mail_leb
insert_by_time m [] = m ∷ []
insert_by_time m (n ∷ more) =
    let rest = insert_by_time m more in if mail_leb m n then m ∷ n ∷ more else n ∷ rest

unfoldable pub sort_by_time : List Mail → List Mail
unfolding insert_by_time
sort_by_time [] = []
sort_by_time (m ∷ more) = insert_by_time m (sort_by_time more)

abbrev pub is_due : ℕ → Mail → Bool
is_due now m = is_open m.status && leb m.next_attempt_at now

abbrev pub count_attempt : Mail → Mail
count_attempt m = record m { attempts = suc m.attempts }

-- The rows of a batch, with their attempts counted: the first 25 that are due.
unfoldable pub claim_items : ℕ → List Mail → List Mail
unfolding sort_by_time
claim_items now rows = map count_attempt (take 25 (sort_by_time (filter_by (is_due now) rows)))
