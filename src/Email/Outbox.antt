-- ===== src/Email/Outbox.antt =====
-- The tables of the outbox and the functions that queue a mail: `queueUserEmail`,
-- `QueueDirectMarketplaceEmail` and those that call them, internal/services/email_outbox.go. The
-- identifier that the database draws for a row, the encoded payload and the digest of a token are
-- inputs.
use across_backend_api.Prelude.{
  ℕ, Bool, true, false, ◌&&◌, ◌||◌, Option, none, some, List, [], ◌∷◌, ◌++◌, ◌==◌, if◌then◌else◌,
}
use across_backend_api.Prelude.Text.{Text, codes, text_eq, is_empty, to_lower, trim_space, mem_text}

pub data MailStatus : Type 0 where
  pending sending retry sent suppressed failed : MailStatus

-- A row of `email_outbox`; times are in seconds, and `none` is NULL.
pub record Mail : Type 0 where
  pub id : Text
  pub user : Option Text
  pub dedupe_key : Text
  pub recipient_email : Text
  pub recipient_name : Text
  pub template_type : Text
  pub payload : Text
  pub status : MailStatus
  pub attempts : ℕ
  pub next_attempt_at : ℕ
  pub created_at : ℕ
  pub locked_at : Option ℕ
  pub sent_at : Option ℕ
  pub last_error : Text

pub record Account : Type 0 where
  pub id : Text
  pub email : Text
  pub full_name : Text

-- `posted` holds the mails that the SMTP server took: the address and the row.
pub record Mailbox : Type 0 where
  pub outbox : List Mail
  pub accounts : List Account
  pub suppressions : List Text
  pub posted : List (Text × Text)

-- `btrim`, which takes spaces only
unfoldable pub drop_spaces : Text → Text
drop_spaces [] = []
drop_spaces (c ∷ s) = let rest = drop_spaces s in if c == b' ' then rest else c ∷ s

unfoldable pub drop_last_spaces : Text → Text
drop_last_spaces [] = []
drop_last_spaces (c ∷ s) =
    let rest = drop_last_spaces s in if c == b' ' && is_empty rest then [] else c ∷ rest

unfoldable pub btrim : Text → Text
unfolding drop_spaces drop_last_spaces
btrim s = drop_last_spaces (drop_spaces s)

unfoldable pub find_account : Text → List Account → Option Account
unfolding text_eq
find_account id [] = none
find_account id (a ∷ more) =
    let rest = find_account id more in if text_eq a.id id then some a else rest

unfoldable pub has_key : Text → List Mail → Bool
unfolding text_eq
has_key key [] = false
has_key key (m ∷ more) = text_eq m.dedupe_key key || has_key key more

abbrev pub same_user : Option Text → Text → Bool
same_user none u = false
same_user (some v) u = text_eq v u

-- The status of the row with the key that passes a test.
unfoldable pub status_of : Text → (Mail → Bool) → List Mail → Option MailStatus
unfolding text_eq
status_of key p [] = none
status_of key p (m ∷ more) =
    let rest = status_of key p more in
    if text_eq m.dedupe_key key && p m then some m.status else rest

abbrev pub first_status : Text → List Text → MailStatus
first_status email suppressions = if mem_text email suppressions then suppressed else pending

abbrev pub queued : ℕ → Text → Option Text → Text → Text → Text → Text → Text → List Text → Mail
queued now id user key email name template payload suppressions = record {
  id = id;
  user = user;
  dedupe_key = key;
  recipient_email = email;
  recipient_name = name;
  template_type = template;
  payload = payload;
  status = first_status email suppressions;
  attempts = 0;
  next_attempt_at = now;
  created_at = now;
  locked_at = none;
  sent_at = none;
  last_error = [];
}

abbrev pub Queued : Type 0
Queued = Mailbox × Option Text

-- What the status of the row answers: no row is an error, and so is a suppressed one.
abbrev pub answer_queue : Option MailStatus → Option Text
answer_queue none = some (codes "no rows in result set")
answer_queue (some suppressed) = some (codes "email recipient is suppressed")
answer_queue (some _) = none

-- The insert, or the row that has the key already and passes the test.
unfoldable pub insert_mail : Mail → (Mail → Bool) → Mailbox → Queued
unfolding has_key status_of
insert_mail m p box =
    if has_key m.dedupe_key box.outbox
    then (box, answer_queue (status_of m.dedupe_key p box.outbox))
    else (record box { outbox = m ∷ box.outbox }, answer_queue (some m.status))

abbrev pub belongs : Text → Text → Mail → Bool
belongs user email m = same_user m.user user && text_eq m.recipient_email email

abbrev queue_for_account : ℕ → Text → Text → Text → Text → Option Account → Mailbox → Queued
queue_for_account now id key template payload none box = (box, answer_queue none)
queue_for_account now id key template payload (some a) box =
    let email : Text = to_lower (btrim a.email) in
    insert_mail
      (queued now id (some a.id) key email (btrim a.full_name) template payload box.suppressions)
      (belongs a.id email) box

-- `queueUserEmail`. `fails` says that the statement is refused.
unfoldable pub queue_user_email : Bool → ℕ → Text → Text → Text → Text → Text → Mailbox → Queued
unfolding find_account insert_mail btrim to_lower text_eq
queue_user_email true now id user key template payload box = (box, some (codes "database"))
queue_user_email false now id user key template payload box =
    queue_for_account now id key template payload (find_account user box.accounts) box

-- `QueueDirectMarketplaceEmail`
unfoldable pub queue_direct_email : Bool → ℕ → Text → Text → Text → Text → Text → Mailbox → Queued
unfolding insert_mail btrim to_lower trim_space text_eq
queue_direct_email fails now id recipient name key payload box =
    let email : Text = to_lower (trim_space recipient) in
    if is_empty email
    then (box, some (codes "recipient email is required"))
    else if fails
    then (box, some (codes "database"))
    else insert_mail
        (queued now id none key email (btrim name) (codes "marketplace_activity") payload
          box.suppressions)
        (λ m. text_eq m.recipient_email email) box

-- `QueueMarketplaceEmail`
unfoldable pub queue_marketplace_email : Bool → ℕ → Text → Text → Text → Text → Mailbox → Queued
unfolding queue_user_email
queue_marketplace_email fails now id user key payload box =
    queue_user_email fails now id user key (codes "marketplace_activity") payload box

abbrev pub EncodeMap : Type 0
EncodeMap = List (Text × Text) → Text

-- The public address without its final slashes, or the local one.
unfoldable pub trim_slashes : Text → Text
trim_slashes [] = []
trim_slashes (c ∷ s) =
    let rest = trim_slashes s in if c == b'/' && is_empty rest then [] else c ∷ rest

unfoldable pub public_base : Text → Text
unfolding trim_slashes trim_space
public_base url =
    let base : Text = trim_slashes (trim_space url) in
    if is_empty base then codes "http://localhost:8080" else base

-- `QueueVerificationEmail`; `digest` is `tokenDigest`, `escape` is `url.QueryEscape`, and `encode`
-- is the encoding of a map as JSON.
unfoldable pub queue_verification_email :
    (Text → Text)
    → (Text → Text)
    → EncodeMap
    → Bool
    → ℕ
    → Text
    → Text
    → Text
    → Text
    → Mailbox
    → Queued
unfolding queue_user_email public_base
queue_verification_email digest escape encode fails now id user token url box =
    queue_user_email fails now id user (codes "verification:" ++ user ++ codes ":" ++ digest token)
      (codes "verification")
      (encode (
        (
          codes "verification_url",
          public_base url ++ codes "/api/v1/auth/verify-email?token=" ++ escape token,
        )
        ∷ []))
      box

-- `QueuePasswordResetEmail`
unfoldable pub queue_password_reset_email :
    (Text → Text)
    → (Text → Text)
    → EncodeMap
    → Bool
    → ℕ
    → Text
    → Text
    → Text
    → Text
    → Mailbox
    → Queued
unfolding queue_user_email public_base
queue_password_reset_email digest escape encode fails now id user token url box =
    queue_user_email fails now id user
      (codes "password-reset:" ++ user ++ codes ":" ++ digest token) (codes "password_reset")
      (encode (
        (
          codes "reset_url",
          public_base url ++ codes "/api/v1/auth/reset-password?token=" ++ escape token,
        )
        ∷ []))
      box

-- `QueueWelcomeEmailForContext`
unfoldable pub queue_welcome_email : EncodeMap → Bool → ℕ → Text → Text → Text → Mailbox → Queued
unfolding queue_user_email text_eq
queue_welcome_email encode fails now id user context box =
    let account_context : Text =
      if text_eq context (codes "provider") then codes "provider" else codes "buyer" in
    queue_user_email fails now id user (codes "welcome:" ++ user) (codes "welcome")
      (encode ((codes "account_context", account_context) ∷ [])) box
