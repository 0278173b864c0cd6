-- ===== src/Payments/Webhooks.antt =====
-- The receipts of webhooks: `beginPaymentWebhook` and `finishPaymentWebhook` of
-- internal/controllers/payment_ledger.go. A receipt is found by its provider and its key.
use across_backend_api.Prelude.{
  ℕ, suc, ◌≡◌, refl, sym, ap, subst, ◌∙◌, ◌⊎◌, inl, inr, Bool, true, false, not, ◌&&◌, List, [],
  ◌∷◌, ◌++◌, arith, ◌==◌, if◌then◌else◌, Bool-cases, All,
}
use across_backend_api.Prelude.Text.{Text, codes, text_eq, text_eq_refl, text_eq_sound, is_empty}
use across_backend_api.Prelude.Outcome.{Outcome, ok, err, ◌>>◌, reject_if}

pub data ReceiptStatus : Type 0 where
  processing processed ignored failed : ReceiptStatus

-- A row of `payment_webhook_events`.
pub record Receipt : Type 0 where
  pub provider : Text
  pub event_key : Text
  pub status : ReceiptStatus
  pub attempt_count : ℕ
  pub last_error : Text

abbrev pub is_final : ReceiptStatus → Bool
is_final processed = true
is_final ignored = true
is_final _ = false

abbrev restarted : ReceiptStatus → ReceiptStatus
restarted failed = processing
restarted s = s

abbrev pub is_receipt : Text → Text → Receipt → Bool
is_receipt provider key r = text_eq r.provider provider && text_eq r.event_key key

abbrev trim_colons_left : Text → Text
trim_colons_left [] = []
trim_colons_left (c ∷ s) = if c == b':' then trim_colons_left s else c ∷ s

-- The key of an event. What is left of a text without its colons at both ends is empty when it is
-- so without those at its beginning. `digest` is SHA-256 in hexadecimal.
unfoldable pub event_key : (Text → Text) → Text → Text → Text → Text → Text
event_key digest event_type reference transaction payload =
    let parts = event_type ++ codes ":" ++ transaction ++ codes ":" ++ reference in
    digest (if is_empty (trim_colons_left parts) then digest payload else parts)

-- The insert, or the update on a conflict, with the status that it returns.
unfoldable pub begin_receipt : Text → Text → List Receipt → List Receipt × ReceiptStatus
unfolding text_eq
begin_receipt provider key [] = (
  record {
    provider = provider;
    event_key = key;
    status = processing;
    attempt_count = 1;
    last_error = [];
  }
      ∷ [],
  processing,
)
begin_receipt provider key (r ∷ rs) =
    let (rest, status) = begin_receipt provider key rs in
    if is_receipt provider key r
    then (
      record r { attempt_count = suc r.attempt_count; status = restarted r.status } ∷ rs,
      restarted r.status,
    )
    else (r ∷ rest, status)

-- `beginPaymentWebhook`, on the key of the event: whether the event is done already.
unfoldable pub begin_payment_webhook :
    Bool → Text → Text → List Receipt → Outcome Text (List Receipt × Bool)
unfolding begin_receipt
begin_payment_webhook fails provider key rs = do
  reject_if fails (codes "database")
  let (rows, status) = begin_receipt provider key rs
  ok (rows, is_final status)

-- `finishPaymentWebhook`; a failure of the statement is left aside.
unfoldable pub finish_payment_webhook :
    Bool → Text → Text → ReceiptStatus → Text → List Receipt → List Receipt
unfolding text_eq
finish_payment_webhook fails provider key status message [] = []
finish_payment_webhook fails provider key status message (r ∷ rs) =
    let rest = finish_payment_webhook fails provider key status message rs in
    if not fails && is_receipt provider key r
    then record r { status = status; last_error = message } ∷ rest
    else r ∷ rest

-- What deliveries do to the receipts, in any order.
pub data Delivery : Type 0 where
  begin : Bool → Text → Text → Delivery
  finish : Bool → Text → Text → ReceiptStatus → Text → Delivery

abbrev received : Outcome Text (List Receipt × Bool) → List Receipt → List Receipt
received (ok (rs', _)) rs = rs'
received (err _) rs = rs

unfoldable pub deliver : Delivery → List Receipt → List Receipt
unfolding begin_payment_webhook finish_payment_webhook
deliver (begin fails provider key) rs = received (begin_payment_webhook fails provider key rs) rs
deliver (finish fails provider key status message) rs =
    finish_payment_webhook fails provider key status message rs

abbrev pub deliver_all : List Delivery → List Receipt → List Receipt
deliver_all [] rs = rs
deliver_all (d ∷ ds) rs = deliver_all ds (deliver d rs)

-- The event is on record as processed or ignored.
abbrev pub is_done : Text → Text → List Receipt → Bool
is_done provider key [] = false
is_done provider key (r ∷ rs) =
    if is_receipt provider key r then is_final r.status else is_done provider key rs

-- A delivery that does not end this event as failed.
abbrev pub SparesDone : Text → Text → Delivery → Type 0
SparesDone provider key (begin _ _ _) = Unit
SparesDone provider key (finish fails p k status message) =
    ((text_eq p provider && text_eq k key) ≡ false) ⊎ (is_final status ≡ true)

is_final-restarted : (s : ReceiptStatus) → is_final s ≡ true → is_final (restarted s) ≡ true
is_final-restarted s h = ground arith

restarted-is_done :
    (provider key : Text) (r : Receipt) (rs : List Receipt)
    → is_done provider key (r ∷ rs) ≡ true
    → is_done provider key
        (record r { attempt_count = suc r.attempt_count; status = restarted r.status } ∷ rs)
      ≡ true
restarted-is_done provider key r rs h = ground (arith, is_final-restarted r.status)

-- Two names of one receipt are the same.
is_receipt_same :
    (provider key p k : Text) (r : Receipt)
    → is_receipt provider key r ≡ true
    → is_receipt p k r ≡ true
    → (text_eq p provider && text_eq k key) ≡ true
is_receipt_same provider key p k r a b =
    let e1 : r.provider ≡ provider = text_eq_sound r.provider provider (ground arith) in
    let e2 : r.event_key ≡ key = text_eq_sound r.event_key key (ground arith) in
    let e3 : r.provider ≡ p = text_eq_sound r.provider p (ground arith) in
    let e4 : r.event_key ≡ k = text_eq_sound r.event_key k (ground arith) in
    rw (sym e3 ∙ e1, sym e4 ∙ e2, text_eq_refl provider, text_eq_refl key) refl

begin_receipt-is_done :
    (provider key p k : Text) (rs : List Receipt)
    → is_done provider key rs ≡ true
    → is_done provider key (begin_receipt p k rs).0 ≡ true
unfolding begin_receipt
begin_receipt-is_done provider key p k [] h = absurd (ground arith)
begin_receipt-is_done provider key p k (r ∷ rs) h = elim (Bool-cases (is_receipt p k r)) [
  | inl hit ↦ rw hit (restarted-is_done provider key r rs h)
  | inr miss ↦ elim (Bool-cases (is_receipt provider key r)) [
    | inl own ↦
        rw (miss, own)
          (subst (λ b. (if b then is_final r.status else is_done provider key rs) ≡ true) own h)
    | inr other ↦
        rw (miss, other)
          (begin_receipt-is_done provider key p k rs (
            subst (λ b. (if b then is_final r.status else is_done provider key rs) ≡ true) other h))
  ]
]

finish-is_done :
    (provider key : Text) (fails : Bool) (p k : Text) (status : ReceiptStatus) (message : Text)
    (rs : List Receipt)
    → ((text_eq p provider && text_eq k key) ≡ false) ⊎ (is_final status ≡ true)
    → is_done provider key rs ≡ true
    → is_done provider key (finish_payment_webhook fails p k status message rs) ≡ true
unfolding finish_payment_webhook
finish-is_done provider key fails p k status message [] s h = h
finish-is_done provider key fails p k status message (r ∷ rs) s h =
    elim (Bool-cases (is_receipt provider key r)) [
      | inl own ↦ ground (arith, is_receipt_same provider key p k r own)
      | inr other ↦ ground (arith, finish-is_done provider key fails p k status message rs s)
    ]

begin_receipt-done :
    (provider key : Text) (rs : List Receipt)
    → is_done provider key rs ≡ true
    → is_final (begin_receipt provider key rs).1 ≡ true
unfolding begin_receipt
begin_receipt-done provider key [] h = absurd (ground arith)
begin_receipt-done provider key (r ∷ rs) h =
    ground (arith, is_final-restarted r.status, begin_receipt-done provider key rs)

deliver-is_done :
    (provider key : Text) (d : Delivery) (rs : List Receipt)
    → SparesDone provider key d
    → is_done provider key rs ≡ true
    → is_done provider key (deliver d rs) ≡ true
unfolding deliver begin_payment_webhook
deliver-is_done provider key (begin true p k) rs s h = h
deliver-is_done provider key (begin false p k) rs s h = begin_receipt-is_done provider key p k rs h
deliver-is_done provider key (finish fails p k status message) rs s h =
    finish-is_done provider key fails p k status message rs s h

deliver_all-is_done :
    (provider key : Text) (ds : List Delivery) (rs : List Receipt)
    → All (SparesDone provider key) ds
    → is_done provider key rs ≡ true
    → is_done provider key (deliver_all ds rs) ≡ true
deliver_all-is_done provider key [] rs s h = h
deliver_all-is_done provider key (d ∷ ds) rs s h =
    deliver_all-is_done provider key ds (deliver d rs) s.1 (deliver-is_done provider key d rs s.0 h)

-- Once an event is on record as processed or ignored, each later begin of it is answered as done,
-- whatever begins and ends come between, its own repetitions included, unless one of them ends the
-- event itself as failed. Nothing is said of an event that is still in processing, or whose end was
-- not recorded.
pub begin_payment_webhook-done :
    (provider key : Text) (ds : List Delivery) (rs : List Receipt)
    → is_done provider key rs ≡ true
    → All (SparesDone provider key) ds
    → (rs' : List Receipt) × (begin_payment_webhook false provider key (deliver_all ds rs)
        ≡ ok (rs', true))
unfolding begin_payment_webhook
begin_payment_webhook-done provider key ds rs h spares =
    let (rows, status) = begin_receipt provider key (deliver_all ds rs) in
    let done : is_final status ≡ true =
      begin_receipt-done provider key (deliver_all ds rs)
        (deliver_all-is_done provider key ds rs spares h) in
    (rows, ap (λ b. ok (rows, b)) done)
