-- ===== src/Email/Refused.antt =====
-- A mail that the SMTP server refuses, through a whole batch, internal/services/email_outbox.go.
use across_backend_api.Prelude.{
  ℕ, suc, ◌+◌, ◌≤◌, ◌≡◌, refl, sym, ap, subst, ◌∙◌, inl, inr, true, false, none, some, List, [],
  ◌∷◌, map, arith, Bool-cases, filter_by, length, leb,
}
use across_backend_api.Prelude.Text.{Text, text_eq, mem_text}
use across_backend_api.Prelude.Outcome.{ok}
use across_backend_api.Email.Outbox.{Mail, Mailbox, retry, failed}
use across_backend_api.Email.Claims.{
  Sender, DeliveryFaults, claim_items, is_due, is_open, expire_leases, suppress_listed, expire_mail,
  suppress_mail, count_attempt,
}
use across_backend_api.Email.Delivery.{
  BatchFaults, set_mail, begin_sending, deliver_email, deliver_items, retry_row, retry_delay, swept,
  claimed, run_email_delivery_batch, retry_email, deliver_owned, owned_item, record_sending,
}
use across_backend_api.Email.Effect.{deliver_email-Effect}
use across_backend_api.Email.Finished.{rows_of, rows_of-set_mail, rows_of-deliver_items}
use across_backend_api.Email.Only.{
  only_head, none_Others, claim_items_only, rows_of-set_own, lock_items_only,
}

rows_of-map_all :
    (id : Text) (f : Mail → Mail)
    → ((x : Mail) → (f x).id ≡ x.id)
    → (rows : List Mail) → rows_of id (map f rows) ≡ map f (rows_of id rows)
rows_of-map_all id f keeps [] = refl
rows_of-map_all id f keeps (x ∷ more) = elim (Bool-cases (text_eq x.id id)) [
  | inl e ↦ rw (ap (λ k. text_eq k id) (keeps x) ∙ e, e, rows_of-map_all id f keeps more) refl
  | inr e ↦ rw (ap (λ k. text_eq k id) (keeps x) ∙ e, e, rows_of-map_all id f keeps more) refl
]

rows_of-map_only :
    (id : Text) (f : Mail → Mail) (m : Mail)
    → ((x : Mail) → (f x).id ≡ x.id)
    → f m ≡ m
    → (rows : List Mail) → rows_of id rows ≡ m ∷ []
    → rows_of id (map f rows) ≡ m ∷ []
rows_of-map_only id f m keeps fixed rows h =
    rows_of-map_all id f keeps rows ∙ (ap (map f) h ∙ ap (λ z. z ∷ []) fixed)

module _ (send : Sender) (now : ℕ) (message : Text) where
  -- The delivery of a direct mail that is refused.
  deliver_email_refused :
      (faults : DeliveryFaults) (i : Mail) (box : Mailbox)
      → i.user ≡ none
      → mem_text i.recipient_email box.suppressions ≡ false
      → send i.recipient_email i.recipient_name i ≡ some message
      → faults.lookup ≡ false
      → faults.update ≡ false
      → (deliver_email send faults now i box).0.outbox
        ≡ set_mail i.id (retry_row now i.attempts message) box.outbox
  unfolding deliver_email owned_item deliver_owned record_sending retry_email
  deliver_email_refused faults i box direct free refused lookup update =
      let owned : owned_item faults.owner i i.user box.accounts ≡ ok i =
        subst (λ u. owned_item faults.owner i u box.accounts ≡ ok i) (sym direct) refl in
      rw (owned, lookup, free, refused, update) refl

  deliver_items_refused :
      (faults : Text → DeliveryFaults) (i : Mail) (items : List Mail) (box : Mailbox)
      → rows_of i.id items ≡ i ∷ []
      → i.user ≡ none
      → mem_text i.recipient_email box.suppressions ≡ false
      → send i.recipient_email i.recipient_name i ≡ some message
      → (faults i.id).lookup ≡ false
      → (faults i.id).update ≡ false
      → rows_of i.id (deliver_items send faults now items box).0.outbox
        ≡ map (retry_row now i.attempts message) (rows_of i.id box.outbox)
  unfolding retry_row
  deliver_items_refused faults i [] box h direct free refused lookup update = absurd (ground arith)
  deliver_items_refused faults i (x ∷ more) box h direct free refused lookup update =
      let one : Mailbox = (deliver_email send (faults x.id) now x box).0 in
      elim (only_head i.id x i more h) [
        | inl (own, same, rest) ↦
            let here : rows_of i.id one.outbox
                ≡ map (retry_row now i.attempts message) (rows_of i.id box.outbox) =
              subst
                (λ z.
                  rows_of i.id (deliver_email send (faults z.id) now z box).0.outbox
                  ≡ map (retry_row now i.attempts message) (rows_of i.id box.outbox))
                (sym same)
                (ap (rows_of i.id)
                    (deliver_email_refused (faults i.id) i box direct free refused lookup update)
                  ∙ rows_of-set_own i.id i.id (retry_row now i.attempts message) (λ m. refl) refl
                      box.outbox) in
            rows_of-deliver_items send faults now i.id more one (none_Others i.id more rest) ∙ here
        | inr (other, rest) ↦
            let (f, keeps, runs) =
              deliver_email-Effect box.accounts box.suppressions send (faults x.id) now x in
            let (outbox, accounts, suppressions) = runs box refl refl in
            let still : mem_text i.recipient_email one.suppressions ≡ false =
              ap (mem_text i.recipient_email) suppressions ∙ free in
            deliver_items_refused faults i more one rest direct still refused lookup update
            ∙ ap (map (retry_row now i.attempts message))
                (ap (rows_of i.id) outbox ∙ rows_of-set_mail i.id x.id f keeps other box.outbox)
      ]

expire_mail_open : (now : ℕ) (m : Mail) → is_open m.status ≡ true → expire_mail now m ≡ m
expire_mail_open now m h = ground arith

suppress_mail_free :
    (listed : List Text) (m : Mail)
    → mem_text m.recipient_email listed ≡ false
    → suppress_mail listed m ≡ m
suppress_mail_free listed m h = elim (Bool-cases (is_open m.status)) [
  | inl opened ↦ rw (opened, h) refl
  | inr closed ↦ rw closed refl
]

rows_of-swept :
    (now : ℕ) (m : Mail) (box : Mailbox)
    → is_open m.status ≡ true
    → mem_text m.recipient_email box.suppressions ≡ false
    → rows_of m.id box.outbox ≡ m ∷ []
    → rows_of m.id (swept now box).outbox ≡ m ∷ []
unfolding expire_leases suppress_listed
rows_of-swept now m box opened free h =
    rows_of-map_only m.id (suppress_mail box.suppressions) m (λ x. ground arith)
      (suppress_mail_free box.suppressions m free) (map (expire_mail now) box.outbox)
      (rows_of-map_only m.id (expire_mail now) m (λ x. ground arith) (expire_mail_open now m opened)
        box.outbox h)

-- A mail to an address of its own, that is open and due and not suppressed, and that the SMTP server
-- refuses with a message, is tried once by a batch whose statements on it succeed and which finds no
-- more due mails than it takes, whatever becomes of the others: its attempts grow by one; it has
-- failed if they are six or more, and is otherwise to be tried again behind the pause for that many
-- attempts; and it is no longer locked.
pub run_email_delivery_batch_refused :
    (send : Sender) (fails : BatchFaults) (now : ℕ) (message : Text) (m : Mail) (box : Mailbox)
    → rows_of m.id box.outbox ≡ m ∷ []
    → m.user ≡ none
    → is_open m.status ≡ true
    → leb m.next_attempt_at now ≡ true
    → mem_text m.recipient_email box.suppressions ≡ false
    → ((row : Mail) → send m.recipient_email m.recipient_name row ≡ some message)
    → fails.expire ≡ false
    → fails.suppress ≡ false
    → fails.claim ≡ false
    → (fails.deliveries m.id).lookup ≡ false
    → (fails.deliveries m.id).update ≡ false
    → length (filter_by (is_due now) (swept now box).outbox) ≤ 25
    → (m' : Mail) × (rows_of m.id (run_email_delivery_batch send fails now box).0.outbox ≡ m' ∷ [])
      × (m'.attempts ≡ suc m.attempts)
      × (6 ≤ suc m.attempts → m'.status ≡ failed)
      × (suc m.attempts ≤ 5
          → (m'.status ≡ retry) × (m'.next_attempt_at ≡ now + retry_delay (suc m.attempts)))
      × (m'.locked_at ≡ none)
unfolding run_email_delivery_batch retry_row
run_email_delivery_batch_refused send fails now message m box one direct opened due free refused
      expire suppress claim lookup update few =
    let ready : Mailbox = swept now box in
    let items : List Mail = claim_items now ready.outbox in
    let i : Mail = count_attempt m in
    let found = rows_of-swept now m box opened free one in
    let taken : rows_of m.id items ≡ i ∷ [] =
      claim_items_only now m.id m ready.outbox (rw (opened, due) refl) found few in
    let locked : rows_of m.id (claimed now ready).outbox ≡ begin_sending now m ∷ [] =
      lock_items_only now m.id i items ready.outbox taken ∙ ap (map (begin_sending now)) found in
    let sent : rows_of m.id
          (deliver_items send fails.deliveries now items (claimed now ready)).0.outbox
        ≡ retry_row now (suc m.attempts) message (begin_sending now m) ∷ [] =
      deliver_items_refused send now message fails.deliveries i items (claimed now ready) taken
        direct free (refused i) lookup update
      ∙ ap (map (retry_row now (suc m.attempts) message)) locked in
    (
      retry_row now (suc m.attempts) message (begin_sending now m),
      rw (expire, suppress, claim) sent,
      refl,
      λ many. ground (arith, many),
      λ left. (ground (arith, left), refl),
      refl,
    )
