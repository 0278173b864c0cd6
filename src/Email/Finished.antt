-- ===== src/Email/Finished.antt =====
-- Mails that are done with, internal/services/email_outbox.go.
use across_backend_api.Prelude.{
  ℕ, zero, suc, ◌≡◌, refl, sym, ap, subst, ◌∙◌, inl, inr, Bool, true, false, List, [], ◌∷◌, map,
  arith, if◌then◌else◌, Bool-cases, take, filter_by, All,
}
use across_backend_api.Prelude.Text.{Text, text_eq, text_eq_sound}
use across_backend_api.Email.Outbox.{Mail, MailStatus, sent, suppressed, failed, Mailbox}
use across_backend_api.Email.Claims.{
  Sender, DeliveryFaults, expire_leases, suppress_listed, is_due, claim_items, sort_by_time,
  insert_by_time, count_attempt, is_open, expire_mail, suppress_mail,
}
use across_backend_api.Email.Delivery.{
  BatchFaults, set_mail, deliver_email, deliver_items, lock_items, begin_sending, swept, claimed,
  run_email_delivery_batch,
}
use across_backend_api.Email.Effect.{deliver_email-Effect}

abbrev pub is_finished : MailStatus → Bool
is_finished sent = true
is_finished suppressed = true
is_finished failed = true
is_finished _ = false

-- The rows with an identifier: one at most, in a table with a primary key.
abbrev pub rows_of : Text → List Mail → List Mail
rows_of id rows = filter_by (λ m. text_eq m.id id) rows

abbrev pub AllFinished : List Mail → Type 0
AllFinished rows = All (λ m. is_finished m.status ≡ true) rows

pub rows_of-map :
    (id : Text) (f : Mail → Mail)
    → ((m : Mail) → (f m).id ≡ m.id)
    → ((m : Mail) → is_finished m.status ≡ true → f m ≡ m)
    → (rows : List Mail) → AllFinished (rows_of id rows)
    → rows_of id (map f rows) ≡ rows_of id rows
rows_of-map id f keeps fixed [] h = refl
rows_of-map id f keeps fixed (m ∷ more) h = elim (Bool-cases (text_eq m.id id)) [
  | inl e ↦
      let h' : AllFinished (m ∷ rows_of id more) =
        subst (λ b. AllFinished (if b then m ∷ rows_of id more else rows_of id more)) e h in
      rw (fixed m h'.0, e, rows_of-map id f keeps fixed more h'.1) refl
  | inr e ↦
      let h' : AllFinished (rows_of id more) =
        subst (λ b. AllFinished (if b then m ∷ rows_of id more else rows_of id more)) e h in
      rw (ap (λ k. text_eq k id) (keeps m) ∙ e, e) (rows_of-map id f keeps fixed more h')
]

pub rows_of-set_mail :
    (id j : Text) (f : Mail → Mail)
    → ((m : Mail) → (f m).id ≡ m.id)
    → text_eq j id ≡ false
    → (rows : List Mail) → rows_of id (set_mail j f rows) ≡ rows_of id rows
unfolding set_mail
rows_of-set_mail id j f keeps differ [] = refl
rows_of-set_mail id j f keeps differ (m ∷ more) = elim (Bool-cases (text_eq m.id j)) [
  | inl e ↦
      let other : text_eq m.id id ≡ false =
        subst (λ k. text_eq k id ≡ false) (sym (text_eq_sound m.id j e)) differ in
      rw (e, ap (λ k. text_eq k id) (keeps m) ∙ other, other)
        (rows_of-set_mail id j f keeps differ more)
  | inr e ↦ rw (e, rows_of-set_mail id j f keeps differ more) refl
]

-- Items of other rows.
abbrev pub Others : Text → List Mail → Type 0
Others id items = All (λ i. text_eq i.id id ≡ false) items

finished_closed : (s : MailStatus) → is_finished s ≡ true → is_open s ≡ false
finished_closed s h = ground arith

due-Others :
    (now : ℕ) (id : Text) (rows : List Mail)
    → AllFinished (rows_of id rows)
    → Others id (filter_by (is_due now) rows)
due-Others now id [] h = tt
due-Others now id (m ∷ more) h = elim (Bool-cases (text_eq m.id id)) [
  | inl e ↦
      let h' : AllFinished (m ∷ rows_of id more) =
        subst (λ b. AllFinished (if b then m ∷ rows_of id more else rows_of id more)) e h in
      rw (finished_closed m.status h'.0) (due-Others now id more h'.1)
  | inr e ↦
      let h' : AllFinished (rows_of id more) =
        subst (λ b. AllFinished (if b then m ∷ rows_of id more else rows_of id more)) e h in
      elim (Bool-cases (is_due now m)) [
        | inl due ↦ rw due (e, due-Others now id more h')
        | inr early ↦ rw early (due-Others now id more h')
      ]
]

insert_by_time-Others :
    (id : Text) (m : Mail) (items : List Mail)
    → text_eq m.id id ≡ false
    → Others id items
    → Others id (insert_by_time m items)
unfolding insert_by_time
insert_by_time-Others id m [] e h = (e, tt)
insert_by_time-Others id m (n ∷ more) e h = ground (arith, insert_by_time-Others id m more e)

sort_by_time-Others :
    (id : Text) (items : List Mail) → Others id items → Others id (sort_by_time items)
unfolding sort_by_time
sort_by_time-Others id [] h = tt
sort_by_time-Others id (m ∷ more) h =
    insert_by_time-Others id m (sort_by_time more) h.0 (sort_by_time-Others id more h.1)

take-Others : (n : ℕ) (id : Text) (items : List Mail) → Others id items → Others id (take n items)
take-Others zero id items h = tt
take-Others (suc n) id [] h = tt
take-Others (suc n) id (m ∷ more) h = (h.0, take-Others n id more h.1)

count-Others :
    (id : Text) (items : List Mail) → Others id items → Others id (map count_attempt items)
count-Others id [] h = tt
count-Others id (m ∷ more) h = (h.0, count-Others id more h.1)

claim_items-Others :
    (now : ℕ) (id : Text) (rows : List Mail)
    → AllFinished (rows_of id rows)
    → Others id (claim_items now rows)
unfolding claim_items
claim_items-Others now id rows h =
    count-Others id _ (take-Others 25 id _ (sort_by_time-Others id _ (due-Others now id rows h)))

pub rows_of-lock_items :
    (now : ℕ) (id : Text) (items rows : List Mail)
    → Others id items
    → rows_of id (lock_items now items rows) ≡ rows_of id rows
unfolding lock_items
rows_of-lock_items now id [] rows h = refl
rows_of-lock_items now id (i ∷ more) rows h =
    rows_of-lock_items now id more (set_mail i.id (begin_sending now) rows) h.1
    ∙ rows_of-set_mail id i.id (begin_sending now) (λ m. refl) h.0 rows

pub rows_of-deliver_items :
    (send : Sender) (fails : Text → DeliveryFaults) (now : ℕ) (id : Text) (items : List Mail)
    (box : Mailbox)
    → Others id items
    → rows_of id (deliver_items send fails now items box).0.outbox ≡ rows_of id box.outbox
rows_of-deliver_items send fails now id [] box h = refl
rows_of-deliver_items send fails now id (i ∷ more) box h =
    let (f, keeps, runs) =
      deliver_email-Effect box.accounts box.suppressions send (fails i.id) now i in
    let one = (deliver_email send (fails i.id) now i box).0 in
    rows_of-deliver_items send fails now id more one h.1
    ∙ (ap (rows_of id) (runs box refl refl).0 ∙ rows_of-set_mail id i.id f keeps h.0 box.outbox)

expire_mail-id : (now : ℕ) (m : Mail) → (expire_mail now m).id ≡ m.id
expire_mail-id now m = ground arith

expire_mail-finished : (now : ℕ) (m : Mail) → is_finished m.status ≡ true → expire_mail now m ≡ m
expire_mail-finished now m h = ground arith

suppress_mail-id : (listed : List Text) (m : Mail) → (suppress_mail listed m).id ≡ m.id
suppress_mail-id listed m = ground arith

suppress_mail-finished :
    (listed : List Text) (m : Mail) → is_finished m.status ≡ true → suppress_mail listed m ≡ m
suppress_mail-finished listed m h = rw (finished_closed m.status h) refl

rows_of-expire_leases :
    (now : ℕ) (id : Text) (rows : List Mail)
    → AllFinished (rows_of id rows)
    → rows_of id (expire_leases now rows) ≡ rows_of id rows
unfolding expire_leases
rows_of-expire_leases now id rows h =
    rows_of-map id (expire_mail now) (expire_mail-id now) (expire_mail-finished now) rows h

rows_of-suppress_listed :
    (listed : List Text) (id : Text) (rows : List Mail)
    → AllFinished (rows_of id rows)
    → rows_of id (suppress_listed listed rows) ≡ rows_of id rows
unfolding suppress_listed
rows_of-suppress_listed listed id rows h =
    rows_of-map id (suppress_mail listed) (suppress_mail-id listed) (suppress_mail-finished listed)
      rows h

-- A batch leaves a mail that was sent, suppressed or given up as it is: it is neither tried again
-- nor changed, whatever statements fail and whatever the SMTP server answers.
pub rows_of-run_email_delivery_batch :
    (send : Sender) (fails : BatchFaults) (now : ℕ) (id : Text) (box : Mailbox)
    → AllFinished (rows_of id box.outbox)
    → rows_of id (run_email_delivery_batch send fails now box).0.outbox ≡ rows_of id box.outbox
unfolding run_email_delivery_batch
rows_of-run_email_delivery_batch send fails now id box h =
    let e1 = rows_of-expire_leases now id box.outbox h in
    let h1 = subst AllFinished (sym e1) h in
    let e2 = rows_of-suppress_listed box.suppressions id (expire_leases now box.outbox) h1 ∙ e1 in
    let h2 = subst AllFinished (sym e2) h in
    let ready = swept now box in
    let others = claim_items-Others now id ready.outbox h2 in
    let e3 =
      rows_of-deliver_items send fails.deliveries now id (claim_items now ready.outbox)
        (claimed now ready) others
      ∙ (rows_of-lock_items now id (claim_items now ready.outbox) ready.outbox others ∙ e2) in
    elim (Bool-cases fails.expire) [
      | inl a ↦ rw a refl
      | inr a ↦ elim (Bool-cases fails.suppress) [
        | inl b ↦ rw (a, b) e1
        | inr b ↦ elim (Bool-cases fails.claim) [
          | inl c ↦ rw (a, b, c) e2
          | inr c ↦ rw (a, b, c) e3
        ]
      ]
    ]
