-- ===== src/Xp/Moves.antt =====
-- The moves and the roles of a review, internal/controllers/xp_withdrawals.go.
use across_backend_api.Prelude.{
  ◌≡◌, refl, sym, ap, some, subst, ◌∙◌, ◌≢◌, ◌⊎◌, inl, inr, true, false, List, [], ◌∷◌, arith,
  Bool-cases,
}
use across_backend_api.Prelude.Text.{Text, codes, text_eq, text_eq_sound}
use across_backend_api.Prelude.Outcome.{ok}
use across_backend_api.Xp.Rows.{XpDb, Faults, Withdrawal, WithdrawalStatus}
use across_backend_api.Xp.Withdrawals.{Parsers, Reply}
use across_backend_api.Xp.Review.{
  ReviewBody, is_rejected, is_paid, is_processing, find_withdrawal, set_review, status_text,
  review_withdrawal, chosen_status, validate_review, super_admin,
}
use across_backend_api.Xp.Conservation.{review_withdrawal-Reviewed, after_review-tables}

-- The moves that a review can make.
pub data Move : WithdrawalStatus → WithdrawalStatus → Type 0 where
  prepare : Move WithdrawalStatus.pending WithdrawalStatus.processing
  pay : Move WithdrawalStatus.processing WithdrawalStatus.paid
  decline : Move WithdrawalStatus.pending WithdrawalStatus.rejected
  abandon : Move WithdrawalStatus.processing WithdrawalStatus.rejected

-- Who may choose a status: a payment is recorded by a super admin alone.
abbrev pub MayChoose : Text → WithdrawalStatus → Type 0
MayChoose role target =
    ((role ≡ super_admin) ⊎ (role ≡ codes "finance_admin"))
    × (is_paid target ≡ true → role ≡ super_admin)

validate_review-MayChoose :
    (p : Parsers) (role id : Text) (body : ReviewBody) {target : WithdrawalStatus}
    → chosen_status body.status ≡ some target
    → validate_review p role id body ≡ ok tt
    → MayChoose role target
unfolding validate_review
validate_review-MayChoose p role id body {target} chosen h =
    elim (Bool-cases (text_eq role super_admin)) [
      | inl super ↦
          let e : role ≡ super_admin = text_eq_sound role super_admin super in (inl e, λ _. e)
      | inr other ↦ elim (Bool-cases (text_eq role (codes "finance_admin"))) [
        | inl finance ↦ (
          inr (text_eq_sound role (codes "finance_admin") finance),
          λ pays. absurd (ground arith),
        )
        | inr neither ↦ absurd (ground arith)
      ]
    ]

Move-of :
    (a b : WithdrawalStatus)
    → b ≢ WithdrawalStatus.pending
    → is_rejected a ≡ false
    → is_paid a ≡ false
    → (is_paid b ≡ true → is_processing a ≡ true)
    → a ≢ b
    → Move a b
Move-of WithdrawalStatus.pending WithdrawalStatus.processing c r p s d = prepare
Move-of WithdrawalStatus.pending WithdrawalStatus.rejected c r p s d = decline
Move-of WithdrawalStatus.processing WithdrawalStatus.paid c r p s d = pay
Move-of WithdrawalStatus.processing WithdrawalStatus.rejected c r p s d = abandon
Move-of WithdrawalStatus.pending WithdrawalStatus.paid c r p s d = absurd (ground (arith, s refl))
Move-of WithdrawalStatus.processing WithdrawalStatus.processing c r p s d = absurd (d refl)
Move-of a WithdrawalStatus.pending c r p s d = absurd (c refl)
Move-of WithdrawalStatus.paid b c r p s d = absurd (ground arith)
Move-of WithdrawalStatus.rejected b c r p s d = absurd (ground arith)

chosen_not_pending :
    (s : Text) {target : WithdrawalStatus}
    → chosen_status s ≡ some target
    → target ≢ WithdrawalStatus.pending
unfolding chosen_status
chosen_not_pending s h = λ e. ground arith

chosen_text :
    (s : Text) {target : WithdrawalStatus} → chosen_status s ≡ some target → status_text target ≡ s
unfolding chosen_status
chosen_text s {target} h = elim (Bool-cases (text_eq s (codes "processing"))) [
  | inl a ↦ ground (arith, text_eq_sound s (codes "processing") a)
  | inr na ↦ elim (Bool-cases (text_eq s (codes "paid"))) [
    | inl b ↦ ground (arith, text_eq_sound s (codes "paid") b)
    | inr nb ↦ elim (Bool-cases (text_eq s (codes "rejected"))) [
      | inl c ↦ ground (arith, text_eq_sound s (codes "rejected") c)
      | inr nc ↦ absurd (ground arith)
    ]
  ]
]

find_withdrawal-id :
    (id : Text) (ws : List Withdrawal) {w : Withdrawal} → find_withdrawal id ws ≡ some w → w.id ≡ id
unfolding find_withdrawal
find_withdrawal-id id [] f = absurd (ground arith)
find_withdrawal-id id (x ∷ ws) {w} f = elim (Bool-cases (text_eq x.id id)) [
  | inl hit ↦ let e : x ≡ w = ground arith in ap (λ z. z.id) (sym e) ∙ text_eq_sound x.id id hit
  | inr miss ↦ find_withdrawal-id id ws {w = w} (ground arith)
]

-- The row that a review writes.
abbrev pub reviewed_row : WithdrawalStatus → Text → Text → Text → Withdrawal → Withdrawal
reviewed_row status reference note admin w = record w {
  status = status;
  payout_reference = reference;
  admin_note = note;
  reviewed_by = admin;
}

find_withdrawal-set_review :
    (id : Text) (status : WithdrawalStatus) (reference note admin : Text) (ws : List Withdrawal)
    {w : Withdrawal}
    → find_withdrawal id ws ≡ some w
    → find_withdrawal id (set_review id status reference note admin ws)
      ≡ some (reviewed_row status reference note admin w)
unfolding find_withdrawal set_review
find_withdrawal-set_review id status reference note admin [] f = absurd (ground arith)
find_withdrawal-set_review id status reference note admin (x ∷ ws) {w} f =
    elim (Bool-cases (text_eq x.id id)) [
      | inl hit ↦
          let e : x ≡ w = ground arith in
          rw (hit, hit) (ap (λ z. some (reviewed_row status reference note admin z)) e)
      | inr miss ↦
          rw (miss, miss)
            (find_withdrawal-set_review id status reference note admin ws {w = w} (ground arith))
    ]

-- A review that succeeds was for the status that the body names, and by an administrator who may
-- choose it, and the row has this status behind it: either it had it already, and the tables stay as
-- they are, or the review made one of the four moves.
pub review_withdrawal-Move :
    (p : Parsers) (fails : Faults) (role admin id : Text) (body : ReviewBody) (db db' : XpDb)
    (r : Reply)
    → review_withdrawal p fails role admin id body db ≡ ok (db', r)
    → (target : WithdrawalStatus) × (w : Withdrawal) × (w' : Withdrawal) × (status_text target
        ≡ body.status)
      × MayChoose role target
      × (find_withdrawal id db.withdrawals ≡ some w)
      × (find_withdrawal id db'.withdrawals ≡ some w')
      × (w'.status ≡ target)
      × (((db' ≡ db) × (w.status ≡ target)) ⊎ Move w.status target)
review_withdrawal-Move p fails role admin id body db db' r ran =
    let (target, w, chosen, valid, found, done) =
      review_withdrawal-Reviewed p fails role admin id body db db' r ran in
    let said = chosen_text body.status chosen in
    let may = validate_review-MayChoose p role id body chosen valid in
    elim done [
      | inl same ↦ (
        target,
        w,
        w,
        said,
        may,
        found,
        subst (λ x. find_withdrawal id x.withdrawals ≡ some w) (sym same.0) found,
        same.1,
        inl same,
      )
      | inr (reference, note, by, e, nr, np, pays, differs) ↦
          let (t, l) = after_review-tables target reference note by w db in
          let own : w.id ≡ id = find_withdrawal-id id db.withdrawals {w = w} found in
          let there =
            find_withdrawal-set_review id target reference note by db.withdrawals {w = w} found in
          (
            target,
            w,
            reviewed_row target reference note by w,
            said,
            may,
            found,
            subst
                (λ x.
                  find_withdrawal id x.withdrawals ≡ some (reviewed_row target reference note by w))
                (sym e)
                (rw l (
                  subst
                    (λ z.
                      find_withdrawal id (set_review z target reference note by db.withdrawals)
                      ≡ some (reviewed_row target reference note by w))
                    (sym own) there)),
            refl,
            inr (
                Move-of w.status target (chosen_not_pending body.status chosen) nr np pays differs),
          )
    ]
