-- ===== src/Xp/Opened.antt =====
-- What a request for a withdrawal that is opened does to the tables,
-- internal/controllers/xp_withdrawals.go.
use across_backend_api.Prelude.{
  ℕ, ◌≤◌, ◌≡◌, refl, ◌⊎◌, inl, inr, true, false, none, some, List, [], ◌∷◌, arith, if◌then◌else◌,
  Option-cases, All,
}
use across_backend_api.Prelude.Text.{Text, text_eq, text_eq_refl}
use across_backend_api.Prelude.Outcome.{ok}
use across_backend_api.Prelude.Int.{
  ℤ, pos, pos_part, neg_part, ◌+ℤ◌, ◌≤ℤ◌, ltb_ℤ, int_laws, +ℤ_parts,
}
use across_backend_api.Xp.Rows.{
  reason_eq, withdrawal_reserved, withdrawal_released, Transaction, XpDb, Faults, Withdrawal,
}
use across_backend_api.Xp.Tables.{has_event, add_transaction, available_xp, sum_amounts}
use across_backend_api.Xp.Withdrawals.{
  Parsers, Reply, already, created, Request, trim_request, is_acceptable, find_request, has_open,
  same_details, new_withdrawal, negate, open_request, request_withdrawal, release_unused_xp,
}
use across_backend_api.Xp.Conservation.{total_points, IsUnreleased, IsOtherId, IsValid}

-- The tables that an opened request leaves behind.
abbrev pub opened : ℕ → Text → Text → Request → XpDb → XpDb
opened now id user q db =
    let free = release_unused_xp user false now db in
    add_transaction
      (record {
        user = user;
        amount = negate (pos_part q.points);
        reason = withdrawal_reserved;
        reference = id;
      })
      (record free { withdrawals = new_withdrawal id user q ∷ free.withdrawals })

pub open_request-opened :
    (fails : Faults) (now : ℕ) (id user : Text) (q : Request) (db db' : XpDb) (r : Reply)
    → open_request fails now id user q db ≡ ok (db', r)
    → (db' ≡ opened now id user q db)
      × (r ≡ created id (pos_part q.points))
      × (has_open user db.withdrawals ≡ false)
      × (ltb_ℤ (available_xp user (release_unused_xp user false now db)).0 q.points ≡ false)
unfolding open_request
open_request-opened fails now id user q db db' r ran = ground arith

-- A request that is not a repetition.
pub request_withdrawal-opened :
    (p : Parsers) (fails : Faults) (now : ℕ) (id user : Text) (raw : Request) (db db' : XpDb)
    (r : Reply)
    → request_withdrawal p fails now id user raw db ≡ ok (db', r)
    → let q = trim_request raw in
      (is_acceptable q ≡ true)
      × (((w : Withdrawal) × (find_request user q.request_key db.withdrawals ≡ some w)
            × (db' ≡ db)
            × (r ≡ already w.id)
            × (same_details q w ≡ true))
          ⊎ ((find_request user q.request_key db.withdrawals ≡ none)
              × (open_request fails now id user q db ≡ ok (db', r))))
unfolding request_withdrawal
request_withdrawal-opened p fails now id user raw db db' r ran =
    let q : Request = trim_request raw in
    elim (Option-cases (find_request user q.request_key db.withdrawals)) [
      | inl new ↦ (ground arith, inr (new, ground arith))
      | inr (w, old) ↦ (ground arith, inl (w, old, ground arith, ground arith, ground arith))
    ]

-- The points that a user can spend.
abbrev pub spendable : Text → XpDb → ℤ
spendable user db = (available_xp user db).0

pub acceptable_points :
    (q : Request) → is_acceptable q ≡ true → (1000 ≤ pos_part q.points) × (neg_part q.points ≡ 0)
unfolding is_acceptable
acceptable_points q h = ground arith

pub negate_parts : (n : ℕ) → (pos_part (negate n) ≡ 0) × (neg_part (negate n) ≡ n)
negate_parts n = ground arith

opened-sum_amounts :
    (now : ℕ) (id user who : Text) (q : Request) (db : XpDb)
    → sum_amounts who (opened now id user q db).transactions ≡ (
        if text_eq user who
        then negate (pos_part q.points) +ℤ sum_amounts who db.transactions
        else sum_amounts who db.transactions)
unfolding sum_amounts release_unused_xp
opened-sum_amounts now id user who q db = refl

pub opened-spendable :
    (now : ℕ) (id user : Text) (q : Request) (db : XpDb)
    → spendable user (opened now id user q db) +ℤ pos (pos_part q.points)
      ≡ spendable user (release_unused_xp user false now db)
unfolding available_xp release_unused_xp sum_amounts
opened-spendable now id user q db =
    rw (text_eq_refl user) (grind (int_laws, negate_parts (pos_part q.points)))

pub opened-total_points :
    (now : ℕ) (id user who : Text) (q : Request) (db : XpDb)
    → total_points who (opened now id user q db) ≡ total_points who db
unfolding sum_amounts release_unused_xp
opened-total_points now id user who q db = grind (int_laws, negate_parts (pos_part q.points))

-- A reservation on the ledger is no release.
All-reserved :
    (t : Transaction) (ts : List Transaction) (ws : List Withdrawal)
    → t.reason ≡ withdrawal_reserved
    → All (IsUnreleased ts) ws
    → All (IsUnreleased (t ∷ ts)) ws
unfolding has_event reason_eq
All-reserved t ts [] e a = tt
All-reserved t ts (w ∷ ws) e a = (λ h. rw e (ground (arith, a.0 h)), All-reserved t ts ws e a.1)

pub opened-IsValid :
    (now : ℕ) (id user : Text) (q : Request) (db : XpDb)
    → All (IsOtherId id) db.withdrawals
    → has_event user withdrawal_released id db.transactions ≡ false
    → IsValid db
    → IsValid (opened now id user q db)
unfolding release_unused_xp has_event reason_eq
opened-IsValid now id user q db fresh clean v = record {
  distinct = (fresh, v.distinct);
  unreleased =
      All-reserved
        (record {
          user = user;
          amount = negate (pos_part q.points);
          reason = withdrawal_reserved;
          reference = id;
        })
        db.transactions (new_withdrawal id user q ∷ db.withdrawals) refl (λ _. clean, v.unreleased);
}

pub sufficient :
    (a b c : ℤ) (n : ℕ)
    → a +ℤ pos n ≡ b
    → ltb_ℤ b c ≡ false
    → n ≡ pos_part c
    → neg_part c ≡ 0
    → pos 0 ≤ℤ a
sufficient a b c n taken enough same sign = ground (arith, +ℤ_parts a (pos n))

pub same_details_new :
    (id user : Text) (q : Request) → same_details q (new_withdrawal id user q) ≡ true
same_details_new id user q =
    rw (text_eq_refl q.bank_name, text_eq_refl q.account_number, text_eq_refl q.account_name)
      (ground arith)

pub find_request_new :
    (now : ℕ) (id user : Text) (q : Request) (db : XpDb)
    → find_request user q.request_key (opened now id user q db).withdrawals
      ≡ some (new_withdrawal id user q)
unfolding find_request release_unused_xp
find_request_new now id user q db = rw (text_eq_refl user, text_eq_refl q.request_key) refl
