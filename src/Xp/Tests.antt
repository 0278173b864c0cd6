-- ===== src/Xp/Tests.antt =====
-- The XP code on a small set of tables: a user with a withdrawal under way.
use across_backend_api.Prelude.{
  ℕ, ◌≤◌, ◌≡◌, if◌then◌else◌, ◌&&◌, refl, ◌≢◌, ◌⊎◌, true, false, some, [], ◌∷◌, arith,
}
use across_backend_api.Prelude.Text.{Text, codes, text_eq}
use across_backend_api.Prelude.Outcome.{ok}
use across_backend_api.Prelude.Int.{pos, negsuc, ◌+ℤ◌, ◌-ℤ◌, ◌≤ℤ◌}
use across_backend_api.Prelude.Money.{kobo}
use across_backend_api.Xp.Rows.{
  reason_eq, welcome, daily_login, purchase, withdrawal_reserved, withdrawal_released, Transaction,
  XpDb, Faults, Withdrawal, WithdrawalStatus, Redemption, RedemptionStatus, service_fee_redemption,
  Order, OrderStatus,
}
use across_backend_api.Xp.Tables.{has_event, sum_amounts}
use across_backend_api.Xp.Withdrawals.{
  Parsers, already, created, reviewed, Request, trim_request, has_open, new_withdrawal,
  request_withdrawal, release_unused_xp,
}
use across_backend_api.Xp.Rewards.{award, award_daily_login, award_purchase, find_order}
use across_backend_api.Xp.Rewards.Laws.{award_purchase-IsEarned, IsEarned}
use across_backend_api.Xp.Redemptions.{consume_xp, discount_of, find_order_by_id}
use across_backend_api.Xp.Redemptions.Laws.{consume_xp-spendable, HasNoDebit}
use across_backend_api.Xp.Review.{
  ReviewBody, find_withdrawal, refund, reference_taken, after_review, review_withdrawal, review_row,
  chosen_status, validate_review, status_text,
}
use across_backend_api.Xp.Conservation.{IsValid, total_points, total_points-review_withdrawal}
use across_backend_api.Xp.Moves.{review_withdrawal-Move, Move, MayChoose}
use across_backend_api.Xp.Opened.{spendable}
use across_backend_api.Xp.Requests.{
  request_withdrawal-spends, request_withdrawal_again, request_withdrawal-IsValid,
}

abbrev user : Text
user = codes "u"

abbrev lenient : Parsers
lenient = record { is_uuid = λ s. true; is_admin = λ s. true }

abbrev no_faults : Faults
no_faults = λ k. false

abbrev earned : Transaction
earned = record { user = user; amount = pos 5000; reason = purchase; reference = codes "p" }

abbrev naira_order : Order
naira_order = record {
  id = codes "o";
  user = user;
  status = OrderStatus.completed;
  currency = codes "NGN";
  platform_fee = 12_000;
  xp_discount = 0;
}

abbrev tables : XpDb
tables = record {
  transactions = earned ∷ [];
  daily = [];
  redemptions = [];
  withdrawals = [];
  notifications = [];
  orders = naira_order ∷ [];
  payments = [];
}

tables-IsValid : IsValid tables
tables-IsValid = record { distinct = tt; unreleased = tt }

abbrev request : Request
request = record {
  request_key = codes "k";
  points = pos 2000;
  bank_name = codes " GTB ";
  account_number = codes "0123456789";
  account_name = codes "Ada";
}

abbrev requested : XpDb
requested = record tables {
  transactions =
      record {
        user = user;
        amount = negsuc 1999;
        reason = withdrawal_reserved;
        reference = codes "w";
      }
      ∷ earned
      ∷ [];
  withdrawals = new_withdrawal (codes "w") user (trim_request request) ∷ [];
}

request_ran :
    request_withdrawal lenient no_faults 0 (codes "w") user request tables
    ≡ ok (requested, created (codes "w") 2000)
unfolding request_withdrawal ◌+ℤ◌ ◌-ℤ◌
request_ran = refl

request_withdrawal-spends_example :
    (codes "w" ≡ codes "w")
    × (1000 ≤ 2000)
    × (has_open user tables.withdrawals ≡ false)
    × (spendable user requested +ℤ pos 2000
        ≡ spendable user (release_unused_xp user false 0 tables))
    × (pos 0 ≤ℤ spendable user requested)
request_withdrawal-spends_example =
    request_withdrawal-spends lenient no_faults 0 (codes "w") user request tables requested
      request_ran

request_withdrawal_again_example :
    request_withdrawal lenient no_faults 9 (codes "x") user request requested
    ≡ ok (requested, already (codes "w"))
request_withdrawal_again_example =
    request_withdrawal_again lenient no_faults no_faults 0 9 (codes "w") (codes "x") user request
      tables requested refl refl refl request_ran

not_released : has_event user withdrawal_released (codes "w") tables.transactions ≡ false
unfolding has_event
not_released = refl

abbrev rejection : ReviewBody
rejection = record { status = codes "rejected"; payout_reference = []; note = codes "no" }

abbrev admin : Text
admin = codes "a"

abbrev after_rejection : XpDb
after_rejection = record requested {
  transactions =
      record { user = user; amount = pos 2000; reason = withdrawal_released; reference = codes "w" }
      ∷ requested.transactions;
  withdrawals =
      record (new_withdrawal (codes "w") user (trim_request request)) {
        status = WithdrawalStatus.rejected;
        admin_note = codes "no";
        reviewed_by = admin;
      }
      ∷ [];
  notifications =
      record {
        user = user;
        order = [];
        kind = codes "xp_withdrawal";
        event_key = codes "withdrawal:w:rejected";
      }
      ∷ [];
}

review_ran :
    review_withdrawal lenient no_faults
      (codes "finance_admin")
      admin
      (codes "w")
      rejection
      requested
    ≡ ok (after_rejection, reviewed (codes "w") WithdrawalStatus.rejected)
unfolding review_withdrawal review_row after_review refund validate_review chosen_status
    find_withdrawal reference_taken
review_ran = refl

requested-IsValid : IsValid requested
requested-IsValid =
    request_withdrawal-IsValid lenient no_faults 0 (codes "w") user request tables requested
      (created (codes "w") 2000) tt not_released tables-IsValid request_ran

total_points-review_withdrawal_example :
    total_points user after_rejection ≡ total_points user requested
total_points-review_withdrawal_example =
    total_points-review_withdrawal lenient no_faults (codes "finance_admin") admin (codes "w")
      rejection requested after_rejection (reviewed (codes "w") WithdrawalStatus.rejected)
      requested-IsValid review_ran user

review_withdrawal-Move_example :
    (target : WithdrawalStatus) × (w : Withdrawal) × (w' : Withdrawal) × (status_text target
      ≡ rejection.status)
    × MayChoose (codes "finance_admin") target
    × (find_withdrawal (codes "w") requested.withdrawals ≡ some w)
    × (find_withdrawal (codes "w") after_rejection.withdrawals ≡ some w')
    × (w'.status ≡ target)
    × (((after_rejection ≡ requested) × (w.status ≡ target)) ⊎ Move w.status target)
review_withdrawal-Move_example =
    review_withdrawal-Move lenient no_faults (codes "finance_admin") admin (codes "w") rejection
      requested after_rejection (reviewed (codes "w") WithdrawalStatus.rejected) review_ran

-- A welcome reward.
abbrev welcomed : XpDb
welcomed = record tables {
  transactions =
      record { user = user; amount = pos 5; reason = welcome; reference = codes "r" } ∷ earned ∷ [];
  notifications =
      record { user = user; order = []; kind = codes "xp_earned"; event_key = codes "e" } ∷ [];
}

award_ran : award no_faults user [] 5 welcome (codes "r") (codes "e") tables ≡ ok (welcomed, true)
unfolding award
award_ran = refl

not_empty : codes "r" ≢ []
not_empty = ground arith

abbrev logged_in : XpDb
logged_in = record tables {
  transactions =
      record { user = user; amount = pos 1; reason = daily_login; reference = codes "daily-1" }
      ∷ earned
      ∷ [];
  daily = (user, codes "1") ∷ [];
  notifications =
      record {
        user = user;
        order = [];
        kind = codes "xp_earned";
        event_key = codes "daily-login:u:1";
      }
      ∷ [];
}

login_ran : award_daily_login no_faults user (codes "1") tables ≡ ok (logged_in, true)
unfolding award_daily_login
login_ran = refl

abbrev rewarded : XpDb
rewarded = record tables {
  transactions =
      record { user = user; amount = pos 12; reason = purchase; reference = codes "purchase-o" }
      ∷ earned
      ∷ [];
  notifications =
      record {
        user = user;
        order = codes "o";
        kind = codes "xp_earned";
        event_key = codes "purchase-xp:o";
      }
      ∷ [];
}

purchase_ran :
    award_purchase no_faults user (codes "o") (kobo (pos 1_500_000)) tables
    ≡ ok (rewarded, true, 12)
unfolding award_purchase
purchase_ran = refl

award_purchase-IsEarned_example :
    ((rewarded ≡ tables) × (true ≡ false) × ◌≡◌ {A = ℕ} 12 0)
    ⊎ ((o : Order) × (find_order (codes "o") user tables.orders ≡ some o)
        × IsEarned (kobo (pos 1_500_000)) 12 o
        × (true ≡ false → rewarded ≡ tables)
        × ((v : Text)
            → sum_amounts v rewarded.transactions ≡ (
                if true && text_eq user v
                then pos 12 +ℤ sum_amounts v tables.transactions
                else sum_amounts v tables.transactions)))
award_purchase-IsEarned_example =
    award_purchase-IsEarned no_faults user (codes "o") (kobo (pos 1_500_000)) 12 tables rewarded
      true purchase_ran

-- An order with five points reserved.
abbrev reserved_five : Redemption
reserved_five = record {
  order = codes "o";
  user = user;
  points = 5;
  status = RedemptionStatus.reserved;
  expires_at = 10;
}

abbrev quoted : XpDb
quoted = record tables {
  redemptions = reserved_five ∷ [];
  orders = record naira_order { status = OrderStatus.pending; xp_discount = 5 } ∷ [];
}

abbrev spent : XpDb
spent = record quoted {
  redemptions = record reserved_five { status = RedemptionStatus.consumed } ∷ [];
  transactions =
      record {
        user = user;
        amount = negsuc 4;
        reason = service_fee_redemption;
        reference = codes "xp-order:o";
      }
      ∷ earned
      ∷ [];
}

consume_ran : consume_xp no_faults (codes "o") quoted ≡ ok spent
unfolding consume_xp
consume_ran = refl

quoted-HasNoDebit : HasNoDebit (codes "o") quoted
unfolding has_event reason_eq
quoted-HasNoDebit someone = ground arith

consume_xp-spendable_example : spendable user spent ≡ spendable user quoted
consume_xp-spendable_example =
    consume_xp-spendable no_faults (codes "o") quoted spent consume_ran quoted-HasNoDebit user

discounted : discount_of (codes "o") quoted ≢ ok 0
unfolding find_order_by_id text_eq
discounted = ground arith
