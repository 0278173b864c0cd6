-- ===== src/Xp/Rewards.antt =====
-- `RewardService` of internal/controllers/reward_service.go. On amounts of whole kobo its divisions
-- and floors are those below.
pub mod Laws
use across_backend_api.Prelude.{
  ℕ, ◌+◌, ◌-◌, ◌/◌, min, Bool, true, false, not, ◌&&◌, ◌||◌, Option, none, some, List, [], ◌∷◌,
  ◌++◌, ltb, ◌==◌, if◌then◌else◌,
}
use across_backend_api.Prelude.Text.{Text, codes, text_eq}
use across_backend_api.Prelude.Outcome.{Outcome, ok, ◌>>=◌, ◌>>◌, reject_if}
use across_backend_api.Prelude.Int.{pos, negsuc}
use across_backend_api.Prelude.Money.{Float64, nan, inf, minus_inf, kobo}
use across_backend_api.Xp.Rows.{
  Reason, welcome, daily_login, purchase, Transaction, XpDb, Failure, database, Faults, statement,
  Notification, Order, OrderStatus, completed,
}
use across_backend_api.Xp.Tables.{conflicts, add_transaction, has_event, insert_notification}

abbrev pub welcome_xp : ℕ
welcome_xp = 5

-- `purchaseXP`: one point for each 1000 naira, at most 25.
unfoldable pub purchase_xp : Float64 → ℕ
purchase_xp nan = 0
purchase_xp inf = 0
purchase_xp minus_inf = 0
purchase_xp (kobo (negsuc n)) = 0
purchase_xp (kobo (pos n)) = if ltb n 100_000 then 0 else min 25 (n / 100_000)

-- A row of `xp_daily_login`, unique in user and day.
abbrev pub is_claimed : Text → Text → List (Text × Text) → Bool
is_claimed user day [] = false
is_claimed user day ((u, d) ∷ rest) = text_eq u user && text_eq d day || is_claimed user day rest

module _ (fails : Faults) where
  -- `award`: the transaction is entered once for each user, reason and reference, with its
  -- notification. The result says whether this call entered it.
  unfoldable pub award :
      Text → Text → ℕ → Reason → Text → Text → XpDb → Outcome Failure (XpDb × Bool)
  unfolding has_event insert_notification
  award user order amount reason reference event_key db = do
    statement fails 0
    statement fails 1
    reject_if (amount == 0) database
    let t : Transaction = record {
      user = user;
      amount = pos amount;
      reason = reason;
      reference = reference;
    }
    let n : Notification = record {
      user = user;
      order = order;
      kind = codes "xp_earned";
      event_key = event_key;
    }
    if conflicts t db then (do statement fails 2; ok (db, false)) else (do
      statement fails 2
      statement fails 3
      ok (insert_notification n (add_transaction t db), true))

  -- `AwardWelcome`
  unfoldable pub award_welcome : Text → XpDb → Outcome Failure (XpDb × Bool)
  unfolding award
  award_welcome user =
      award user [] welcome_xp welcome (codes "account-welcome") (codes "welcome-xp:" ++ user)

  -- `AwardDailyLogin`: the claim of the day comes first, and only a new one is rewarded.
  unfoldable pub award_daily_login : Text → Text → XpDb → Outcome Failure (XpDb × Bool)
  unfolding has_event insert_notification text_eq
  award_daily_login user day db = do
    statement fails 0
    statement fails 1
    let t : Transaction = record {
      user = user;
      amount = pos 1;
      reason = daily_login;
      reference = codes "daily-" ++ day;
    }
    let n : Notification = record {
      user = user;
      order = [];
      kind = codes "xp_earned";
      event_key = codes "daily-login:" ++ user ++ codes ":" ++ day;
    }
    let claimed : XpDb = record db { daily = (user, day) ∷ db.daily }
    if is_claimed user day db.daily then (do statement fails 2; ok (db, false)) else (do
      statement fails 2
      statement fails 3
      statement fails 4
      ok (
        insert_notification n (if conflicts t claimed then claimed else add_transaction t claimed),
        true,
      ))

-- The order of a user: `SELECT … FROM orders WHERE id=$1 AND user_id=$2`.
unfoldable pub find_order : Text → Text → List Order → Option Order
unfolding text_eq
find_order id user [] = none
find_order id user (o ∷ os) =
    let rest = find_order id user os in
    if text_eq o.id id && text_eq o.user user then some o else rest

abbrev is_completed : OrderStatus → Bool
is_completed OrderStatus.completed = true
is_completed _ = false

-- Whether the order counts, and the fee that was retained on it.
unfoldable pub retained_fee : Option Order → Bool × ℕ
unfolding text_eq
retained_fee none = (false, 0)
retained_fee (some o) = (is_completed o.status && text_eq o.currency (codes "NGN"), o.platform_fee)

-- `int(math.Min(float64(purchaseXP(total)), math.Floor(retainedFee*0.1)))`
unfoldable pub purchase_reward : Float64 → ℕ → ℕ
unfolding purchase_xp
purchase_reward total fee = min (purchase_xp total) (fee / 1000)

-- `AwardPurchase`, with the points; its own query is statement 4.
unfoldable pub award_purchase :
    Faults → Text → Text → Float64 → XpDb → Outcome Failure (XpDb × Bool × ℕ)
unfolding find_order retained_fee purchase_reward award
award_purchase fails user order total db = do
  statement fails 4
  let (complete, fee) = retained_fee (find_order order user db.orders)
  let amount : ℕ = purchase_reward total fee
  if not complete then ok (db, false, 0) else if amount == 0 then ok (db, false, 0) else (do
    (db', awarded) ←
        award fails user order amount purchase (codes "purchase-" ++ order)
          (codes "purchase-xp:" ++ order) db
    ok (db', awarded, amount))
