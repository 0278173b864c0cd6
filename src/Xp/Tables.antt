-- ===== src/Xp/Tables.antt =====
-- The statements of the XP code on its tables, internal/controllers. The identifiers are opaque
-- texts; the prose of a notification is left out.
use across_backend_api.Prelude.{
  ℕ, ◌+◌, Bool, true, false, not, ◌&&◌, ◌||◌, List, [], ◌∷◌, if◌then◌else◌,
}
use across_backend_api.Prelude.Text.{Text, text_eq, is_empty}
use across_backend_api.Prelude.Int.{ℤ, pos, ◌+ℤ◌, ◌-ℤ◌}
use across_backend_api.Xp.Rows.{
  Reason, reason_eq, Transaction, RedemptionStatus, reserved, Redemption, Notification, XpDb,
}

-- A row that the unique index on user, reason and reference would refuse.
abbrev pub is_event : Text → Reason → Text → Transaction → Bool
is_event user reason reference t =
    text_eq t.user user && reason_eq t.reason reason && text_eq t.reference reference

unfoldable pub has_event : Text → Reason → Text → List Transaction → Bool
unfolding text_eq reason_eq
has_event user reason reference [] = false
has_event user reason reference (t ∷ ts) =
    is_event user reason reference t || has_event user reason reference ts

-- The index is partial: an empty reference is never a duplicate.
abbrev pub conflicts : Transaction → XpDb → Bool
conflicts t db = not (is_empty t.reference) && has_event t.user t.reason t.reference db.transactions

abbrev pub add_transaction : Transaction → XpDb → XpDb
add_transaction t db = record db { transactions = t ∷ db.transactions }

unfoldable pub has_notification : Text → List Notification → Bool
unfolding text_eq
has_notification key [] = false
has_notification key (n ∷ ns) = text_eq n.event_key key || has_notification key ns

-- `insertNotification`: an event key that is there already is kept, and an empty one is NULL.
unfoldable pub insert_notification : Notification → XpDb → XpDb
unfolding has_notification
insert_notification n db =
    if not (is_empty n.event_key) && has_notification n.event_key db.notifications
    then db
    else record db { notifications = n ∷ db.notifications }

-- `SUM(amount)` over the transactions of a user.
unfoldable pub sum_amounts : Text → List Transaction → ℤ
unfolding text_eq
sum_amounts user [] = pos 0
sum_amounts user (t ∷ ts) =
    let rest = sum_amounts user ts in if text_eq t.user user then t.amount +ℤ rest else rest

abbrev pub is_reserved : RedemptionStatus → Bool
is_reserved reserved = true
is_reserved _ = false

-- `SUM(points)` over the user's reserved redemptions.
unfoldable pub sum_reserved : Text → List Redemption → ℕ
unfolding text_eq
sum_reserved user [] = 0
sum_reserved user (r ∷ rs) =
    let rest = sum_reserved user rs in
    if text_eq r.user user && is_reserved r.status then r.points + rest else rest

-- `availableXP`: the points that a user can spend, and those that are reserved.
unfoldable pub available_xp : Text → XpDb → ℤ × ℕ
unfolding sum_amounts sum_reserved
available_xp user db =
    let kept = sum_reserved user db.redemptions in
    (sum_amounts user db.transactions -ℤ pos kept, kept)
