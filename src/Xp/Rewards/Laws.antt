-- ===== src/Xp/Rewards/Laws.antt =====
-- What rewards give, and when, internal/controllers/reward_service.go.
use across_backend_api.Prelude.{
  not, subst, sym, ap, ◌++◌, leb, suc, ◌/◌, ℕ, ◌*◌, ◌≤◌, ◌<◌, ◌≡◌, refl, ◌≢◌, ◌⊎◌, inl, inr, Bool,
  true, false, ◌&&◌, Option, none, some, [], arith, ◌==◌, if◌then◌else◌, Bool-cases,
}
use across_backend_api.Prelude.Text.{Text, codes, text_eq, text_eq_refl, text_eq_sound}
use across_backend_api.Prelude.Outcome.{ok, err, Outcome, ◌>>=◌, ◌>>◌, reject_if, ok_same}
use across_backend_api.Prelude.Int.{pos, negsuc, ◌+ℤ◌}
use across_backend_api.Xp.Rows.{
  Failure, Reason, purchase, database, reason_eq, XpDb, Faults, Notification, Order, OrderStatus,
}
use across_backend_api.Xp.Tables.{has_event, insert_notification, sum_amounts}
use across_backend_api.Prelude.Money.{Float64, nan, inf, minus_inf, kobo}
use across_backend_api.Xp.Rewards.{
  purchase_xp, award, award_daily_login, find_order, retained_fee, purchase_reward, award_purchase,
}

-- A purchase earns at most 25 points, at most a tenth of the retained fee, and at most one point
-- for each 1000 naira of the total.
pub purchase_reward_bounds :
    (n fee : ℕ)
    → (purchase_reward (kobo (pos n)) fee ≤ 25)
      × (1000 * purchase_reward (kobo (pos n)) fee ≤ fee)
      × (100_000 * purchase_reward (kobo (pos n)) fee ≤ n)
unfolding purchase_reward purchase_xp
purchase_reward_bounds n fee = ground arith

pub reason_eq_refl : (r : Reason) → reason_eq r r ≡ true
unfolding reason_eq
reason_eq_refl (Reason.other t) = text_eq_refl t
reason_eq_refl _ = refl

insert_notification-transactions :
    (n : Notification) (db : XpDb) → (insert_notification n db).transactions ≡ db.transactions
unfolding insert_notification
insert_notification-transactions n db = ground arith

module _ (fails : Faults) (user order : Text) (amount : ℕ) (reason : Reason)
    (reference event_key : Text) (db db' : XpDb) (entered : Bool)
    (ran : award fails user order amount reason reference event_key db ≡ ok (db', entered)) where
  -- A reward that is entered adds its amount to the user's ledger and to no one else's; one that
  -- was there already changes nothing at all.
  pub award-effect :
      (v : Text)
      → (sum_amounts v db'.transactions ≡ (
          if entered && text_eq user v
          then pos amount +ℤ sum_amounts v db.transactions
          else sum_amounts v db.transactions))
        × (entered ≡ false → db' ≡ db)
  unfolding award sum_amounts
  award-effect v = ground arith

  -- The same reward asked for again, where no statement fails, is not entered, and the tables stay
  -- as they are.
  pub award-award :
      reference ≢ []
      → award (λ _. false) user order amount reason reference event_key db' ≡ ok (db', false)
  unfolding award has_event
  award-award ne = ground (arith, text_eq_refl user, text_eq_refl reference, reason_eq_refl reason)

-- The day's claim is made once: whatever the first call returned, a second one for the same day, in
-- which no statement fails, awards nothing and leaves the tables as they are.
pub award_daily_login_twice :
    (fails : Faults) (user day : Text) (db db' : XpDb) (entered : Bool)
    → award_daily_login fails user day db ≡ ok (db', entered)
    → award_daily_login (λ _. false) user day db' ≡ ok (db', false)
unfolding award_daily_login insert_notification
award_daily_login_twice fails user day db db' entered ran =
    ground (arith, text_eq_refl user, text_eq_refl day)

-- The points of a purchase: all that the order allows, which is at most 25, at most a point for each
-- 1000 naira that were paid, and at most a tenth of the fee that was retained.
abbrev pub IsEarned : Float64 → ℕ → Order → Type 0
IsEarned total points o =
    (o.status ≡ OrderStatus.completed)
    × (o.currency ≡ codes "NGN")
    × (1 ≤ points)
    × (points ≤ 25)
    × (1000 * points ≤ o.platform_fee)
    × ((n : ℕ) × (total ≡ kobo (pos n))
        × (100_000 * points ≤ n)
        × ((points ≡ 25) ⊎ ((o.platform_fee < 1000 * suc points) ⊎ (n < 100_000 * suc points))))

purchase_reward-most :
    (n fee : ℕ)
    → (purchase_reward (kobo (pos n)) fee ≡ 25)
      ⊎ ((fee < 1000 * suc (purchase_reward (kobo (pos n)) fee))
          ⊎ (n < 100_000 * suc (purchase_reward (kobo (pos n)) fee)))
unfolding purchase_reward purchase_xp
purchase_reward-most n fee = elim (Bool-cases (leb (purchase_xp (kobo (pos n))) (fee / 1000))) [
  | inr fee_limits ↦ inr (inl (ground arith))
  | inl total_limits ↦ elim (Bool-cases (leb 25 (n / 100_000))) [
    | inl most ↦ inl (ground arith)
    | inr few ↦ inr (inr (ground arith))
  ]
]

-- A reward that is not 0 comes from a total that is a number and not negative.
rewarded_total :
    (total : Float64) (fee : ℕ)
    → (purchase_reward total fee == 0) ≡ false
    → (n : ℕ) × (total ≡ kobo (pos n))
unfolding purchase_reward purchase_xp
rewarded_total nan fee h = absurd (ground arith)
rewarded_total inf fee h = absurd (ground arith)
rewarded_total minus_inf fee h = absurd (ground arith)
rewarded_total (kobo (negsuc n)) fee h = absurd (ground arith)
rewarded_total (kobo (pos n)) fee h = (n, refl)

purchase_reward-IsEarned :
    (total : Float64) (o : Order)
    → o.status ≡ OrderStatus.completed
    → o.currency ≡ codes "NGN"
    → (purchase_reward total o.platform_fee == 0) ≡ false
    → IsEarned total (purchase_reward total o.platform_fee) o
purchase_reward-IsEarned total o complete naira some_points =
    let (n, e) = rewarded_total total o.platform_fee some_points in
    let (most, fee, paid) = purchase_reward_bounds n o.platform_fee in
    let positive : 1 ≤ purchase_reward total o.platform_fee = ground (arith, some_points) in
    subst
      (λ t. 1 ≤ purchase_reward t o.platform_fee → IsEarned t (purchase_reward t o.platform_fee) o)
      (sym e)
      (λ p. (complete, naira, p, most, fee, (n, refl, paid, purchase_reward-most n o.platform_fee)))
      positive

retained_fee-some :
    (o : Option Order)
    → (retained_fee o).0 ≡ true
    → (x : Order) × (o ≡ some x)
      × (x.status ≡ OrderStatus.completed)
      × (x.currency ≡ codes "NGN")
      × ((retained_fee o).1 ≡ x.platform_fee)
unfolding retained_fee
retained_fee-some none h = cc
retained_fee-some (some x) h =
    (x, refl, ground arith, text_eq_sound x.currency (codes "NGN") (ground arith), refl)

-- `AwardPurchase` on what it found: whether its query fails, whether the order counts, whether there
-- are no points, and the award.
abbrev purchase_chain :
    Bool
    → Bool
    → Bool
    → Outcome Failure (XpDb × Bool)
    → ℕ
    → XpDb
    → Outcome Failure (XpDb × Bool × ℕ)
purchase_chain broken complete nothing r amount db = do
  reject_if broken database
  if not complete
      then ok (db, false, 0)
      else if nothing
      then ok (db, false, 0)
      else (do (db', awarded) ← r; ok (db', awarded, amount))

purchase_chain-ok :
    (broken complete nothing : Bool) (r : Outcome Failure (XpDb × Bool)) (amount points : ℕ)
    (db db' : XpDb) (entered : Bool)
    → purchase_chain broken complete nothing r amount db ≡ ok (db', entered, points)
    → ((db' ≡ db) × (entered ≡ false) × (points ≡ 0))
      ⊎ ((complete ≡ true) × (nothing ≡ false) × (r ≡ ok (db', entered)) × (points ≡ amount))
purchase_chain-ok true complete nothing r amount points db db' entered e = absurd (ground arith)
purchase_chain-ok false false nothing r amount points db db' entered e = inl (ground arith)
purchase_chain-ok false true true r amount points db db' entered e = inl (ground arith)
purchase_chain-ok false true false (err x) amount points db db' entered e = absurd (ground arith)
purchase_chain-ok false true false (ok x) amount points db db' entered e =
    let same = ok_same (x.0, x.1, amount) (db', entered, points) e in
    inr (refl, refl, ap (λ z. ok (z.0, z.1)) same, sym (ap (λ z. z.2) same))

-- Points are awarded for a purchase only on a completed order of the user in naira, and as many as it
-- allows; the ledger of the user grows by them, or stays as it is with all tables where they were
-- entered before, and no one else's changes. Otherwise there are none, and the tables stay as they
-- are.
pub award_purchase-IsEarned :
    (fails : Faults) (user order : Text) (total : Float64) (points : ℕ) (db db' : XpDb)
    (entered : Bool)
    → award_purchase fails user order total db ≡ ok (db', entered, points)
    → ((db' ≡ db) × (entered ≡ false) × (points ≡ 0))
      ⊎ ((o : Order) × (find_order order user db.orders ≡ some o)
          × IsEarned total points o
          × (entered ≡ false → db' ≡ db)
          × ((v : Text)
              → sum_amounts v db'.transactions ≡ (
                  if entered && text_eq user v
                  then pos points +ℤ sum_amounts v db.transactions
                  else sum_amounts v db.transactions)))
unfolding award_purchase
award_purchase-IsEarned fails user order total points db db' entered ran =
    let found : Option Order = find_order order user db.orders in
    let amount : ℕ = purchase_reward total (retained_fee found).1 in
    let run =
      award fails user order amount purchase (codes "purchase-" ++ order)
        (codes "purchase-xp:" ++ order) db in
    elim (purchase_chain-ok (fails 4) (retained_fee found).0 (amount == 0) run amount points db db'
      entered ran) [
        | inl nothing ↦ inl nothing
        | inr (counts, some_points, awarded, same) ↦
            let (o, e, c, g, f) = retained_fee-some found counts in
            let effect =
              award-effect fails user order amount purchase (codes "purchase-" ++ order)
                (codes "purchase-xp:" ++ order) db db' entered awarded in
            let earned : IsEarned total amount o =
              subst (λ k. IsEarned total (purchase_reward total k) o) (sym f)
                (purchase_reward-IsEarned total o c g
                  (subst (λ k. (purchase_reward total k == 0) ≡ false) f some_points)) in
            subst
              (λ k.
                ((db' ≡ db) × (entered ≡ false) × (k ≡ 0))
                ⊎ ((x : Order) × (find_order order user db.orders ≡ some x)
                    × IsEarned total k x
                    × (entered ≡ false → db' ≡ db)
                    × ((v : Text)
                        → sum_amounts v db'.transactions ≡ (
                            if entered && text_eq user v
                            then pos k +ℤ sum_amounts v db.transactions
                            else sum_amounts v db.transactions))))
              (sym same) (inr (o, e, earned, (effect user).1, λ v. (effect v).0))
      ]
