-- ===== src/Play/Granted.antt =====
-- What an active receipt grants, internal/playbilling/client.go.
use across_backend_api.Prelude.{
  and_both, ℕ, ◌<◌, ◌≡◌, refl, sym, ap, subst, ◌∙◌, ◌⊎◌, inl, inr, Bool, true, false, not, ◌&&◌,
  ◌||◌, Option, none, some, arith, ltb, if◌then◌else◌, length,
}
use across_backend_api.Prelude.Text.{Text, codes, text_eq, has_prefix, mem_text}
use across_backend_api.Prelude.Outcome.{ok_same, Outcome, ok, >>=-ok, reject_if-ok}
use across_backend_api.Play.Receipts.{
  Purchase, LineItem, Expected, Verified, paid_states, idle_states, first_view, price_fails,
  dated_view, view_of_state, time_of, by_state, is_amount, listed_price, is_there,
}
use across_backend_api.Play.Money.{GoogleMoney, minor}

-- The line is sold at the amount: not on trial nor at an introductory price, and either it is prepaid,
-- with the order left to be verified for its total, or it is a renewal whose price in minor units is
-- the amount.
pub record IsSoldAt (item : LineItem) (expected : Expected) : Type 0 where
  pub no_trial : item.free_trial ≡ false
  pub no_introduction : item.introductory ≡ false
  pub price :
      ((expected.prepaid ≡ true) × (item.prepaid ≡ true) × (expected.verify_order ≡ true))
      ⊎ ((expected.prepaid ≡ false)
          × ((enabled : Bool) × (price : GoogleMoney) × (item.auto_renewing ≡ some (enabled, price))
              × (minor price ≡ some expected.amount_minor)))

-- What an active view of a receipt says of its line and of what was expected.
pub record Granted (parse : Text → Option ℕ) (receipt : Purchase) (item : LineItem)
    (expected : Expected) (now : ℕ) (v : Verified) : Type 0 where
  pub product : v.product ≡ item.product
  pub base_plan : v.base_plan ≡ item.base_plan
  pub order : v.order ≡ item.order
  pub test : v.test ≡ receipt.test
  pub expiry : parse item.expiry ≡ some v.expires_at
  pub expires : now < v.expires_at
  pub price :
      0 < expected.amount_minor → IsSoldAt item expected × (v.amount_minor ≡ expected.amount_minor)

amount_some : (price : Option ℕ) (amount : ℕ) → is_amount price amount ≡ true → price ≡ some amount
amount_some none amount h = absurd (ground arith)
amount_some (some m) amount h = let same : m ≡ amount = ground arith in ap some same

listed :
    (renewal : Option (Bool × GoogleMoney)) (amount : ℕ)
    → is_amount (listed_price renewal) amount ≡ true
    → (enabled : Bool) × (price : GoogleMoney) × (renewal ≡ some (enabled, price))
      × (minor price ≡ some amount)
listed none amount h = absurd (ground arith)
listed (some (enabled, price)) amount h = (enabled, price, refl, amount_some (minor price) amount h)

sold :
    (p q r t f i m : Bool)
    → (p && (not q || not r) || not p && not t || f || i || not p && not m) ≡ false
    → (f ≡ false)
      × (i ≡ false)
      × (((p ≡ true) × (q ≡ true) × (r ≡ true)) ⊎ ((p ≡ false) × (m ≡ true)))
sold true q r t f i m h = (ground arith, ground arith, inl (refl, ground arith, ground arith))
sold false q r t f i m h = (ground arith, ground arith, inr (refl, ground arith))

price_fails-IsSoldAt :
    (item : LineItem) (expected : Expected)
    → price_fails item expected ≡ false
    → IsSoldAt item expected
unfolding price_fails
price_fails-IsSoldAt item expected h =
    let (trial, introduction, kind) =
      sold expected.prepaid item.prepaid expected.verify_order (is_there item.auto_renewing)
        item.free_trial item.introductory
        (is_amount (listed_price item.auto_renewing) expected.amount_minor) h in
    record {
      no_trial = trial;
      no_introduction = introduction;
      price = elim kind [
        | inl prepaid ↦ inl prepaid
        | inr (renewing, at_price) ↦
            inr (renewing, listed item.auto_renewing expected.amount_minor at_price)
      ];
    }

time_of-ok : (r : Option ℕ) {t : ℕ} → time_of r ≡ ok t → r ≡ some t
time_of-ok none {t} e = absurd (ground arith)
time_of-ok (some u) {t} e = ap some (ok_same u t e)

ltb_sound : (a b : ℕ) → ltb a b ≡ true → a < b
ltb_sound a b h = ground arith

ltb_complete : (a b : ℕ) → a < b → ltb a b ≡ true
ltb_complete a b h = ground arith

priced_view :
    (amount : ℕ) (fails live : Bool)
    → live ≡ true
    → 0 < amount
    → (ltb 0 amount && live && fails) ≡ false
    → (fails ≡ false) × ((if ltb 0 amount && live then amount else 0) ≡ amount)
priced_view amount fails live l positive good =
    let p : ltb 0 amount ≡ true = ltb_complete 0 amount positive in
    let both : (ltb 0 amount && live) ≡ true = rw (p, l) refl in
    (subst (λ b. (b && fails) ≡ false) both good, rw (p, l) refl)

dated_view-Granted :
    (parse : Text → Option ℕ) (receipt : Purchase) (item : LineItem) (expected : Expected) (now : ℕ)
    (paid : Bool) (v : Verified)
    → dated_view parse receipt item expected now paid ≡ ok v
    → v.active ≡ true
    → (paid ≡ true) × Granted parse receipt item expected now v
unfolding dated_view
dated_view-Granted parse receipt item expected now paid v e a =
    let (t, parsed, e1) = >>=-ok (time_of (parse item.expiry)) _ e in
    let priced : Bool = ltb 0 expected.amount_minor && (paid && ltb now t) in
    let (good, e2) = reject_if-ok (priced && price_fails item expected) (codes "price") _ e1 in
    let same = ok_same _ v e2 in
    let live : (paid && ltb now t) ≡ true = ap (λ (z : Verified). z.active) same ∙ a in
    let (is_paid, before) = and_both paid (ltb now t) live in
    (
      is_paid,
      subst (Granted parse receipt item expected now) same (record {
        product = refl;
        base_plan = refl;
        order = refl;
        test = refl;
        expiry = time_of-ok (parse item.expiry) parsed;
        expires = ltb_sound now t before;
        price = λ positive.
            let (fine, amount) =
              priced_view expected.amount_minor (price_fails item expected) (paid && ltb now t) live
                positive good in
            (price_fails-IsSoldAt item expected fine, amount);
      }),
    )

first_view-idle : (receipt : Purchase) (item : LineItem) → (first_view receipt item).active ≡ false
unfolding first_view
first_view-idle receipt item = refl

by_state-cases :
    (p c m i o : Bool) (x y z w : Outcome Text Verified) (v : Verified)
    → by_state p c m i o x y z w ≡ ok v
    → (x ≡ ok v) ⊎ ((y ≡ ok v) ⊎ (((m ≡ true) × (o ≡ false) × (z ≡ ok v)) ⊎ (w ≡ ok v)))
by_state-cases true c m i o x y z w v e = inl e
by_state-cases false true m i o x y z w v e = inr (inl e)
by_state-cases false false true i true x y z w v e = absurd (ground arith)
by_state-cases false false true i false x y z w v e = inr (inr (inl (refl, refl, e)))
by_state-cases false false false true o x y z w v e = inr (inr (inr e))
by_state-cases false false false false o x y z w v e = absurd (ground arith)

idle_view :
    {B : Type 0} (a b : Verified)
    → ◌≡◌ {A = Outcome Text Verified} (ok a) (ok b)
    → a.active ≡ false
    → b.active ≡ true
    → B
idle_view a b e off on =
    absurd (ground (arith, sym off ∙ (ap (λ (z : Verified). z.active) (ok_same a b e) ∙ on)))

or_first : (a b : Bool) → (not a || b) ≡ false → a ≡ true
or_first true b h = refl
or_first false b h = absurd (ground arith)

-- The view of an active state.
pub view_of_state-Granted :
    (parse : Text → Option ℕ) (receipt : Purchase) (item : LineItem) (expected : Expected) (now : ℕ)
    (v : Verified)
    → view_of_state parse receipt item expected now ≡ ok v
    → v.active ≡ true
    → (mem_text receipt.state paid_states ≡ true)
      × (has_prefix item.order (codes "GPA.") ≡ true)
      × Granted parse receipt item expected now v
unfolding view_of_state
view_of_state-Granted parse receipt item expected now v e a =
    elim (by_state-cases (text_eq receipt.state (codes "SUBSCRIPTION_STATE_PENDING"))
      (text_eq receipt.state (codes "SUBSCRIPTION_STATE_PENDING_PURCHASE_CANCELED"))
      (mem_text receipt.state paid_states) (mem_text receipt.state idle_states)
      (not (has_prefix item.order (codes "GPA.")) || ltb 200 (length item.order))
      (ok (record (first_view receipt item) { pending = true }))
      (ok (record (first_view receipt item) { auto_renews = false }))
      (dated_view parse receipt item expected now true)
      (dated_view parse receipt item expected now false) v e) [
        | inl pending ↦
            idle_view (record (first_view receipt item) { pending = true }) v pending
              (first_view-idle receipt item) a
        | inr other ↦ elim other [
          | inl cancelled ↦
              idle_view (record (first_view receipt item) { auto_renews = false }) v cancelled
                (first_view-idle receipt item) a
          | inr dated ↦ elim dated [
            | inl (paid, order, view) ↦ (
              paid,
              or_first _ _ order,
              (dated_view-Granted parse receipt item expected now true v view a).1,
            )
            | inr idle ↦ absurd (
                ground
                  (arith, (dated_view-Granted parse receipt item expected now false v idle a).0))
          ]
        ]
      ]
