-- ===== src/Play/Active.antt =====
-- What an active receipt proves, internal/playbilling/client.go.
use across_backend_api.Prelude.{
  not-false, or_split, ℕ, ◌≡◌, refl, sym, subst, ◌∙◌, Bool, true, false, not, ◌&&◌, ◌||◌, Option,
  List, [], ◌∷◌, arith,
}
use across_backend_api.Prelude.Text.{
  Text, codes, text_eq, text_eq_sound, is_empty, has_prefix, mem_text,
}
use across_backend_api.Prelude.Outcome.{ok, >>=-ok, reject_if-ok}
use across_backend_api.Play.Receipts.{
  Purchase, LineItem, Expected, Verified, paid_states, unpaid_states, guard_receipt, validate_item,
  validate, validate_items, same_presence, is_there,
}
use across_backend_api.Play.Granted.{Granted, view_of_state-Granted}

-- The receipt has one line; it belongs to the account and is of the product and the plan that were
-- expected, without an offer, paid in a state that counts, by an order of Google, and its date of
-- expiry is not yet past; a test purchase only where these are allowed; and where a price is
-- expected, the line is sold at it.
pub record Genuine (parse : Text → Option ℕ) (receipt : Purchase) (expected : Expected) (now : ℕ)
    (v : Verified) : Type 0 where
  pub item : LineItem
  pub one : receipt.items ≡ item ∷ []
  pub account : receipt.account ≡ expected.account
  pub product : v.product ≡ expected.product
  pub base_plan : v.base_plan ≡ expected.base_plan
  pub no_offer : is_empty item.offer ≡ true
  pub state : mem_text receipt.state paid_states ≡ true
  pub order : has_prefix v.order (codes "GPA.") ≡ true
  pub test : (v.test && not expected.allow_test) ≡ false
  pub granted : Granted parse receipt item expected now v

guard_receipt-ok :
    (receipt : Purchase) (item : LineItem) (expected : Expected) {u : Unit}
    → guard_receipt receipt item expected ≡ ok u
    → (text_eq receipt.account expected.account ≡ true)
      × (text_eq item.product expected.product ≡ true)
      × (text_eq item.base_plan expected.base_plan ≡ true)
      × (is_empty item.offer ≡ true)
      × ((receipt.test && not expected.allow_test) ≡ false)
unfolding guard_receipt
guard_receipt-ok receipt item expected e =
    let (owner, e1) =
      reject_if-ok
        (not (text_eq receipt.kind (codes "androidpublisher#subscriptionPurchaseV2"))
          || not (text_eq receipt.account expected.account))
        (codes "ownership") _ e in
    let (fits, e2) =
      reject_if-ok
        (not (text_eq item.product expected.product)
          || not (text_eq item.base_plan expected.base_plan)
          || not (is_empty item.offer)
          || not (mem_text receipt.state unpaid_states)
            && same_presence (is_there item.auto_renewing) item.prepaid)
        (codes "product") _ e1 in
    let (tested, e3) = reject_if-ok (receipt.test && not expected.allow_test) (codes "test") _ e2 in
    let a : Bool = text_eq item.product expected.product in
    let b : Bool = text_eq item.base_plan expected.base_plan in
    let (abc, kinds) = or_split (not a || not b || not (is_empty item.offer)) _ fits in
    let (ab, c) = or_split (not a || not b) (not (is_empty item.offer)) abc in
    let (pa, pb) = or_split (not a) (not b) ab in
    (
      not-false _ (or_split _ _ owner).1,
      not-false a pa,
      not-false b pb,
      not-false (is_empty item.offer) c,
      tested,
    )

validate_items-Genuine :
    (parse : Text → Option ℕ) (receipt : Purchase) (expected : Expected) (now : ℕ) (v : Verified)
    (items : List LineItem)
    → receipt.items ≡ items
    → validate_items parse receipt expected now items ≡ ok v
    → v.active ≡ true
    → Genuine parse receipt expected now v
unfolding validate_item
validate_items-Genuine parse receipt expected now v [] one e a = absurd (ground arith)
validate_items-Genuine parse receipt expected now v (item ∷ other ∷ more) one e a =
    absurd (ground arith)
validate_items-Genuine parse receipt expected now v (item ∷ []) one e a =
    let (u, guarded, e1) = >>=-ok (guard_receipt receipt item expected) _ e in
    let (account, product, plan, offer, test) = guard_receipt-ok receipt item expected guarded in
    let (state, order, granted) = view_of_state-Granted parse receipt item expected now v e1 a in
    record {
      item = item;
      one = one;
      account = text_eq_sound receipt.account expected.account account;
      product = granted.product ∙ text_eq_sound item.product expected.product product;
      base_plan = granted.base_plan ∙ text_eq_sound item.base_plan expected.base_plan plan;
      no_offer = offer;
      state = state;
      order = subst (λ z. has_prefix z (codes "GPA.") ≡ true) (sym granted.order) order;
      test = subst (λ z. (z && not expected.allow_test) ≡ false) (sym granted.test) test;
      granted = granted;
    }

-- A receipt that is found good and active is genuine: it has one line, belongs to the account, is of
-- the product and the plan that were expected, without an offer, in a paid state and by an order of
-- Google, a test purchase only where these are allowed; the date of expiry that its line names is
-- not yet past; and where a price is expected, the line has no trial and no introductory price, and
-- either it renews at that price in minor units, or it is prepaid and its order is to be verified.
pub validate-Genuine :
    (parse : Text → Option ℕ) (receipt : Purchase) (expected : Expected) (now : ℕ) (v : Verified)
    → validate parse receipt expected now ≡ ok v
    → v.active ≡ true
    → Genuine parse receipt expected now v
unfolding validate
validate-Genuine parse receipt expected now v e a =
    validate_items-Genuine parse receipt expected now v receipt.items refl e a
