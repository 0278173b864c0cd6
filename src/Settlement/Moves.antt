-- ===== src/Settlement/Moves.antt =====
-- What a settlement can do to the payments and to the sellers' ledger.
use across_backend_api.Prelude.{
  ℕ, zero, suc, ◌+◌, ◌≤◌, ◌≡◌, refl, subst, ◌⊎◌, inl, inr, Bool, true, false, not, ◌&&◌, ◌||◌,
  Option, none, some, List, [], ◌∷◌, arith, ◌==◌, Bool-cases, Option-cases, length, All,
}
use across_backend_api.Prelude.Text.{Text, codes, text_eq, is_empty, trim_space}
use across_backend_api.Prelude.Outcome.{Outcome, ok, err, ◌>>=◌, ◌>>◌, reject_if, Outcome-cases}
use across_backend_api.Settlement.Values.{Numbers, SettlementStatus, optional_settlement_amount}
use across_backend_api.Settlement.Tables.{paid, Ledger, Books, Item, Detail, Entry}
use across_backend_api.Settlement.Apply.{
  is_settled, coalesce, or_else, update_payments, settle_ledger, update_ledgers, settle_entry,
  check_item, check_identity, check_amounts, is_parent_entry, settle_items, common_entry,
  apply_settlement,
}
use across_backend_api.Settlement.Kept.{
  Pointwise, Pointwise-refl, Pointwise-trans, Keeps, Keeps-refl, Keeps-trans, update_payments-Keeps,
}

-- A seller is told to be paid only with money on record, and its time.
abbrev pub HasPayout : Ledger → Type 0
HasPayout l = l.status ≡ paid → (1 ≤ l.net_amount) × ((t : ℕ) × (l.paid_at ≡ some t))

-- An entry that releases money has its amount.
abbrev IsBacked : Entry → Type 0
IsBacked e = is_settled e.state ≡ true → (n : ℕ) × (e.actual ≡ some n) × (1 ≤ n)

settle_ledger-HasPayout :
    (e : Entry) (l : Ledger) → IsBacked e → HasPayout l → HasPayout (settle_ledger e l)
settle_ledger-HasPayout e l b h = λ e_paid. elim (Bool-cases (is_settled e.state)) [
  | inl pays ↦
      let (n, actual, least) = b pays in
      rw (pays, actual) (least, (coalesce (or_else e.processed l.paid_at) e.now, refl))
  | inr other ↦ let was : l.status ≡ paid = ground arith in rw other (h was)
]

update_ledgers-HasPayout :
    (e : Entry) (order : Text) (ls : List Ledger)
    → IsBacked e
    → All HasPayout ls
    → All HasPayout (update_ledgers e order ls).0
unfolding update_ledgers
update_ledgers-HasPayout e order [] b a = tt
update_ledgers-HasPayout e order (l ∷ ls) b a =
    elim (Bool-cases (text_eq l.order order && text_eq l.currency e.currency)) [
      | inl hit ↦ rw hit (settle_ledger-HasPayout e l b a.0, a.1)
      | inr miss ↦ rw miss (a.0, update_ledgers-HasPayout e order ls b a.1)
    ]

-- What an entry leaves in the books.
settle_entry-books :
    (fails : ℕ → Bool) (e : Entry) (books books' : Books) (n : ℕ)
    → settle_entry fails e books ≡ ok (books', n)
    → (books' ≡ books)
      ⊎ ((order : Text) × (books'.payments ≡ (update_payments e books.payments).0)
          × (books'.ledgers ≡ (update_ledgers e order books.ledgers).0))
unfolding settle_entry
settle_entry-books fails e books books' n ran =
    elim (Option-cases (update_payments e books.payments).1) [
      | inl missed ↦ inl (ground arith)
      | inr (order, met) ↦ inr (order, ground arith, ground arith)
    ]

-- The shape of the chain in `check_amounts`.
abbrev amounts_chain :
    Bool
    → Outcome Text (Option ℕ)
    → Outcome Text (Option ℕ)
    → Outcome Text (Option ℕ)
    → Outcome Text (Option ℕ)
    → Text
    → Outcome Text (Option ℕ × Option ℕ × Option ℕ × Option ℕ)
amounts_chain pays o1 o2 o3 o4 why = do
  actual ← o1
  reject_if (pays && coalesce actual 0 == 0) why
  charged ← o2
  app_fee ← o3
  merchant_fee ← o4
  ok (actual, charged, app_fee, merchant_fee)

backed_chain :
    (pays : Bool) (o1 o2 o3 o4 : Outcome Text (Option ℕ)) (why : Text) {a b c d : Option ℕ}
    → amounts_chain pays o1 o2 o3 o4 why ≡ ok (a, b, c, d)
    → pays ≡ true
    → (n : ℕ) × (a ≡ some n) × (1 ≤ n)
backed_chain pays (err x) o2 o3 o4 why ran h = absurd (ground arith)
backed_chain false (ok x) o2 o3 o4 why ran h = absurd (ground arith)
backed_chain true (ok none) o2 o3 o4 why ran h = absurd (ground arith)
backed_chain true (ok (some zero)) o2 o3 o4 why ran h = absurd (ground arith)
backed_chain true (ok (some (suc n))) o2 o3 o4 why ran h = (suc n, ground arith, ground arith)

check_amounts-backed :
    (numbers : Numbers) (state : SettlementStatus) (item : Item) (a b c d : Option ℕ)
    → check_amounts numbers state item ≡ ok (a, b, c, d)
    → is_settled state ≡ true
    → (n : ℕ) × (a ≡ some n) × (1 ≤ n)
unfolding check_amounts
check_amounts-backed numbers state item a b c d ran h =
    backed_chain (is_settled state)
      (optional_settlement_amount numbers (item.settlement_amount ∷ []))
      (optional_settlement_amount numbers (item.charged_amount ∷ []))
      (optional_settlement_amount numbers (item.app_fee ∷ item.legacy_app_fee ∷ []))
      (optional_settlement_amount numbers (item.merchant_fee ∷ item.legacy_merchant_fee ∷ []))
      (codes "completed settlement transaction amount missing") ran h

check_item-entry :
    (numbers : Numbers) (common : Entry) (item : Item) (e : Entry)
    → check_item numbers common item ≡ ok e
    → (e.subaccount ≡ common.subaccount) × IsBacked e
unfolding check_item
check_item-entry numbers common item e ran =
    elim (Outcome-cases (check_identity numbers common.currency item)) [
      | inr (_, bad) ↦ absurd (ground arith)
      | inl ((transaction, ref), i) ↦
          elim (Outcome-cases (check_amounts numbers common.state item)) [
            | inr (_, bad) ↦ absurd (ground arith)
            | inl ((a, b, c, d), amounts) ↦
                let made : e ≡ record common {
                  reference = ref;
                  transaction = transaction;
                  actual = a;
                  charged = b;
                  app_fee = c;
                  merchant_fee = d;
                } =
                  ground arith in
                rw made (refl, check_amounts-backed numbers common.state item a b c d amounts)
          ]
    ]

settle_entry-kept :
    (numbers : Numbers) (fails : ℕ → Bool) (common : Entry) (item : Item) (e : Entry)
    (books books' : Books) (n : ℕ)
    → check_item numbers common item ≡ ok e
    → settle_entry fails e books ≡ ok (books', n)
    → Pointwise (Keeps common.subaccount) books.payments books'.payments
      × (All HasPayout books.ledgers → All HasPayout books'.ledgers)
settle_entry-kept numbers fails common item e books books' n good done =
    let (seller, backed) = check_item-entry numbers common item e good in
    elim (settle_entry-books fails e books books' n done) [
      | inl same ↦ rw same (
        Pointwise-refl (Keeps common.subaccount) (Keeps-refl common.subaccount) books.payments,
        λ h. h,
      )
      | inr (order, ps, ls) ↦
          rw (ps, ls)
            (
              subst (λ s. Pointwise (Keeps s) books.payments (update_payments e books.payments).0)
                  seller (update_payments-Keeps e books.payments),
              update_ledgers-HasPayout e order books.ledgers backed,
            )
    ]

module _ (numbers : Numbers) (fails : ℕ → ℕ → Bool) (common : Entry) where
  settle_items-books :
      (items : List Item) (books : Books) (count : ℕ)
      → let after = (settle_items numbers fails common items books count).0 in
        Pointwise (Keeps common.subaccount) books.payments after.payments
        × (All HasPayout books.ledgers → All HasPayout after.ledgers)
  unfolding settle_items
  settle_items-books [] books count = (
    Pointwise-refl (Keeps common.subaccount) (Keeps-refl common.subaccount) books.payments,
    λ h. h,
  )
  settle_items-books (item ∷ items) books count = elim (Bool-cases (is_parent_entry item)) [
    | inl parent ↦ rw (parent, settle_items) (settle_items-books items books count)
    | inr own ↦ elim (Outcome-cases (check_item numbers common item)) [
      | inr (_, bad) ↦
          rw (own, bad, settle_items)
            (
              Pointwise-refl (Keeps common.subaccount) (Keeps-refl common.subaccount)
                  books.payments,
              λ h. h,
            )
      | inl (e, good) ↦ elim (Outcome-cases (settle_entry (fails (length items)) e books)) [
        | inr (_, bad) ↦
            rw (own, good, bad, settle_items)
              (
                Pointwise-refl (Keeps common.subaccount) (Keeps-refl common.subaccount)
                    books.payments,
                λ h. h,
              )
        | inl ((books', n), done) ↦
            let (pays, ledgers) =
              settle_entry-kept numbers (fails (length items)) common item e books books' n good
                done in
            let (pays', ledgers') = settle_items-books items books' (count + n) in
            rw (own, good, done, settle_items)
              (
                Pointwise-trans (Keeps common.subaccount) (Keeps-trans common.subaccount) _ _ _ pays
                    pays',
                λ h. ledgers' (ledgers h),
              )
      ]
    ]
  ]

-- The checks that come first change nothing.
apply_settlement-books :
    (numbers : Numbers) (fails : ℕ → ℕ → Bool) (parse_time : Text → Option ℕ) (now : ℕ)
    (subaccount : Text) (d : Detail) (books : Books)
    → let after = (apply_settlement numbers fails parse_time now subaccount d books).0 in
      Pointwise (Keeps subaccount) books.payments after.payments
      × (All HasPayout books.ledgers → All HasPayout after.ledgers)
unfolding apply_settlement
apply_settlement-books numbers fails parse_time now subaccount d books =
    let common : Entry = common_entry numbers parse_time now subaccount d in
    let same : Pointwise (Keeps subaccount) books.payments books.payments =
      Pointwise-refl (Keeps subaccount) (Keeps-refl subaccount) books.payments in
    elim (Bool-cases (
      not (text_eq d.response (codes "success"))
      || is_empty common.id
      || is_empty (trim_space subaccount))) [
        | inl bad ↦ rw bad (same, λ h. h)
        | inr fine ↦ elim (Bool-cases (not (length common.currency == 3))) [
          | inl bad ↦ rw (fine, bad) (same, λ h. h)
          | inr good ↦
              rw (fine, good) (settle_items-books numbers fails common d.transactions books 0)
        ]
      ]

-- A settlement that is entered, to its end or up to an error, keeps all payments in their place:
-- each keeps its order, seller and transaction; one that was released or taken back stays so; one of
-- another seller, or one that did not succeed, is not changed.
pub apply_settlement-Keeps :
    (numbers : Numbers) (fails : ℕ → ℕ → Bool) (parse_time : Text → Option ℕ) (now : ℕ)
    (subaccount : Text) (d : Detail) (books : Books)
    → Pointwise
        (Keeps subaccount)
        books.payments
        (apply_settlement numbers fails parse_time now subaccount d books).0.payments
apply_settlement-Keeps numbers fails parse_time now subaccount d books =
    (apply_settlement-books numbers fails parse_time now subaccount d books).0

-- A settlement that is entered, to its end or up to an error, leaves a ledger in which a seller is
-- shown as paid only with an amount that is not 0 and the time of the payment, if it was so before.
pub apply_settlement-HasPayout :
    (numbers : Numbers) (fails : ℕ → ℕ → Bool) (parse_time : Text → Option ℕ) (now : ℕ)
    (subaccount : Text) (d : Detail) (books : Books)
    → All HasPayout books.ledgers
    → All HasPayout (apply_settlement numbers fails parse_time now subaccount d books).0.ledgers
apply_settlement-HasPayout numbers fails parse_time now subaccount d books =
    (apply_settlement-books numbers fails parse_time now subaccount d books).1
