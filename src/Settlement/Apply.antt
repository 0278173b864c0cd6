-- ===== src/Settlement/Apply.antt =====
-- `applyFlutterwaveSettlement` of internal/controllers/settlement_reconciliation.go: one settlement of
-- the gateway is entered on the payments and on the sellers' ledger, transaction by transaction. The
-- identity of a payment (provider, order, amount, currency, reference, transaction) is not written.
use across_backend_api.Prelude.{
  ℕ, ◌+◌, ◌-◌, Bool, true, false, not, ◌&&◌, ◌||◌, Option, none, some, List, [], ◌∷◌, ltb, ◌==◌,
  if◌then◌else◌, length,
}
use across_backend_api.Prelude.Text.{Text, codes, text_eq, is_empty, to_lower, to_upper, trim_space}
use across_backend_api.Prelude.Outcome.{Outcome, ok, err, ◌>>=◌, ◌>>◌, reject_if}
use across_backend_api.Prelude.Int.{pos, negsuc}
use across_backend_api.Settlement.Values.{
  nil, Numbers, SettlementStatus, settled, normalize_settlement_status, settlement_numeric_id,
  optional_settlement_amount, first_non_empty,
}
use across_backend_api.Settlement.Tables.{
  Payment, LedgerStatus, paid, Ledger, Books, Item, Detail, Entry,
}

abbrev pub is_settled : SettlementStatus → Bool
is_settled settled = true
is_settled _ = false

abbrev pub is_reversed : SettlementStatus → Bool
is_reversed SettlementStatus.reversed = true
is_reversed _ = false

-- `COALESCE`
abbrev pub coalesce {ℓ} : {A : Type ℓ} → Option A → A → A
coalesce none b = b
coalesce (some a) b = a

abbrev pub or_else {ℓ} : {A : Type ℓ} → Option A → Option A → Option A
or_else none b = b
or_else (some a) b = some a

-- `$12 IS NOT NULL AND $12>p.settled_at`, where a comparison with NULL does not hold.
abbrev pub is_later : Option ℕ → Option ℕ → Bool
is_later (some a) (some b) = ltb b a
is_later _ _ = false

-- The guard on the statuses.
unfoldable pub may_move : Entry → Payment → Bool
unfolding text_eq
may_move e p =
    not (is_settled p.settlement_status || is_reversed p.settlement_status)
    || text_eq p.settlement_id e.id
      && (is_reversed e.state || is_settled p.settlement_status && is_settled e.state)
    || is_settled e.state && is_later e.processed p.settled_at

-- The payment that the entry is about.
unfoldable pub is_meant : Entry → Payment → Bool
unfolding text_eq
is_meant e p =
    text_eq p.provider (codes "flutterwave")
    && text_eq p.purpose (codes "order")
    && p.succeeded
    && text_eq p.provider_reference e.reference
    && text_eq p.order_reference e.reference
    && text_eq p.subaccount e.subaccount
    && text_eq p.currency e.currency
    && text_eq p.order_currency e.currency
    && (is_empty e.transaction || text_eq p.transaction e.transaction)

abbrev pub settle_payment : Entry → Payment → Payment
settle_payment e p = record p {
  charged_amount = or_else e.charged p.charged_amount;
  gateway_fee = coalesce e.app_fee p.gateway_fee;
  merchant_fee = coalesce e.merchant_fee p.merchant_fee;
  settlement_amount = or_else e.actual p.settlement_amount;
  settlement_id = e.id;
  settlement_reference = e.settlement_reference;
  settlement_status = e.state;
  settlement_destination = e.destination;
  settlement_note = e.note;
  settled_at =
      if is_settled e.state
      then some (coalesce (or_else e.processed p.settled_at) e.now)
      else p.settled_at;
}

-- The update of `payments`, with the order of the row; a transaction identifier is unique, so one
-- row is met at most, the first.
unfoldable pub update_payments : Entry → List Payment → List Payment × Option Text
unfolding may_move is_meant
update_payments e [] = ([], none)
update_payments e (p ∷ ps) =
    let (rest, order) = update_payments e ps in
    if is_meant e p && may_move e p
    then (settle_payment e p ∷ ps, some p.order)
    else (p ∷ rest, order)

abbrev pub settle_ledger : Entry → Ledger → Ledger
settle_ledger e l = record l {
  gateway_deductions = elim e.actual [
    | none ↦ l.gateway_deductions
    | some n ↦ l.expected_net_amount - n
  ];
  settlement_amount = or_else e.actual l.settlement_amount;
  net_amount = if is_settled e.state then coalesce e.actual l.net_amount else l.net_amount;
  settlement_id = e.id;
  settlement_status = e.state;
  settlement_reference = e.settlement_reference;
  settlement_destination = e.destination;
  settlement_note = e.note;
  status =
      if is_reversed e.state
      then LedgerStatus.reversed
      else if is_settled e.state
      then paid
      else l.status;
  paid_at =
      if is_settled e.state
      then some (coalesce (or_else e.processed l.paid_at) e.now)
      else l.paid_at;
}

-- The update of `merchant_ledger`, with whether a row was met; the event key is unique.
unfoldable pub update_ledgers : Entry → Text → List Ledger → List Ledger × Bool
unfolding text_eq
update_ledgers e order [] = ([], false)
update_ledgers e order (l ∷ ls) =
    let (rest, met) = update_ledgers e order ls in
    if text_eq l.order order && text_eq l.currency e.currency
    then (settle_ledger e l ∷ ls, true)
    else (l ∷ rest, met)

-- One transaction of the database: both updates, or neither. `fails` says which of its statements
-- are refused. The number counts an update.
unfoldable pub settle_entry : (ℕ → Bool) → Entry → Books → Outcome Text (Books × ℕ)
unfolding update_payments update_ledgers
settle_entry fails e books = do
  reject_if (fails 0 || fails 1) (codes "database")
  let (payments, met) = update_payments e books.payments
  elim met [
    | none ↦ ok (books, 0)
    | some order ↦ (do
      reject_if (fails 2) (codes "database")
      let (ledgers, found) = update_ledgers e order books.ledgers
      reject_if (not found) (codes "seller settlement ledger missing")
      reject_if (fails 3) (codes "database")
      ok (record { payments = payments; ledgers = ledgers }, 1))
  ]

-- An entry of the parent account does not concern the seller.
abbrev pub is_parent_entry : Item → Bool
is_parent_entry item = elim item.subaccount_settlement [
  | none ↦ false
  | some (pos n) ↦ not (n == 1)
  | some (negsuc n) ↦ true
]

module _ (numbers : Numbers) where
  -- The transaction and the reference of an item.
  unfoldable pub check_identity : Text → Item → Outcome Text (Text × Text)
  unfolding settlement_numeric_id trim_space text_eq to_lower
  check_identity currency item = do
    let ref : Text = trim_space item.tx_ref
    let transaction : Text = settlement_numeric_id numbers item.id
    reject_if (is_empty transaction) (codes "settlement transaction ID missing or invalid")
    reject_if (is_empty ref) (codes "settlement transaction reference missing")
    reject_if
        (not (is_empty item.currency) && not (text_eq (to_lower item.currency) (to_lower currency)))
        (codes "settlement transaction currency mismatch")
    ok (transaction, ref)

  -- The amounts of an item: paid out, charged, and the two fees. No money is released without an
  -- amount that was paid out.
  unfoldable pub check_amounts :
      SettlementStatus → Item → Outcome Text (Option ℕ × Option ℕ × Option ℕ × Option ℕ)
  unfolding optional_settlement_amount
  check_amounts state item = do
    actual ← optional_settlement_amount numbers (item.settlement_amount ∷ [])
    reject_if (is_settled state && coalesce actual 0 == 0)
        (codes "completed settlement transaction amount missing")
    charged ← optional_settlement_amount numbers (item.charged_amount ∷ [])
    app_fee ← optional_settlement_amount numbers (item.app_fee ∷ item.legacy_app_fee ∷ [])
    merchant_fee ←
        optional_settlement_amount numbers (item.merchant_fee ∷ item.legacy_merchant_fee ∷ [])
    ok (actual, charged, app_fee, merchant_fee)

  -- The entry that an item makes, once it is checked; `common` has what the settlement gives.
  unfoldable pub check_item : Entry → Item → Outcome Text Entry
  unfolding check_identity check_amounts
  check_item common item = do
    (transaction, ref) ← check_identity common.currency item
    (actual, charged, app_fee, merchant_fee) ← check_amounts common.state item
    ok (record common {
      reference = ref;
      transaction = transaction;
      actual = actual;
      charged = charged;
      app_fee = app_fee;
      merchant_fee = merchant_fee;
    })

  -- The loop: what was committed stays when a later item is refused. The result has the books, the
  -- count, and the error if there is one.
  unfoldable pub settle_items :
      (ℕ → ℕ → Bool) → Entry → List Item → Books → ℕ → Books × ℕ × Option Text
  unfolding check_item settle_entry
  settle_items fails common [] books count = (books, count, none)
  settle_items fails common (item ∷ items) books count = elim (is_parent_entry item) [
    | true ↦ settle_items fails common items books count
    | false ↦ elim (check_item common item) [
      | err why ↦ (books, count, some why)
      | ok e ↦ elim (settle_entry (fails (length items)) e books) [
        | err why ↦ (books, count, some why)
        | ok (books', n) ↦ settle_items fails common items books' (count + n)
      ]
    ]
  ]

  abbrev pub common_entry : (Text → Option ℕ) → ℕ → Text → Detail → Entry
  common_entry parse_time now subaccount d =
      let destination = to_lower (trim_space d.destination) in
      record {
        reference = [];
        subaccount = subaccount;
        currency = to_upper (trim_space d.currency);
        charged = none;
        app_fee = none;
        merchant_fee = none;
        actual = none;
        id = settlement_numeric_id numbers d.id;
        settlement_reference =
            first_non_empty (d.disburse_ref ∷ d.reference ∷ d.processor_ref ∷ []);
        state = normalize_settlement_status d.status;
        destination = elim d.settlement_account [
          | nil ↦ destination
          | _ ↦ if is_empty destination then codes "bank account" else destination
        ];
        processed = parse_time d.processed_at;
        transaction = [];
        note = trim_space d.flag_message;
        now = now;
      }

  -- `parse_time` stands for `parseFlutterwaveTime` over the package time; `now` for `now()`.
  unfoldable pub apply_settlement :
      (ℕ → ℕ → Bool) → (Text → Option ℕ) → ℕ → Text → Detail → Books → Books × ℕ × Option Text
  unfolding settle_items
  apply_settlement fails parse_time now subaccount d books =
      let common = common_entry parse_time now subaccount d in
      if not (text_eq d.response (codes "success"))
        || is_empty common.id
        || is_empty (trim_space subaccount)
      then (books, 0, some (codes "invalid settlement response"))
      else if not (length common.currency == 3)
      then (books, 0, some (codes "settlement currency missing"))
      else settle_items fails common d.transactions books 0
