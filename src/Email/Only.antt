-- ===== src/Email/Only.antt =====
-- The one row of an identifier, through the claim of a batch and its deliveries,
-- internal/services/email_outbox.go.
use across_backend_api.Prelude.{
  ℕ, zero, suc, ◌≤◌, ◌≡◌, refl, sym, ap, subst, ◌∙◌, ◌⊎◌, inl, inr, Bool, true, false, List, [],
  ◌∷◌, map, arith, Bool-cases, take, filter_by, length,
}
use across_backend_api.Prelude.Text.{Text, text_eq, text_eq_sound}
use across_backend_api.Email.Outbox.{Mail}
use across_backend_api.Email.Claims.{
  claim_items, sort_by_time, insert_by_time, mail_leb, count_attempt, is_due,
}
use across_backend_api.Email.Delivery.{set_mail, lock_items, begin_sending}
use across_backend_api.Email.Finished.{rows_of, Others, rows_of-set_mail, rows_of-lock_items}

pub only_head :
    (id : Text) (x i : Mail) (more : List Mail)
    → rows_of id (x ∷ more) ≡ i ∷ []
    → ((text_eq x.id id ≡ true) × (x ≡ i) × (rows_of id more ≡ []))
      ⊎ ((text_eq x.id id ≡ false) × (rows_of id more ≡ i ∷ []))
only_head id x i more h = elim (Bool-cases (text_eq x.id id)) [
  | inl e ↦ let h1 : x ∷ rows_of id more ≡ i ∷ [] = rw e at h in inl (e, ground arith, ground arith)
  | inr e ↦ inr (e, rw e at h)
]

no_head :
    (id : Text) (x : Mail) (more : List Mail)
    → rows_of id (x ∷ more) ≡ []
    → (text_eq x.id id ≡ false) × (rows_of id more ≡ [])
no_head id x more h = elim (Bool-cases (text_eq x.id id)) [
  | inl e ↦ let h1 : x ∷ rows_of id more ≡ [] = rw e at h in absurd (ground arith)
  | inr e ↦ (e, rw e at h)
]

pub none_Others : (id : Text) (items : List Mail) → rows_of id items ≡ [] → Others id items
none_Others id [] h = tt
none_Others id (x ∷ more) h =
    let (other, rest) = no_head id x more h in (other, none_Others id more rest)

filter_none :
    (p : Mail → Bool) (id : Text) (xs : List Mail)
    → rows_of id xs ≡ []
    → rows_of id (filter_by p xs) ≡ []
filter_none p id [] h = refl
filter_none p id (x ∷ xs) h =
    let (other, rest) = no_head id x xs h in
    elim (Bool-cases (p x)) [
      | inl kept ↦ rw (kept, other) (filter_none p id xs rest)
      | inr left ↦ rw left (filter_none p id xs rest)
    ]

filter_only :
    (p : Mail → Bool) (id : Text) (m : Mail) (xs : List Mail)
    → p m ≡ true
    → rows_of id xs ≡ m ∷ []
    → rows_of id (filter_by p xs) ≡ m ∷ []
filter_only p id m [] due h = h
filter_only p id m (x ∷ xs) due h = elim (only_head id x m xs h) [
  | inl (own, same, rest) ↦
      let kept : p x ≡ true = ap p same ∙ due in
      rw (kept, own, filter_none p id xs rest) (ap (λ z. z ∷ []) same)
  | inr (other, rest) ↦ elim (Bool-cases (p x)) [
    | inl kept ↦ rw (kept, other) (filter_only p id m xs due rest)
    | inr left ↦ rw left (filter_only p id m xs due rest)
  ]
]

insert_other :
    (id : Text) (m : Mail) (xs : List Mail)
    → text_eq m.id id ≡ false
    → rows_of id (insert_by_time m xs) ≡ rows_of id xs
unfolding insert_by_time
insert_other id m [] e = rw e refl
insert_other id m (n ∷ more) e = elim (Bool-cases (mail_leb m n)) [
  | inl first ↦ rw (first, e) refl
  | inr later ↦ rw (later, insert_other id m more e) refl
]

insert_own :
    (id : Text) (m : Mail) (xs : List Mail)
    → text_eq m.id id ≡ true
    → rows_of id xs ≡ []
    → rows_of id (insert_by_time m xs) ≡ m ∷ []
unfolding insert_by_time
insert_own id m [] e h = rw e refl
insert_own id m (n ∷ more) e h =
    let (other, rest) = no_head id n more h in
    elim (Bool-cases (mail_leb m n)) [
      | inl first ↦ rw (first, e, other, rest) refl
      | inr later ↦ rw (later, other) (insert_own id m more e rest)
    ]

sort_none : (id : Text) (xs : List Mail) → rows_of id xs ≡ [] → rows_of id (sort_by_time xs) ≡ []
unfolding sort_by_time
sort_none id [] h = refl
sort_none id (x ∷ xs) h =
    let (other, rest) = no_head id x xs h in
    insert_other id x (sort_by_time xs) other ∙ sort_none id xs rest

sort_only :
    (id : Text) (m : Mail) (xs : List Mail)
    → rows_of id xs ≡ m ∷ []
    → rows_of id (sort_by_time xs) ≡ m ∷ []
unfolding sort_by_time
sort_only id m [] h = h
sort_only id m (x ∷ xs) h = elim (only_head id x m xs h) [
  | inl (own, same, rest) ↦
      insert_own id x (sort_by_time xs) own (sort_none id xs rest) ∙ ap (λ z. z ∷ []) same
  | inr (other, rest) ↦ insert_other id x (sort_by_time xs) other ∙ sort_only id m xs rest
]

length-insert_by_time : (m : Mail) (xs : List Mail) → length (insert_by_time m xs) ≡ suc (length xs)
unfolding insert_by_time
length-insert_by_time m [] = refl
length-insert_by_time m (n ∷ more) = elim (Bool-cases (mail_leb m n)) [
  | inl first ↦ rw first refl
  | inr later ↦ rw (later, length-insert_by_time m more) refl
]

length-sort_by_time : (xs : List Mail) → length (sort_by_time xs) ≡ length xs
unfolding sort_by_time
length-sort_by_time [] = refl
length-sort_by_time (x ∷ xs) =
    length-insert_by_time x (sort_by_time xs) ∙ ap suc (length-sort_by_time xs)

take_all : (n : ℕ) (xs : List Mail) → length xs ≤ n → take n xs ≡ xs
take_all zero [] h = refl
take_all zero (x ∷ xs) h = absurd (omega (arith, h))
take_all (suc n) [] h = refl
take_all (suc n) (x ∷ xs) h = ap (λ z. x ∷ z) (take_all n xs (omega (arith, h)))

rows_of-count :
    (id : Text) (xs : List Mail)
    → rows_of id (map count_attempt xs) ≡ map count_attempt (rows_of id xs)
rows_of-count id [] = refl
rows_of-count id (x ∷ xs) = elim (Bool-cases (text_eq x.id id)) [
  | inl e ↦ rw (e, rows_of-count id xs) refl
  | inr e ↦ rw (e, rows_of-count id xs) refl
]

-- A mail that is due is claimed when there are no more due mails than a batch takes.
pub claim_items_only :
    (now : ℕ) (id : Text) (m : Mail) (rows : List Mail)
    → is_due now m ≡ true
    → rows_of id rows ≡ m ∷ []
    → length (filter_by (is_due now) rows) ≤ 25
    → rows_of id (claim_items now rows) ≡ count_attempt m ∷ []
unfolding claim_items
claim_items_only now id m rows due h few =
    let sorted = sort_by_time (filter_by (is_due now) rows) in
    let short : length sorted ≤ 25 =
      subst (λ k. k ≤ 25) (sym (length-sort_by_time (filter_by (is_due now) rows))) few in
    let one : rows_of id sorted ≡ m ∷ [] =
      sort_only id m _ (filter_only (is_due now) id m rows due h) in
    rows_of-count id (take 25 sorted)
    ∙ ap (map count_attempt) (ap (rows_of id) (take_all 25 sorted short) ∙ one)

pub rows_of-set_own :
    (id j : Text) (f : Mail → Mail)
    → ((m : Mail) → (f m).id ≡ m.id)
    → j ≡ id
    → (rows : List Mail) → rows_of id (set_mail j f rows) ≡ map f (rows_of id rows)
unfolding set_mail
rows_of-set_own id j f keeps own [] = refl
rows_of-set_own id j f keeps own (m ∷ more) =
    let at_id : text_eq m.id j ≡ text_eq m.id id = ap (text_eq m.id) own in
    elim (Bool-cases (text_eq m.id id)) [
      | inl e ↦
          rw
            (
              at_id ∙ e,
              e,
              ap (λ k. text_eq k id) (keeps m) ∙ e,
              rows_of-set_own id j f keeps own more,
            )
            refl
      | inr e ↦ rw (at_id ∙ e, e, rows_of-set_own id j f keeps own more) refl
    ]

-- The lock of a batch that holds one item of the row.
pub lock_items_only :
    (now : ℕ) (id : Text) (i : Mail) (items rows : List Mail)
    → rows_of id items ≡ i ∷ []
    → rows_of id (lock_items now items rows) ≡ map (begin_sending now) (rows_of id rows)
unfolding lock_items
lock_items_only now id i [] rows h = absurd (ground arith)
lock_items_only now id i (x ∷ more) rows h = elim (only_head id x i more h) [
  | inl (own, same, rest) ↦
      rows_of-lock_items now id more (set_mail x.id (begin_sending now) rows)
        (none_Others id more rest)
      ∙ rows_of-set_own id x.id (begin_sending now) (λ m. refl) (text_eq_sound x.id id own) rows
  | inr (other, rest) ↦
      lock_items_only now id i more (set_mail x.id (begin_sending now) rows) rest
      ∙ ap (map (begin_sending now))
          (rows_of-set_mail id x.id (begin_sending now) (λ m. refl) other rows)
]
