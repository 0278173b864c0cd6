-- ===== src/Fulfillment/Members.antt =====
-- The members of a manifest, internal/controllers/merchant_fulfillment_controller.go.
use across_backend_api.Prelude.{
  and_both, ◌≡◌, refl, inl, inr, Bool, true, false, ◌&&◌, List, [], ◌∷◌, arith, Bool-cases,
  filter_by, All,
}
use across_backend_api.Prelude.Text.{Text, codes, text_eq, text_eq_sound, mem_text}
use across_backend_api.Fulfillment.Routes.{valid_fulfillment_transition, allowed, transitions_of}
use across_backend_api.Fulfillment.Tables.{Fulfillment, Shipping, find_order}
use across_backend_api.Fulfillment.Chains.{Distinct}
use across_backend_api.Fulfillment.Traces.{Only, Only-others, ids_apart, text_eq_swap}
use across_backend_api.Fulfillment.Manifests.{
  is_member, insert_by_order, sort_by_order, manifest_members, is_dispatchable, all_dispatchable,
  in_manifest, is_known,
}

module _ (P : Fulfillment → Type 0) where
  filter_by-All :
      (p : Fulfillment → Bool) (rows : List Fulfillment)
      → ((f : Fulfillment) → p f ≡ true → P f → P f)
      → All P rows
      → All P (filter_by p rows)
  filter_by-All p [] k h = tt
  filter_by-All p (f ∷ more) k (a, h) = elim (Bool-cases (p f)) [
    | inl e ↦ rw e (a, filter_by-All p more k h)
    | inr e ↦ rw e (filter_by-All p more k h)
  ]

  filter_by-test :
      (p : Fulfillment → Bool) (rows : List Fulfillment)
      → ((f : Fulfillment) → p f ≡ true → P f)
      → All P (filter_by p rows)
  filter_by-test p [] k = tt
  filter_by-test p (f ∷ more) k = elim (Bool-cases (p f)) [
    | inl e ↦ rw e (k f e, filter_by-test p more k)
    | inr e ↦ rw e (filter_by-test p more k)
  ]

  insert_by_order-All :
      (f : Fulfillment) (rows : List Fulfillment)
      → P f
      → All P rows
      → All P (insert_by_order f rows)
  unfolding insert_by_order
  insert_by_order-All f [] a h = (a, tt)
  insert_by_order-All f (g ∷ more) a (b, h) = ground (arith, insert_by_order-All f more a h)

  sort_by_order-All : (rows : List Fulfillment) → All P rows → All P (sort_by_order rows)
  unfolding sort_by_order
  sort_by_order-All [] h = tt
  sort_by_order-All (f ∷ more) (a, h) =
      insert_by_order-All f (sort_by_order more) a (sort_by_order-All more h)

filter_by-Distinct :
    (p : Fulfillment → Bool) (rows : List Fulfillment) → Distinct rows → Distinct (filter_by p rows)
filter_by-Distinct p [] d = tt
filter_by-Distinct p (f ∷ more) (o, d) = elim (Bool-cases (p f)) [
  | inl e ↦ rw e (
    filter_by-All (λ g. text_eq g.id f.id ≡ false) p more (λ g h a. a) o,
    filter_by-Distinct p more d,
  )
  | inr e ↦ rw e (filter_by-Distinct p more d)
]

insert_by_order-Distinct :
    (f : Fulfillment) (rows : List Fulfillment)
    → All (λ g. text_eq g.id f.id ≡ false) rows
    → Distinct rows
    → Distinct (insert_by_order f rows)
unfolding insert_by_order
insert_by_order-Distinct f [] a d = (tt, tt)
insert_by_order-Distinct f (g ∷ more) (a, as') (b, d) =
    let rest = insert_by_order-Distinct f more as' d in
    let apart : text_eq f.id g.id ≡ false = text_eq_swap g.id f.id a in
    let before = insert_by_order-All (λ h. text_eq h.id g.id ≡ false) f more apart b in
    ground (arith, rest, before)

sort_by_order-Distinct : (rows : List Fulfillment) → Distinct rows → Distinct (sort_by_order rows)
unfolding sort_by_order
sort_by_order-Distinct [] d = tt
sort_by_order-Distinct (f ∷ more) (o, d) =
    insert_by_order-Distinct f (sort_by_order more)
      (sort_by_order-All (λ g. text_eq g.id f.id ≡ false) more o) (sort_by_order-Distinct more d)

Only-longer :
    (g : Fulfillment) (rows found : List Fulfillment)
    → All (λ f. text_eq f.id g.id ≡ false) found
    → All (λ f. Only f rows) found
    → All (λ f. Only f (g ∷ rows)) found
Only-longer g rows [] o h = tt
Only-longer g rows (f ∷ more) (a, o) (b, h) =
    ((λ e. ids_apart g.id f.id e a, b), Only-longer g rows more o h)

-- Each row of a table without doubles is the only one with its identifier.
Distinct-Only : (rows : List Fulfillment) → Distinct rows → All (λ f. Only f rows) rows
Distinct-Only [] d = tt
Distinct-Only (f ∷ more) (o, d) =
    ((λ e. refl, Only-others f more o), Only-longer f more more o (Distinct-Only more d))

-- A row that leaves is the only one of its identifier, at the origin, on its way abroad.
pub record Leaves (rows : List Fulfillment) (f : Fulfillment) : Type 0 where
  pub only : Only f rows
  pub valid :
      valid_fulfillment_transition f.route f.owner f.status (codes "dispatched_from_origin") ≡ true

departs :
    valid_fulfillment_transition
      (codes "merchant_cross_border")
      (codes "merchant")
      (codes "processing")
      (codes "dispatched_from_origin")
    ≡ true
unfolding valid_fulfillment_transition transitions_of allowed text_eq mem_text
departs = refl

abbrev pub Left : Shipping → Fulfillment → Type 0
Left db f =
    (text_eq f.route (codes "merchant_cross_border") ≡ true)
    × (text_eq f.owner (codes "merchant") ≡ true)

is_member-Left :
    (id provider : Text) (db : Shipping) (f : Fulfillment)
    → is_member id provider db f ≡ true
    → Left db f
unfolding is_member
is_member-Left id provider db f h =
    let a : Bool = in_manifest id f.order db.manifest_orders && text_eq f.provider provider in
    let c : Bool = text_eq f.route (codes "merchant_cross_border") in
    let d : Bool = text_eq f.owner (codes "merchant") in
    let (acd, known) = and_both (a && c && d) (is_known (find_order f.order db.orders)) h in
    let (ac, merchant) = and_both (a && c) d acd in ((and_both a c ac).1, merchant)

valid_departure :
    (f : Fulfillment)
    → text_eq f.route (codes "merchant_cross_border") ≡ true
    → text_eq f.owner (codes "merchant") ≡ true
    → text_eq f.status (codes "processing") ≡ true
    → valid_fulfillment_transition f.route f.owner f.status (codes "dispatched_from_origin") ≡ true
valid_departure f r o s =
    rw (text_eq_sound f.route _ r, text_eq_sound f.owner _ o, text_eq_sound f.status _ s) departs

all_dispatchable-Leaves :
    (db : Shipping) (members : List Fulfillment)
    → all_dispatchable db members ≡ true
    → All (λ f. Only f db.fulfillments) members
    → All (Left db) members
    → All (Leaves db.fulfillments) members
unfolding all_dispatchable is_dispatchable
all_dispatchable-Leaves db [] e a b = tt
all_dispatchable-Leaves db (f ∷ more) e (a, as') (b, bs) =
    let (now_ok, rest) =
      and_both (text_eq f.status (codes "processing") && _) (all_dispatchable db more) e in
    let (s, settled) = and_both (text_eq f.status (codes "processing")) _ now_ok in
    (
      record { only = a; valid = valid_departure f b.0 b.1 s },
      all_dispatchable-Leaves db more rest as' bs,
    )

-- The members of a manifest may leave, each once, when all are found dispatchable.
pub manifest_members-Leaves :
    (id provider : Text) (db : Shipping)
    → Distinct db.fulfillments
    → all_dispatchable db (manifest_members id provider db) ≡ true
    → Distinct (manifest_members id provider db)
      × All (Leaves db.fulfillments) (manifest_members id provider db)
unfolding manifest_members
manifest_members-Leaves id provider db d e =
    let found : List Fulfillment = filter_by (is_member id provider db) db.fulfillments in
    (
      sort_by_order-Distinct found
          (filter_by-Distinct (is_member id provider db) db.fulfillments d),
      all_dispatchable-Leaves db (sort_by_order found) e
          (sort_by_order-All (λ f. Only f db.fulfillments) found
            (filter_by-All (λ f. Only f db.fulfillments) (is_member id provider db) db.fulfillments
              (λ f h a. a) (Distinct-Only db.fulfillments d)))
          (sort_by_order-All (Left db) found (
            filter_by-test (Left db) (is_member id provider db) db.fulfillments
              (is_member-Left id provider db))),
    )
