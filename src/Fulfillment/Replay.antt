-- ===== src/Fulfillment/Replay.antt =====
-- A transition that is asked for again, internal/controllers/merchant_fulfillment_controller.go.
use across_backend_api.Prelude.{
  some_same, ℕ, ◌≡◌, refl, subst, inl, inr, Bool, true, false, ◌&&◌, Option, none, some, List, [],
  ◌∷◌, arith, ◌==◌, if◌then◌else◌, Bool-cases,
}
use across_backend_api.Prelude.Text.{Text, text_eq, text_eq_refl}
use across_backend_api.Prelude.Outcome.{ok_same, ok, >>=-ok}
use across_backend_api.Xp.Rows.{Faults}
use across_backend_api.Fulfillment.Tables.{
  Fulfillment, PlacedOrder, Shipping, find_event, find_order, update_fulfillment, update_order,
  is_paid,
}
use across_backend_api.Fulfillment.Transition.{
  Body, Request, Reply, moved, replayed, buyer_of, find_fulfillment, fulfilled, advanced,
  moved_event, staged, open_fulfillment, move_fulfillment, transition_fulfillment, replay_or_move,
  is_blocked, is_assigned,
}
use across_backend_api.Fulfillment.Steps.{
  statement-ok, open_fulfillment-ok, move_fulfillment-ok, advance-ok,
}

-- What a transition leaves of a row.
abbrev Kept : Fulfillment → Fulfillment → Type 0
Kept f g =
    (g.id ≡ f.id)
    × (g.order ≡ f.order)
    × (g.provider ≡ f.provider)
    × (g.owner ≡ f.owner)
    × (g.route ≡ f.route)

pub is_paid-update_order :
    (now : ℕ) (s : Text × Text) (id order : Text) (orders : List PlacedOrder)
    → is_paid (find_order order (update_order id (staged now s) orders))
      ≡ is_paid (find_order order orders)
unfolding find_order update_order staged
is_paid-update_order now s id order [] = refl
is_paid-update_order now s id order (o ∷ more) = elim (Bool-cases (text_eq o.id id)) [
  | inl e ↦ elim (Bool-cases (text_eq o.id order)) [
    | inl h ↦ rw (e, h) refl
    | inr h ↦ rw (e, h) (is_paid-update_order now s id order more)
  ]
  | inr e ↦ elim (Bool-cases (text_eq o.id order)) [
    | inl h ↦ rw (e, h) refl
    | inr h ↦ rw (e, h) (is_paid-update_order now s id order more)
  ]
]

updated-Kept :
    (b : Bool) (now : ℕ) (body : Body) (g : Fulfillment)
    → Kept g (if b then fulfilled now body g else g)
unfolding fulfilled
updated-Kept true now body g = (refl, refl, refl, refl, refl)
updated-Kept false now body g = (refl, refl, refl, refl, refl)

find_fulfillment-update :
    (now : ℕ) (body : Body) (s : Text × Text) (id changed : Text) (version : ℕ)
    (order provider : Text) (orders : List PlacedOrder) (rows : List Fulfillment) (f : Fulfillment)
    → find_fulfillment order provider orders rows ≡ some f
    → (g : Fulfillment) × (find_fulfillment order provider
          (update_order changed (staged now s) orders)
          (update_fulfillment id version (fulfilled now body) rows).0
        ≡ some g)
      × Kept f g
unfolding find_fulfillment update_fulfillment fulfilled
find_fulfillment-update now body s id changed version order provider orders [] f e =
    absurd (ground arith)
find_fulfillment-update now body s id changed version order provider orders (h ∷ more) f e =
    let hit : Bool = text_eq h.id id && h.version == version in
    elim (Bool-cases (is_assigned order provider orders h)) [
      | inl own ↦
          let same : h ≡ f = some_same h f (
            subst
              (λ b. (if b then some h else find_fulfillment order provider orders more) ≡ some f)
              own e) in
          elim (Bool-cases hit) [
            | inl u ↦ (
              fulfilled now body h,
              rw (u, is_paid-update_order now s changed h.order orders, own) refl,
              subst (λ z. Kept z (fulfilled now body h)) same (updated-Kept true now body h),
            )
            | inr u ↦ (
              h,
              rw (u, is_paid-update_order now s changed h.order orders, own) refl,
              subst (λ z. Kept z h) same (updated-Kept false now body h),
            )
          ]
      | inr other ↦
          let (g, found, kept) =
            find_fulfillment-update now body s id changed version order provider orders more f (
              subst
                (λ b. (if b then some h else find_fulfillment order provider orders more) ≡ some f)
                other e) in
          elim (Bool-cases hit) [
            | inl u ↦
                (g, rw (u, is_paid-update_order now s changed h.order orders, other) found, kept)
            | inr u ↦
                (g, rw (u, is_paid-update_order now s changed h.order orders, other) found, kept)
          ]
    ]

abbrev status_in : Reply → Text
status_in (replayed s n) = s
status_in (moved s n) = s

abbrev Reads : Faults → Type 0
Reads fails = (fails 0 ≡ false) × (fails 1 ≡ false)

-- A request whose event is there is answered from it.
transition_fulfillment-replayed :
    (fails : Faults) (now : ℕ) (order provider actor : Text) (req : Request) (db : Shipping)
    (g : Fulfillment) (status : Text)
    → Reads fails
    → find_fulfillment order provider db.orders db.fulfillments ≡ some g
    → is_blocked g db ≡ false
    → find_event g.id req.key db.events ≡ some status
    → transition_fulfillment fails now order provider actor req db
      ≡ ok (db, replayed status g.version)
unfolding transition_fulfillment open_fulfillment
transition_fulfillment-replayed fails now order provider actor req db g status (zero_ok, one_ok)
      found free event =
    rw (zero_ok, found, free, one_ok, event) refl

module _ (now : ℕ) (actor : Text) (req : Request) (f : Fulfillment) (db : Shipping) where
  abbrev after_move : Shipping
  after_move =
      advanced now actor req.key req.body f (buyer_of (find_order f.order db.orders))
        (update_fulfillment f.id f.version (fulfilled now req.body) db.fulfillments).0 db

  found_after :
      (order provider : Text)
      → find_fulfillment order provider db.orders db.fulfillments ≡ some f
      → (g : Fulfillment) × (find_fulfillment order provider after_move.orders
            after_move.fulfillments
          ≡ some g)
        × Kept f g
  unfolding advanced
  found_after order provider found =
      find_fulfillment-update now req.body _ f.id f.order f.version order provider db.orders
        db.fulfillments f found

  blocked_after :
      (g : Fulfillment) → Kept f g → is_blocked f db ≡ false → is_blocked g after_move ≡ false
  unfolding is_blocked advanced
  blocked_after g (id, order, provider, owner, route) free = rw (route, order) free

  event_after :
      (g : Fulfillment)
      → Kept f g
      → find_event g.id req.key after_move.events ≡ some req.body.status
  unfolding find_event advanced moved_event
  event_after g (id, order, provider, owner, route) =
      rw (id, text_eq_refl f.id, text_eq_refl req.key) refl

replay_or_move-replayed :
    (fails again : Faults) (now later : ℕ) (order provider actor : Text) (req : Request)
    (f : Fulfillment) (event : Option Text) (db after : Shipping) (reply : Reply)
    → Reads again
    → find_fulfillment order provider db.orders db.fulfillments ≡ some f
    → is_blocked f db ≡ false
    → find_event f.id req.key db.events ≡ event
    → replay_or_move fails now actor req f event db ≡ ok (after, reply)
    → (n : ℕ) × (transition_fulfillment again later order provider actor req after
        ≡ ok (after, replayed (status_in reply) n))
replay_or_move-replayed fails again now later order provider actor req f (some s) db after reply
      reads found free event e =
    let same = ok_same _ (after, reply) e in
    (
      f.version,
      subst
          (λ z.
            transition_fulfillment again later order provider actor req z.0
            ≡ ok (z.0, replayed (status_in z.1) f.version))
          same
          (transition_fulfillment-replayed again later order provider actor req db f s reads found
            free event),
    )
replay_or_move-replayed fails again now later order provider actor req f none db after reply reads
      found free event e =
    let (next, e1, e2) =
      >>=-ok (move_fulfillment fails now actor req.key req.expected_version req.body f db) _ e in
    let same = ok_same _ (after, reply) (statement-ok fails 7 _ e2) in
    let (version, valid, e3) =
      move_fulfillment-ok fails now actor req.key req.expected_version req.body f db next e1 in
    let (new, row) =
      advance-ok fails now actor req.key req.body f (buyer_of (find_order f.order db.orders)) db
        next e3 in
    let (g, there, kept) = found_after now actor req f db order provider found in
    (
      g.version,
      subst
          (λ z.
            transition_fulfillment again later order provider actor req z.0
            ≡ ok (z.0, replayed (status_in z.1) g.version))
          same
          (subst
            (λ z.
              transition_fulfillment again later order provider actor req z
              ≡ ok (z, replayed req.body.status g.version))
            row
            (transition_fulfillment-replayed again later order provider actor req
              (advanced now actor req.key req.body f (buyer_of (find_order f.order db.orders))
                (update_fulfillment f.id f.version (fulfilled now req.body) db.fulfillments).0 db)
              g req.body.status reads there (blocked_after now actor req f db g kept free)
              (event_after now actor req f db g kept))),
    )

-- A transition that succeeded and is asked for again under its key, at any later time, is answered
-- with the status that it led to, and leaves the tables as they are, unless a statement that reads
-- fails.
pub transition_fulfillment-again :
    (fails again : Faults) (now later : ℕ) (order provider actor : Text) (req : Request)
    (db after : Shipping) (reply : Reply)
    → Reads again
    → transition_fulfillment fails now order provider actor req db ≡ ok (after, reply)
    → (n : ℕ) × (transition_fulfillment again later order provider actor req after
        ≡ ok (after, replayed (status_in reply) n))
unfolding transition_fulfillment
transition_fulfillment-again fails again now later order provider actor req db after reply reads e =
    let (f, opened, e1) = >>=-ok (open_fulfillment fails order provider db) _ e in
    let (found, free) = open_fulfillment-ok fails order provider db f opened in
    replay_or_move-replayed fails again now later order provider actor req f
      (find_event f.id req.key db.events) db after reply reads found free refl
      (statement-ok fails 1 _ e1)
