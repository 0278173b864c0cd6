-- ===== src/Fulfillment/History.antt =====
-- The handlers keep the trace of each fulfilment,
-- internal/controllers/merchant_fulfillment_controller.go.
use across_backend_api.Prelude.{ℕ, ◌≡◌, refl, true, ap, subst, Option, none, some, List, [], ◌∷◌}
use across_backend_api.Prelude.Text.{Text}
use across_backend_api.Prelude.Outcome.{ok_same, ok, >>=-ok}
use across_backend_api.Xp.Rows.{Faults}
use across_backend_api.Fulfillment.Tables.{Fulfillment, Shipping, find_order}
use across_backend_api.Fulfillment.Routes.{valid_fulfillment_transition}
use across_backend_api.Fulfillment.Transition.{
  fulfilled, moved_event, Body, Request, Reply, buyer_of, find_fulfillment, advanced,
  open_fulfillment, move_fulfillment, transition_fulfillment, replay_or_move,
}
use across_backend_api.Fulfillment.Bulk.{BulkItem, item_key, bulk_item, bulk_items}
use across_backend_api.Fulfillment.Chains.{AllTraced}
use across_backend_api.Fulfillment.Traces.{Moves, Only-found, update-AllTraced, update-Distinct}
use across_backend_api.Fulfillment.Steps.{
  statement-ok, open_fulfillment-ok, move_fulfillment-ok, advance-ok,
}

fulfilled-Moves :
    (now : ℕ) (actor key : Text) (body : Body) (f : Fulfillment)
    → valid_fulfillment_transition f.route f.owner f.status body.status ≡ true
    → Moves f (fulfilled now body) (moved_event actor key body f)
unfolding fulfilled moved_event
fulfilled-Moves now actor key body f valid = record {
  id = λ g. refl;
  route = refl;
  owner = refl;
  version = refl;
  fulfillment = refl;
  from = refl;
  to = refl;
  valid = valid;
}

move_fulfillment-AllTraced :
    (fails : Faults) (now : ℕ) (actor key : Text) (expected : ℕ) (body : Body)
    (order provider : Text) (f : Fulfillment) (db after : Shipping)
    → find_fulfillment order provider db.orders db.fulfillments ≡ some f
    → move_fulfillment fails now actor key expected body f db ≡ ok after
    → AllTraced db
    → AllTraced after
unfolding advanced
move_fulfillment-AllTraced fails now actor key expected body order provider f db after found e
      (ts, d) =
    let (same, valid, e1) = move_fulfillment-ok fails now actor key expected body f db after e in
    let buyer : Text = buyer_of (find_order f.order db.orders) in
    let (free, row) = advance-ok fails now actor key body f buyer db after e1 in
    let moves = fulfilled-Moves now actor key body f valid in
    subst AllTraced row (
      update-AllTraced (fulfilled now body) (moved_event actor key body f) db.events f moves
          db.fulfillments (Only-found order provider db.orders db.fulfillments f d found) ts,
      update-Distinct (fulfilled now body) moves.id f.id f.version db.fulfillments d,
    )

replay_or_move-AllTraced :
    (fails : Faults) (now : ℕ) (order provider actor : Text) (req : Request) (f : Fulfillment)
    (event : Option Text) (db after : Shipping) (reply : Reply)
    → find_fulfillment order provider db.orders db.fulfillments ≡ some f
    → replay_or_move fails now actor req f event db ≡ ok (after, reply)
    → AllTraced db
    → AllTraced after
replay_or_move-AllTraced fails now order provider actor req f (some s) db after reply found e t =
    subst AllTraced (ap (λ z. z.0) (ok_same _ (after, reply) e)) t
replay_or_move-AllTraced fails now order provider actor req f none db after reply found e t =
    let (next, e1, e2) =
      >>=-ok (move_fulfillment fails now actor req.key req.expected_version req.body f db) _ e in
    let e3 = ok_same _ (after, reply) (statement-ok fails 7 _ e2) in
    subst AllTraced (ap (λ z. z.0) e3) (
      move_fulfillment-AllTraced fails now actor req.key req.expected_version req.body order
        provider f db next found e1 t)

-- A transition that succeeds keeps all fulfilments traced: the events of each lead from the first
-- status to its present one by transitions of its route, and its version counts them.
pub transition_fulfillment-AllTraced :
    (fails : Faults) (now : ℕ) (order provider actor : Text) (req : Request) (db after : Shipping)
    (reply : Reply)
    → transition_fulfillment fails now order provider actor req db ≡ ok (after, reply)
    → AllTraced db
    → AllTraced after
unfolding transition_fulfillment
transition_fulfillment-AllTraced fails now order provider actor req db after reply e t =
    let (f, opened, e1) = >>=-ok (open_fulfillment fails order provider db) _ e in
    let (found, free) = open_fulfillment-ok fails order provider db f opened in
    replay_or_move-AllTraced fails now order provider actor req f _ db after reply found
      (statement-ok fails 1 _ e1) t

-- So does a bulk request.
pub bulk_items-AllTraced :
    (fails : Text → Faults) (now : ℕ) (provider actor key : Text) (body : Body)
    (items : List BulkItem) (db after : Shipping)
    → bulk_items fails now provider actor key body items db ≡ ok after
    → AllTraced db
    → AllTraced after
unfolding bulk_items bulk_item
bulk_items-AllTraced fails now provider actor key body [] db after e t =
    subst AllTraced (ok_same db after e) t
bulk_items-AllTraced fails now provider actor key body (i ∷ more) db after e t =
    let (next, e1, rest) =
      >>=-ok (bulk_item (fails i.order) now provider actor key body i db) _ e in
    let (f, opened, e2) = >>=-ok (open_fulfillment (fails i.order) i.order provider db) _ e1 in
    let (found, free) = open_fulfillment-ok (fails i.order) i.order provider db f opened in
    bulk_items-AllTraced fails now provider actor key body more next after rest (
      move_fulfillment-AllTraced (fails i.order) now actor (item_key key i.order) i.expected_version
        body i.order provider f db next found e2 t)
