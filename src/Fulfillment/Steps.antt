-- ===== src/Fulfillment/Steps.antt =====
-- What the steps of a transition say when they succeed.
use across_backend_api.Prelude.{
  not-false, ℕ, ◌≡◌, refl, ap, subst, Bool, true, false, not, ◌||◌, Option, none, some, arith, ◌==◌,
  ==_iff,
}
use across_backend_api.Prelude.Text.{Text}
use across_backend_api.Prelude.Outcome.{ok_same, Outcome, ok, ◌>>◌, >>=-ok, reject_if-ok}
use across_backend_api.Xp.Rows.{Failure, http, database, Faults, statement}
use across_backend_api.Fulfillment.Routes.{valid_fulfillment_transition}
use across_backend_api.Fulfillment.Tables.{
  Fulfillment, Shipping, find_order, find_event, update_fulfillment,
}
use across_backend_api.Fulfillment.Transition.{
  Body, is_taken, assigned, buyer_of, fulfilled, advanced, advance, find_fulfillment, is_blocked,
  open_fulfillment, move_fulfillment,
}

pub statement-ok :
    (fails : Faults) (k : ℕ) {B : Type 0} (rest : Outcome Failure B) {b : B}
    → statement fails k >> rest ≡ ok b
    → rest ≡ ok b
statement-ok fails k rest e = (reject_if-ok (fails k) database rest e).1

assigned-some : (m : Option Fulfillment) (f : Fulfillment) → assigned m ≡ ok f → m ≡ some f
assigned-some none f e = absurd (ground arith)
assigned-some (some g) f e = ap some (ok_same g f e)

pub open_fulfillment-ok :
    (fails : Faults) (order provider : Text) (db : Shipping) (f : Fulfillment)
    → open_fulfillment fails order provider db ≡ ok f
    → (find_fulfillment order provider db.orders db.fulfillments ≡ some f)
      × (is_blocked f db ≡ false)
unfolding open_fulfillment
open_fulfillment-ok fails order provider db f e =
    let e1 = statement-ok fails 0 _ e in
    let (g, found, e2) =
      >>=-ok (assigned (find_fulfillment order provider db.orders db.fulfillments)) _ e1 in
    let (free, e3) = reject_if-ok (is_blocked g db) (http 409) (ok g) e2 in
    let same : g ≡ f = ok_same g f e3 in
    subst
      (λ z.
        (find_fulfillment order provider db.orders db.fulfillments ≡ some z)
        × (is_blocked z db ≡ false))
      same (assigned-some _ g found, free)

or_left : (a b : Bool) → (a || b) ≡ false → b ≡ false
or_left a b h = ground arith

free_event : (e : Option Text) → is_taken e ≡ false → e ≡ none
free_event none h = refl
free_event (some s) h = absurd (ground arith)

pub advance-ok :
    (fails : Faults) (now : ℕ) (actor key : Text) (body : Body) (f : Fulfillment) (buyer : Text)
    (db after : Shipping)
    → advance fails now actor key body f buyer db ≡ ok after
    → (find_event f.id key db.events ≡ none)
      × (advanced now actor key body f buyer
            (update_fulfillment f.id f.version (fulfilled now body) db.fulfillments).0
            db
          ≡ after)
unfolding advance
advance-ok fails now actor key body f buyer db after e =
    let (hit, e1) = reject_if-ok (fails 2 || not (_ == 1)) (http 409) _ e in
    let (free, e2) =
      reject_if-ok (fails 4 || is_taken (find_event f.id key db.events)) database _
        (statement-ok fails 3 _ e1) in
    (
      free_event _ (or_left (fails 4) _ free),
      ok_same _ after (statement-ok fails 6 _ (statement-ok fails 5 _ e2)),
    )

pub move_fulfillment-ok :
    (fails : Faults) (now : ℕ) (actor key : Text) (expected : ℕ) (body : Body) (f : Fulfillment)
    (db after : Shipping)
    → move_fulfillment fails now actor key expected body f db ≡ ok after
    → (f.version ≡ expected)
      × (valid_fulfillment_transition f.route f.owner f.status body.status ≡ true)
      × (advance fails now actor key body f (buyer_of (find_order f.order db.orders)) db ≡ ok after)
unfolding move_fulfillment
move_fulfillment-ok fails now actor key expected body f db after e =
    let (v, e1) = reject_if-ok (not (f.version == expected)) (http 409) _ e in
    let (w, e2) =
      reject_if-ok (not (valid_fulfillment_transition f.route f.owner f.status body.status))
        (http 409) _ e1 in
    ((==_iff f.version expected).0 (not-false _ v), not-false _ w, e2)
