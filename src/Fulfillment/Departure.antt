-- ===== src/Fulfillment/Departure.antt =====
-- The dispatch of a manifest keeps the trace of each fulfilment,
-- internal/controllers/merchant_fulfillment_controller.go.
use across_backend_api.Prelude.{
  not-false, ℕ, ◌≡◌, refl, ap, subst, inl, inr, Bool, true, false, not, ◌||◌, Option, none, some,
  List, [], ◌∷◌, ◌==◌, Bool-cases, All,
}
use across_backend_api.Prelude.Text.{Text, codes, text_eq, text_eq_sound, trim_space}
use across_backend_api.Prelude.Outcome.{ok_same, Outcome, ok, >>=-ok, reject_if-ok}
use across_backend_api.Xp.Rows.{Failure, Faults, http, database}
use across_backend_api.Fulfillment.Routes.{valid_fulfillment_transition, allowed}
use across_backend_api.Fulfillment.Tables.{
  Manifest, Fulfillment, Shipping, update_fulfillment, find_event,
}
use across_backend_api.Fulfillment.Transition.{is_taken, Reply}
use across_backend_api.Fulfillment.Chains.{AllTraced, Distinct, IsTraced}
use across_backend_api.Fulfillment.Traces.{
  Moves, Only, ids_apart, text_eq_swap, update-AllTraced, update-Distinct,
}
use across_backend_api.Fulfillment.Steps.{statement-ok}
use across_backend_api.Fulfillment.Manifests.{
  manifest_members, all_dispatchable, manifest_transitions, find_manifest_event,
}
use across_backend_api.Fulfillment.Members.{Leaves, manifest_members-Leaves}
use across_backend_api.Fulfillment.Dispatch.{
  has_none, dispatched_row, dispatch_event, dispatch_key, dispatched, dispatch_member,
  dispatch_members, dispatch_manifest, dispatch_if, finish_manifest, replay_or_change,
  ManifestRequest,
}

dispatched-Moves :
    (now : ℕ) (actor manifest notes : Text) (f : Fulfillment)
    → valid_fulfillment_transition f.route f.owner f.status (codes "dispatched_from_origin") ≡ true
    → Moves f (dispatched_row now) (dispatch_event actor manifest notes f)
unfolding dispatched_row dispatch_event
dispatched-Moves now actor manifest notes f valid = record {
  id = λ g. refl;
  route = refl;
  owner = refl;
  version = refl;
  fulfillment = refl;
  from = refl;
  to = refl;
  valid = valid;
}

dispatch_member-ok :
    (fails : Faults) (now : ℕ) (actor manifest notes : Text) (f : Fulfillment) (db after : Shipping)
    → dispatch_member fails now actor manifest notes f db ≡ ok after
    → dispatched actor manifest notes f
        (update_fulfillment f.id f.version (dispatched_row now) db.fulfillments).0
        db
      ≡ after
unfolding dispatch_member
dispatch_member-ok fails now actor manifest notes f db after e =
    let (hit, e1) = reject_if-ok (fails 2 || not (_ == 1)) (http 409) _ e in
    let (free, e2) =
      reject_if-ok (fails 4 || is_taken (find_event f.id (dispatch_key manifest f.order) db.events))
        database _ (statement-ok fails 3 _ e1) in
    ok_same _ after (statement-ok fails 6 _ (statement-ok fails 5 _ e2))

-- The update of another row leaves a row the only one with its identifier.
Only-update :
    (now : ℕ) (m f : Fulfillment) (rows : List Fulfillment)
    → text_eq m.id f.id ≡ false
    → Only m rows
    → Only m (update_fulfillment f.id f.version (dispatched_row now) rows).0
unfolding update_fulfillment dispatched_row
Only-update now m f [] apart h = tt
Only-update now m f (g ∷ more) apart (a, h) = elim (Bool-cases (text_eq g.id f.id)) [
  | inl e ↦ elim (Bool-cases (g.version == f.version)) [
    | inl v ↦
        rw (e, v)
          (
            (λ k.
                ids_apart m.id f.id
                  (subst (λ z. text_eq z f.id ≡ true) (text_eq_sound g.id m.id k) e)
                  (text_eq_swap m.id f.id apart)),
            Only-update now m f more apart h,
          )
    | inr v ↦ rw (e, v) (a, Only-update now m f more apart h)
  ]
  | inr e ↦ rw e (a, Only-update now m f more apart h)
]

Leaves-update :
    (now : ℕ) (f : Fulfillment) (members rows : List Fulfillment)
    → All (λ m. text_eq m.id f.id ≡ false) members
    → All (Leaves rows) members
    → All (Leaves (update_fulfillment f.id f.version (dispatched_row now) rows).0) members
Leaves-update now f [] rows o h = tt
Leaves-update now f (m ∷ more) rows (a, o) (l, h) = (
  record { only = Only-update now m f rows a l.only; valid = l.valid },
  Leaves-update now f more rows o h,
)

dispatched-AllTraced :
    (actor manifest notes : Text) (f : Fulfillment) (rows : List Fulfillment) (db : Shipping)
    → All (IsTraced (dispatch_event actor manifest notes f ∷ db.events)) rows
    → Distinct rows
    → AllTraced (dispatched actor manifest notes f rows db)
unfolding dispatched
dispatched-AllTraced actor manifest notes f rows db t d = (t, d)

dispatched-Leaves :
    (actor manifest notes : Text) (f : Fulfillment) (rows : List Fulfillment) (db : Shipping)
    (members : List Fulfillment)
    → All (Leaves rows) members
    → All (Leaves (dispatched actor manifest notes f rows db).fulfillments) members
unfolding dispatched
dispatched-Leaves actor manifest notes f rows db members h = h

dispatch_members-AllTraced :
    (fails : Text → Faults) (now : ℕ) (actor manifest notes : Text) (members : List Fulfillment)
    (db after : Shipping)
    → dispatch_members fails now actor manifest notes members db ≡ ok after
    → Distinct members
    → All (Leaves db.fulfillments) members
    → AllTraced db
    → AllTraced after
unfolding dispatch_members
dispatch_members-AllTraced fails now actor manifest notes [] db after e d h t =
    subst AllTraced (ok_same db after e) t
dispatch_members-AllTraced fails now actor manifest notes (f ∷ more) db after e (o, d) (l, h)
      (ts, ds) =
    let (next, e1, rest) =
      >>=-ok (dispatch_member (fails f.order) now actor manifest notes f db) _ e in
    let row = dispatch_member-ok (fails f.order) now actor manifest notes f db next e1 in
    let moves = dispatched-Moves now actor manifest notes f l.valid in
    let updated : List Fulfillment =
      (update_fulfillment f.id f.version (dispatched_row now) db.fulfillments).0 in
    let traced : AllTraced (dispatched actor manifest notes f updated db) =
      dispatched-AllTraced actor manifest notes f updated db
        (update-AllTraced (dispatched_row now) (dispatch_event actor manifest notes f) db.events f
          moves db.fulfillments l.only ts)
        (update-Distinct (dispatched_row now) moves.id f.id f.version db.fulfillments ds) in
    let (t', h') =
      subst (λ z. AllTraced z × All (Leaves z.fulfillments) more) row
        (
          traced,
          dispatched-Leaves actor manifest notes f updated db more
              (Leaves-update now f more db.fulfillments o h),
        ) in
    dispatch_members-AllTraced fails now actor manifest notes more next after rest d h' t'

dispatch_manifest-AllTraced :
    (own : Faults) (fails : Text → Faults) (now : ℕ) (actor provider manifest notes : Text)
    (db after : Shipping)
    → dispatch_manifest own fails now actor provider manifest notes db ≡ ok after
    → AllTraced db
    → AllTraced after
unfolding dispatch_manifest
dispatch_manifest-AllTraced own fails now actor provider manifest notes db after e (ts, d) =
    let members : List Fulfillment = manifest_members manifest provider db in
    let (all, e1) =
      reject_if-ok (not (all_dispatchable db members)) (http 409) _ (statement-ok own 2 _ e) in
    let (some_left, e2) = reject_if-ok (has_none members) (http 409) _ e1 in
    let (distinct, leaves) = manifest_members-Leaves manifest provider db d (not-false _ all) in
    dispatch_members-AllTraced fails now actor manifest notes members db after e2 distinct leaves
      (ts, d)

finish_manifest-AllTraced :
    (own : Faults) (now : ℕ) (actor status : Text) (req : ManifestRequest) (m : Manifest)
    (db after : Shipping) (reply : Reply)
    → finish_manifest own now actor status req m db ≡ ok (after, reply)
    → AllTraced db
    → AllTraced after
unfolding finish_manifest
finish_manifest-AllTraced own now actor status req m db after reply e t =
    let (hit, e1) = reject_if-ok (own 3 || not (_ == 1)) (http 409) _ e in
    let (free, e2) =
      reject_if-ok
        (own 4 || is_taken (find_manifest_event m.id (trim_space req.key) db.manifest_events))
        database _ e1 in
    subst AllTraced (ap (λ z. z.0) (ok_same _ (after, reply) (statement-ok own 5 _ e2))) t

dispatch_if-AllTraced :
    (b : Bool) (r : Outcome Failure Shipping) (db after : Shipping)
    → dispatch_if b r db ≡ ok after
    → (r ≡ ok after → AllTraced after)
    → AllTraced db
    → AllTraced after
dispatch_if-AllTraced true r db after e k t = k e
dispatch_if-AllTraced false r db after e k t = subst AllTraced (ok_same db after e) t

-- The change of a manifest that succeeds, its dispatch included, keeps all fulfilments traced: the
-- events of each lead from the first status to its present one by transitions of its route, and its
-- version counts them.
pub replay_or_change-AllTraced :
    (own : Faults) (fails : Text → Faults) (now : ℕ) (actor provider status : Text)
    (req : ManifestRequest) (m : Manifest) (event : Option Text) (db after : Shipping)
    (reply : Reply)
    → replay_or_change own fails now actor provider status req m event db ≡ ok (after, reply)
    → AllTraced db
    → AllTraced after
replay_or_change-AllTraced own fails now actor provider status req m (some s) db after reply e t =
    subst AllTraced (ap (λ z. z.0) (ok_same _ (after, reply) e)) t
replay_or_change-AllTraced own fails now actor provider status req m none db after reply e t =
    let (good, e1) =
      reject_if-ok
        (not (m.version == req.expected_version)
          || not (allowed manifest_transitions m.status status))
        (http 409) _ e in
    let dispatch : Outcome Failure Shipping =
      dispatch_manifest own fails now actor provider m.id req.notes db in
    let (next, e2, e3) =
      >>=-ok (dispatch_if (text_eq status (codes "dispatched")) dispatch db) _ e1 in
    finish_manifest-AllTraced own now actor status req m next after reply e3 (
      dispatch_if-AllTraced (text_eq status (codes "dispatched")) dispatch db next e2
        (λ k. dispatch_manifest-AllTraced own fails now actor provider m.id req.notes db next k t)
        t)
