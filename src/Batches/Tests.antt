-- ===== src/Batches/Tests.antt =====
-- A batch of one order.
use across_backend_api.Prelude.{ℕ, suc, ◌≡◌, refl, true, false, none, some, [], ◌∷◌}
use across_backend_api.Prelude.Text.{codes}
use across_backend_api.Prelude.Outcome.{ok}
use across_backend_api.Prelude.Int.{pos}
use across_backend_api.Batches.Rules.{
  collecting_funds, closed, TransitionRequest, normalize_admin_role,
}
use across_backend_api.Batches.Tables.{Batch, Store, find_batch, nullable_admin_id}
use across_backend_api.Batches.Transition.{new_location, transition_batch}
use across_backend_api.Batches.Steps.{BatchStep}
use across_backend_api.Batches.Laws.{transition_batch-effect}

abbrev batch : Batch
batch = record {
  id = codes "b";
  status = collecting_funds;
  version = 3;
  location = [];
  notes = [];
  membership_locked = false;
  closed_at = none;
  reconciled = none;
  funds = none;
  funds_sent = none;
  funds_acknowledged = none;
  procurement_completed = none;
}

abbrev store : Store
store = record { batches = batch ∷ []; orders = []; events = []; tracking = []; notified = [] }

abbrev closing : TransitionRequest
closing = record {
  action = codes "close_collection";
  expected_version = pos 3;
  amount = pos 0;
  currency = [];
  reference = [];
  location = [];
  pickup_location = [];
  pickup_phone = [];
  notes = [];
  manifest_checked = false;
}

abbrev closed_batch : Batch
closed_batch = record batch {
  status = closed;
  version = 4;
  membership_locked = true;
  closed_at = some 8;
}

abbrev closed_store : Store
closed_store = record store {
  batches = closed_batch ∷ [];
  events =
      record {
        batch = codes "b";
        actor = codes "u";
        kind = codes "close_collection";
        previous = collecting_funds;
        status = closed;
        location = [];
        notes = [];
      }
      ∷ [];
}

closing_ran :
    transition_batch (λ k. false) 8 (codes "u") (codes "Super_Admin") (codes "b") closing store
    ≡ ok (closed_store, 4)
unfolding transition_batch
closing_ran = refl

transition_batch-effect_example :
    (b : Batch) × (b' : Batch) × (find_batch (codes "b") store.batches ≡ some b)
    × (find_batch (codes "b") closed_store.batches ≡ some b')
    × ((n : ℕ) → closing.expected_version ≡ pos (suc n) → b.version ≡ suc n)
    × BatchStep (normalize_admin_role (codes "Super_Admin")) closing.action b.status b'.status
    × (b'.version ≡ suc b.version)
    × (4 ≡ suc b.version)
    × (closed_store.events
        ≡ record {
          batch = codes "b";
          actor = nullable_admin_id (codes "u");
          kind = closing.action;
          previous = b.status;
          status = b'.status;
          location = new_location closing;
          notes = closing.notes;
        }
          ∷ store.events)
transition_batch-effect_example =
    transition_batch-effect (λ k. false) 8 (codes "u") (codes "Super_Admin") (codes "b") closing
      store closed_store 4 closing_ran
