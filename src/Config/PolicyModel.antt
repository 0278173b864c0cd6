-- ===== src/Config/PolicyModel.antt =====
-- What the policy promises, and that it keeps it, internal/config/subscription_policy.go.
use across_backend_api.Prelude.{
  ℕ, ◌≡◌, refl, ap, ◌∙◌, inl, inr, Bool, true, false, ◌&&◌, Option, none, some, List, [], ◌∷◌,
  Option-cases,
}
use across_backend_api.Prelude.Text.{Text}
use across_backend_api.Config.Policy.{
  AccessRow, Snapshot, Policy, has_begun, required, seen_row, refresh, set_access,
}

-- A choice of the administrators: whether subscriptions are enforced, and from when.
abbrev pub Choice : Type 0
Choice = Bool × Option ℕ

-- The promise: one choice is saved for all replicas, and each replica knows one; `none` is the
-- choice of the environment.
pub record Promise : Type 0 where
  pub saved : Option Choice
  pub known : Option Choice

-- What happens: a save of this replica, a refresh, and a save of another replica. The Booleans say
-- that it fails.
pub data Happening : Type 0 where
  saves : Bool → ℕ → Bool → Option ℕ → Text → Happening
  refreshes : Bool → Happening
  saved_elsewhere : ℕ → Bool → Option ℕ → Text → Happening

abbrev pub promised_step : Happening → Promise → Promise
promised_step (saves true now b t admin) s = s
promised_step (saves false now b t admin) s = record { saved = some (b, t); known = some (b, t) }
promised_step (refreshes true) s = s
promised_step (refreshes false) s = record s { known = s.saved }
promised_step (saved_elsewhere now b t admin) s = record s { saved = some (b, t) }

abbrev pub promised : List Happening → Promise → Promise
promised [] s = s
promised (h ∷ more) s = promised more (promised_step h s)

abbrev pub chosen : Choice → Option Choice → Choice
chosen fallback none = fallback
chosen fallback (some c) = c

abbrev pub promised_required : Choice → ℕ → Promise → Bool
promised_required fallback at_time s =
    let (enforced, start) = chosen fallback s.known in enforced && has_begun start at_time

-- The step of the program. Another replica writes the tables only.
abbrev pub policy_step : Happening → Policy → Policy
policy_step (saves fails now b t admin) p = set_access fails now b t admin p
policy_step (refreshes fails) p = refresh fails p
policy_step (saved_elsewhere now b t admin) p = record (set_access false now b t admin p) {
  current = p.current;
}

abbrev pub policy_run : List Happening → Policy → Policy
policy_run [] p = p
policy_run (h ∷ more) p = policy_run more (policy_step h p)

abbrev choice_of : Snapshot → Choice
choice_of s = (s.enforced, s.start_at)

abbrev saved_choice : AccessRow → Option Choice
saved_choice row = elim row.enforced [ none ↦ none | some b ↦ some (b, row.start_at) ]

-- The program keeps a promise.
pub record Implements (fallback : Choice) (p : Policy) (s : Promise) : Type 0 where
  pub environment : choice_of p.fallback ≡ fallback
  pub saved : saved_choice p.row ≡ s.saved
  pub known : choice_of p.current ≡ chosen fallback s.known

seen_choice :
    (f : Snapshot) (row : AccessRow) (fallback : Choice)
    → choice_of f ≡ fallback
    → choice_of (seen_row f row) ≡ chosen fallback (saved_choice row)
seen_choice f row fallback e = elim (Option-cases row.enforced) [
  | inl h ↦ rw h e
  | inr (b, h) ↦ rw h refl
]

step-Implements :
    (fallback : Choice) (h : Happening) (p : Policy) (s : Promise)
    → Implements fallback p s
    → Implements fallback (policy_step h p) (promised_step h s)
unfolding set_access refresh
step-Implements fallback (saves true now b t admin) p s i = i
step-Implements fallback (saves false now b t admin) p s i = record {
  environment = i.environment;
  saved = refl;
  known = refl;
}
step-Implements fallback (refreshes true) p s i = i
step-Implements fallback (refreshes false) p s i = record {
  environment = i.environment;
  saved = i.saved;
  known = seen_choice p.fallback p.row fallback i.environment ∙ ap (λ c. chosen fallback c) i.saved;
}
step-Implements fallback (saved_elsewhere now b t admin) p s i = record {
  environment = i.environment;
  saved = refl;
  known = i.known;
}

run-Implements :
    (fallback : Choice) (hs : List Happening) (p : Policy) (s : Promise)
    → Implements fallback p s
    → Implements fallback (policy_run hs p) (promised hs s)
run-Implements fallback [] p s i = i
run-Implements fallback (h ∷ more) p s i =
    run-Implements fallback more (policy_step h p) (promised_step h s)
      (step-Implements fallback h p s i)

-- The policy refines its promise: after any saves and refreshes of a replica and saves of others,
-- failed ones among them, it answers whether a subscription is needed at a time as the promise does:
-- by the choice that the replica saved or read last, or by that of the environment.
pub required-promised :
    (fallback : Choice) (hs : List Happening) (p : Policy) (s : Promise) (at_time : ℕ)
    → Implements fallback p s
    → required at_time (policy_run hs p) ≡ promised_required fallback at_time (promised hs s)
unfolding required
required-promised fallback hs p s at_time i =
    let done = run-Implements fallback hs p s i in
    ap (λ (c : Choice). c.0 && has_begun c.1 at_time) done.known
