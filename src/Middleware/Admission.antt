-- ===== src/Middleware/Admission.antt =====
-- `Admission` of internal/middleware/admission.go: a bound on the requests in progress. A request
-- that comes in either passes by the bound, takes a slot, or is refused; the slot is given back
-- when the request's handler is done, also when it panics.
use across_backend_api.Prelude.{
  ℕ, suc, ◌-◌, ◌%◌, ◌^◌, ◌≤◌, ◌<◌, ◌≡◌, refl, sym, ap, subst, ◌∙◌, ◌≢◌, Bool, true, false, ◌||◌,
  List, [], ◌∷◌, ◌++◌, arith, ltb, if◌then◌else◌, length, length-append,
}
use across_backend_api.Prelude.Text.{Text, codes, text_eq}

pub record Admission : Type 0 where
  pub slots : ℕ  -- the slots that are taken, `len(a.slots)`
  pub limit : ℕ  -- `cap(a.slots)`
  pub draining : Bool
  pub rejected : ℕ  -- modulo 2^64

-- `NewAdmission`
unfoldable pub new_admission : ℕ → Admission
new_admission limit = record {
  slots = 0;
  limit = if ltb limit 1 then 128 else limit;
  draining = false;
  rejected = 0;
}

unfoldable pub drain : Admission → Admission
drain a = record a { draining = true }

pub data Admitted : Type 0 where
  passed holding restarting busy : Admitted

pub record Arrival : Type 0 where
  pub path : Text
  pub method : Text

-- The part of `Handler` before `c.Next()`.
unfoldable pub admit : Arrival → Admission → Admission × Admitted
unfolding text_eq
admit r a =
    if text_eq r.path (codes "/api/v1/health")
    then (a, passed)
    else if a.draining
    then (a, restarting)
    else if text_eq r.path (codes "/api/v1/ready")
        || text_eq r.path (codes "/")
        || text_eq r.method (codes "OPTIONS")
    then (a, passed)
    else if ltb a.slots a.limit
    then (record a { slots = suc a.slots }, holding)
    else (record a { rejected = suc a.rejected % 2 ^ 64 }, busy)

-- The deferred receive.
unfoldable pub leave : Admission → Admission
leave a = record a { slots = a.slots - 1 }

-- The server: the bound, and the requests whose handlers run while they hold a slot.
pub record Server : Type 0 where
  pub admission : Admission
  pub running : List Arrival

-- What can happen, in any order.
pub data Step : Server → Server → Type 0 where
  arrive_holding :
      {a a' : Admission} {rs : List Arrival} (r : Arrival)
      → admit r a ≡ (a', holding)
      → Step (record { admission = a; running = rs }) (record { admission = a'; running = r ∷ rs })
  arrive_other :
      {a a' : Admission} {rs : List Arrival} (r : Arrival) (x : Admitted)
      → x ≢ holding
      → admit r a ≡ (a', x)
      → Step (record { admission = a; running = rs }) (record { admission = a'; running = rs })
  finish :
      {a : Admission} (before : List Arrival) (r : Arrival) (after : List Arrival)
      → Step
          (record { admission = a; running = before ++ r ∷ after })
          (record { admission = leave a; running = before ++ after })
  shut_down :
      {a : Admission} {rs : List Arrival}
      → Step (record { admission = a; running = rs }) (record { admission = drain a; running = rs })

pub data Reach : Server → Server → Type 0 where
  here : {s : Server} → Reach s s
  step : {s t u : Server} → Reach s t → Step t u → Reach s u

abbrev pub started : ℕ → Server
started limit = record { admission = new_admission limit; running = [] }

-- The slots are those of the running requests, and no more than the limit, which is not 0.
pub record IsBounded (s : Server) : Type 0 where
  pub counted : s.admission.slots ≡ length s.running
  pub bounded : s.admission.slots ≤ s.admission.limit
  pub room : 1 ≤ s.admission.limit

started-IsBounded : (limit : ℕ) → IsBounded (started limit)
unfolding new_admission
started-IsBounded limit = record { counted = refl; bounded = ground arith; room = ground arith }

-- What letting in a request does to the numbers.
admit-slots :
    (r : Arrival) (a a' : Admission) (x : Admitted)
    → admit r a ≡ (a', x)
    → (a'.limit ≡ a.limit)
      × (a'.draining ≡ a.draining)
      × (x ≡ holding → (a'.slots ≡ suc a.slots) × (a.slots < a.limit) × (a.draining ≡ false))
      × (x ≢ holding → a'.slots ≡ a.slots)
unfolding admit
admit-slots r a a' x e = (ground arith, ground arith, λ h. ground arith, λ h. ground arith)

Step-IsBounded : {s t : Server} → Step s t → IsBounded s → IsBounded t
unfolding leave drain
Step-IsBounded (arrive_holding {a} {a'} {rs} r e) b =
    let (limit, _, h, _) = admit-slots r a a' holding e in
    let (slots, free, _) = h refl in
    record {
      counted = slots ∙ ap suc b.counted;
      bounded = ground arith;
      room = subst (λ n. 1 ≤ n) (sym limit) b.room;
    }
Step-IsBounded (arrive_other {a} {a'} {rs} r x d e) b =
    let (limit, _, _, o) = admit-slots r a a' x e in
    let slots : a'.slots ≡ a.slots = o d in
    record {
      counted = slots ∙ b.counted;
      bounded = rw (slots, limit) b.bounded;
      room = subst (λ n. 1 ≤ n) (sym limit) b.room;
    }
Step-IsBounded (finish {a} before r after) b =
    let left : a.slots ≡ suc (length (before ++ after)) =
      b.counted ∙ length-append before (r ∷ after) ∙ (omega (arith, length-append before after)) in
    record { counted = ground arith; bounded = omega (arith, b.bounded); room = b.room }
Step-IsBounded shut_down b = record { counted = b.counted; bounded = b.bounded; room = b.room }

Reach-IsBounded_lem : {s t : Server} → Reach s t → IsBounded s → IsBounded t
Reach-IsBounded_lem here b = b
Reach-IsBounded_lem (step p q) b = Step-IsBounded q (Reach-IsBounded_lem p b)

-- At every moment of a server that was started with a limit, the slots that are taken are as many
-- as the running requests, and at most the limit.
pub Reach-IsBounded : (limit : ℕ) {s : Server} → Reach (started limit) s → IsBounded s
Reach-IsBounded limit p = Reach-IsBounded_lem p (started-IsBounded limit)

Step-draining :
    {s t : Server}
    → Step s t
    → s.admission.draining ≡ true
    → (t.admission.draining ≡ true) × (length t.running ≤ length s.running)
unfolding leave drain
Step-draining (arrive_holding {a} {a'} {rs} r e) d =
    let (_, _, h, _) = admit-slots r a a' holding e in absurd (ground (arith, h refl))
Step-draining (arrive_other {a} {a'} {rs} r x n e) d =
    let (_, same, _, _) = admit-slots r a a' x e in (same ∙ d, ground arith)
Step-draining (finish {a} before r after) d =
    (d, omega (arith, length-append before (r ∷ after), length-append before after))
Step-draining shut_down d = (refl, ground arith)

-- From the moment the server drains, it drains for ever, and the running requests only become
-- fewer: none takes a slot any more.
pub Reach-draining :
    {s t : Server}
    → Reach s t
    → s.admission.draining ≡ true
    → (t.admission.draining ≡ true) × (length t.running ≤ length s.running)
Reach-draining here d = (d, ground arith)
Reach-draining (step p q) d =
    let (d', l) = Reach-draining p d in
    let (d'', l') = Step-draining q d' in (d'', omega (arith, l, l'))
