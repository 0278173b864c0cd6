-- ===== src/Workers.antt =====
-- The selection of a worker's consumers: `WorkerRoleNames` of internal/config/worker_roles.go, and
-- the check in `runSelected` of internal/workers/roles.go that starts them.
mod Tests
use across_backend_api.Prelude.{
  ℕ, zero, suc, ◌+◌, ◌-◌, ◌*◌, ◌/◌, ◌%◌, ◌^◌, ◌≤◌, ◌<◌, min, max, ◌≡◌, refl, sym, ap, subst, ◌∙◌,
  ◌≢◌, ◌↔◌, ◌⊎◌, inl, inr, Bool, true, false, not, ◌&&◌, ◌||◌, Option, none, some, List, [], ◌∷◌,
  ◌++◌, map, arith, ltb, leb, ◌==◌, if◌then◌else◌, ==_iff, Bool-cases, Option-cases, if_branches,
  length, take, drop, filter_by, length-append, take-append-drop, length-filter_by-le, All,
  All-append, append_assoc, append-nil,
}
use across_backend_api.Prelude.Text.{
  Text, codes, text_eq, text_eq_refl, text_eq_sound, text_eq_iff, is_empty, lower_byte, upper_byte,
  to_lower, to_upper, is_space, trim_left, trim_right, trim_space, has_prefix, contains, mem_text,
}
use across_backend_api.Middleware.ClientIp.{split_commas, split_commas-cons}

abbrev pub all_roles : List Text
all_roles =
    codes "web_push"
    ∷ codes "email"
    ∷ codes "push"
    ∷ codes "push_receipts"
    ∷ codes "auto_confirm"
    ∷ codes "batch_closure"
    ∷ codes "settlements"
    ∷ codes "town_hall_expiry"
    ∷ codes "driver_expiry"
    ∷ codes "play_billing"
    ∷ []

-- The loop over the entries; `roles` has those that were seen.
unfoldable pub select_roles : List Text → List Text → Option (List Text)
unfolding trim_space mem_text
select_roles [] roles = some roles
select_roles (entry ∷ entries) roles =
    let rest = select_roles entries (roles ++ trim_space entry ∷ []) in
    if not (mem_text (trim_space entry) all_roles) || mem_text (trim_space entry) roles
    then none
    else rest

unfoldable pub worker_role_names : Text → Option (List Text)
unfolding select_roles split_commas to_lower
worker_role_names value =
    let raw = to_lower (trim_space value) in
    if is_empty raw || text_eq raw (codes "all")
    then some all_roles
    else select_roles (split_commas raw) []

-- The check of each name against the runners and the names before it.
unfoldable pub check_names : (Text → Bool) → List Text → List Text → Bool
unfolding mem_text
check_names has_runner [] seen = true
check_names has_runner (name ∷ names) seen =
    has_runner name && not (mem_text name seen) && check_names has_runner names (name ∷ seen)

abbrev is_empty_list : List Text → Bool
is_empty_list [] = true
is_empty_list (_ ∷ _) = false

-- Whether `runSelected` starts the consumers.
unfoldable pub check_selection : (Text → Bool) → List Text → Bool
unfolding check_names
check_selection has_runner roles = not (is_empty_list roles) && check_names has_runner roles []

check_names-append :
    (has_runner : Text → Bool) (roles seen : List Text) (name : Text)
    → check_names has_runner roles seen ≡ true
    → has_runner name ≡ true
    → mem_text name roles ≡ false
    → mem_text name seen ≡ false
    → check_names has_runner (roles ++ name ∷ []) seen ≡ true
unfolding check_names
check_names-append has_runner [] seen name c r m s = ground arith
check_names-append has_runner (x ∷ roles) seen name c r m s =
    ground (arith, check_names-append has_runner roles (x ∷ seen) name)

none-some : {r : List Text} → none ≢ some r
none-some = λ e. ground arith

is_empty_list-append :
    (roles : List Text) (name : Text) → is_empty_list (roles ++ name ∷ []) ≡ false
is_empty_list-append [] name = refl
is_empty_list-append (_ ∷ _) name = refl

select_roles-some :
    (entries roles : List Text) {selected : List Text}
    → is_empty_list roles ≡ false
    → select_roles entries roles ≡ some selected
    → is_empty_list selected ≡ false
unfolding select_roles
select_roles-some [] roles {selected} n e = subst (λ r. is_empty_list r ≡ false) (ground arith) n
select_roles-some (entry ∷ entries) roles {selected} n e =
    elim (Bool-cases
      (not (mem_text (trim_space entry) all_roles) || mem_text (trim_space entry) roles)) [
        | inl bad ↦
            let refused : select_roles (entry ∷ entries) roles ≡ none = rw bad refl in
            absurd (none-some (sym refused ∙ e))
        | inr fine ↦
            let further : select_roles (entry ∷ entries) roles
                ≡ select_roles entries (roles ++ trim_space entry ∷ []) =
              rw fine refl in
            select_roles-some entries (roles ++ trim_space entry ∷ []) {selected = selected}
              (is_empty_list-append roles (trim_space entry)) (sym further ∙ e)
      ]

select_roles-check :
    (has_runner : Text → Bool) (entries roles : List Text) {selected : List Text}
    → ((n : Text) → mem_text n all_roles ≡ true → has_runner n ≡ true)
    → select_roles entries roles ≡ some selected
    → check_names has_runner roles [] ≡ true
    → check_names has_runner selected [] ≡ true
unfolding select_roles
select_roles-check has_runner [] roles {selected} known e c =
    subst (λ r. check_names has_runner r [] ≡ true) (ground arith) c
select_roles-check has_runner (entry ∷ entries) roles {selected} known e c =
    elim (Bool-cases (mem_text (trim_space entry) all_roles)) [
      | inr unknown ↦
          let refused : select_roles (entry ∷ entries) roles ≡ none = rw unknown refl in
          absurd (none-some (sym refused ∙ e))
      | inl listed ↦ elim (Bool-cases (mem_text (trim_space entry) roles)) [
        | inl twice ↦
            let refused : select_roles (entry ∷ entries) roles ≡ none = rw (listed, twice) refl in
            absurd (none-some (sym refused ∙ e))
        | inr new ↦
            let further : select_roles (entry ∷ entries) roles
                ≡ select_roles entries (roles ++ trim_space entry ∷ []) =
              rw (listed, new) refl in
            select_roles-check has_runner entries (roles ++ trim_space entry ∷ [])
              {selected = selected} known (sym further ∙ e)
              (check_names-append has_runner roles [] (trim_space entry) c
                (known (trim_space entry) listed) new refl)
      ]
    ]

-- The first entry is there, so that something is selected.
select_roles_first :
    (entry : Text) (entries : List Text) {selected : List Text}
    → select_roles (entry ∷ entries) [] ≡ some selected
    → is_empty_list selected ≡ false
unfolding select_roles
select_roles_first entry entries {selected} e =
    elim (Bool-cases (not (mem_text (trim_space entry) all_roles) || false)) [
      | inl bad ↦
          let refused : select_roles (entry ∷ entries) [] ≡ none = rw bad refl in
          absurd (none-some (sym refused ∙ e))
      | inr fine ↦
          let further : select_roles (entry ∷ entries) []
              ≡ select_roles entries (trim_space entry ∷ []) =
            rw fine refl in
          select_roles-some entries (trim_space entry ∷ []) {selected = selected} refl
            (sym further ∙ e)
    ]

all_roles_selected : select_roles all_roles [] ≡ some all_roles
unfolding select_roles
all_roles_selected = refl

check_none : (has_runner : Text → Bool) → check_names has_runner [] [] ≡ true
unfolding check_names
check_none has_runner = refl

some_same : {a b : List Text} → some a ≡ some b → a ≡ b
some_same e = ground arith

-- What the configuration selects is started: when each supported consumer has a runner, the check
-- before the start accepts every selection that the configuration gives.
pub check_selection-worker_role_names :
    (has_runner : Text → Bool) (value : Text) (selected : List Text)
    → ((n : Text) → mem_text n all_roles ≡ true → has_runner n ≡ true)
    → worker_role_names value ≡ some selected
    → check_selection has_runner selected ≡ true
unfolding worker_role_names check_selection
check_selection-worker_role_names has_runner value selected known e =
    let raw : Text = to_lower (trim_space value) in
    elim (Bool-cases (is_empty raw || text_eq raw (codes "all"))) [
      | inl every ↦
          let chosen : worker_role_names value ≡ some all_roles = rw every refl in
          let same : all_roles ≡ selected = some_same (sym chosen ∙ e) in
          subst (λ r. (not (is_empty_list r) && check_names has_runner r []) ≡ true) same
            (select_roles-check has_runner all_roles [] {selected = all_roles} known
              all_roles_selected (check_none has_runner))
      | inr some_of ↦
          let chosen : worker_role_names value ≡ select_roles (split_commas raw) [] =
            rw some_of refl in
          let (p, ps, shape) = split_commas-cons raw in
          let filled : is_empty_list selected ≡ false =
            select_roles_first p ps {selected = selected}
              (ap (λ x. select_roles x []) (sym shape) ∙ sym chosen ∙ e) in
          rw filled (
            select_roles-check has_runner (split_commas raw) [] {selected = selected} known
              (sym chosen ∙ e) (check_none has_runner))
    ]
