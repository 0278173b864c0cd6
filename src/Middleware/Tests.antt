-- ===== src/Middleware/Tests.antt =====
-- The middleware on small inputs.
use across_backend_api.Prelude.{
  ℕ, suc, ◌-◌, min, ◌≡◌, refl, ◌⊎◌, Bool, true, false, not, none, some, List, [], ◌∷◌, ◌++◌, arith,
  if◌then◌else◌,
}
use across_backend_api.Prelude.Text.{
  Text, codes, text_eq, text_eq_refl, text_eq_sound, is_empty, trim_space, has_prefix,
}
use across_backend_api.Middleware.Admission.{
  Admission, new_admission, admit, holding, Arrival, leave, Server, arrive_holding, finish, Reach,
  here, step, started, IsBounded, Reach-IsBounded,
}
use across_backend_api.Middleware.ClientIp.{
  Netip, split_commas, is_trusted, resolve_client_ip, resolve_client_ip_forged, parse_chain, hop,
}
use across_backend_api.Middleware.RateLimit.{
  Redis, IsCounting, Limit, HttpRequest, is_exempt, rate_key, IsCounted, let_through,
  let_through-count,
}

abbrev purchase_call : Arrival
purchase_call = record { path = codes "/api/v1/orders"; method = codes "POST" }

abbrev one_slot : Admission
one_slot = record { slots = 1; limit = 1; draining = false; rejected = 0 }

abbrev busy_server : Server
busy_server = record { admission = one_slot; running = purchase_call ∷ [] }

admitted : admit purchase_call (new_admission 1) ≡ (one_slot, holding)
unfolding admit new_admission
admitted = refl

reach_busy : Reach (started 1) busy_server
reach_busy = step here (arrive_holding purchase_call admitted)

Reach-IsBounded_example : IsBounded busy_server
Reach-IsBounded_example = Reach-IsBounded 1 reach_busy

abbrev draining_server : Server
draining_server = record {
  admission = record one_slot { draining = true };
  running = purchase_call ∷ [];
}

abbrev drained_server : Server
drained_server = record { admission = record one_slot { slots = 0; draining = true }; running = [] }

reach_drained : Reach draining_server drained_server
unfolding leave
reach_drained = step here (finish [] purchase_call [])

abbrev has_prefix_of : Text → Text → Bool
has_prefix_of p a = has_prefix a p

-- Addresses are texts; those that begin with 1 are trusted proxies.
abbrev net : Netip Text Text
net = record {
  is_valid = λ a. not (is_empty a);
  has_zone = λ a. false;
  unmap = λ a. a;
  parse_addr = λ s. if is_empty s then none else some s;
  parse_prefix = λ s. some s;
  bits = λ p. 8;
  contains = has_prefix_of;
}

client_untrusted :
    is_trusted net
      (codes "1" ∷ [])
      (resolve_client_ip net (codes "1.1") (codes "7.7,1.2") (codes "1" ∷ []))
    ≡ false
unfolding resolve_client_ip parse_chain hop split_commas has_prefix trim_space
client_untrusted = refl

resolve_client_ip_forged_example :
    (resolve_client_ip net (codes "1.1") (codes "5.5" ++ b',' ∷ codes "7.7,1.2") (codes "1" ∷ [])
      ≡ resolve_client_ip net (codes "1.1") (codes "7.7,1.2") (codes "1" ∷ []))
    ⊎ (resolve_client_ip net (codes "1.1") (codes "5.5" ++ b',' ∷ codes "7.7,1.2") (codes "1" ∷ [])
        ≡ codes "1.1")
resolve_client_ip_forged_example =
    resolve_client_ip_forged net (codes "1.1") (codes "1" ∷ []) (codes "5.5") (codes "7.7,1.2")
      client_untrusted

-- A counter for each key, in a list of the keys that were hit.
abbrev hits : Text → List Text → ℕ
hits key [] = 0
hits key (k ∷ ks) = let rest = hits key ks in if text_eq k key then suc rest else rest

abbrev counter : Redis (List Text)
counter = record { count = hits; hit = λ key s. (key ∷ s, some (suc (hits key s), 1000)) }

counter-IsCounting : IsCounting counter
counter-IsCounting = record {
  answer = λ key s. (1000, refl);
  counted = λ key s. rw (text_eq_refl key) refl;
  others = λ key other s differ. ground (arith, differ, text_eq_sound key other);
}

abbrev limit : Limit
limit = record { client = true; namespace = []; requests = 2; window = 1000; by_user = false }

abbrev call : HttpRequest
call = record { method = codes "GET"; path = codes "/a"; ip = codes "9.9"; user = []; at = 5 }

abbrev same_digest : Text → Text
same_digest s = s

abbrev no_decimal : ℕ → Text
no_decimal n = []

calls-IsCounted :
    IsCounted counter same_digest no_decimal limit
      (rate_key counter same_digest no_decimal limit call)
      call
unfolding is_exempt has_prefix text_eq
calls-IsCounted = (refl, refl, refl)

let_through-count_example :
    let_through counter same_digest no_decimal limit (call ∷ call ∷ call ∷ []) []
    ≡ min 3 (2 - hits (rate_key counter same_digest no_decimal limit call) [])
let_through-count_example =
    let_through-count counter same_digest no_decimal counter-IsCounting limit
      (rate_key counter same_digest no_decimal limit call) (call ∷ call ∷ call ∷ []) []
      (calls-IsCounted, (calls-IsCounted, (calls-IsCounted, tt)))
