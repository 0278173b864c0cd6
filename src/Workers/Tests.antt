-- ===== src/Workers/Tests.antt =====
-- A selection of two consumers.
use across_backend_api.Prelude.{◌≡◌, refl, Bool, true, some, [], ◌∷◌}
use across_backend_api.Prelude.Text.{Text, codes, to_lower}
use across_backend_api.Workers.{worker_role_names}
use across_backend_api.Middleware.ClientIp.{split_commas}

abbrev every_runner : Text → Bool
every_runner name = true

two_selected : worker_role_names (codes "Email, push") ≡ some (codes "email" ∷ codes "push" ∷ [])
unfolding worker_role_names split_commas to_lower
two_selected = refl
