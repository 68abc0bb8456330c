-- ===== src/Tests/Throttle.antt =====
-- Three requests of an administrator at a limit of two a minute.
use Prim.Native.Nat.{min}
use pokemon_rs.Prelude.{◌≡◌, refl, some, [], ◌∷◌, arith, text_eq, nat_eq}
use pokemon_rs.Prelude.Map.{get}
use pokemon_rs.Float.Fixed.{fixed_f64}
use pokemon_rs.Rl.Store.{in_memory_store}
use pokemon_rs.Json.Plain.{plain_json, plain_serialize, millis}
use pokemon_rs.Auth.{admin}
use pokemon_rs.Server.Router.{get_session, get_metrics}
use pokemon_rs.Server.Throttle.{passes, passes_first_window}
use pokemon_rs.Tests.{sample_state}
use pokemon_rs.Tests.Service.{show, request, admin_header, is_admin}

passes_first_window_example :
    let q = request (some admin_header) in
    passes show (q (get_session 7) ∷ q (get_session 8) ∷ q get_metrics ∷ []) sample_state ≡ min 3 2
unfolding get
passes_first_window_example =
    let q = request (some admin_header) in
    passes_first_window show (some admin_header) admin (q (get_session 7))
      (q (get_session 8) ∷ q get_metrics ∷ []) sample_state is_admin (refl, (refl, (refl, tt))) refl
      (omega arith) (omega arith) (omega arith, (omega arith, tt))
