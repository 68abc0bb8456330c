-- ===== src/Persistence/Sessions.antt =====
-- The in-memory session store (controller/src/persistence_metrics/mod.rs) keeps the promises of the
-- repository trait.
use pokemon_rs.Prelude.{refl, arith, nat_eq}
use pokemon_rs.Prelude.Map.{get, get-insert}
use pokemon_rs.Domain.Laws.{IsSessionRepository}
use pokemon_rs.Persistence.{session_store, session_create, session_get_by_id, session_update_state}

-- Creation, lookup and state update of the in-memory store act as the trait demands: as updates of
-- one entry of a function from identifiers to sessions, and an update of a missing entry fails.
pub session_store-IsSessionRepository :
    {F : Type 0} → IsSessionRepository {F = F} session_store (λ m id. get id m)
unfolding session_create session_get_by_id session_update_state
session_store-IsSessionRepository = record {
  create_ok = λ x s. refl;
  view-create = λ x s j. get-insert x.session_id j x s;
  get_by_id_lem = λ id s. refl;
  update_missing = λ id st s h. ground arith;
  update_found = λ id st s x h. ground arith;
  view-update = λ id st s x j h. ground (arith, get-insert id j (record x { state = st }) s);
}
