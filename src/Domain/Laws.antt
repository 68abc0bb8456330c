-- ===== src/Domain/Laws.antt =====
-- What `SessionRepository` (controller/src/app_state.rs) promises its clients: the store behaves as
-- a function from identifiers to sessions.
use pokemon_rs.Prelude.{◌≡◌, Option, none, some, if◌then◌else◌, ◌==◌, ok, err, nat_eq}
use pokemon_rs.StateEngine.{GameState}
use pokemon_rs.Api.{Uuid, Session}
use pokemon_rs.Domain.{not_found, SessionRepository}

module _ {F S : Type 0} where
  -- `view s id` is the session that the store `s` holds under `id`.
  pub record IsSessionRepository (r : SessionRepository F S) (view : S → Uuid → Option (Session F))
      : Type 0 where
    pub create_ok : (x : Session F) (s : S) → (r.create x s).1 ≡ ok tt
    pub view-create :
        (x : Session F) (s : S) (j : Uuid)
        → view (r.create x s).0 j ≡ (if x.session_id == j then some x else view s j)
    pub get_by_id_lem : (id : Uuid) (s : S) → r.get_by_id id s ≡ (s, ok (view s id))
    pub update_missing :
        (id : Uuid) (st : GameState) (s : S)
        → view s id ≡ none
        → r.update_state id st s ≡ (s, err (not_found id))
    pub update_found :
        (id : Uuid) (st : GameState) (s : S) (x : Session F)
        → view s id ≡ some x
        → (r.update_state id st s).1 ≡ ok (record x { state = st })
    pub view-update :
        (id : Uuid) (st : GameState) (s : S) (x : Session F) (j : Uuid)
        → view s id ≡ some x
        → view (r.update_state id st s).0 j
          ≡ (if id == j then some (record x { state = st }) else view s j)
