-- ===== src/Rl/Store.antt =====
-- controller/src/rl_feedback_loop/experience.rs and store.rs: the replay buffer, the trait and the
-- store in memory. The identifier that `Experience::new` draws is an argument. The store's lock is
-- never poisoned, since no code panics under it.
pub mod Listing
pub mod Contract
pub mod Memory
pub mod Postgres
pub mod Histories
use pokemon_rs.Prelude.{
  Bool, true, false, not, Option, none, some, List, [], ◌∷◌, ◌++◌, if◌then◌else◌, Text, codes, ◌==◌,
  ok, err, Method, nat_eq,
}
use pokemon_rs.Prelude.Map
use pokemon_rs.Prelude.Map.{HashMap}
use pokemon_rs.Prelude.Sort.{sort_by}
use pokemon_rs.Api.{Uuid, nil_uuid}
use pokemon_rs.Json.{DateTime}

pub record Experience (F J T : Type 0) : Type 0 where
  pub id : Uuid
  pub session_id : Uuid
  pub state : J
  pub action : J
  pub reward : F
  pub next_state : J
  pub done : Bool
  pub created_at : Option T

pub data StoreError : Type 0 where
  invalid_session_id : StoreError
  other : Text → StoreError

-- The derived `Display` of `StoreError`.
unfoldable pub error_text : StoreError → Text
error_text invalid_session_id = codes "invalid session_id"
error_text (other m) = codes "store error: " ++ m

-- `trait ExperienceStore`, over the state `S` behind the shared reference.
pub record ExperienceStore (F J T S : Type 0) : Type 0 where
  pub insert_experience : Experience F J T → Method S StoreError (Unit {0})
  pub list_by_session : Uuid → Method S StoreError (List (Experience F J T))

abbrev pub InMemoryStore : Type 0 → Type 0 → Type 0 → Type 0
InMemoryStore F J T = HashMap Uuid (List (Experience F J T))

-- `unwrap_or_default()` on a list
abbrev pub or_empty {ℓ} : {A : Type ℓ} → Option (List A) → List A
or_empty none = []
or_empty (some xs) = xs

-- `(Some(ta), Some(tb)) => ta.cmp(&tb)` and the other arms, as the test for `Greater`.
abbrev pub later_option : {T : Type 0} ⦃d : DateTime T⦄ → Option T → Option T → Bool
later_option ⦃d⦄ (some a) (some b) = d.later a b
later_option (some a) none = false
later_option none (some b) = true
later_option none none = false

module _ {F J T : Type 0} where
  -- `Experience::new`
  unfoldable pub new : Uuid → Uuid → J → J → F → J → Bool → Experience F J T
  new id session_id state action reward next_state done = record {
    id = id;
    session_id = session_id;
    state = state;
    action = action;
    reward = reward;
    next_state = next_state;
    done = done;
    created_at = none;
  }

  unfoldable pub is_session_valid : Experience F J T → Bool
  is_session_valid e = not (e.session_id == nil_uuid)

  unfoldable pub insert_experience :
      Experience F J T → Method (InMemoryStore F J T) StoreError (Unit {0})
  insert_experience e m =
      if not (is_session_valid e)
      then (m, err invalid_session_id)
      else (Map.insert e.session_id (or_empty (Map.get e.session_id m) ++ (e ∷ [])) m, ok tt)

  abbrev pub greater : ⦃d : DateTime T⦄ → Experience F J T → Experience F J T → Bool
  greater a b = later_option a.created_at b.created_at

  unfoldable pub list_by_session :
      ⦃d : DateTime T⦄ → Uuid → InMemoryStore F J T → List (Experience F J T)
  list_by_session id m = sort_by greater (or_empty (Map.get id m))

  instance abbrev pub in_memory_store :
      ⦃d : DateTime T⦄ → ExperienceStore F J T (InMemoryStore F J T)
  in_memory_store = record {
    insert_experience = insert_experience;
    list_by_session = λ id m. (m, ok (list_by_session id m));
  }
