-- ===== src/Events.antt =====
-- controller/src/event_store.rs: the event store.
pub mod Order
use pokemon_rs.Prelude.{
  Bool, false, not, ◌||◌, Option, none, some, List, [], ◌∷◌, ◌++◌, if◌then◌else◌, filter, Text,
  codes, ◌==◌, ok, err, Method, nat_eq, text_eq,
}
use pokemon_rs.Prelude.Sort.{sort_by}
use pokemon_rs.Prelude.Int.{ℤ, pos, ltb_ℤ}
use pokemon_rs.Api.{Uuid}
use pokemon_rs.Json.{Json, DateTime}

pub record GameplayEvent (F J T : Type 0) : Type 0 where
  pub event_id : Uuid
  pub session_id : Uuid
  pub action : J
  pub result : J
  pub timestamp : Option T
  pub reward : Option F

abbrev pub allowed_action_types : List Text
allowed_action_types = codes "PlaceBet" ∷ codes "Spin" ∷ codes "CashOut" ∷ []

abbrev pub contains : List Text → Text → Bool
contains [] t = false
contains (k ∷ ks) t = k == t || contains ks t

-- `as_str().map(|s| ALLOWED.contains(&s)).unwrap_or(false)`
abbrev pub allowed_name : Option Text → Bool
allowed_name none = false
allowed_name (some s) = contains allowed_action_types s

unfoldable pub validate_action_type : {J : Type 0} ⦃j : Json J⦄ → J → Bool
validate_action_type ⦃j⦄ action = elim (j.get action (codes "type")) [
  | none ↦ false
  | some v ↦ allowed_name (j.as_str v)
]

pub data EventError : Type 0 where
  invalid_action_type : EventError

-- `trait EventStore`, over the state `S` behind the shared reference.
pub record EventStore (F J T S : Type 0) : Type 0 where
  pub insert : GameplayEvent F J T → Method S EventError (Unit {0})
  pub list_by_session : Uuid → Method S EventError (List (GameplayEvent F J T))

abbrev pub InMemoryEventStore : Type 0 → Type 0 → Type 0 → Type 0
InMemoryEventStore F J T = List (GameplayEvent F J T)

module _ {T : Type 0} ⦃d : DateTime T⦄ where
  -- `timestamp.map(|t| t.timestamp()).unwrap_or(0)`
  abbrev pub seconds : Option T → ℤ
  seconds none = pos 0
  seconds (some t) = d.timestamp t

module _ {F J T : Type 0} where
  -- `EventStore::insert`
  unfoldable pub insert :
      ⦃j : Json J⦄ → GameplayEvent F J T → Method (InMemoryEventStore F J T) EventError (Unit {0})
  insert event events =
      if not (validate_action_type event.action)
      then (events, err invalid_action_type)
      else (events ++ (event ∷ []), ok tt)

  module _ ⦃d : DateTime T⦄ where
    -- `ta.cmp(&tb) == Greater`
    abbrev pub greater : GameplayEvent F J T → GameplayEvent F J T → Bool
    greater a b = ltb_ℤ (seconds b.timestamp) (seconds a.timestamp)

    abbrev pub of_session : Uuid → GameplayEvent F J T → Bool
    of_session id e = e.session_id == id

    unfoldable pub list_by_session : Uuid → InMemoryEventStore F J T → List (GameplayEvent F J T)
    list_by_session id events = sort_by greater (filter (of_session id) events)

    -- `impl EventStore for InMemoryEventStore`
    abbrev pub in_memory_event_store : ⦃j : Json J⦄ → EventStore F J T (InMemoryEventStore F J T)
    in_memory_event_store = record {
      insert = insert;
      list_by_session = λ id events. (events, ok (list_by_session id events));
    }
