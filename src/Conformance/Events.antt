-- ===== src/Conformance/Events.antt =====
-- The tests of controller/src/event_store.rs. What nothing reads of a value is left out.
use pokemon_rs.Prelude.{
  ℕ, ◌≡◌, refl, Bool, true, false, not, ◌&&◌, none, List, [], ◌∷◌, nat_beq, Text, codes, nat_eq,
  text_eq,
}
use pokemon_rs.Prelude.Map.{get}
use pokemon_rs.Prelude.Sort.{sort_by}
use pokemon_rs.Float.Fixed.{Fixed}
use pokemon_rs.Json.Plain.{Plain, object, plain_json, millis}
use pokemon_rs.Api.{Uuid}
use pokemon_rs.Events.{
  GameplayEvent, InMemoryEventStore, validate_action_type, list_by_session, insert,
}
use pokemon_rs.Conformance.{is_ok, is_err}

abbrev typed : Text → Plain
typed name = object ((codes "type", name) ∷ [])

abbrev validate_action_type_accepts_place_bet_spin_cash_out : Bool
validate_action_type_accepts_place_bet_spin_cash_out =
    validate_action_type (object ((codes "type", codes "PlaceBet") ∷ (codes "amount", []) ∷ []))
    && validate_action_type (typed (codes "Spin"))
    && validate_action_type (typed (codes "CashOut"))

abbrev validate_action_type_rejects_missing_or_invalid : Bool
validate_action_type_rejects_missing_or_invalid =
    not (validate_action_type (object [])) && not (validate_action_type (typed (codes "Invalid")))

abbrev event_of : Text → GameplayEvent Fixed Plain ℕ
event_of name = record {
  event_id = 4;
  session_id = 1;
  action = typed name;
  result = object [];
  timestamp = none;
  reward = none;
}

abbrev no_events : InMemoryEventStore Fixed Plain ℕ
no_events = []

abbrev has_one : Uuid → List (GameplayEvent Fixed Plain ℕ) → Bool
has_one id (e ∷ []) = nat_beq e.event_id id
has_one id _ = false

abbrev in_memory_insert_and_list : Bool
in_memory_insert_and_list =
    let (store, res) = insert (event_of (codes "Spin")) no_events in
    is_ok res && has_one 4 (list_by_session 1 store)

abbrev insert_invalid_action_fails : Bool
insert_invalid_action_fails = is_err (insert (event_of (codes "Bad")) no_events).1

event_store_pass :
    (validate_action_type_accepts_place_bet_spin_cash_out ≡ true)
    × (validate_action_type_rejects_missing_or_invalid ≡ true)
    × (in_memory_insert_and_list ≡ true)
    × (insert_invalid_action_fails ≡ true)
unfolding validate_action_type insert list_by_session sort_by get
event_store_pass = (refl, refl, refl, refl)
