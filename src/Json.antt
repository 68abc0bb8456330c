-- ===== src/Json.antt =====
-- `serde_json::Value` and chrono's `DateTime<Utc>`, which the repository only calls: types with the
-- operations that the code uses, as instances, and the documented behaviour that proofs rely on.
pub mod Plain
use pokemon_rs.Prelude.{◌≡◌, Bool, true, false, Option, some, Text, codes}
use pokemon_rs.Prelude.Int.{ℤ}
use pokemon_rs.Api.{GameplayAction, GameplayResult, GameplayActionType, place_bet, spin, cash_out}

pub record Json (J : Type 0) : Type 0 where
  -- `Value::get` with a text, and `Value::as_str`
  pub get : J → Text → Option J
  pub as_str : J → Option Text
  -- `Value::default()`
  pub null : J
  -- `json!({"state": s})`
  pub state_object : Text → J

-- `serde_json::to_value` at the two types that the code serialises; `none` is its error.
pub record Serialize (F J : Type 0) : Type 0 where
  pub action_value : GameplayAction F → Option J
  pub result_value : GameplayResult F → Option J

-- The variant names, which the derived serialiser writes for `#[serde(rename_all = "PascalCase")]`.
abbrev pub action_name : GameplayActionType → Text
action_name place_bet = codes "PlaceBet"
action_name spin = codes "Spin"
action_name cash_out = codes "CashOut"

-- A serialised action is an object whose field "type" is the text of the variant.
pub record IsSerde (F J : Type 0) ⦃j : Json J⦄ ⦃s : Serialize F J⦄ : Type 0 where
  pub action_type_field :
      (a : GameplayAction F)
      → (v t : J) × (s.action_value a ≡ some v)
        × (j.get v (codes "type") ≡ some t)
        × (j.as_str t ≡ some (action_name a.action_type))

pub record DateTime (T : Type 0) : Type 0 where
  -- Whole seconds since 1970.
  pub timestamp : T → ℤ
  -- `a.cmp(&b) == Ordering::Greater`
  pub later : T → T → Bool

-- `Ord` is a total order.
pub record IsChronological (T : Type 0) ⦃d : DateTime T⦄ : Type 0 where
  pub later_asym : (a b : T) → d.later a b ≡ true → d.later b a ≡ false
  pub later_trans : (a b c : T) → d.later a b ≡ false → d.later b c ≡ false → d.later a c ≡ false
