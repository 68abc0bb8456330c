-- ===== src/Json/Plain.antt =====
-- Concrete values and times on which the definitions run: a value is a text or an object of texts,
-- and a time a number of milliseconds. They meet the laws.
use pokemon_rs.Prelude.{
  ℕ, ◌/◌, refl, Option, none, some, List, [], ◌∷◌, arith, ltb, Text, codes, text_eq,
}
use pokemon_rs.Prelude.Map
use pokemon_rs.Prelude.Int.{pos}
use pokemon_rs.Json.{Json, Serialize, IsSerde, action_name, DateTime, IsChronological}

pub data Plain : Type 0 where
  nothing : Plain
  text : Text → Plain
  object : List (Text × Text) → Plain

abbrev pub plain_get : Plain → Text → Option Plain
unfolding Map.get
plain_get (object m) k = elim (Map.get k m) [ some s ↦ some (text s) | none ↦ none ]
plain_get _ k = none

abbrev pub plain_text : Plain → Option Text
plain_text (text s) = some s
plain_text _ = none

instance abbrev pub plain_json : Json Plain
plain_json = record {
  get = plain_get;
  as_str = plain_text;
  null = nothing;
  state_object = λ s. object ((codes "state", s) ∷ []);
}

instance abbrev pub plain_serialize : {F : Type 0} → Serialize F Plain
plain_serialize = record {
  action_value = λ a. some (object ((codes "type", action_name a.action_type) ∷ []));
  result_value = λ r. some (object []);
}

pub Plain-IsSerde : {F : Type 0} → IsSerde F Plain
unfolding Map.get
Plain-IsSerde = record {
  action_type_field = λ a. (
    object ((codes "type", action_name a.action_type) ∷ []),
    text (action_name a.action_type),
    refl,
    refl,
    refl,
  );
}

-- Milliseconds since 1970.
instance abbrev pub millis : DateTime ℕ
millis = record { timestamp = λ t. pos (t / 1000); later = λ a b. ltb b a }

pub millis-IsChronological : IsChronological ℕ
millis-IsChronological = record {
  later_asym = λ a b h. ground arith;
  later_trans = λ a b c h k. ground arith;
}
