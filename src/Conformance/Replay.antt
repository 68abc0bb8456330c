-- ===== src/Conformance/Replay.antt =====
-- The tests of controller/src/rl_feedback_loop: experience.rs, store.rs and export.rs. A number
-- inside a value stands as its digits.
use pokemon_rs.Prelude.{
  ℕ, ◌+◌, ◌≡◌, refl, Bool, true, false, not, ◌&&◌, ◌||◌, Option, List, [], ◌∷◌, map, nat_beq,
  length, Text, codes, Result, ok, Method, ◌>>◌, nat_eq,
}
use pokemon_rs.Prelude.Map
use pokemon_rs.Prelude.Sort.{sort_by}
use pokemon_rs.Float.Fixed.{Fixed, fixed_f64}
use pokemon_rs.Json.Plain.{Plain, object, millis}
use pokemon_rs.Api.{Uuid, nil_uuid}
use pokemon_rs.Rl.Store.{
  Experience, StoreError, invalid_session_id, InMemoryStore, in_memory_store, is_session_valid,
  insert_experience, list_by_session, new,
}
use pokemon_rs.Rl.Export.{
  ExportParams, ExportRecord, ExportResponse, export_experiences, of_experience, page, slice,
}
use pokemon_rs.Auth.{is_empty}
use pokemon_rs.Conformance.{literal, close, is_ok, is_err, ok_and, err_and, some_and}

-- `Experience::new` on the values that these tests share, with the identifier that it draws.
abbrev spun : Uuid → Uuid → Plain → Fixed → Bool → Experience Fixed Plain ℕ
spun id session_id state reward done =
    new id session_id state (object ((codes "type", codes "Spin") ∷ [])) reward (object []) done

abbrev is_session_valid_rejects_nil : Bool
is_session_valid_rejects_nil =
    not (is_session_valid (spun 5 nil_uuid (object []) (literal 0 0) false))

abbrev is_session_valid_accepts_valid_uuid : Bool
is_session_valid_accepts_valid_uuid = is_session_valid (spun 5 1 (object []) (literal 0 0) false)

experience_pass :
    (is_session_valid_rejects_nil ≡ true) × (is_session_valid_accepts_valid_uuid ≡ true)
unfolding is_session_valid new
experience_pass = (refl, refl)

abbrev empty_store : InMemoryStore Fixed Plain ℕ
empty_store = []

abbrev insert_returns_ok_for_valid_experience : Bool
insert_returns_ok_for_valid_experience =
    is_ok (insert_experience (spun 5 1 (object []) (literal 1 0) false) empty_store).1

abbrev is_invalid_session_id : StoreError → Bool
is_invalid_session_id invalid_session_id = true
is_invalid_session_id _ = false

abbrev insert_returns_err_for_nil_session_id : Bool
insert_returns_err_for_nil_session_id =
    let r = (insert_experience (spun 5 nil_uuid (object []) (literal 1 0) false) empty_store).1 in
    is_err r && err_and r is_invalid_session_id

abbrev numbered : Text → Plain
numbered n = object ((codes "n", n) ∷ [])

abbrev contains : List Fixed → Fixed → Bool
contains [] x = false
contains (y ∷ ys) x = close x y || contains ys x

abbrev list_by_session_returns_in_order : Bool
list_by_session_returns_in_order =
    let (s1, r1) =
      insert_experience (spun 5 1 (numbered (codes "1")) (literal 1 0) false) empty_store in
    let (s2, r2) = insert_experience (spun 6 1 (numbered (codes "2")) (literal 2 0) true) s1 in
    let list = list_by_session 1 s2 in
    let rewards = map (λ e. e.reward) list in
    is_ok r1
    && is_ok r2
    && nat_beq (length list) 2
    && contains rewards (literal 1 0)
    && contains rewards (literal 2 0)

abbrev list_by_session_empty_for_unknown_session : Bool
list_by_session_empty_for_unknown_session = is_empty (list_by_session 1 empty_store)

store_pass :
    (insert_returns_ok_for_valid_experience ≡ true)
    × (insert_returns_err_for_nil_session_id ≡ true)
    × (list_by_session_returns_in_order ≡ true)
    × (list_by_session_empty_for_unknown_session ≡ true)
unfolding insert_experience list_by_session is_session_valid new sort_by Map.get Map.insert
store_pass = (refl, refl, refl, refl)

-- The loop of inserts; `unwrap()` stops it at the first failure.
abbrev insert_spins : ℕ → List Text → Method (InMemoryStore Fixed Plain ℕ) StoreError (Unit {0})
insert_spins i [] s = (s, ok tt)
insert_spins i (digit ∷ rest) s =
    (insert_experience (spun (5 + i) 1 (numbered digit) (literal i 0) false)
        >> insert_spins (i + 1) rest)
      s

abbrev response_and :
    Option (Result StoreError (ExportResponse Fixed Plain ℕ))
    → (List (ExportRecord Fixed Plain ℕ) → Bool)
    → Bool
response_and res p = some_and res λ r. ok_and r λ response. p response.experiences

abbrev all_within : List (ExportRecord Fixed Plain ℕ) → Bool
all_within [] = true
all_within (r ∷ rs) =
    fixed_f64.le (literal 0 0) r.reward && fixed_f64.le r.reward (literal 4 0) && all_within rs

abbrev five_digits : List Text
five_digits = codes "0" ∷ codes "1" ∷ codes "2" ∷ codes "3" ∷ codes "4" ∷ []

abbrev export_returns_correct_subset : Bool
export_returns_correct_subset =
    let (store, res) = insert_spins 0 five_digits empty_store in
    let params : ExportParams = record { session_id = 1; limit = 2; offset = 1 } in
    is_ok res
    && response_and (export_experiences in_memory_store params store).1
        (λ experiences. nat_beq (length experiences) 2 && all_within experiences)

abbrev export_empty_for_unknown_session : Bool
export_empty_for_unknown_session =
    let params : ExportParams = record { session_id = 1; limit = 10; offset = 0 } in
    response_and (export_experiences in_memory_store params empty_store).1 is_empty

abbrev export_record_has_required_shape : Bool
export_record_has_required_shape =
    let rec = of_experience {T = ℕ} (
      new 5 1 (object ((codes "state", codes "a") ∷ []))
        (object ((codes "type", codes "Spin") ∷ [])) (literal 5 0)
        (object ((codes "state", codes "b") ∷ [])) true) in
    close rec.reward (literal 5 0) && rec.done

export_pass :
    (export_returns_correct_subset ≡ true)
    × (export_empty_for_unknown_session ≡ true)
    × (export_record_has_required_shape ≡ true)
unfolding insert_experience list_by_session is_session_valid new sort_by Map.get Map.insert
    export_experiences of_experience page slice
export_pass = (refl, refl, refl)
