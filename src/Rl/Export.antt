-- ===== src/Rl/Export.antt =====
-- controller/src/rl_feedback_loop/export.rs: pages of a session's experiences.
pub mod Pages
use Prim.Native.Nat.{min, max}
use pokemon_rs.Prelude.{
  ℕ, ◌+◌, ◌-◌, ◌%◌, ◌^◌, Bool, ◌&&◌, Option, none, some, List, map, leb, if◌then◌else◌, drop, take,
  length, Result, ok, err,
}
use pokemon_rs.Api.{Uuid, nil_uuid}
use pokemon_rs.Rl.Store.{Experience, StoreError, ExperienceStore}

pub record ExportParams : Type 0 where
  pub session_id : Uuid
  pub limit : ℕ  -- u32
  pub offset : ℕ  -- u32

-- `ExportParams::default`
unfoldable pub default_params : ExportParams
default_params = record { session_id = nil_uuid; limit = 100; offset = 0 }

pub record ExportRecord (F J T : Type 0) : Type 0 where
  pub id : Uuid
  pub session_id : Uuid
  pub state : J
  pub action : J
  pub reward : F
  pub next_state : J
  pub done : Bool
  pub created_at : Option T

pub record ExportResponse (F J T : Type 0) : Type 0 where
  pub experiences : List (ExportRecord F J T)

-- `&list[start..end]`; `none` is the panic.
unfoldable pub slice {ℓ} : {A : Type ℓ} → List A → ℕ → ℕ → Option (List A)
slice xs start end_ =
    if leb start end_ && leb end_ (length xs)
    then some (take (end_ - start) (drop start xs))
    else none

abbrev pub page_limit : ℕ → ℕ
page_limit limit = min (max limit 1) 10_000

-- `list.len() as u32` truncates to 32 bits; `usize` has 64, and the sum cannot exceed it.
unfoldable pub page {ℓ} : {A : Type ℓ} → List A → ℕ → ℕ → Option (List A)
page xs limit offset =
    let start = min offset (length xs % 2 ^ 32) in
    slice xs start (min (start + page_limit limit) (length xs))

module _ {F J T : Type 0} where
  -- `impl From<&Experience> for ExportRecord`
  unfoldable pub of_experience : Experience F J T → ExportRecord F J T
  of_experience e = record {
    id = e.id;
    session_id = e.session_id;
    state = e.state;
    action = e.action;
    reward = e.reward;
    next_state = e.next_state;
    done = e.done;
    created_at = e.created_at;
  }

-- The export of a listing; `none` is a panic.
abbrev pub export_list :
    {F J T : Type 0}
    → ExportParams
    → Result StoreError (List (Experience F J T))
    → Option (Result StoreError (ExportResponse F J T))
export_list params (err e) = some (err e)
export_list params (ok list) = elim (page list params.limit params.offset) [
  | none ↦ none
  | some xs ↦ some (ok (record { experiences = map of_experience xs }))
]

unfoldable pub export_experiences :
    {F J T S : Type 0}
    → ExperienceStore F J T S
    → ExportParams
    → S
    → S × Option (Result StoreError (ExportResponse F J T))
export_experiences store params s =
    let (s', listed) = store.list_by_session params.session_id s in (s', export_list params listed)
