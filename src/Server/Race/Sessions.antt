-- ===== src/Server/Race/Sessions.antt =====
-- The sessions under the steps of concurrent action requests (cli/src/server.rs:
-- `play_action_handler`).
use mathlib.Core.Path.{subst}
use pokemon_rs.Prelude.{
  ◌≡◌, ◌⊎◌, inl, inr, some, if◌then◌else◌, nat_beq_iff, Bool-cases, Option-cases, ◌==◌, ok, nat_eq,
}
use pokemon_rs.Prelude.Map.{get, insert, get-insert}
use pokemon_rs.StateEngine.{GameState, initialized, transition}
use pokemon_rs.StateEngine.Graph.{◌⟶◌, transition-ok, transition-cases}
use pokemon_rs.Float.{F64}
use pokemon_rs.Json.{Json, Serialize}
use pokemon_rs.Api.{Uuid, Session}
use pokemon_rs.Persistence.{SessionStore}
use pokemon_rs.Rl.Store.{ExperienceStore}
use pokemon_rs.AppState.{AppState}
use pokemon_rs.Server.{next_state}
use pokemon_rs.Server.Race.{
  Stage, called, looked, decided, moved, counted, logged, answered, Call, advance_call, step_call,
}
use pokemon_rs.Server.Race.Alone.{
  look_found, look_missing, decide_granted, decide_refused, decide_missing, write_found,
  write_missing,
}

-- What a session can come to whose states so far are those seen: `initialized`, and the ends of the
-- edges of the canonical machine that start in them.
abbrev pub Follows : (Uuid → GameState → Type 0) → Uuid → GameState → Type 0
Follows Seen k to = (to ≡ initialized) ⊎ ((from : GameState) × Seen k from × (from ⟶ to))

-- The states of all stored sessions.
abbrev pub Stored : {F : Type 0} → (Uuid → GameState → Type 0) → SessionStore F → Type 0
Stored {F} P m = (k : Uuid) (x : Session F) → get k m ≡ some x → P k x.state

pub insert-Stored :
    {F : Type 0} (P : Uuid → GameState → Type 0) (id : Uuid) (x : Session F) (m : SessionStore F)
    → Stored P m
    → P id x.state
    → Stored P (insert id x m)
insert-Stored P id x m stored p k y found = elim (Bool-cases (id == k)) [
  | inl mine ↦
      let at : (if id == k then some x else get k m) ≡ some y = rw (get-insert id k x m) at found in
      let e : some x ≡ some y = rw mine at at in
      subst (λ (o : Uuid × GameState). P o.0 o.1) (cc ((nat_beq_iff id k).0 mine)) p
  | inr foreign ↦
      let at : (if id == k then some x else get k m) ≡ some y = rw (get-insert id k x m) at found in
      let e : get k m ≡ some y = rw foreign at at in stored k y e
]

-- A decision waits with a state that its session can come to.
abbrev pub Waits : {F : Type 0} → (Uuid → GameState → Type 0) → Uuid → Stage F → Type 0
Waits P id (decided prev to) = P id to
Waits P id _ = Unit

granted-Follows :
    (Seen : Uuid → GameState → Type 0) (id : Uuid) (from to : GameState)
    → Seen id from
    → Follows Seen id from
    → transition from to ≡ ok to
    → Follows Seen id to
granted-Follows Seen id from to seen follows granted = elim (transition-ok from to to granted).1 [
  | inl same ↦ subst (λ u. Follows Seen id u) same follows
  | inr edge ↦ inr (from, seen, edge)
]

module _ {F J T S : Type 0} ⦃f : F64 F⦄ ⦃j : Json J⦄ ⦃w : Serialize F J⦄
    ⦃r : ExperienceStore F J T S⦄ (Seen : Uuid → GameState → Type 0) where
  -- The states that a step leaves, if those before it count as seen.
  abbrev pub Kept : Uuid → AppState F J T S × Call F T → Type 0
  Kept id (s, c) = Stored (Follows Seen) s.session_repo × Waits (Follows Seen) id c.stage

  look-Kept :
      (c : Call F T) (s : AppState F J T S)
      → Stored (Follows Seen) s.session_repo
      → Kept c.id (advance_call called c s)
  look-Kept c s reach = elim (Option-cases (get c.id s.session_repo)) [
    | inl missing ↦ rw (look_missing c s missing) (reach, tt)
    | inr (x, found) ↦ rw (look_found c s x found) (reach, tt)
  ]

  decide-Kept :
      (prev : Session F) (c : Call F T) (s : AppState F J T S)
      → Stored Seen s.session_repo
      → Stored (Follows Seen) s.session_repo
      → Kept c.id (advance_call (looked prev) c s)
  decide-Kept prev c s seen reach =
      let to = next_state c.req.action.action_type in
      elim (Option-cases (get c.id s.session_repo)) [
        | inl missing ↦ rw (decide_missing c s prev missing) (reach, tt)
        | inr (x, found) ↦ elim (transition-cases x.state to) [
          | inl granted ↦ rw (decide_granted c s prev x found granted) (
            reach,
            granted-Follows Seen c.id x.state to (seen c.id x found) (reach c.id x found) granted,
          )
          | inr refused ↦ rw (decide_refused c s prev x found refused) (reach, tt)
        ]
      ]

  write-Kept :
      (prev : Session F) (to : GameState) (c : Call F T) (s : AppState F J T S)
      → Follows Seen c.id to
      → Stored (Follows Seen) s.session_repo
      → Kept c.id (advance_call (decided prev to) c s)
  write-Kept prev to c s wait reach = elim (Option-cases (get c.id s.session_repo)) [
    | inl missing ↦ rw (write_missing c s prev to missing) (reach, tt)
    | inr (x, found) ↦
        rw (write_found c s prev x to found) (
          insert-Stored (Follows Seen) c.id (record x { state = to }) s.session_repo reach wait,
          tt,
        )
  ]

  pub advance_call-Kept :
      (st : Stage F) (c : Call F T) (s : AppState F J T S)
      → Waits (Follows Seen) c.id st
      → Stored Seen s.session_repo
      → Stored (Follows Seen) s.session_repo
      → let c' : Call F T = record c { stage = st } in Kept c.id (step_call c' s)
  unfolding advance_call
  advance_call-Kept called c s wait seen reach = look-Kept (record c { stage = called }) s reach
  advance_call-Kept (looked prev) c s wait seen reach =
      decide-Kept prev (record c { stage = looked prev }) s seen reach
  advance_call-Kept (decided prev to) c s wait seen reach =
      write-Kept prev to (record c { stage = decided prev to }) s wait reach
  advance_call-Kept (moved prev x) c s wait seen reach = (reach, tt)
  advance_call-Kept (counted prev x) c s wait seen reach = (reach, tt)
  advance_call-Kept (logged prev x) c s wait seen reach = (reach, tt)
  advance_call-Kept (answered a) c s wait seen reach = (reach, tt)
