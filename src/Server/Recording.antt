-- ===== src/Server/Recording.antt =====
-- What an accepted action leaves behind (cli/src/server.rs: `play_action_handler`), over any store
-- of experiences that keeps its contract, also one whose insertions fail.
use mathlib.Mathlib.Data.Multiset.Defs.{Multiset}
use mathlib.Mathlib.Data.Multiset.ZeroCons.{cons}
use pokemon_rs.Prelude.{◌+◌, ◌%◌, ◌^◌, ◌≡◌, ◌⊎◌, Option, if◌then◌else◌, ◌==◌, err, nat_eq}
use pokemon_rs.StateEngine.{GameState, playing, evaluating, completed}
use pokemon_rs.Metrics
use pokemon_rs.Metrics.{SessionMetrics}
use pokemon_rs.Float.{F64}
use pokemon_rs.Json.{Json, Serialize, DateTime}
use pokemon_rs.Api.{Uuid, GameplayActionType, place_bet, spin, cash_out}
use pokemon_rs.Events
use pokemon_rs.Rl.Store
use pokemon_rs.Rl.Store.{Experience, StoreError, ExperienceStore}
use pokemon_rs.Rl.Store.Contract.{stamped}
use pokemon_rs.AppState.{AppState}

-- The state that an action leads to: a bet begins the play, a spin its evaluation, and a cash-out
-- ends the session.
pub data LeadsTo : GameplayActionType → GameState → Type 0 where
  bets : LeadsTo place_bet playing
  spins : LeadsTo spin evaluating
  cashes_out : LeadsTo cash_out completed

-- The lifecycle counters after a session has come to a state, 64 bits wide.
abbrev pub counters_after : GameState → SessionMetrics → SessionMetrics
counters_after playing m = record m { sessions_playing = (m.sessions_playing + 1) % 2 ^ 64 }
counters_after completed m = record m { sessions_completed = (m.sessions_completed + 1) % 2 ^ 64 }
counters_after _ m = m

module _ {F J T S : Type 0} ⦃f : F64 F⦄ ⦃j : Json J⦄ ⦃w : Serialize F J⦄ ⦃d : DateTime T⦄
    ⦃r : ExperienceStore F J T S⦄ (view : S → Uuid → Multiset (Experience F J T)) where
  -- What a store holds after it was given an experience: it took it, under a time of its own, or it
  -- failed and holds what it held.
  abbrev pub Given : Experience F J T → S → S → Type 0
  Given e s s' =
      ((t : Option T) × ((k : Uuid)
          → view s' k ≡ (if e.session_id == k then cons (stamped t e) (view s k) else view s k)))
      ⊎ ((x : StoreError) × ((r.insert_experience e s).1 ≡ err x)
          × ((k : Uuid) → view s' k ≡ view s k))
