-- ===== src/Fingerprinter.antt =====
-- controller/src/fingerprinter/store.rs: the fingerprint store.
pub mod Extraction
use pokemon_rs.Prelude.{Option, Text, nat_eq}
use pokemon_rs.Prelude.Map.{HashMap}
use pokemon_rs.Prelude.Map
use pokemon_rs.Api.{Uuid}

pub record GameFingerprint (J : Type 0) : Type 0 where
  pub game_id : Uuid
  pub rng_signature : Text
  pub symbol_map : J
  pub statistical_profile : J

-- `trait FingerprintStore`, over the state `S` behind the shared reference. The store in memory
-- fails on a poisoned lock only, which does not occur.
pub record FingerprintStore (J S : Type 0) : Type 0 where
  pub get : Uuid → S → Option (GameFingerprint J)
  pub save : GameFingerprint J → S → S

abbrev pub InMemoryFingerprintStore : Type 0 → Type 0
InMemoryFingerprintStore J = HashMap Uuid (GameFingerprint J)

module _ {J : Type 0} where
  -- `FingerprintStore::get` and `FingerprintStore::save`
  unfoldable pub fingerprint_get : Uuid → InMemoryFingerprintStore J → Option (GameFingerprint J)
  fingerprint_get game_id m = Map.get game_id m

  unfoldable pub save : GameFingerprint J → InMemoryFingerprintStore J → InMemoryFingerprintStore J
  save fp m = Map.insert fp.game_id fp m

  -- `impl FingerprintStore for InMemoryFingerprintStore`
  abbrev pub in_memory_fingerprint_store : FingerprintStore J (InMemoryFingerprintStore J)
  in_memory_fingerprint_store = record { get = fingerprint_get; save = save }
