-- ===== src/Wire/MessagePack.antt =====
-- The MessagePack library (`rmp_serde`) as crates/gylo-core/src/protocol.rs calls it, through
-- `pack` and `unpack`. It is not part of the repository: its four pairs of functions are fields.
use gylo.Prelude.{◌≡◌, List}
use gylo.Prelude.Int.{ℤ}
use gylo.Prelude.Results.{Result, ok, map_err}
use gylo.Wire.Words.{Bytes}
use gylo.Wire.Message.{CronRegistration, WireStep, WireRecord, ProtocolError, malformed}

-- An error is its rendered text.
pub record MessagePack : Type 0 where
  pub entries_to_vec : List CronRegistration → Result Bytes Bytes
  pub entries_from_slice : Bytes → Result Bytes (List CronRegistration)
  pub steps_to_vec : ℤ × List WireStep → Result Bytes Bytes
  pub steps_from_slice : Bytes → Result Bytes (ℤ × List WireStep)
  pub record_to_vec : WireRecord → Result Bytes Bytes
  pub record_from_slice : Bytes → Result Bytes WireRecord
  pub stored_to_vec : ℤ × Bytes → Result Bytes Bytes
  pub stored_from_slice : Bytes → Result Bytes (ℤ × Bytes)

-- What the program relies on: a value that was serialised is read back as it was.
pub record IsLossless (mp : MessagePack) : Type 0 where
  pub entries :
      (v : List CronRegistration) {b : Bytes}
      → mp.entries_to_vec v ≡ ok b
      → mp.entries_from_slice b ≡ ok v
  pub steps :
      (v : ℤ × List WireStep) {b : Bytes} → mp.steps_to_vec v ≡ ok b → mp.steps_from_slice b ≡ ok v
  pub step :
      (v : WireRecord) {b : Bytes} → mp.record_to_vec v ≡ ok b → mp.record_from_slice b ≡ ok v
  pub stored :
      (v : ℤ × Bytes) {b : Bytes} → mp.stored_to_vec v ≡ ok b → mp.stored_from_slice b ≡ ok v

-- `pack` and `unpack` only rename the library's error.
abbrev pub pack : Result Bytes Bytes → Result ProtocolError Bytes
pack = map_err malformed

abbrev pub unpack {ℓ} : {A : Type ℓ} → Result Bytes A → Result ProtocolError A
unpack = map_err malformed
