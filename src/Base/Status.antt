-- ===== src/Base/Status.antt =====
-- The return codes of the runtime (MICROBIT_OK, MICROBIT_INVALID_PARAMETER, ...; DEVICE_... are the
-- same numbers), and a call that returns a value or such a code.
use Prim.Native.Nat.{ℕ}

pub data Error : Type 0 where
  invalid_parameter not_supported no_resources no_data invalid_state : Error

pub data Result {ℓ} (A : Type ℓ) : Type ℓ where
  ok : A → Result A
  err : Error → Result A

-- An `int`: `negsuc n` is `-(n + 1)`.
pub data ℤ : Type 0 where
  pos : ℕ → ℤ
  negsuc : ℕ → ℤ
