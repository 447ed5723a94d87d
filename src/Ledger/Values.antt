-- ===== src/Ledger/Values.antt =====
-- The checks on values of services/task-ledger/src/ai_native_ledger/ledger.py.
use linux_ai_native_system.Prelude.{
  ℕ, Bool, false, not, ◌&&◌, ◌||◌, [], ◌∷◌, Text, all, any, length, ltb, nat_beq, if◌then◌else◌,
}
use linux_ai_native_system.Permission.Identifiers.{is_canonical_uuid}
use linux_ai_native_system.Ledger.Contracts.{
  Result, require, invalid_task_id, invalid_token, invalid_label, invalid_locator,
}

-- What the ledger takes from the host: Unicode's character classes, and Windows paths.
pub record Host : Type 0 where
  pub is_lower : ℕ → Bool
  pub is_digit : ℕ → Bool
  pub windows_absolute : Text → Bool
  pub windows_name : Text → Text
  pub posix_name : Text → Text

-- `_validate_uuid`
unfoldable pub validate_uuid : Text → Result (Unit {0})
validate_uuid value = require (is_canonical_uuid value) invalid_task_id

module _ (host : Host) where
  token_char : ℕ → Bool
  token_char c =
      host.is_lower c || host.is_digit c || nat_beq c b'.' || nat_beq c b'-' || nat_beq c b'_'

  -- `_validate_token`
  unfoldable pub validate_token : Text → Result (Unit {0})
  unfolding token_char
  validate_token value =
      require
        (not (nat_beq (length value) 0) && not (ltb 100 (length value)) && all token_char value)
        invalid_token

  posix_absolute : Text → Bool
  posix_absolute [] = false
  posix_absolute (c ∷ s) = nat_beq c b'/'

  -- `_validated_locator`, on a string
  unfoldable pub validate_locator : Text → Result (Unit {0})
  unfolding posix_absolute
  validate_locator value =
      require
        ((posix_absolute value || host.windows_absolute value)
          && not (nat_beq (length value) 0)
          && not (ltb 4096 (length value))
          && not (any (λ c. nat_beq c 0) value))
        invalid_locator

  -- `_locator_name`
  unfoldable pub locator_name : Text → Text
  locator_name locator =
      if host.windows_absolute locator then host.windows_name locator else host.posix_name locator

-- `_validate_label`
unfoldable pub validate_label : Text → Result (Unit {0})
validate_label value =
    require
      (not (nat_beq (length value) 0)
        && not (ltb 255 (length value))
        && not (any (λ c. ltb c 32) value))
      invalid_label
