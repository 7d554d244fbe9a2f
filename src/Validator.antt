-- ===== src/Validator.antt =====
-- storage-node/internal/validation/validator.go: the checks of tenant IDs, keys, values and clocks.
-- The runes of a string and the control characters among them are those of Go, and parameters.
use pair_db.Prelude.{
  String, ℕ, ◌+◌, ◌*◌, ◌/◌, Option, none, some, Bool, false, ltb, ◌==◌, ◌&&◌, ◌||◌, not,
  if◌then◌else◌, List, [], ◌∷◌, length,
}
use pair_db.Bytes.{Bytes, bytes_eq}
use pair_db.Int64.{zero64}
use pair_db.VectorClock.{VectorClock, VectorClockEntry}

pub data ValidationError : Type 0 where
  invalid_tenant_id : ValidationError
  invalid_key : ValidationError
  key_too_large : ℕ → ℕ → ValidationError
  value_too_large : ℕ → ℕ → ValidationError
  invalid_argument : ValidationError

pub record Validator : Type 0 where
  pub max_key_size : ℕ
  pub max_value_size : ℕ
  pub max_tenant_id_size : ℕ

abbrev pub new_validator : Validator
new_validator = record {
  max_key_size = 1024;
  max_value_size = 10 * 1024 * 1024;
  max_tenant_id_size = 256;
}

-- `range` over a string, unicode.IsControl, and the bytes of a text in UTF-8.
pub record Unicode : Type 0 where
  pub runes : Bytes → List ℕ
  pub is_control : ℕ → Bool
  pub encode : String → Bytes

-- strings.Contains(s, c), for a text of one byte
abbrev pub contains : ℕ → Bytes → Bool
contains c [] = false
contains c (x ∷ s) = x == c || contains c s

-- `if err := …; err != nil { return err }`, and then `next`
abbrev pub or_else : Option ValidationError → Option ValidationError → Option ValidationError
or_else none next = next
or_else (some e) next = some e

abbrev any : (ℕ → Bool) → List ℕ → Bool
any p [] = false
any p (x ∷ xs) = p x || any p xs

abbrev pub max_vector_clock_entries : ℕ
max_vector_clock_entries = 1000

abbrev pub max_coordinator_node_id_size : ℕ
max_coordinator_node_id_size = 128

-- An empty value stands for nil as well, which is accepted too.
unfoldable pub validate_value : Validator → Bytes → Option ValidationError
validate_value v value =
    if ltb v.max_value_size (length value)
    then some (value_too_large (length value) v.max_value_size)
    else none

module _ (U : Unicode) where
  unfoldable pub validate_tenant_id : Validator → Bytes → Option ValidationError
  validate_tenant_id v tenant_id =
      if bytes_eq tenant_id []
      then some invalid_tenant_id
      else if ltb v.max_tenant_id_size (length tenant_id)
      then some invalid_tenant_id
      else if contains b':' tenant_id
      then some invalid_tenant_id
      else if any U.is_control (U.runes tenant_id)
      then some invalid_tenant_id
      else if contains 0 tenant_id
      then some invalid_tenant_id
      else none

  unfoldable pub validate_key : Validator → Bytes → Option ValidationError
  validate_key v key =
      if bytes_eq key []
      then some invalid_key
      else if ltb v.max_key_size (length key)
      then some (key_too_large (length key) v.max_key_size)
      else if any (λ r. U.is_control r && (not (r == 9) && not (r == 10))) (U.runes key)
      then some invalid_key
      else if contains 0 key
      then some invalid_key
      else none

  unfoldable pub validate_entry : VectorClockEntry → Option ValidationError
  validate_entry e =
      let id = U.encode e.coordinator_node_id in
      if bytes_eq id []
      then some invalid_argument
      else if ltb max_coordinator_node_id_size (length id)
      then some invalid_argument
      else if contains 0 id
      then some invalid_argument
      else if ltb e.logical_timestamp zero64
      then some invalid_argument
      else none

  unfoldable pub validate_entries : List VectorClockEntry → Option ValidationError
  validate_entries [] = none
  validate_entries (e ∷ es) = or_else (validate_entry e) (validate_entries es)

  unfoldable pub validate_vector_clock : VectorClock → Option ValidationError
  validate_vector_clock vc =
      if ltb max_vector_clock_entries (length vc.entries)
      then some invalid_argument
      else validate_entries vc.entries

  unfoldable pub validate_write :
      Validator → Bytes → Bytes → Bytes → VectorClock → Option ValidationError
  validate_write v tenant_id key value vc =
      or_else (validate_tenant_id v tenant_id)
        (or_else (validate_key v key) (or_else (validate_value v value) (validate_vector_clock vc)))

unfoldable pub estimate_write_size : Bytes → Bytes → Bytes → ℕ
estimate_write_size tenant_id key value =
    let total =
      (length tenant_id + length key + length value + 200)
      + (length tenant_id + length key + length value + 100)
      + (length tenant_id + length key + length value + 50) in
    total + total / 5
