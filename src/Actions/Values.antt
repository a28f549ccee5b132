-- ===== src/Actions/Values.antt =====
-- JSON values, as payloads, envelopes and configurations hold them.
use hosting_service.Base.{ℕ, Bool, Option, none, some, Text, text_eq, if◌then◌else◌}

-- Integers over the native numbers: `negsuc n` is -(n + 1).
pub data ℤ : Type 0 where
  pos : ℕ → ℤ
  negsuc : ℕ → ℤ

-- A number that is no integer is kept as its literal.
mutual
  pub data Value : Type 0 where
    null : Value
    boolean : Bool → Value
    integer : ℤ → Value
    real : Text → Value
    string : Text → Value
    array : Items → Value
    object : Fields → Value

  pub data Items : Type 0 where
    nil : Items
    cons : Value → Items → Items

  pub data Fields : Type 0 where
    end : Fields
    field : Text → Value → Fields → Fields

abbrev pub or_found : Value → Option Value → Option Value
or_found v none = some v
or_found v (some w) = some w

-- `d.get(key)`: a later field of the same name replaces an earlier one.
unfoldable pub get_field : Text → Fields → Option Value
get_field key end = none
get_field key (field k v fs) =
    let later = get_field key fs in if text_eq k key then or_found v later else later

abbrev pub join_fields : Fields → Fields → Fields
join_fields end gs = gs
join_fields (field k v fs) gs = field k v (join_fields fs gs)
