-- ===== src/Core/Value.antt =====
-- crates/borg-core/src/value.rs: what a cell holds, and the types that fields are declared with.
pub mod Types
use borg_core.Prelude.{ℕ, String, Bool, true, false, Option, none, some, ◌||◌, Eq, string_discrete}
use borg_core.Core.Pid.{PidKind, Pid, kind, PidKind-discrete}

-- An `i64`, by its sign: `neg n` is -(n + 1).
pub data Signed : Type 0 where
  pos neg : ℕ → Signed

-- `double` holds the bits of an `f64`; nothing here computes with them.
pub data Value : Type 0 where
  int : Signed → Value
  bool : Bool → Value
  double : ℕ → Value
  ref : Pid → Value
  tombstone : Value

abbrev pub as_ref_pid : Value → Option Pid
as_ref_pid (ref pid) = some pid
as_ref_pid _ = none

abbrev pub is_tombstone : Value → Bool
is_tombstone tombstone = true
is_tombstone _ = false

pub data ValueType : Type 0 where
  int bool double string binary big_int : ValueType
  object : String → ValueType
  list : ValueType → ValueType
  any any_object any_array any_number : ValueType

unfoldable pub PidKind-same : PidKind → PidKind → Bool
unfolding PidKind-discrete
PidKind-same a b = elim (PidKind-discrete a b) [ yes _ ↦ true | no _ ↦ false ]

-- Whether a value may be stored in a cell declared this type. A tombstone satisfies every type.
unfoldable pub accepts : ValueType → Value → Bool
unfolding PidKind-same
accepts _ tombstone = true
accepts any _ = true
accepts int (int n) = true
accepts bool (bool b) = true
accepts double (double bits) = true
accepts any_number (int n) = true
accepts any_number (double bits) = true
accepts string (ref pid) = PidKind-same (kind pid) PidKind.string
accepts binary (ref pid) = PidKind-same (kind pid) PidKind.binary
accepts big_int (ref pid) = PidKind-same (kind pid) PidKind.big_int
accepts any_number (ref pid) = PidKind-same (kind pid) PidKind.big_int
accepts (object name) (ref pid) =
    PidKind-same (kind pid) PidKind.object || PidKind-same (kind pid) PidKind.any_object
accepts any_object (ref pid) =
    PidKind-same (kind pid) PidKind.object || PidKind-same (kind pid) PidKind.any_object
accepts (list element) (ref pid) =
    PidKind-same (kind pid) PidKind.list || PidKind-same (kind pid) PidKind.any_array
accepts any_array (ref pid) =
    PidKind-same (kind pid) PidKind.list || PidKind-same (kind pid) PidKind.any_array
accepts _ _ = false

unfoldable pub ValueType-discrete : Discrete ValueType
ValueType-discrete = hlevel (string_discrete)

instance abbrev pub value_type_eq : Eq ValueType
value_type_eq = record { dec = ValueType-discrete }
