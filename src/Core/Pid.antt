-- ===== src/Core/Pid.antt =====
-- crates/borg-core/src/pid.rs: point ids and the kinds that they carry.
use borg_core.Prelude.{ℕ, Bool, true, false, not, List, Eq, ℕ_discrete}
use borg_core.Core.Ids.{BranchId, AllocatorId}

pub data PidKind : Type 0 where
  object list any any_object any_array any_number string binary big_int : PidKind

-- `(self as u8) >= 64`: the three kinds whose discriminants are 64, 65 and 66.
abbrev pub is_content_addressed : PidKind → Bool
is_content_addressed string = true
is_content_addressed binary = true
is_content_addressed big_int = true
is_content_addressed _ = false

abbrev pub is_mutable : PidKind → Bool
is_mutable kind = not (is_content_addressed kind)

-- `content` holds the 32 bytes of a hash.
pub data Pid : Type 0 where
  allocated : PidKind → BranchId → AllocatorId → ℕ → Pid
  content : PidKind → List ℕ → Pid

abbrev pub kind : Pid → PidKind
kind (allocated k branch allocator counter) = k
kind (content k hash) = k

unfoldable pub PidKind-discrete : Discrete PidKind
PidKind-discrete = hlevel

unfoldable pub Pid-discrete : Discrete Pid
Pid-discrete = hlevel (ℕ_discrete, PidKind-discrete)

instance abbrev pub pid_eq : Eq Pid
pid_eq = record { dec = Pid-discrete }
