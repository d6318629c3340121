-- ===== src/Core/Content.antt =====
-- crates/borg-core/src/content.rs: content addresses, over a hash that the `sha2` crate computes.
use borg_core.Prelude.{ℕ, List, if◌then◌else◌}
use borg_core.Core.Pid.{PidKind, Pid, allocated, content, is_content_addressed}
use borg_core.Core.Error.{Result, ok, err, not_content_addressed}

module _ (hash : List ℕ → List ℕ) where
  unfoldable pub pid : PidKind → List ℕ → Result Pid
  pid kind bytes =
      if is_content_addressed kind
      then ok (content kind (hash bytes))
      else err (not_content_addressed kind)

unfoldable pub hash_of : Pid → Result (List ℕ)
hash_of (content kind hash) = ok hash
hash_of (allocated kind branch allocator counter) = err (not_content_addressed kind)
