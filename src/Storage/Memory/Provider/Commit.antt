-- ===== src/Storage/Memory/Provider/Commit.antt =====
-- memory.rs: the half of the provider that changes the store.
use borg_core.Prelude.{ℕ, Bool, true, false, Option, none, some, List, [], ◌∷◌, map, nat_eq, leb}
use borg_core.Prelude.{if◌then◌else◌, ◌||◌}
use borg_core.Prelude.Map.{Map, get, insert, remove}
use borg_core.Core.Ids.{BranchId, LayerId, EventId}
use borg_core.Core.Cell.{Event}
use borg_core.Core.Layer.{Layer, Branch}
use borg_core.Core.Pid.{Pid, PidKind, pid_eq}
use borg_core.Core.Content
use borg_core.Core.Error.{
  Result, ok, err, storage, layer_exists, layer_not_staged, layer_not_sealed, panicked, ◌>>=◌,
}
use borg_core.Storage.Memory.Index.{ReadIndex, index}
use borg_core.Storage.Memory.State.{Inner, Membership, StagedLayer, event_of, store}
use borg_core.Storage.Memory.OpenLayer.{Outcome}

abbrev pub is_some : {A : Type 0} → Option A → Bool
is_some none = false
is_some (some a) = true

unfoldable pub open_layer : Inner → BranchId → LayerId → Outcome LayerId
open_layer inner branch id =
    if is_some (get inner.staged id) || is_some (get inner.members id)
    then (err (storage (layer_exists id)), inner)
    else (
      ok id,
      record inner {
        staged =
            insert inner.staged id
              (record { branch = branch; members = []; authored = []; defs = []; sealed = false });
      },
    )

unfoldable pub put_layer_meta : Inner → Layer → Inner
put_layer_meta inner layer = record inner { layer_meta = insert inner.layer_meta layer.id layer }

unfoldable pub put_branch : Inner → Branch → Inner
put_branch inner branch = record inner { branches = insert inner.branches branch.id branch }

-- `entry(pid).or_insert_with(..)`: an occupied entry stays.
intern_entry : Inner → Pid → List ℕ → Option (List ℕ) → Inner
intern_entry inner pid bytes none = record inner { interned = insert inner.interned pid bytes }
intern_entry inner pid bytes (some old) = inner

interned_as : Inner → List ℕ → Result Pid → Outcome Pid
interned_as inner bytes (err e) = (err e, inner)
interned_as inner bytes (ok pid) = (ok pid, intern_entry inner pid bytes (get inner.interned pid))

-- The hash function is the `sha2` crate's: a parameter.
module _ (hash : List ℕ → List ℕ) where
  unfoldable pub intern : Inner → PidKind → List ℕ → Outcome Pid
  unfolding interned_as intern_entry
  intern inner kind bytes = interned_as inner bytes (Content.pid hash kind bytes)

unfoldable pub read_interned : Inner → Pid → Result (Option (List ℕ))
read_interned inner pid = Content.hash_of pid >>= λ _. ok (get inner.interned pid)

-- `for event in staged.authored { inner.store(event) }`
unfoldable pub store_all : List (Option Event) → List Event → Result (List (Option Event))
store_all events [] = ok events
store_all events (e ∷ es) = store events e >>= λ events'. store_all events' es

-- What a loop over members leaves: whether one was unknown, and the index as far as it got.
abbrev pub Indexed : Type 0
Indexed = Result (Unit {0}) × ReadIndex

abbrev pub then_index : Indexed → (ReadIndex → Indexed) → Indexed
then_index (ok u, reads) f = f reads
then_index (err e, reads) f = (err e, reads)

-- The loop over the members: the index of each in turn, up to one that is unknown.
unfoldable pub index_all :
    List (Option Event) → ReadIndex → BranchId → LayerId → List EventId → Indexed
index_all events reads branch layer [] = (ok tt, reads)
index_all events reads branch layer (id ∷ ids) = elim (event_of events id) [
  | err e ↦ (err e, reads)
  | ok event ↦ index_all events (index reads branch layer event) branch layer ids
]

-- The end of `commit_layer`: membership and def events, once every member is indexed.
finish_commit : Inner → StagedLayer → LayerId → Indexed → Outcome Unit
finish_commit inner s layer (err e, reads) = (err e, record inner { reads = reads })
finish_commit inner s layer (ok u, reads) = (
  ok tt,
  record inner {
    reads = reads;
    members = insert inner.members layer (record { branch = s.branch; events = s.members });
    def_contents = insert inner.def_contents layer s.defs;
  },
)

index_stored : Inner → StagedLayer → LayerId → Result (List (Option Event)) → Outcome Unit
unfolding finish_commit
index_stored inner s layer (err e) = (err e, inner)
index_stored inner s layer (ok events) =
    finish_commit (record inner { events = events }) s layer
      (index_all events inner.reads s.branch layer s.members)

commit_staged : Inner → LayerId → Option StagedLayer → Outcome Unit
unfolding index_stored
commit_staged inner layer none = (err (storage (layer_not_staged layer)), inner)
commit_staged inner layer (some s) =
    let taken = record inner { staged = remove inner.staged layer } in
    if s.sealed
    then index_stored taken s layer (store_all taken.events s.authored)
    else (err (storage (layer_not_sealed layer)), taken)

-- Make a sealed layer visible.
unfoldable pub commit_layer : Inner → LayerId → Outcome Unit
unfolding commit_staged
commit_layer inner layer = commit_staged inner layer (get inner.staged layer)

-- `sort_by_key` on ids, which is stable.
unfoldable pub insert_sorted : LayerId → List LayerId → List LayerId
insert_sorted l [] = l ∷ []
insert_sorted l (k ∷ ks) = let rest = insert_sorted l ks in if leb l k then l ∷ k ∷ ks else k ∷ rest

unfoldable pub sort_ids : List LayerId → List LayerId
sort_ids [] = []
sort_ids (l ∷ ls) = insert_sorted l (sort_ids ls)

-- The loop of `rebuild_read_index` over the committed layers.
unfoldable pub replay_layers :
    List (Option Event) → Map LayerId Membership → ReadIndex → List LayerId → Indexed
replay_layers events members reads [] = (ok tt, reads)
replay_layers events members reads (layer ∷ layers) = elim (get members layer) [
  | none ↦ (err panicked, reads)
  | some m ↦
      then_index (index_all events reads m.branch layer m.events)
        (λ reads'. replay_layers events members reads' layers)
]

unfoldable pub rebuild_read_index : Inner → Outcome Unit
rebuild_read_index inner =
    let (r, reads) =
      replay_layers inner.events inner.members [] (sort_ids (map (λ e. e.0) inner.members)) in
    (r, record inner { reads = reads })
