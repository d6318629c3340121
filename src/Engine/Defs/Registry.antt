-- ===== src/Engine/Defs/Registry.antt =====
-- defs.rs: `DefRegistry`, which folds the def layers of a read path, and pushes new ones.
pub mod Unmoved
pub mod Views
use borg_core.Prelude.{
  ℕ, Bool, true, false, Option, none, some, List, [], ◌∷◌, ◌++◌, ◌-◌, ◌^◌, if◌then◌else◌, ltb,
  nat_eq, push, unwrap_or, contains,
}
use borg_core.Core.Ids.{BranchId, LayerId}
use borg_core.Core.Def.{DefEvent}
use borg_core.Core.Layer.{ReadPath, LayerAuthor}
use borg_core.Core.Layer.{def, source}
use borg_core.Core.Error.{Result, ok, err, BorgError, ◌>>=◌}
use borg_core.Engine.Log.{
  Manager, Managed, LayerHandle, def_layers_of, read_path, open_handle, abort_layer, commit,
  ◌then_do◌,
}
use borg_core.Engine.Branch.Replay.{put_defs}
use borg_core.Engine.Defs.{DefView, default_view}
use borg_core.Engine.Defs.Fold.{apply_all}
use borg_core.Storage.Memory.State.{Inner}
use borg_core.Storage.Memory.Provider.{sort_ids, read_def_layer}

-- Which client versions have registered clients; the manager is passed along.
abbrev pub LiveVersions : Type 0
LiveVersions = List LayerId

unfoldable pub mark_live : LiveVersions → LayerId → LiveVersions
mark_live live version = if contains live version then live else push live version

along : Manager → List (BranchId × LayerId) → List LayerId
along m [] = []
along m ((branch, bound) ∷ segments) = def_layers_of m branch bound ++ along m segments

-- The def layers along a path, oldest first.
unfoldable pub def_layers : Manager → ReadPath → List LayerId
unfolding along
def_layers m path = sort_ids (along m path.segments)

last_or : LayerId → List LayerId → LayerId
last_or l [] = l
last_or l (next ∷ layers) = last_or next layers

-- `last().copied().unwrap_or(LayerId(0))`.
unfoldable pub def_head : Manager → ReadPath → LayerId
unfolding last_or
def_head m path = last_or 0 (def_layers m path)

-- The loop of `view_at`, which stops at the first layer above the ceiling.
unfoldable pub fold_layers : Inner → LayerId → List LayerId → DefView → Result DefView
fold_layers store ceiling [] view = ok view
fold_layers store ceiling (l ∷ layers) view = elim (ltb ceiling l) [
  | true ↦ ok view
  | false ↦
      apply_all view (read_def_layer store l) l >>= λ next. fold_layers store ceiling layers next
]

unfoldable pub view_at : Manager → ReadPath → LayerId → Result DefView
view_at m path ceiling = fold_layers m.store ceiling (def_layers m path) default_view

abbrev pub u64_max : ℕ
u64_max = 2 ^ 64 - 1

abbrev pub view : Manager → ReadPath → Result DefView
view m path = view_at m path u64_max

-- The events are folded before any of them is written. A rejection aborts the layer.
landed_or_rejected : Manager → LayerHandle → List DefEvent → Result DefView → Managed LayerId
landed_or_rejected m handle events (err rejection) =
    abort_layer m handle then_do λ _ m1. (err rejection, m1)
landed_or_rejected m handle events (ok folded) =
    put_defs m handle events then_do λ _ m1. commit m1 handle

push_onto : Manager → BranchId → List DefEvent → Result DefView → Managed LayerId
unfolding landed_or_rejected
push_onto m branch events (err e) = (err e, m)
push_onto m branch events (ok now) = open_handle m branch def source then_do λ handle m1.
    landed_or_rejected m1 handle events (apply_all now events handle.id)

-- `DefRegistry::push`.
unfoldable pub push_defs : Manager → BranchId → List DefEvent → Managed LayerId
unfolding push_onto
push_defs m branch events =
    push_onto m branch events (read_path m branch none >>= λ path. view m path)
