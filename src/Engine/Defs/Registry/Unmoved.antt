-- ===== src/Engine/Defs/Registry/Unmoved.antt =====
-- That a push which is rejected leaves every view as it was.
use borg_core.Prelude.{
  ltb, nat_eq, unwrap_or, arith, ◌≡◌, Bool-cases, none, List, [], ◌∷◌, refl, ap, ◌∙◌, inl, inr,
}
use borg_core.Prelude.Map.{Map, get}
use borg_core.Core.Ids.{BranchId, LayerId}
use borg_core.Core.Def.{DefEvent}
use borg_core.Core.Layer.{LayerKind, LayerAuthor, ReadPath, def, source}
use borg_core.Core.Error.{Result, ok, err, BorgError, ◌>>=◌}
use borg_core.Engine.Log.{
  Manager, Managed, LayerHandle, def_layers_of, read_path, open_handle, abort_layer, transition,
  ◌then_do◌,
}
use borg_core.Engine.Defs.{DefView, default_view}
use borg_core.Engine.Defs.Fold.{apply_all}
use borg_core.Engine.Defs.Registry.{
  along, def_layers, fold_layers, view_at, view, push_defs, push_onto, landed_or_rejected,
}
use borg_core.Storage.Memory.State.{Inner}
use borg_core.Storage.Memory.OpenLayer.{abort}
use borg_core.Storage.Memory.Provider.{open_layer, read_def_layer, sort_ids}

-- The two managers agree on all that a view is folded from.
abbrev pub SameDefs : Manager → Manager → Type 0
SameDefs m n = (n.def_layers ≡ m.def_layers) × (n.store.def_contents ≡ m.store.def_contents)

along-SameDefs :
    (m n : Manager) (segments : List (BranchId × LayerId))
    → SameDefs m n
    → along n segments ≡ along m segments
unfolding along def_layers_of
along-SameDefs m n [] same = refl
along-SameDefs m n ((branch, bound) ∷ segments) same =
    rw (same.0) (rw (along-SameDefs m n segments same) refl)

next_same :
    (r : Result DefView) (f g : DefView → Result DefView)
    → ((next : DefView) → f next ≡ g next)
    → (r >>= f) ≡ (r >>= g)
next_same (ok next) f g same = same next
next_same (err e) f g same = refl

fold_layers-same :
    (a b : Inner) (ceiling : LayerId) (layers : List LayerId) (now : DefView)
    → b.def_contents ≡ a.def_contents
    → fold_layers b ceiling layers now ≡ fold_layers a ceiling layers now
unfolding fold_layers read_def_layer
fold_layers-same a b ceiling [] now same = refl
fold_layers-same a b ceiling (l ∷ layers) now same = elim (Bool-cases (ltb ceiling l)) [
  | inl past ↦ rw (fold_layers, past) refl
  | inr here ↦
      let read : read_def_layer b l ≡ read_def_layer a l =
        ap (λ (c : Map LayerId (List DefEvent)). unwrap_or (get c l) []) same in
      rw (fold_layers, here)
        (rw read (
          next_same (apply_all now (read_def_layer a l) l)
            (λ next. fold_layers b ceiling layers next) (λ next. fold_layers a ceiling layers next)
            (λ next. fold_layers-same a b ceiling layers next same)))
]

-- So every view is the same.
pub view_at-SameDefs :
    (m n : Manager) (path : ReadPath) (ceiling : LayerId)
    → SameDefs m n
    → view_at n path ceiling ≡ view_at m path ceiling
unfolding view_at def_layers
view_at-SameDefs m n path ceiling same = rw (along-SameDefs m n path.segments same) (
    fold_layers-same m.store n.store ceiling (sort_ids (along m path.segments)) default_view same.1)

open_handle-SameDefs :
    (m : Manager) (branch : BranchId) (kind : LayerKind) (author : LayerAuthor)
    → SameDefs m (open_handle m branch kind author).1
unfolding open_handle open_layer
open_handle-SameDefs m branch kind author = ground arith

abort_layer-SameDefs : (m : Manager) (handle : LayerHandle) → SameDefs m (abort_layer m handle).1
unfolding abort_layer abort transition
abort_layer-SameDefs m handle = ground arith

-- An error, with all definitions as they were.
abbrev IsRejected : Manager → Managed LayerId → Type 0
IsRejected m r = ((failure : BorgError) × (r.0 ≡ err failure)) × SameDefs m r.1

aborted_with :
    (m : Manager) (r : Managed Unit) (rejection : BorgError)
    → SameDefs m r.1
    → IsRejected m (r then_do λ _ m1. (err rejection, m1))
aborted_with m (ok done, m1) rejection same = ((rejection, refl), same)
aborted_with m (err e, m1) rejection same = ((e, refl), same)

landed_or_rejected-err :
    (m : Manager) (handle : LayerHandle) (events : List DefEvent) (rejection : BorgError)
    → IsRejected m (landed_or_rejected m handle events (err rejection))
unfolding landed_or_rejected
landed_or_rejected-err m handle events rejection =
    aborted_with m (abort_layer m handle) rejection (abort_layer-SameDefs m handle)

open_handle-id :
    (m : Manager) (branch : BranchId) (kind : LayerKind) (author : LayerAuthor)
    (handle : LayerHandle)
    → (open_handle m branch kind author).0 ≡ ok handle
    → handle.id ≡ m.next_layer
unfolding open_handle open_layer
open_handle-id m branch kind author handle e = ground (arith, e)

pushed_after :
    (m : Manager) (r : Managed LayerHandle) (events : List DefEvent) (now : DefView)
    (rejection : BorgError)
    → SameDefs m r.1
    → ((handle : LayerHandle) → r.0 ≡ ok handle → handle.id ≡ m.next_layer)
    → apply_all now events m.next_layer ≡ err rejection
    → IsRejected m (
        r then_do λ handle m1. landed_or_rejected m1 handle events (apply_all now events handle.id))
pushed_after m (err e, m1) events now rejection same named fails = ((e, refl), same)
pushed_after m (ok handle, m1) events now rejection same named fails =
    let e : apply_all now events handle.id ≡ err rejection = rw (named handle refl) fails in
    let (why, kept) = landed_or_rejected-err m1 handle events rejection in
    rw e (why, (kept.0 ∙ same.0, kept.1 ∙ same.1))

-- A push that the current definitions reject returns an error, and every view of every path at
-- every version is what it was.
pub push_defs-rejected :
    (m : Manager) (branch : BranchId) (events : List DefEvent) (path : ReadPath) (now : DefView)
    (rejection : BorgError)
    → read_path m branch none ≡ ok path
    → view m path ≡ ok now
    → apply_all now events m.next_layer ≡ err rejection
    → ((failure : BorgError) × ((push_defs m branch events).0 ≡ err failure))
      × ((seen : ReadPath) (ceiling : LayerId)
          → view_at (push_defs m branch events).1 seen ceiling ≡ view_at m seen ceiling)
unfolding push_defs push_onto
push_defs-rejected m branch events path now rejection p v e =
    let current : (read_path m branch none >>= λ q. view m q) ≡ ok now = rw p v in
    let (why, same) =
      pushed_after m (open_handle m branch def source) events now rejection
        (open_handle-SameDefs m branch def source) (open_handle-id m branch def source) e in
    rw current (why, λ seen ceiling. view_at-SameDefs m _ seen ceiling same)
