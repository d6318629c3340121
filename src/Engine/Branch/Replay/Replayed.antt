-- ===== src/Engine/Branch/Replay/Replayed.antt =====
-- What a merge carries across.
use borg_core.Prelude.{
  ◌≤◌, ◌≡◌, ◌↔◌, true, keep, List, [], ◌∷◌, In, In-keep, In-map, All, map, ap, refl, arith,
}
use borg_core.Core.Ids.{BranchId, LayerId}
use borg_core.Core.Layer.{
  Layer, LayerKind, MergeMode, def_only, def_and_data, def, source, is_source, layer_kind_eq,
}
use borg_core.Engine.Log.{Manager, layers_of, sort_by_id}
use borg_core.Engine.Log.State.Settled.{
  IsCommittedOn, In-layers_of, IsOrdered, In-sort_by_id, sort_by_id-In, sort_by_id-IsOrdered,
}
use borg_core.Engine.Log.State.Highest.{is_source_lem}
use borg_core.Engine.Branch.Replay.{carried_by, replayable_layers}

-- Under `DefOnly` a layer of definitions; else any.
abbrev pub IsCarried : MergeMode → LayerKind → Type 0
IsCarried def_only kind = kind ≡ def
IsCarried def_and_data kind = Unit

-- A committed source layer of the child that the mode carries.
pub record IsReplayed (m : Manager) (child : BranchId) (mode : MergeMode) (l : Layer) : Type 0 where
  pub on_child : IsCommittedOn m child l
  pub by_source : l.author ≡ source
  pub by_mode : IsCarried mode l.kind

carried_by-IsCarried :
    (mode : MergeMode) (l : Layer) → (carried_by mode l ≡ true) ↔ IsCarried mode l.kind
unfolding carried_by
carried_by-IsCarried def_only l = (λ h. ground (arith, h), λ h. ground (arith, h))
carried_by-IsCarried def_and_data l = (λ h. tt, λ h. refl)

-- Oldest first.
abbrev pub Ascends : List LayerId → Type 0
Ascends [] = Unit
Ascends (id ∷ ids) = All (λ (k : LayerId). id ≤ k) ids × Ascends ids

All-ids :
    (id : LayerId) (ls : List Layer)
    → All (λ (k : Layer). id ≤ k.id) ls
    → All (λ (k : LayerId). id ≤ k) (map (λ (k : Layer). k.id) ls)
All-ids id [] h = tt
All-ids id (l ∷ ls) h = (h.0, All-ids id ls h.1)

IsOrdered-Ascends : (ls : List Layer) → IsOrdered ls → Ascends (map (λ (k : Layer). k.id) ls)
unfolding IsOrdered
IsOrdered-Ascends [] h = tt
IsOrdered-Ascends (l ∷ ls) h = (All-ids l.id ls h.0, IsOrdered-Ascends ls h.1)

-- A merge carries exactly the committed source layers of the child, oldest first, and under
-- `DefOnly` only those of definitions among them: a derived layer is never replayed.
pub replayable_layers-IsReplayed :
    (m : Manager) (child : BranchId) (mode : MergeMode)
    → ((id : LayerId)
        → In id (replayable_layers m child mode)
          ↔ ((l : Layer) × IsReplayed m child mode l × (id ≡ l.id)))
      × Ascends (replayable_layers m child mode)
unfolding replayable_layers
replayable_layers-IsReplayed m child mode =
    let sources = keep (λ (l : Layer). is_source l.author) (layers_of m child) in
    let kept = keep (carried_by mode) sources in
    (
      λ id. (
        λ h.
            let (l, i, e) = (In-map (λ (l : Layer). l.id) (sort_by_id kept) id).0 h in
            let (j, by_mode) = (In-keep (carried_by mode) sources l).0 (In-sort_by_id l kept i) in
            let (k, by_source) =
              (In-keep (λ (x : Layer). is_source x.author) (layers_of m child) l).0 j in
            (
              l,
              record {
                on_child = (In-layers_of m child l).0 k;
                by_source = is_source_lem l.author by_source;
                by_mode = (carried_by-IsCarried mode l).0 by_mode;
              },
              e,
            ),
        λ (l, r, e).
            let j =
              (In-keep (λ (x : Layer). is_source x.author) (layers_of m child) l).1
                ((In-layers_of m child l).1 r.on_child, ap is_source r.by_source) in
            let i =
              (In-keep (carried_by mode) sources l).1
                (j, (carried_by-IsCarried mode l).1 r.by_mode) in
            (In-map (λ (x : Layer). x.id) (sort_by_id kept) id).1 (l, sort_by_id-In l kept i, e),
      ),
      IsOrdered-Ascends (sort_by_id kept) (sort_by_id-IsOrdered kept),
    )
