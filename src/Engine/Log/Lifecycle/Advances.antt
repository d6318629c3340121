-- ===== src/Engine/Log/Lifecycle/Advances.antt =====
-- What a commit may change: heads only move forward, and no other layer is touched.
use borg_core.Prelude.{◌≤◌, ◌≡◌, inl, inr, ◌≢◌, Option, none, some, List, arith}
use borg_core.Prelude.{refl, sym, ◌∙◌, subst, same, ◌≟◌, Bool-cases, Option-cases, nat_eq}
use borg_core.Prelude.Map.{get, insert, get-insert_self, get-insert_ne}
use borg_core.Core.Ids.{BranchId, LayerId}
use borg_core.Core.Cell.{Event}
use borg_core.Core.Layer.{Layer, LayerState, layer_state_eq, layer_kind_eq}
use borg_core.Core.Layer.{open', sealed, committed, aborted, def}
use borg_core.Core.Error.{Result, ok, err}
use borg_core.Engine.Log.State.{Manager, raised, raise_head, note_def}
use borg_core.Engine.Log.Guarding.{check_guards}
use borg_core.Engine.Log.Lifecycle.{
  Managed, LayerHandle, in_store, transition, commit, guarded, ◌then_do◌, publish, land, project,
  fold_layer, store_guards,
}
use borg_core.Storage.Memory.OpenLayer.{Outcome, seal, abort}
use borg_core.Storage.Memory.Provider.{put_layer_meta, commit_layer}

-- A branch that has a head has one that is no lower, and every layer but `id` is as it was.
pub record Advances (id : LayerId) (m m' : Manager) : Type 0 where
  pub heads :
      (b : BranchId) (h : LayerId)
      → get m.heads b ≡ some h
      → (h' : LayerId) × (get m'.heads b ≡ some h') × (h ≤ h')
  pub others : (k : LayerId) → id ≢ k → get m'.layers k ≡ get m.layers k

Advances-refl : (id : LayerId) (m : Manager) → Advances id m m
Advances-refl id m = record { heads = λ b h e. (h, e, omega arith); others = λ k n. refl }

Advances-trans :
    {id : LayerId} {m m1 m2 : Manager} → Advances id m m1 → Advances id m1 m2 → Advances id m m2
Advances-trans p q = record {
  heads = λ b h e.
      let (h1, e1, le1) = p.heads b h e in
      let (h2, e2, le2) = q.heads b h1 e1 in (h2, e2, omega (arith, le1, le2));
  others = λ k n. q.others k n ∙ p.others k n;
}

then_do-Advances :
    {A B : Type 0} {id : LayerId} (m : Manager) (r : Managed A) (f : A → Manager → Managed B)
    → Advances id m r.1
    → ((a : A) (m1 : Manager) → Advances id m1 (f a m1).1)
    → Advances id m (r then_do f).1
then_do-Advances m (ok a, m1) f p q = Advances-trans p (q a m1)
then_do-Advances m (err e, m1) f p q = p

in_store-Advances :
    {A : Type 0} (id : LayerId) (m : Manager) (o : Outcome A) → Advances id m (in_store m o).1
in_store-Advances id m (r, store) = record {
  heads = λ b h e. (h, e, omega arith);
  others = λ k n. refl;
}

insert_layer-Advances :
    (id : LayerId) (m : Manager) (l : Layer)
    → Advances id m (record m { layers = insert m.layers id l })
insert_layer-Advances id m l = record {
  heads = λ b h e. (h, e, omega arith);
  others = λ k n. get-insert_ne m.layers id k l n;
}

transition-Advances :
    (m : Manager) (id : LayerId) (expected next : LayerState)
    → Advances id m (transition m id expected next).1
unfolding transition
transition-Advances m id expected next = elim (Option-cases (get m.layers id)) [
  | inl e ↦ rw e (Advances-refl id m)
  | inr (l, e) ↦ rw e (elim (Bool-cases (same l.state expected)) [
    | inl t ↦ rw t (insert_layer-Advances id m (record l { state = next }))
    | inr f ↦ rw f (Advances-refl id m)
  ])
]

pub raised-le : (o : Option LayerId) (id : LayerId) → id ≤ raised o id
unfolding raised
raised-le none id = omega arith
raised-le (some h) id = ground arith

raised-ge : (h id : LayerId) → h ≤ raised (some h) id
unfolding raised
raised-ge h id = ground arith

raise_head-Advances : (id : LayerId) (m : Manager) (l : Layer) → Advances id m (raise_head m l)
unfolding raise_head
raise_head-Advances id m l = record {
  heads = λ b h e. elim (l.branch ≟ b) [
    | yes p ↦ (
      raised (get m.heads b) l.id,
      get_raised p,
      subst (λ o. h ≤ raised o l.id) (sym e) (raised-ge h l.id),
    )
    | no n ↦ (
      h,
      get-insert_ne m.heads l.branch b (raised (get m.heads l.branch) l.id) n ∙ e,
      omega arith,
    )
  ];
  others = λ k n. refl;
}
  where
    get_raised :
        {b : BranchId}
        → l.branch ≡ b
        → get (insert m.heads l.branch (raised (get m.heads l.branch) l.id)) b
          ≡ some (raised (get m.heads b) l.id)
    get_raised p =
        subst
          (λ c.
            get (insert m.heads l.branch (raised (get m.heads l.branch) l.id)) c
            ≡ some (raised (get m.heads c) l.id))
          p (get-insert_self m.heads l.branch (raised (get m.heads l.branch) l.id))

note_def-Advances : (id : LayerId) (m : Manager) (l : Layer) → Advances id m (note_def m l)
unfolding note_def
note_def-Advances id m l = elim (Bool-cases (same l.kind def)) [
  | inl t ↦ rw t (record { heads = λ b h e. (h, e, omega arith); others = λ k n. refl })
  | inr f ↦ rw f (Advances-refl id m)
]

fold_layer-Advances :
    (id : LayerId) (m : Manager) (l : Layer) (r : Result (List Event))
    → Advances id m (fold_layer m l r).1
unfolding fold_layer
fold_layer-Advances id m l (ok events) = record {
  heads = λ b h e. (h, e, omega arith);
  others = λ k n. refl;
}
fold_layer-Advances id m l (err e) = Advances-refl id m

project-Advances : (id : LayerId) (m : Manager) (l : Layer) → Advances id m (project m l).1
unfolding project
project-Advances id m l = fold_layer-Advances id m l _

land-Advances : (m : Manager) (l : Layer) → Advances l.id m (land m l).1
unfolding land
land-Advances m l =
    then_do-Advances m (transition m l.id sealed committed) _
      (transition-Advances m l.id sealed committed)
      (λ a m1. Advances-trans (raise_head-Advances l.id m1 l) (
        Advances-trans (note_def-Advances l.id (raise_head m1 l) l)
          (project-Advances l.id (note_def (raise_head m1 l) l) l)))

store_guards-Advances :
    (m : Manager) (h : LayerHandle) (o : Option Layer) → Advances h.id m (store_guards m h o)
unfolding store_guards
store_guards-Advances m h none = Advances-refl h.id m
store_guards-Advances m h (some l) = insert_layer-Advances h.id m (record l { guards = h.guards })

publish-Advances : (m : Manager) (h : LayerHandle) → Advances h.id m (publish m h).1
unfolding publish
publish-Advances m h =
    let durable : Layer = record h { state = committed } in
    let m0 = store_guards m h (get m.layers h.id) in
    Advances-trans (store_guards-Advances m h (get m.layers h.id)) (
      then_do-Advances m0 (in_store m0 (seal m.store h.id))
        (λ u m1. in_store m1 (commit_layer (put_layer_meta m1.store durable) h.id) then_do λ v m2.
          land m2 durable)
        (in_store-Advances h.id m0 (seal m.store h.id))
        (λ a m1.
          then_do-Advances m1 (in_store m1 (commit_layer (put_layer_meta m1.store durable) h.id))
            (λ v m2. land m2 durable)
            (in_store-Advances h.id m1 (commit_layer (put_layer_meta m1.store durable) h.id))
            (λ b m2. land-Advances m2 durable)))

guarded-Advances :
    (m : Manager) (h : LayerHandle) (r : Result (Unit {0})) → Advances h.id m (guarded m h r).1
unfolding guarded
guarded-Advances m h (ok u) = publish-Advances m h
guarded-Advances m h (err e) =
    then_do-Advances m (in_store m (abort m.store h.id))
      (λ u m1. transition m1 h.id sealed aborted then_do λ v m2. failed m2)
      (in_store-Advances h.id m (abort m.store h.id))
      (λ a m1.
        then_do-Advances m1 (transition m1 h.id sealed aborted) (λ v m2. failed m2)
          (transition-Advances m1 h.id sealed aborted) (λ b m2. Advances-refl h.id m2))
  where
    failed : Manager → Managed LayerId
    failed m2 = (err e, m2)

-- Whatever a commit returns, no head moves back and no layer but the handle's changes.
pub commit-Advances : (m : Manager) (h : LayerHandle) → Advances h.id m (commit m h).1
unfolding commit
commit-Advances m h =
    then_do-Advances m (transition m h.id open' sealed) _ (transition-Advances m h.id open' sealed)
      (λ a m1. guarded-Advances m1 h (check_guards m1 h.branch h.guards none))
