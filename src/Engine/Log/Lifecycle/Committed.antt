-- ===== src/Engine/Log/Lifecycle/Committed.antt =====
-- What a commit that succeeds has done.
use borg_core.Prelude.{◌≤◌, ◌≡◌, inl, inr, none, some, List}
use borg_core.Prelude.{refl, sym, ap, ◌∙◌, subst, same, Bool-cases, Option-cases, nat_eq}
use borg_core.Prelude.Map.{get, get-insert_self}
use borg_core.Core.Ids.{LayerId}
use borg_core.Core.Cell.{Event}
use borg_core.Core.Layer.{Layer, LayerState, layer_state_eq, layer_kind_eq}
use borg_core.Core.Layer.{open', sealed, committed, aborted, def}
use borg_core.Core.Error.{Result, ok, err}
use borg_core.Engine.Log.State.{Manager, raised, raise_head, note_def}
use borg_core.Engine.Log.Guarding.{check_guards}
use borg_core.Engine.Log.Lifecycle.{
  Managed, LayerHandle, in_store, transition, commit, reject, guarded, ◌then_do◌, publish, land,
  project, fold_layer, store_guards,
}
use borg_core.Engine.Log.Lifecycle.Advances.{raised-le}
use borg_core.Storage.Memory.OpenLayer.{seal, abort}
use borg_core.Storage.Memory.Provider.{put_layer_meta, commit_layer}

abbrev Succeeds : {A : Type 0} → Managed A → A → Manager → Type 0
Succeeds r a m = (r.0 ≡ ok a) × (r.1 ≡ m)

-- Whether a result is a success, for telling it from a failure.
IsOk : {A : Type 0} → Result A → Type 0
IsOk (ok a) = Unit
IsOk (err e) = ⊥

then_do-inverse :
    {A B : Type 0} (P : Managed B → Type 0) (r : Managed A) (f : A → Manager → Managed B)
    → IsOk (r then_do f).0
    → ((a : A) (m1 : Manager) → (r.0 ≡ ok a) → (r.1 ≡ m1) → IsOk (f a m1).0 → P (f a m1))
    → P (r then_do f)
unfolding IsOk
then_do-inverse P (ok a, m1) f h k = k a m1 refl refl h
then_do-inverse P (err e, m1) f h k = absurd h

-- The layer is committed, the branch has a head, and no layer of the commit is above it.
pub record Lands (l : Layer) (r : Managed LayerId) : Type 0 where
  pub returns : r.0 ≡ ok l.id
  pub state : (k : Layer) × (get r.1.layers l.id ≡ some k) × (k.state ≡ committed)
  pub head : (h : LayerId) × (get r.1.heads l.branch ≡ some h) × (l.id ≤ h)

note_def-layers : (m : Manager) (l : Layer) → (note_def m l).layers ≡ m.layers
unfolding note_def
note_def-layers m l = elim (Bool-cases (same l.kind def)) [ inl t ↦ rw t refl | inr f ↦ rw f refl ]

note_def-heads : (m : Manager) (l : Layer) → (note_def m l).heads ≡ m.heads
unfolding note_def
note_def-heads m l = elim (Bool-cases (same l.kind def)) [ inl t ↦ rw t refl | inr f ↦ rw f refl ]

fold_layer-Lands :
    (m : Manager) (l k : Layer) (h : LayerId) (r : Result (List Event))
    → get m.layers l.id ≡ some k
    → k.state ≡ committed
    → get m.heads l.branch ≡ some h
    → l.id ≤ h
    → IsOk (fold_layer m l r).0
    → Lands l (fold_layer m l r)
unfolding fold_layer IsOk
fold_layer-Lands m l k h (ok events) e s eh le i = record {
  returns = refl;
  state = (k, e, s);
  head = (h, eh, le);
}
fold_layer-Lands m l k h (err f) e s eh le i = absurd i

-- A transition that succeeds has put the layer in the state.
transition-reaches :
    (m : Manager) (id : LayerId) (expected next : LayerState)
    → IsOk (transition m id expected next).0
    → (k : Layer) × (get (transition m id expected next).1.layers id ≡ some k) × (k.state ≡ next)
unfolding transition IsOk
transition-reaches m id expected next = elim (Option-cases (get m.layers id)) [
  | inl e ↦ rw e (λ i. absurd i)
  | inr (l, e) ↦ rw e (elim (Bool-cases (same l.state expected)) [
    | inl t ↦ rw t (λ i.
        (record l { state = next }, get-insert_self m.layers id (record l { state = next }), refl))
    | inr f ↦ rw f (λ i. absurd i)
  ])
]

land-Lands : (m : Manager) (l : Layer) → IsOk (land m l).0 → Lands l (land m l)
unfolding land project raise_head IsOk
land-Lands m l i =
    then_do-inverse (Lands l) (transition m l.id sealed committed)
      (λ u m1. project (note_def (raise_head m1 l) l) l) i
      (λ a m1 r0 r1 j.
        let (k, e, s) = transition-reaches m l.id sealed committed (subst IsOk (sym r0) tt) in
        let head = raised (get m1.heads l.branch) l.id in
        fold_layer-Lands (note_def (raise_head m1 l) l) l k head _
          (ap (λ q. get q l.id) (note_def-layers (raise_head m1 l) l)
            ∙ subst (λ (q : Manager). get q.layers l.id ≡ some k) r1 e)
          s
          (ap (λ q. get q l.branch) (note_def-heads (raise_head m1 l) l)
            ∙ get-insert_self m1.heads l.branch head)
          (raised-le (get m1.heads l.branch) l.id) j)

publish-Lands : (m : Manager) (h : LayerHandle) → IsOk (publish m h).0 → Lands h (publish m h)
unfolding publish
publish-Lands m h i =
    let durable : Layer = record h { state = committed } in
    let m0 = store_guards m h (get m.layers h.id) in
    then_do-inverse (Lands h) (in_store m0 (seal m.store h.id))
      (λ u m1. in_store m1 (commit_layer (put_layer_meta m1.store durable) h.id) then_do λ v m2.
        land m2 durable)
      i
      (λ a m1 r0 r1 j.
        then_do-inverse (Lands h)
          (in_store m1 (commit_layer (put_layer_meta m1.store durable) h.id))
          (λ v m2. land m2 durable) j (λ b m2 q0 q1 n. same_layer (land-Lands m2 durable n)))
  where
    same_layer : {r : Managed LayerId} → Lands (record h { state = committed }) r → Lands h r
    same_layer p = record { returns = p.returns; state = p.state; head = p.head }

guarded-Lands :
    (m : Manager) (h : LayerHandle) (r : Result (Unit {0}))
    → IsOk (guarded m h r).0
    → Lands h (guarded m h r)
unfolding guarded reject IsOk
guarded-Lands m h (ok u) i = publish-Lands m h i
guarded-Lands m h (err e) i = absurd (never i)
  where
    failed : Unit {0} → Manager → Managed LayerId
    failed v m2 = (err e, m2)

    never : IsOk (reject m h e).0 → ⊥
    never j =
        then_do-inverse (λ r. ⊥) (in_store m (abort m.store h.id))
          (λ u m1. transition m1 h.id sealed aborted then_do failed) j
          (λ a m1 r0 r1 k.
            then_do-inverse (λ r. ⊥) (transition m1 h.id sealed aborted) failed k
              (λ b m2 q0 q1 n. n))

-- A commit that succeeds returns the layer's id, leaves the layer committed, and the head of its
-- branch is no lower.
pub commit-Lands :
    (m : Manager) (h : LayerHandle) (id : LayerId) → (commit m h).0 ≡ ok id → Lands h (commit m h)
unfolding commit IsOk
commit-Lands m h id e =
    then_do-inverse (Lands h) (transition m h.id open' sealed)
      (λ u m1. guarded m1 h (check_guards m1 h.branch h.guards none)) (subst IsOk (sym e) tt)
      (λ a m1 r0 r1 j. guarded-Lands m1 h (check_guards m1 h.branch h.guards none) j)
