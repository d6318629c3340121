-- ===== src/Storage/Memory/Sound/Committing.antt =====
-- `commit_layer` of memory.rs keeps the invariant, and what it makes visible.
use borg_core.Prelude.{
  ℕ, zero, suc, ◌<◌, ◌≡◌, ◌⊎◌, inl, inr, Option, none, some, List, [], ◌∷◌, All, In,
}
use borg_core.Prelude.{nat_eq, arith, refl, sym, ap, subst, if_pos, if_neg, Option-cases, ◌∙◌, ◌≟◌}
use borg_core.Prelude.{true, Bool-cases, if◌then◌else◌, ◌==◌, All-at, All-of, All-map}
use borg_core.Prelude.Map.{get, insert, remove, get-insert, get-insert_self, get-insert_ne}
use borg_core.Core.Ids.{LayerId, EventId, BranchId, DefVersion}
use borg_core.Core.Cell.{Event, CellRef}
use borg_core.Core.Error.{ok}
use borg_core.Storage.Memory.State.{
  Inner, Membership, StagedLayer, slot, put_slot, stored_in, store_at, store,
}
use borg_core.Storage.Memory.Provider.{store_all, commit_layer}
use borg_core.Storage.Memory.Replay.{IsStored, Replayed, last_hit, index_all-Replayed}
use borg_core.Storage.Memory.Index.{ReadIndex}
use borg_core.Storage.Memory.Index.Landings.{IsTidy, entry}
use borg_core.Storage.Memory.Rebuild.{hit_in}
use borg_core.Storage.Memory.Sound.{IsFresh, IsNamed, IsSound}
use borg_core.Storage.Memory.Sound.Staging.{drop-IsSound, remove-cases, insert-cases}

slot-put_slot :
    (events : List (Option Event)) (n k : ℕ) (e : Event)
    → slot (put_slot events n e) k ≡ (if n == k then some e else slot events k)
unfolding slot put_slot
slot-put_slot [] zero zero e = refl
slot-put_slot [] zero (suc k) e = ground arith
slot-put_slot [] (suc n) zero e = ground arith
slot-put_slot [] (suc n) (suc k) e = ground (arith, slot-put_slot [] n k e)
slot-put_slot (x ∷ xs) zero zero e = refl
slot-put_slot (x ∷ xs) zero (suc k) e = ground arith
slot-put_slot (x ∷ xs) (suc n) zero e = ground arith
slot-put_slot (x ∷ xs) (suc n) (suc k) e = ground (arith, slot-put_slot xs n k e)

store_at-ok :
    (events : List (Option Event)) (n : ℕ) (e : Event)
    → 0 < n
    → (events' : List (Option Event)) × (store_at events n e ≡ ok events')
      × ((id : EventId) → stored_in events' id ≡ (if n == id then some e else stored_in events id))
unfolding store_at stored_in
store_at-ok events zero e pos = absurd (omega arith)
store_at-ok events (suc n) e pos = (
  put_slot events n e,
  refl,
  elim [ zero ↦ ground arith | suc k ↦ ground (arith, slot-put_slot events n k e) ],
)

abbrev Writes : List Event → EventId → Type 0
Writes es id = (e : Event) × In e es × (e.id ≡ id)

-- An id is among those that were stored, or what it names is unchanged.
abbrev Stores : List (Option Event) → List Event → List (Option Event) → Type 0
Stores events es events' =
    (id : EventId)
    → (Writes es id × ((e : Event) × (stored_in events' id ≡ some e) × (e.id ≡ id)))
      ⊎ ((Writes es id → ⊥) × (stored_in events' id ≡ stored_in events id))

store_all-Stores :
    (events : List (Option Event)) (es : List Event)
    → All (λ e. 0 < e.id) es
    → (events' : List (Option Event)) × (store_all events es ≡ ok events')
      × Stores events es events'
unfolding store_all store
store_all-Stores events [] h = (events, refl, λ id. inr (λ w. w.1, refl))
store_all-Stores events (e ∷ es) (pos, h) =
    let (one, run, law) = store_at-ok events e.id e pos in
    let (events', run', cases) = store_all-Stores one es h in
    (
      events',
      rw run run',
      λ id. elim (cases id) [
        | inl q ↦ inl ((q.0.0, inr q.0.1, q.0.2), q.1)
        | inr q ↦ elim (Bool-cases (e.id == id)) [
          | inl t ↦ inl ((e, inl refl, ground arith), (e, q.1 ∙ law id ∙ rw t, ground arith))
          | inr f ↦ inr (
            λ w. elim w.1 [
              | inl m ↦ ground (arith, w.2, ap (λ x. x.id) m, f)
              | inr m ↦ q.0 (w.0, m, w.2)
            ],
            q.1 ∙ law id ∙ rw f,
          )
        ]
      ],
    )

last_hit-kept :
    (events events' : List (Option Event)) (ids : List EventId) (c : CellRef) (v : DefVersion)
    → All (λ id. stored_in events' id ≡ stored_in events id) ids
    → last_hit events' ids c v ≡ last_hit events ids c v
unfolding last_hit
last_hit-kept events events' [] c v h = refl
last_hit-kept events events' (id ∷ ids) c v h =
    ground (arith, h.0, last_hit-kept events events' ids c v h.1)

-- A commit: the layer `l` was staged as `s`, its events are stored, and its members indexed.
module _ (inner : Inner) (sound : IsSound inner) (l : LayerId) (s : StagedLayer)
    (found : get inner.staged l ≡ some s) (events' : List (Option Event))
    (stores : Stores inner.events s.authored events') where
  not_written : (id : EventId) → IsStored inner.events id → Writes s.authored id → ⊥
  not_written id (e, h) (f, m, q) =
      let (none', pos, le) = All-at _ s.authored f (sound.fresh l s found) m in
      let moved : stored_in inner.events f.id ≡ some e = rw q h in cc (none', moved)

  kept :
      (id : EventId) → IsStored inner.events id → stored_in events' id ≡ stored_in inner.events id
  kept id st = elim (stores id) [ inl w ↦ absurd (not_written id st w.0) | inr k ↦ k.1 ]

  still-IsStored : (id : EventId) → IsStored inner.events id → IsStored events' id
  still-IsStored id st = (st.0, kept id st ∙ st.1)

  members-IsStored : All (IsStored events') s.members
  members-IsStored =
      All-map (IsNamed inner.events s) (IsStored events') s.members
        (λ id. elim [
          | inl st ↦ still-IsStored id st
          | inr au ↦ elim (stores id) [ inl w ↦ (w.1.0, w.1.1) | inr k ↦ absurd (k.0 au) ]
        ])
        (sound.named l s found)

  hit_in-kept :
      (b : BranchId) (c : CellRef) (v : DefVersion) (k : LayerId)
      → hit_in events' (get inner.members k) b c v ≡ hit_in inner.events (get inner.members k) b c v
  hit_in-kept b c v k = elim (Option-cases (get inner.members k)) [
    | inl e ↦ rw e
    | inr (m, e) ↦
        let same_hits = last_hit-kept inner.events events' m.events c v (
          All-map (IsStored inner.events) (λ id. stored_in events' id ≡ stored_in inner.events id)
            m.events kept (sound.indexed.known k m e)) in
        rw e (rw same_hits)
  ]

  module _ (reads' : ReadIndex) (tidy : IsTidy reads')
      (step : Replayed events' inner.reads s.branch l s.members reads') where
    abbrev committed : Inner
    committed = record inner {
      staged = remove inner.staged l;
      events = events';
      reads = reads';
      members = insert inner.members l (record { branch = s.branch; events = s.members });
      def_contents = insert inner.def_contents l s.defs;
    }

    committed-agrees :
        (b : BranchId) (c : CellRef) (v : DefVersion) (k : LayerId)
        → entry reads' b c v k ≡ hit_in events' (get committed.members k) b c v
    committed-agrees b c v k =
        let m : Membership = record { branch = s.branch; events = s.members } in
        step b c v k
        ∙ rw (get-insert inner.members l k m) (elim (l ≟ k) [
          | yes p ↦
              let none' : get inner.members k ≡ none =
                subst (λ j. get inner.members j ≡ none) p (sound.apart l s found) in
              let old : entry inner.reads b c v k ≡ none =
                sound.indexed.agrees b c v k ∙ rw none' in
              rw (if_pos _ p) (rw old (ground (arith, p)))
          | no p ↦
              let old = sound.indexed.agrees b c v k ∙ sym (hit_in-kept b c v k) in
              rw (if_neg _ p) (ground (arith, p, old))
        ])

    committed-IsSound : IsSound committed
    committed-IsSound = record {
      indexed = record {
        tidy = tidy;
        agrees = committed-agrees;
        known = λ k m h. elim (insert-cases inner.members l k _ m h) [
          | inl q ↦ subst (λ x. All (IsStored events') x.events) q.1 members-IsStored
          | inr q ↦
              All-map (IsStored inner.events) (IsStored events') m.events still-IsStored
                (sound.indexed.known k m q.1)
        ];
      };
      apart = λ k t h.
          let (ne, h') = remove-cases inner.staged l k t h in
          get-insert_ne inner.members l k _ ne ∙ sound.apart k t h';
      fresh = λ k t h.
          let (ne, h') = remove-cases inner.staged l k t h in
          All-of _ t.authored (λ e m.
            let (none', pos, le) = All-at _ t.authored e (sound.fresh k t h') m in
            (
              elim (stores e.id) [
                | inl w ↦ absurd (ne (sound.disjoint l k s t e.id found h' w.0 (e, m, refl)))
                | inr u ↦ u.1 ∙ none'
              ],
              pos,
              le,
            ));
      disjoint = λ j k t u id hj hk.
          sound.disjoint j k t u id (remove-cases inner.staged l j t hj).1
            (remove-cases inner.staged l k u hk).1;
      named = λ k t h.
          All-map (IsNamed inner.events t) (IsNamed events' t) t.members
            (λ id. elim [ inl st ↦ inl (still-IsStored id st) | inr au ↦ inr au ])
            (sound.named k t (remove-cases inner.staged l k t h).1);
      bounded = λ id e h. elim (stores id) [
        | inl w ↦
            let f = All-at _ s.authored w.0.0 (sound.fresh l s found) w.0.1 in
            omega (arith, f.2, w.0.2)
        | inr u ↦ sound.bounded id e (sym u.1 ∙ h)
      ];
      own_id = λ id e h. elim (stores id) [
        | inl w ↦ cc (w.1.1, w.1.2, h)
        | inr u ↦ sound.own_id id e (sym u.1 ∙ h)
      ];
    }

-- Committing a sealed layer of a sound store succeeds, keeps the store sound, and records the
-- layer's branch and members.
pub commit_layer_sealed :
    (inner : Inner) (l : LayerId) (s : StagedLayer)
    → IsSound inner
    → get inner.staged l ≡ some s
    → s.sealed ≡ true
    → (inner' : Inner) × (commit_layer inner l ≡ (ok tt, inner'))
      × IsSound inner'
      × (get inner'.members l ≡ some (record { branch = s.branch; events = s.members }))
unfolding commit_layer
commit_layer_sealed inner l s sound found closed =
    let positive =
      All-map (IsFresh inner.events inner.next_event) (λ e. 0 < e.id) s.authored (λ e f. f.1)
        (sound.fresh l s found) in
    let (events', stored, stores) = store_all-Stores inner.events s.authored positive in
    let (reads', run, tidy, step) =
      index_all-Replayed events' inner.reads s.branch l s.members
        (members-IsStored inner sound l s found events' stores) sound.indexed.tidy in
    (
      committed inner sound l s found events' stores reads' tidy step,
      rw found (rw closed (rw stored (rw run))),
      committed-IsSound inner sound l s found events' stores reads' tidy step,
      get-insert_self inner.members l _,
    )

pub commit_layer-IsSound :
    (inner : Inner) (l : LayerId) → IsSound inner → IsSound (commit_layer inner l).1
commit_layer-IsSound inner l sound = elim (Option-cases (get inner.staged l)) [
  | inl e ↦ unfold commit_layer in rw e sound
  | inr (s, e) ↦ elim (Bool-cases s.sealed) [
    | inl t ↦
        let (inner', run, sound', visible) = commit_layer_sealed inner l s sound e t in
        rw run sound'
    | inr f ↦ unfold commit_layer in rw e (rw f (drop-IsSound inner l sound))
  ]
]
