-- ===== src/Storage/Memory/Rebuild.antt =====
-- `rebuild_read_index` of memory.rs: the read index is a projection of the log.
use borg_core.Prelude.{
  ◌≡◌, ◌⊎◌, ◌↔◌, inl, inr, Option, none, some, List, [], ◌∷◌, arith, refl, ap, sym, ◌∙◌,
}
use borg_core.Prelude.{
  nat_eq, Bool, false, ◌||◌, same, if◌then◌else◌, All, In, Bool-cases, contains,
}
use borg_core.Prelude.{map, ◌≟◌, leb, All-of, contains_of_In, Option-cases}
use borg_core.Prelude.Map.{Map, get}
use borg_core.Core.Ids.{BranchId, LayerId, EventId, DefVersion}
use borg_core.Core.Cell.{CellRef, Event, cell_eq}
use borg_core.Core.Layer.{ReadPath}
use borg_core.Core.Error.{ok}
use borg_core.Storage.Memory.Index.{ReadIndex, landings, newest_at}
use borg_core.Storage.Memory.Index.Landings.{IsTidy, entry}
use borg_core.Storage.Memory.Index.Newest.{newest_at-ext}
use borg_core.Storage.Memory.State.{Inner, Membership}
use borg_core.Storage.Memory.Provider.{
  replay_layers, sort_ids, insert_sorted, rebuild_read_index, get_cell, get_cell_from, then_index,
}
use borg_core.Storage.Memory.Replay.{IsStored, Replayed, last_hit, index_all-Replayed}

-- The event that a committed layer gives to a record on a branch.
abbrev pub hit_in :
    List (Option Event) → Option Membership → BranchId → CellRef → DefVersion → Option EventId
hit_in events none b c v = none
hit_in events (some m) b c v = if same m.branch b then last_hit events m.events c v else none

-- The index is what the committed layers say: each record has one entry for each layer of the
-- branch that wrote it, the layer's last write; and every member is stored.
pub record IsIndexed (inner : Inner) : Type 0 where
  pub tidy : IsTidy inner.reads
  pub agrees :
      (b : BranchId) (c : CellRef) (v : DefVersion) (l : LayerId)
      → entry inner.reads b c v l ≡ hit_in inner.events (get inner.members l) b c v
  pub known :
      (l : LayerId) (m : Membership)
      → get inner.members l ≡ some m
      → All (IsStored inner.events) m.events

module _ (events : List (Option Event)) (members : Map LayerId Membership) where
  -- The index is right about the layers that were replayed, and knows no other.
  abbrev Done : (LayerId → Bool) → ReadIndex → Type 0
  Done seen reads =
      (b : BranchId) (c : CellRef) (v : DefVersion) (l : LayerId)
      → entry reads b c v l ≡ (if seen l then hit_in events (get members l) b c v else none)

  abbrev IsCommitted : LayerId → Type 0
  IsCommitted l = (m : Membership) × (get members l ≡ some m) × All (IsStored events) m.events

  step-Done :
      (seen : LayerId → Bool) (reads one : ReadIndex) (layer : LayerId) (m : Membership)
      → get members layer ≡ some m
      → Done seen reads
      → Replayed events reads m.branch layer m.events one
      → Done (λ l. same layer l || seen l) one
  step-Done seen reads one layer m found done step b c v l = elim (layer ≟ l) [
    | yes p ↦
        let found' : get members l ≡ some m = rw (← p) found in
        ground (arith, found', p, step b c v l, done b c v l)
    | no p ↦ ground (arith, p, step b c v l, done b c v l)
  ]

  more-Done :
      (seen : LayerId → Bool) (layer : LayerId) (rest : List LayerId) (reads : ReadIndex)
      → Done (λ l. contains rest l || (same layer l || seen l)) reads
      → Done (λ l. contains (layer ∷ rest) l || seen l) reads
  more-Done seen layer rest reads all b c v l = ground (arith, all b c v l)

  replay_layers-Done :
      (seen : LayerId → Bool) (reads : ReadIndex) (layers : List LayerId)
      → All IsCommitted layers
      → IsTidy reads
      → Done seen reads
      → (reads' : ReadIndex) × (replay_layers events members reads layers ≡ (ok tt, reads'))
        × IsTidy reads'
        × Done (λ l. contains layers l || seen l) reads'
  unfolding replay_layers
  replay_layers-Done seen reads [] h tidy done = (reads, refl, tidy, done)
  replay_layers-Done seen reads (layer ∷ rest) ((m, found, stored), h) tidy done =
      let (one, run, tidy', step) =
        index_all-Replayed events reads m.branch layer m.events stored tidy in
      let (reads', run', tidy'', all) =
        replay_layers-Done (λ l. same layer l || seen l) one rest h tidy'
          (step-Done seen reads one layer m found done step) in
      (
        reads',
        rw (found, replay_layers) (rw (run, then_index) run'),
        tidy'',
        more-Done seen layer rest reads' all,
      )

In-insert_sorted :
    (l : LayerId) (ks : List LayerId) (k : LayerId)
    → In k (insert_sorted l ks) ↔ ((k ≡ l) ⊎ In k ks)
unfolding insert_sorted
In-insert_sorted l [] k = (λ h. h, λ h. h)
In-insert_sorted l (j ∷ js) k =
    let (to, from) = In-insert_sorted l js k in
    elim (Bool-cases (leb l j)) [
      | inl t ↦ rw t (λ h. h, λ h. h)
      | inr f ↦ rw f (
        elim [ inl e ↦ inr (inl e) | inr m ↦ elim (to m) [ inl e ↦ inl e | inr n ↦ inr (inr n) ] ],
        elim [
          | inl e ↦ inr (from (inl e))
          | inr (inl e) ↦ inl e
          | inr (inr n) ↦ inr (from (inr n))
        ],
      )
    ]

In-sort_ids : (ls : List LayerId) (k : LayerId) → In k (sort_ids ls) ↔ In k ls
unfolding sort_ids
In-sort_ids [] k = (λ h. h, λ h. h)
In-sort_ids (l ∷ ls) k =
    let (to, from) = In-sort_ids ls k in
    let (to', from') = In-insert_sorted l (sort_ids ls) k in
    (
      λ h. elim (to' h) [ inl e ↦ inl e | inr m ↦ inr (to m) ],
      elim [ inl e ↦ from' (inl e) | inr m ↦ from' (inr (from m)) ],
    )

get_of_key :
    {V : Type 0} (m : Map LayerId V) (k : LayerId)
    → In k (map (λ e. e.0) m)
    → (v : V) × (get m k ≡ some v)
unfolding get
get_of_key [] k h = absurd h
get_of_key ((j, v) ∷ m) k (inl e) = (v, ground arith)
get_of_key ((j, v) ∷ m) k (inr h) = elim (j ≟ k) [
  | yes p ↦ (v, ground arith)
  | no p ↦ let (w, q) = get_of_key m k h in (w, ground arith)
]

key_of_get :
    {V : Type 0} (m : Map LayerId V) (k : LayerId) (v : V)
    → get m k ≡ some v
    → In k (map (λ e. e.0) m)
unfolding get
key_of_get [] k v h = cc
key_of_get ((j, w) ∷ m) k v h = elim (j ≟ k) [
  | yes p ↦ inl (sym p)
  | no p ↦ inr (key_of_get m k v (ground arith))
]

IsTidy-empty : IsTidy []
unfolding landings get
IsTidy-empty b c v = tt

entry-empty : (b : BranchId) (c : CellRef) (v : DefVersion) (l : LayerId) → entry [] b c v l ≡ none
unfolding landings get
entry-empty b c v l = refl

agrees_of_Done :
    (inner : Inner) (reads : ReadIndex) (b : BranchId) (c : CellRef) (v : DefVersion) (l : LayerId)
    → Done inner.events inner.members
        (λ k. contains (sort_ids (map (λ e. e.0) inner.members)) k || false)
        reads
    → entry reads b c v l ≡ hit_in inner.events (get inner.members l) b c v
agrees_of_Done inner reads b c v l done = elim (Option-cases (get inner.members l)) [
  | inl e ↦ ground (arith, e, done b c v l)
  | inr (m, e) ↦
      let listed =
        contains_of_In (sort_ids (map (λ e. e.0) inner.members)) l
          ((In-sort_ids _ l).1 (key_of_get inner.members l m e)) in
      ground (arith, listed, done b c v l)
]

-- A rebuild succeeds where every member is stored, and leaves an index of the committed layers,
-- whatever stood in the old one; nothing else of the store changes.
pub rebuild_read_index-IsIndexed :
    (inner : Inner)
    → ((l : LayerId) (m : Membership)
        → get inner.members l ≡ some m
        → All (IsStored inner.events) m.events)
    → (inner' : Inner) × (rebuild_read_index inner ≡ (ok tt, inner'))
      × (inner' ≡ record inner { reads = inner'.reads })
      × IsIndexed inner'
unfolding rebuild_read_index
rebuild_read_index-IsIndexed inner known =
    let keys = sort_ids (map (λ e. e.0) inner.members) in
    let committed : All (IsCommitted inner.events inner.members) keys =
      All-of (IsCommitted inner.events inner.members) keys (λ l h.
        let (m, found) = get_of_key inner.members l ((In-sort_ids _ l).0 h) in
        (m, found, known l m found)) in
    let (reads, run, tidy, done) =
      replay_layers-Done inner.events inner.members (λ l. false) [] keys committed IsTidy-empty
        entry-empty in
    (
      record inner { reads = reads },
      rw run,
      refl,
      record {
        tidy = tidy;
        agrees = λ b c v l. agrees_of_Done inner reads b c v l done;
        known = known;
      },
    )

get_cell_from-reads :
    (inner : Inner) (reads : ReadIndex) (segments : List (BranchId × LayerId)) (c : CellRef)
    (v : DefVersion)
    → ((b : BranchId) (bound : LayerId)
        → newest_at (landings reads b c v) bound ≡ newest_at (landings inner.reads b c v) bound)
    → get_cell_from (record inner { reads = reads }) segments c v ≡ get_cell_from inner segments c v
unfolding get_cell_from
get_cell_from-reads inner reads [] c v h = refl
get_cell_from-reads inner reads ((branch, bound) ∷ rest) c v h =
    ground (arith, h branch bound, get_cell_from-reads inner reads rest c v h)

-- In a store whose index is what the committed layers say, a rebuild changes the answer of no read:
-- not of any cell, at any version, on any path.
pub get_cell-rebuild_read_index :
    (inner : Inner) (path : ReadPath) (cell : CellRef) (version : DefVersion)
    → IsIndexed inner
    → get_cell (rebuild_read_index inner).1 path cell version ≡ get_cell inner path cell version
unfolding get_cell
get_cell-rebuild_read_index inner path cell version ix =
    let (inner', run, only, ix') = rebuild_read_index-IsIndexed inner ix.known in
    rw run (
      rw only (
        get_cell_from-reads inner inner'.reads path.segments cell version (λ b bound.
          newest_at-ext _ _ bound (ix'.tidy b cell version) (ix.tidy b cell version) (λ l.
            ix'.agrees b cell version l
            ∙ ap (λ i. hit_in i.events (get i.members l) b cell version) only
            ∙ sym (ix.agrees b cell version l)))))
