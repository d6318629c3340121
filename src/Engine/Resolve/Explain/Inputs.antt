-- ===== src/Engine/Resolve/Explain/Inputs.antt =====
-- The inputs that an explanation names.
use borg_core.Prelude.{
  ◌≡◌, ◌↔◌, inl, inr, String, Option, none, some, List, [], ◌∷◌, In, refl, sym, ap, ◌∙◌, subst,
}
use borg_core.Core.Ids.{BranchId, LayerId}
use borg_core.Core.Cell.{CellRef, CellAt, Landed}
use borg_core.Core.Layer.{ReadPath}
use borg_core.Core.Error.{Result, ok, err, ◌>>=◌}
use borg_core.Engine.Log.{Manager, read_path}
use borg_core.Engine.Defs.{DefView, version_of}
use borg_core.Engine.Defs.Registry.{view_at}
use borg_core.Engine.Index.{DependencyIndex, dependencies}
use borg_core.Engine.Poison.{Broken}
use borg_core.Engine.Resolve.Explain.{
  Lineage, LineageEdge, edge_to, edges, explain, explain_found, broken_by, lineage,
}
use borg_core.Storage.Memory.State.{Inner}
use borg_core.Storage.Memory.Provider.{get_cell}
use borg_core.Storage.Memory.Sound.{IsSound}
use borg_core.Storage.Memory.Reading.{get_cell-Resolves}

-- An edge to a dependency that a read on the path finds: its origin, and where it landed there,
-- which for a merged input is not the layer that authored it.
pub data IsInput (store : Inner) (path : ReadPath) (known : List CellAt) (e : LineageEdge)
    : Type 0 where
  input :
      (dependency : CellAt) (found : Landed)
      → In dependency known
      → get_cell store path dependency.cell dependency.version ≡ ok (some found)
      → e.cell ≡ dependency
      → e.origin ≡ found.event.origin
      → e.landed_at ≡ found.landed_at
      → IsInput store path known e

later-IsInput :
    {store : Inner} {path : ReadPath} {known : List CellAt} {e : LineageEdge} {c : CellAt}
    → IsInput store path known e
    → IsInput store path (c ∷ known) e
later-IsInput (input dependency found there g c o l) = input dependency found (inr there) g c o l

abbrev pub Names : Inner → ReadPath → List CellAt → List LineageEdge → Type 0
Names store path known from = (e : LineageEdge) → In e from ↔ IsInput store path known e

is_edge :
    (c : CellAt) (found : Landed) (e : LineageEdge)
    → e.cell ≡ c
    → e.origin ≡ found.event.origin
    → e.landed_at ≡ found.landed_at
    → e ≡ edge_to c found
is_edge c found e is o l = cc (is, o, l)

none_here :
    (store : Inner) (path : ReadPath) (c : CellAt) (known : List CellAt) (from : List LineageEdge)
    → get_cell store path c.cell c.version ≡ ok none
    → Names store path known from
    → Names store path (c ∷ known) from
none_here store path c known from g names e = (λ m. later-IsInput ((names e).0 m), back)
  where
    back : IsInput store path (c ∷ known) e → In e from
    back (input dependency found (inl here) h is o l) =
        cc (g, h, ap (λ (x : CellAt). get_cell store path x.cell x.version) here)
    back (input dependency found (inr there) h is o l) =
        (names e).1 (input dependency found there h is o l)

some_here :
    (store : Inner) (path : ReadPath) (c : CellAt) (known : List CellAt) (from : List LineageEdge)
    (found : Landed)
    → get_cell store path c.cell c.version ≡ ok (some found)
    → Names store path known from
    → Names store path (c ∷ known) (edge_to c found ∷ from)
some_here store path c known from found g names e = (forth, back)
  where
    forth : In e (edge_to c found ∷ from) → IsInput store path (c ∷ known) e
    forth (inl here) =
        input c found (inl refl) g (ap (λ (x : LineageEdge). x.cell) here)
          (ap (λ (x : LineageEdge). x.origin) here) (ap (λ (x : LineageEdge). x.landed_at) here)
    forth (inr there) = later-IsInput ((names e).0 there)

    back : IsInput store path (c ∷ known) e → In e (edge_to c found ∷ from)
    back (input dependency other (inl here) h is o l) = inl (
        is_edge c found e (is ∙ here) (o ∙ ap (λ (x : Landed). x.event.origin) (same_found here h))
          (l ∙ ap (λ (x : Landed). x.landed_at) (same_found here h)))
      where
        same_found :
            dependency ≡ c
            → get_cell store path dependency.cell dependency.version ≡ ok (some other)
            → other ≡ found
        same_found here h =
            cc (g, h, ap (λ (x : CellAt). get_cell store path x.cell x.version) here)
    back (input dependency other (inr there) h is o l) =
        inr ((names e).1 (input dependency other there h is o l))

nothing_in : (store : Inner) (path : ReadPath) → Names store path [] []
nothing_in store path e = (λ there. absurd there, back)
  where
    back : IsInput store path [] e → In e []
    back (input dependency found there h is o l) = there

edges-Names :
    (store : Inner) (path : ReadPath) (known : List CellAt)
    → IsSound store
    → (from : List LineageEdge) × (edges store path known ≡ ok from) × Names store path known from
unfolding edges
edges-Names store path [] sound = ([], refl, nothing_in store path)
edges-Names store path (c ∷ known) sound =
    let (from, rest, names) = edges-Names store path known sound in
    let (o, g, resolves) = get_cell-Resolves store path c.cell c.version sound in
    elim o
        as (λ o.
          get_cell store path c.cell c.version ≡ ok o
          → (from : List LineageEdge) × (edges store path (c ∷ known) ≡ ok from)
            × Names store path (c ∷ known) from) [
              | none ↦ λ g. (from, rw (edges, g) rest, none_here store path c known from g names)
              | some found ↦ λ g. (
                edge_to c found ∷ from,
                rw (edges, g) (rw rest refl),
                some_here store path c known from found g names,
              )
            ]
      g

-- The edges are kept, whatever is known of the producer.
kept_edges :
    (a : Result (List LineageEdge)) (b : Result (Option String)) (target : CellAt) (found : Landed)
    (r : Lineage)
    → (a >>= λ from. b >>= λ broken. ok (some (lineage target found from broken))) ≡ ok (some r)
    → a ≡ ok r.from
unfolding lineage
kept_edges (err e) b target found r h = cc (h)
kept_edges (ok from) (err e) target found r h = cc (h)
kept_edges (ok from) (ok broken) target found r h = cc (h)

explain_found-Names :
    (m : Manager) (index : DependencyIndex) (table : Broken) (branch : BranchId) (path : ReadPath)
    (target : CellAt) (found : Option Landed) (r : Lineage)
    → IsSound m.store
    → explain_found m index table branch path target found ≡ ok (some r)
    → Names m.store path (dependencies index branch target) r.from
unfolding explain_found
explain_found-Names m index table branch path target none r sound h = cc (h)
explain_found-Names m index table branch path target (some found) r sound h =
    let (from, e, names) = edges-Names m.store path (dependencies index branch target) sound in
    let same : r.from ≡ from = cc (
      e,
      kept_edges (edges m.store path (dependencies index branch target))
          (broken_by m table branch found.event.derivation) target found r h,
    ) in
    subst (λ (l : List LineageEdge). Names m.store path (dependencies index branch target) l)
      (sym same) names

-- On a sound store an explanation names exactly the inputs of the value: one edge for each recorded
-- dependency, at the version that the reader means, that a read on the same path finds, with its
-- origin and the layer where it landed on that path.
pub explain-Names :
    (m : Manager) (index : DependencyIndex) (table : Broken) (branch : BranchId) (cell : CellRef)
    (layer : Option LayerId) (version : LayerId) (path : ReadPath) (defs : DefView) (r : Lineage)
    → IsSound m.store
    → read_path m branch layer ≡ ok path
    → view_at m path version ≡ ok defs
    → explain m index table branch cell layer version ≡ ok (some r)
    → Names m.store path
        (dependencies index branch (record { cell = cell; version = version_of defs cell }))
        r.from
unfolding explain
explain-Names m index table branch cell layer version path defs r sound p v h =
    let (o, g, resolves) = get_cell-Resolves m.store path cell (version_of defs cell) sound in
    explain_found-Names m index table branch path
      (record { cell = cell; version = version_of defs cell }) o r sound
      (rw (explain, p) (rw v (rw g refl)) ∙ h)
