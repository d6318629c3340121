-- ===== src/Engine/Defs/Registry/Views.antt =====
-- The views of a branch on which no field was deleted.
use borg_core.Prelude.{
  ◌≡◌, ◌≤◌, Bool-cases, some, List, [], ◌∷◌, All, inl, inr, refl, subst, ltb, leb, leb→le, arith,
}
use borg_core.Prelude.Map.{get}
use borg_core.Core.Ids.{LayerId, DefVersion}
use borg_core.Core.Cell.{ObjectTypeName, FieldName, object_prop}
use borg_core.Core.Def.{DefEvent, FieldDef}
use borg_core.Core.Layer.{ReadPath}
use borg_core.Core.Error.{Result, ok, err, ◌>>=◌}
use borg_core.Engine.Log.{Manager}
use borg_core.Engine.Defs.{DefView, MigrationHop, declared, default_view}
use borg_core.Engine.Defs.Fold.{apply, apply_all, chain_of}
use borg_core.Engine.Defs.Fold.Linked.{
  AreLinked, FieldLinked, KeepsFields, later-AreLinked, apply-AreLinked, ok_inj,
}
use borg_core.Engine.Defs.Paths.{path}
use borg_core.Engine.Defs.Paths.Route.{IsLinked, IsVersion, IsRoute, path-IsRoute}
use borg_core.Engine.Defs.Registry.{along, def_layers, fold_layers, view_at}
use borg_core.Storage.Memory.State.{Inner}
use borg_core.Storage.Memory.Provider.{sort_ids, insert_sorted, read_def_layer}

bind_ok :
    (r : Result DefView) (f : DefView → Result DefView) (last : DefView)
    → (r >>= f) ≡ ok last
    → (next : DefView) × (r ≡ ok next) × (f next ≡ ok last)
bind_ok (ok next) f last h = (next, refl, h)
bind_ok (err e) f last h = cc

apply_all-AreLinked :
    (events : List DefEvent) (view view' : DefView) (at : LayerId)
    → All KeepsFields events
    → AreLinked view at
    → apply_all view events at ≡ ok view'
    → AreLinked view' at
unfolding apply_all
apply_all-AreLinked [] view view' at keeps linked h = subst (λ v. AreLinked v at) (ok_inj h) linked
apply_all-AreLinked (e ∷ events) view view' at keeps linked h =
    let (next, first, rest) = bind_ok (apply view e at) (λ v. apply_all v events at) view' h in
    apply_all-AreLinked events next view' at keeps.1
      (apply-AreLinked view at at linked (omega arith) e next keeps.0 first) rest

-- No layer of the list comes before the ones after it.
Ordered : LayerId → List LayerId → Type 0
Ordered low [] = Unit
Ordered low (l ∷ layers) = (low ≤ l) × Ordered l layers

insert_sorted-Ordered :
    (low l : LayerId) (layers : List LayerId)
    → low ≤ l
    → Ordered low layers
    → Ordered low (insert_sorted l layers)
unfolding Ordered insert_sorted
insert_sorted-Ordered low l [] h k = (h, tt)
insert_sorted-Ordered low l (x ∷ layers) h k = elim (Bool-cases (leb l x)) [
  | inl first ↦ rw first (h, (leb→le l x first, k.1))
  | inr after ↦ rw after (k.0, insert_sorted-Ordered x l layers (ground (arith, after)) k.1)
]

sort_ids-Ordered : (layers : List LayerId) → Ordered 0 (sort_ids layers)
unfolding Ordered sort_ids
sort_ids-Ordered [] = tt
sort_ids-Ordered (l ∷ layers) =
    insert_sorted-Ordered 0 l (sort_ids layers) (omega arith) (sort_ids-Ordered layers)

-- The layer deletes no field.
abbrev pub KeepsIn : Inner → LayerId → Type 0
KeepsIn store l = All KeepsFields (read_def_layer store l)

fold_layers-AreLinked :
    (store : Inner) (ceiling low : LayerId) (layers : List LayerId) (view now : DefView)
    → All (KeepsIn store) layers
    → Ordered low layers
    → AreLinked view low
    → fold_layers store ceiling layers view ≡ ok now
    → (at : LayerId) × AreLinked now at
unfolding fold_layers Ordered
fold_layers-AreLinked store ceiling low [] view now keeps order linked h =
    (low, subst (λ v. AreLinked v low) (ok_inj h) linked)
fold_layers-AreLinked store ceiling low (l ∷ layers) view now keeps order linked h =
    elim (Bool-cases (ltb ceiling l)) [
      | inl past ↦ (low, subst (λ v. AreLinked v low) (ok_inj (rw (fold_layers, past) at h)) linked)
      | inr here ↦
          let (next, first, rest) =
            bind_ok (apply_all view (read_def_layer store l) l)
              (λ v. fold_layers store ceiling layers v) now (rw (fold_layers, here) at h) in
          fold_layers-AreLinked store ceiling l layers next now keeps.1 order.1
            (apply_all-AreLinked (read_def_layer store l) view next l keeps.0
              (later-AreLinked view low l linked order.0) first)
            rest
    ]

default-AreLinked : AreLinked default_view 0
unfolding declared chain_of get
default-AreLinked s f = refl

-- What a view says of a field: its chain is linked, from the version at which the field was declared
-- to the version that it has; `path` finds a way up between any two versions on it, and each way that
-- it finds, up or down, leads from the one to the other without a gap.
abbrev pub IsNavigable : DefView → ObjectTypeName → FieldName → FieldDef → Type 0
IsNavigable now s f d =
    (start : DefVersion) × IsLinked (chain_of now s f) start d.version
    × ((from to : DefVersion)
        → IsVersion (chain_of now s f) start from
        → IsVersion (chain_of now s f) start to
        → ((from ≤ to)
            → (hops : List MigrationHop) × (path now (object_prop s f) from to ≡ some hops))
          × ((hops : List MigrationHop)
              → path now (object_prop s f) from to ≡ some hops
              → IsRoute from hops to))

-- Where no def layer of the path deletes a field: in the view folded there, up to any version, the
-- chain of every declared field is linked and ends at the field's version, and between any two
-- versions on it `path` finds a way up, and finds no way, up or down, that has a gap.
pub view_at-IsNavigable :
    (m : Manager) (along_path : ReadPath) (ceiling : LayerId) (now : DefView) (s : ObjectTypeName)
    (f : FieldName) (d : FieldDef)
    → All (KeepsIn m.store) (def_layers m along_path)
    → view_at m along_path ceiling ≡ ok now
    → declared now s f ≡ some d
    → IsNavigable now s f d
unfolding view_at def_layers
view_at-IsNavigable m along_path ceiling now s f d keeps seen is =
    let (at, linked) =
      fold_layers-AreLinked m.store ceiling 0 (def_layers m along_path) default_view now keeps
        (sort_ids-Ordered (along m along_path.segments)) default-AreLinked seen in
    let (low, start, chained) = subst (FieldLinked now at s f) is (linked s f) in
    (start, chained, λ from to on on'. path-IsRoute now s f start d.version from to chained on on')
