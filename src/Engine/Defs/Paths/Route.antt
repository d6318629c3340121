-- ===== src/Engine/Defs/Paths/Route.antt =====
-- What `path` answers on a linked chain.
use borg_core.Prelude.{
  some_inj, inl, inr, ltb, ℕ, Bool, true, false, Bool-cases, Option, none, some, Option-cases, List,
  [], ◌∷◌, ◌++◌, ◌≡◌, ◌≤◌, ◌&&◌, ◌==◌, ltb, leb, ==_iff, refl, sym, ap, subst, ◌∙◌, map, keep,
  unwrap_or, arith,
}
use borg_core.Prelude.Map.{get}
use borg_core.Core.Ids.{DefVersion}
use borg_core.Core.Cell.{FieldName, ObjectTypeName, object_prop}
use borg_core.Engine.Defs.{VersionStep, MigrationHop, DefView, key_of, field_key_eq}
use borg_core.Engine.Defs.Fold.{chain_of}
use borg_core.Engine.Defs.Paths.{
  hop_up, hops_up, hop_down, hops_down, collect_down, walk, path_on, path,
}
use borg_core.Engine.Defs.Paths.Walk.{Edge, Joins, On, Ascends, between, walk_between}
use borg_core.Engine.Defs.Paths.Backward.{backward, Joins-backward, Ascends-backward, On-backward}
use mathlib.Core.List.{reverse, reverse-cons, map-append}

abbrev pub up_edge : VersionStep → Edge
up_edge s = (s.from, s.to)

abbrev pub down_edge : VersionStep → Edge
down_edge s = (s.to, s.from)

abbrev pub edges : List VersionStep → List Edge
edges chain = map up_edge chain

-- Hops that start at `a`, each where the last one ended, and end at `b`.
abbrev pub IsRoute : DefVersion → List MigrationHop → DefVersion → Type 0
IsRoute a [] b = a ≡ b
IsRoute a (h ∷ hs) b = (h.from ≡ a) × IsRoute h.to hs b

keep-map :
    (g : VersionStep → Edge) (p : Edge → Bool) (steps : List VersionStep)
    → map g (keep (λ s. p (g s)) steps) ≡ keep p (map g steps)
keep-map g p [] = refl
keep-map g p (s ∷ steps) = elim (Bool-cases (p (g s))) [
  | inl t ↦ rw t (ap (λ (es : List Edge). g s ∷ es) (keep-map g p steps))
  | inr f ↦ rw f (keep-map g p steps)
]

edges-reverse : (chain : List VersionStep) → map down_edge (reverse chain) ≡ backward (edges chain)
edges-reverse [] = refl
edges-reverse (s ∷ chain) = rw (reverse-cons s chain) (
    map-append down_edge (reverse chain) (s ∷ [])
    ∙ ap (λ (es : List Edge). es ++ (down_edge s ∷ [])) (edges-reverse chain))

up-IsRoute :
    (a b : DefVersion) (steps : List VersionStep)
    → Joins a (map up_edge steps) b
    → IsRoute a (map hop_up steps) b
unfolding hop_up
up-IsRoute a b [] j = j
up-IsRoute a b (s ∷ steps) j = (j.0, up-IsRoute s.to b steps j.1)

down-IsRoute :
    (a b : DefVersion) (steps : List VersionStep) (hops : List MigrationHop)
    → Joins a (map down_edge steps) b
    → collect_down steps ≡ some hops
    → IsRoute a hops b
unfolding collect_down hop_down
down-IsRoute a b [] hops j e = subst (λ hs. IsRoute a hs b) (some_inj e) j
down-IsRoute a b (s ∷ steps) hops j e = elim (Option-cases s.carries_down) [
  | inl gone ↦ cc (rw (hop_down, gone) at e)
  | inr (p, there) ↦
      let e' = rw (hop_down, there) at e in
      elim (Option-cases (collect_down steps)) [
        | inl gone ↦ cc (rw gone at e')
        | inr (rest, found) ↦
            subst (λ hs. IsRoute a hs b) (some_inj (rw found at e'))
              (j.0, down-IsRoute s.from b steps rest j.1 found)
      ]
]

-- The chain of a field, linked from `start` to `last`, with no step that goes back.
abbrev pub IsLinked : List VersionStep → DefVersion → DefVersion → Type 0
IsLinked chain start last = Joins start (edges chain) last × Ascends leb (edges chain)

-- A version that the field has had.
abbrev pub IsVersion : List VersionStep → DefVersion → DefVersion → Type 0
IsVersion chain start version = On version start (edges chain)

hops_up-IsRoute :
    (chain : List VersionStep) (start last from to : DefVersion)
    → IsLinked chain start last
    → IsVersion chain start from
    → IsVersion chain start to
    → leb from to ≡ true
    → IsRoute from (hops_up from to chain) to
unfolding hops_up
hops_up-IsRoute chain start last from to linked on on' ab =
    up-IsRoute from to (keep (λ s. leb from s.from && leb s.to to) chain) (
      subst (λ es. Joins from es to) (sym (keep-map up_edge (between leb from to) chain))
        (walk_between leb (λ a. ground arith) (λ a b h k. ground (arith, h, k))
          (λ a b c h k. ground (arith, h, k)) from to start last (edges chain) linked.0 linked.1 on
          on' ab))

hops_down-IsRoute :
    (chain : List VersionStep) (start last from to : DefVersion) (hops : List MigrationHop)
    → IsLinked chain start last
    → IsVersion chain start from
    → IsVersion chain start to
    → leb to from ≡ true
    → hops_down from to chain ≡ some hops
    → IsRoute from hops to
unfolding hops_down
hops_down-IsRoute chain start last from to hops linked on on' ab e =
    let geb : ℕ → ℕ → Bool = λ a b. leb b a in
    let back = backward (edges chain) in
    let joined : Joins from (keep (between geb from to) back) to =
      walk_between geb (λ a. ground arith) (λ a b h k. ground (arith, h, k))
        (λ a b c h k. ground (arith, h, k)) from to last start back
        (Joins-backward start last (edges chain) linked.0)
        (Ascends-backward leb (edges chain) linked.1)
        (On-backward from start last (edges chain) linked.0 on)
        (On-backward to start last (edges chain) linked.0 on') ab in
    down-IsRoute from to (keep (λ s. leb s.to from && leb to s.from) (reverse chain)) hops
      (subst (λ es. Joins from es to)
        (sym (
          keep-map down_edge (between geb from to) (reverse chain)
          ∙ ap (keep (between geb from to)) (edges-reverse chain)))
        joined)
      e

Leads : DefVersion → DefVersion → Option (List MigrationHop) → Type 0
Leads from to found =
    ((from ≤ to) → (hops : List MigrationHop) × (found ≡ some hops))
    × ((hops : List MigrationHop) → found ≡ some hops → IsRoute from hops to)

walk-Leads :
    (found : Option (List VersionStep)) (start last from to : DefVersion)
    → IsLinked (unwrap_or found []) start last
    → IsVersion (unwrap_or found []) start from
    → IsVersion (unwrap_or found []) start to
    → (from == to) ≡ false
    → Leads from to (walk from to found)
unfolding Leads walk
walk-Leads none start last from to linked on on' differ = absurd (ground (arith, on, on', differ))
walk-Leads (some chain) start last from to linked on on' differ = elim (Bool-cases (ltb from to)) [
  | inl older ↦ rw older (
    λ h. (hops_up from to chain, refl),
    λ hops e.
        subst (λ hs. IsRoute from hs to) (some_inj e)
          (hops_up-IsRoute chain start last from to linked on on' (ground (arith, older))),
  )
  | inr newer ↦ rw newer (
    λ h. absurd (ground (arith, h, newer, differ)),
    λ hops e.
        hops_down-IsRoute chain start last from to hops linked on on' (ground (arith, newer)) e,
  )
]

-- Between two versions that the field has had, on a linked chain: `path` finds a way up whenever
-- the second is not the older one, and whatever way it finds, up or down, is a sequence of hops
-- that leads from the one version to the other without a gap.
pub path-IsRoute :
    (view : DefView) (s : ObjectTypeName) (f : FieldName) (start last from to : DefVersion)
    → IsLinked (chain_of view s f) start last
    → IsVersion (chain_of view s f) start from
    → IsVersion (chain_of view s f) start to
    → ((from ≤ to) → (hops : List MigrationHop) × (path view (object_prop s f) from to ≡ some hops))
      × ((hops : List MigrationHop)
          → path view (object_prop s f) from to ≡ some hops
          → IsRoute from hops to)
unfolding path path_on chain_of Leads
path-IsRoute view s f start last from to linked on on' = elim (Bool-cases (from == to)) [
  | inl same ↦ rw same (
    λ h. ([], refl),
    λ hops e. subst (λ hs. IsRoute from hs to) (some_inj e) ((==_iff from to).0 same),
  )
  | inr differ ↦
      rw differ (walk-Leads (get view.chains (key_of s f)) start last from to linked on on' differ)
]
