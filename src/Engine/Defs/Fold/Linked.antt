-- ===== src/Engine/Defs/Fold/Linked.antt =====
-- That folding events which delete no field keeps every version chain linked.
use borg_core.Prelude.{
  inl, inr, Bool-cases, Option, none, some, Option-cases, List, [], ◌∷◌, push, ◌≡◌, ◌≢◌, ◌≤◌, ◌==◌,
  refl, sym, subst, ◌∙◌, ◌≟◌, string_eq, nat_eq, arith,
}
use borg_core.Prelude.Map.{insert}
use borg_core.Core.Ids.{LayerId, DefVersion, ProducerId, RepoId}
use borg_core.Core.Cell.{FieldName, ObjectTypeName}
use borg_core.Core.Value.{ValueType}
use borg_core.Core.Def.{
  FieldDef, Ownership, source, derived, DefEvent, declare_field, mutate_field, delete_field,
  push_producer,
}
use borg_core.Core.Error.{ok}
use borg_core.Engine.Defs.{VersionStep, DefView, FieldKey, key_of, field_key_eq, declared}
use borg_core.Engine.Defs.Fold.{
  put_field, chain_of, push_step, unchanged, declare_over, mutate_owned, mutate_found, apply,
}
use borg_core.Engine.Defs.Paths.Route.{IsLinked}
use borg_core.Engine.Defs.Fold.Fields.{
  declared-put_field_self, declared-put_field_other, chain_of-push_step_self,
  chain_of-push_step_other, chain_of-put_field, declared-push_step,
}

-- The field's chain is linked and ends at the version it has; a field that is not declared has none.
abbrev pub FieldLinked : DefView → LayerId → ObjectTypeName → FieldName → Option FieldDef → Type 0
FieldLinked view bound s f none = chain_of view s f ≡ []
FieldLinked view bound s f (some d) =
    (d.version ≤ bound) × (start : DefVersion) × IsLinked (chain_of view s f) start d.version

abbrev pub AreLinked : DefView → LayerId → Type 0
AreLinked view bound =
    (s : ObjectTypeName) (f : FieldName) → FieldLinked view bound s f (declared view s f)

-- The event deletes no field.
abbrev pub KeepsFields : DefEvent → Type 0
KeepsFields (delete_field s f repo) = ⊥
KeepsFields _ = Unit

IsLinked-push :
    (chain : List VersionStep) (start last : DefVersion) (step : VersionStep)
    → IsLinked chain start last
    → step.from ≡ last
    → step.from ≤ step.to
    → IsLinked (push chain step) start step.to
IsLinked-push [] start last step h e le = ((e ∙ sym h.0, refl), (ground (arith, le), tt))
IsLinked-push (x ∷ chain) start last step h e le =
    let rest = IsLinked-push chain x.to last step (h.0.1, h.1.1) e le in
    ((h.0.0, rest.0), (h.1.0, rest.1))

-- A view that says the same of the field.
FieldLinked-same :
    (view view' : DefView) (bound at : LayerId) (s : ObjectTypeName) (f : FieldName)
    → bound ≤ at
    → declared view' s f ≡ declared view s f
    → chain_of view' s f ≡ chain_of view s f
    → FieldLinked view bound s f (declared view s f)
    → FieldLinked view' at s f (declared view' s f)
FieldLinked-same view view' bound at s f le d c h = rw d (go (declared view s f) h)
  where
    go :
        (found : Option FieldDef)
        → FieldLinked view bound s f found
        → FieldLinked view' at s f found
    go none k = c ∙ k
    go (some e) k =
        (ground (arith, k.0, le), k.1, subst (λ chain. IsLinked chain k.1 e.version) (sym c) k.2)

pub ok_inj : {T : Type 0} {a b : T} → ok a ≡ ok b → a ≡ b
ok_inj h = cc

module _ (view : DefView) (bound at : LayerId) (linked : AreLinked view bound)
    (le : bound ≤ at) where
  -- One field moves, to what its chain ends at; the others stay.
  moved-AreLinked :
      (view' : DefView) (s : ObjectTypeName) (f : FieldName) (d : FieldDef) (start : DefVersion)
      → declared view' s f ≡ some d
      → d.version ≤ at
      → IsLinked (chain_of view' s f) start d.version
      → ((s' : ObjectTypeName) (f' : FieldName)
          → key_of s f ≢ key_of s' f'
          → (declared view' s' f' ≡ declared view s' f')
            × (chain_of view' s' f' ≡ chain_of view s' f'))
      → AreLinked view' at
  moved-AreLinked view' s f d start is low h others s' f' = elim (key_of s f ≟ key_of s' f') [
    | yes same ↦
        let here : FieldLinked view' at s f (declared view' s f) = rw is (low, start, h) in
        subst
          (λ (k : FieldKey).
            FieldLinked view' at k.struct_name k.field (declared view' k.struct_name k.field))
          same here
    | no apart ↦
        let kept = others s' f' apart in
        FieldLinked-same view view' bound at s' f' le kept.0 kept.1 (linked s' f')
  ]

  pub later-AreLinked : AreLinked view at
  later-AreLinked s f = FieldLinked-same view view bound at s f le refl refl (linked s f)

  declare_over-AreLinked :
      (s : ObjectTypeName) (f : FieldName) (ty : ValueType) (repo : RepoId) (ownership : Ownership)
      (view' : DefView)
      → declare_over view s f ty repo ownership at (declared view s f) ≡ ok view'
      → AreLinked view' at
  unfolding declare_over
  declare_over-AreLinked s f ty repo ownership view' h = elim (Option-cases (declared view s f)) [
    | inl gone ↦
        let d : FieldDef = record {
          name = f;
          ty = ty;
          declaring_repo = repo;
          ownership = ownership;
          version = at;
        } in
        let none_yet : chain_of view s f ≡ [] =
          subst (FieldLinked view bound s f) gone (linked s f) in
        let is : put_field view s f d ≡ view' = ok_inj (rw (declare_over, gone) at h) in
        subst (λ v. AreLinked v at) is
          (moved-AreLinked (put_field view s f d) s f d at (declared-put_field_self view s f d)
            (omega arith)
            (subst (λ chain. IsLinked chain at at)
              (sym none_yet ∙ sym (chain_of-put_field view s s f f d)) (refl, tt))
            (λ s' f' apart. (
              declared-put_field_other view s s' f f' d apart,
              chain_of-put_field view s s' f f' d,
            )))
    | inr (existing, there) ↦ elim (Bool-cases (unchanged existing ty repo ownership)) [
      | inl same ↦
          subst (λ v. AreLinked v at) (ok_inj (rw same at (rw (declare_over, there) at h)))
            later-AreLinked
      | inr differs ↦ cc (rw differs at (rw (declare_over, there) at h))
    ]
  ]

  mutate_owned-AreLinked :
      (s : ObjectTypeName) (f : FieldName) (existing : FieldDef) (ty : ValueType)
      (forward : ProducerId) (backward : Option ProducerId) (owned : Ownership) (view' : DefView)
      → declared view s f ≡ some existing
      → mutate_owned view s f existing ty at forward backward owned ≡ ok view'
      → AreLinked view' at
  unfolding mutate_owned
  mutate_owned-AreLinked s f existing ty forward backward (derived owner) view' there h = cc
  mutate_owned-AreLinked s f existing ty forward backward source view' there h =
      let d : FieldDef = record existing { ty = ty; version = at } in
      let step : VersionStep = record {
        from = existing.version;
        to = at;
        carries_up = forward;
        carries_down = backward;
      } in
      let put = put_field view s f d in
      let (low, start, chained) = subst (FieldLinked view bound s f) there (linked s f) in
      let longer : IsLinked (chain_of (push_step put s f step) s f) start at =
        subst (λ chain. IsLinked chain start at) (sym (chain_of-push_step_self put s f step))
          (IsLinked-push (chain_of put s f) start existing.version step
            (subst (λ chain. IsLinked chain start existing.version)
              (sym (chain_of-put_field view s s f f d)) chained)
            refl (omega (arith, low, le))) in
      subst (λ v. AreLinked v at) (ok_inj h)
        (moved-AreLinked (push_step put s f step) s f d start
          (declared-push_step put s s f f step ∙ declared-put_field_self view s f d) (omega arith)
          longer
          (λ s' f' apart. (
            declared-push_step put s s' f f' step ∙ declared-put_field_other view s s' f f' d apart,
            chain_of-push_step_other put s s' f f' step apart ∙ chain_of-put_field view s s' f f' d,
          )))

  mutate_found-AreLinked :
      (s : ObjectTypeName) (f : FieldName) (ty : ValueType) (repo : RepoId) (forward : ProducerId)
      (backward : Option ProducerId) (view' : DefView)
      → mutate_found view s f ty repo at forward backward (declared view s f) ≡ ok view'
      → AreLinked view' at
  unfolding mutate_found
  mutate_found-AreLinked s f ty repo forward backward view' h =
      elim (Option-cases (declared view s f)) [
        | inl gone ↦ cc (rw (mutate_found, gone) at h)
        | inr (existing, there) ↦
            let h' = rw (mutate_found, there) at h in
            elim (Bool-cases (existing.declaring_repo == repo)) [
              | inl mine ↦
                  mutate_owned-AreLinked s f existing ty forward backward existing.ownership view'
                    there (rw mine at h')
              | inr theirs ↦ cc (rw theirs at h')
            ]
      ]

  -- An event that deletes no field, folded in at a layer that is no older than the view.
  pub apply-AreLinked :
      (event : DefEvent) (view' : DefView)
      → KeepsFields event
      → apply view event at ≡ ok view'
      → AreLinked view' at
  unfolding apply declared chain_of
  apply-AreLinked (declare_field s f ty repo ownership) view' keeps h =
      declare_over-AreLinked s f ty repo ownership view' h
  apply-AreLinked (mutate_field s f ty repo forward backward) view' keeps h =
      mutate_found-AreLinked s f ty repo forward backward view' h
  apply-AreLinked (delete_field s f repo) view' keeps h = absurd keeps
  apply-AreLinked (push_producer p) view' keeps h =
      subst (λ v. AreLinked v at) (ok_inj h)
        (λ s f.
          FieldLinked-same view
            (record view { producers = insert view.producers p.id (record p { version = at }) })
            bound at s f le refl refl (linked s f))
