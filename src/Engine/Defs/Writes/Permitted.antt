-- ===== src/Engine/Defs/Writes/Permitted.antt =====
-- What `check_write` lets through.
use borg_core.Prelude.{
  some_inj, true, Option, none, some, Option-cases, List, [], ◌∷◌, In, ◌≡◌, ◌↔◌, ◌⊎◌, inl, inr,
  refl, sym, subst, Bool-cases, any, unwrap_or, string_eq, arith,
}
use borg_core.Prelude.Map.{get}
use borg_core.Core.Ids.{ProducerId}
use borg_core.Core.Cell.{
  BufferId, CellRef, FieldName, ObjectTypeName, Writer, client, producer, object, object_prop,
}
use borg_core.Core.Value.{Value, ValueType, accepts}
use borg_core.Core.Value.Types.{HasType, accepts_iff}
use borg_core.Core.Def.{FieldDef, ObjectDef, Ownership, source, derived}
use borg_core.Core.Error.{Result, ok, err, ◌>>◌}
use borg_core.Engine.Defs.{VersionStep, DefView, declared, field, key_of, field_key_eq}
use borg_core.Engine.Defs.Writes.{
  named_by, migrates, permitted, check_ownership, check_type, check_declared, check_prop,
  check_existence, check_buffer, check_write,
}

-- A step of the field's chain names the producer, as its way up or its way down.
abbrev pub Migrates : DefView → ObjectTypeName → FieldName → ProducerId → Type 0
Migrates view s f p =
    (chain : List VersionStep) × (step : VersionStep) × (get view.chains (key_of s f) ≡ some chain)
    × In step chain
    × ((step.carries_up ≡ p) ⊎ (step.carries_down ≡ some p))

-- Clients write source fields; a producer writes the fields that it owns, and the source fields
-- that it migrates.
abbrev pub MayWrite : DefView → ObjectTypeName → FieldName → Ownership → Writer → Type 0
MayWrite view s f owned client = owned ≡ source
MayWrite view s f owned (producer p) =
    (owned ≡ derived p) ⊎ ((owned ≡ source) × Migrates view s f p)

abbrev pub PermittedAt : DefView → CellRef → Value → Writer → DefView → BufferId → Type 0
PermittedAt view cell value writer authority (object_prop s f) =
    (d : FieldDef) × (declared view s f ≡ some d)
    × MayWrite authority s f (unwrap_or (field authority cell) d).ownership writer
    × HasType d.ty value
PermittedAt view cell value writer authority (object s) =
    (o : ObjectDef) × (get view.objects s ≡ some o) × HasType ValueType.bool value
PermittedAt view cell value writer authority _ = Unit

abbrev pub IsPermitted : DefView → CellRef → Value → Writer → DefView → Type 0
IsPermitted view cell value writer authority =
    PermittedAt view cell value writer authority cell.buffer

named_by_iff :
    (p : ProducerId) (step : VersionStep)
    → (named_by p step ≡ true) ↔ ((step.carries_up ≡ p) ⊎ (step.carries_down ≡ some p))
unfolding named_by
named_by_iff p step = ground arith

any_iff :
    (p : ProducerId) (chain : List VersionStep)
    → (any (named_by p) chain ≡ true) ↔ (
        (step : VersionStep) × In step chain
        × ((step.carries_up ≡ p) ⊎ (step.carries_down ≡ some p)))
any_iff p [] = (λ h. cc, λ h. absurd h.1)
any_iff p (x ∷ xs) = (
  λ h. elim (Bool-cases (named_by p x)) [
    | inl here ↦ (x, inl refl, (named_by_iff p x).0 here)
    | inr past ↦ let (step, m, e) = (any_iff p xs).0 (rw past at h) in (step, inr m, e)
  ],
  λ h. elim h.1 [
    | inl e ↦
        rw
          ((named_by_iff p x).1
            (subst (λ (y : VersionStep). (y.carries_up ≡ p) ⊎ (y.carries_down ≡ some p)) e h.2))
          refl
    | inr m ↦ elim (Bool-cases (named_by p x)) [
      | inl here ↦ rw here refl
      | inr past ↦ rw past ((any_iff p xs).1 (h.0, m, h.2))
    ]
  ],
)

migrates_iff :
    (view : DefView) (s : ObjectTypeName) (f : FieldName) (p : ProducerId)
    → (migrates view s f p ≡ true) ↔ Migrates view s f p
unfolding migrates
migrates_iff view s f p = elim (Option-cases (get view.chains (key_of s f))) [
  | inl none_there ↦ (λ h. cc (rw (migrates, none_there) at h), λ h. cc (h.2, none_there))
  | inr (chain, there) ↦ (
    λ h.
        let (step, m, e) = (any_iff p chain).0 (rw (migrates, there) at h) in
        (chain, step, there, m, e),
    λ h. rw (migrates, h.2) ((any_iff p h.0).1 (h.1, h.3, h.4)),
  )
]

permitted_iff :
    (view : DefView) (s : ObjectTypeName) (f : FieldName) (owned : Ownership) (writer : Writer)
    → (permitted view s f owned writer ≡ true) ↔ MayWrite view s f owned writer
unfolding permitted
permitted_iff view s f source client = (λ h. refl, λ h. refl)
permitted_iff view s f (derived owner) client = (λ h. cc, λ h. cc)
permitted_iff view s f source (producer p) = (
  λ h. inr (refl, (migrates_iff view s f p).0 h),
  λ h. elim h [ inl e ↦ cc | inr (e, m) ↦ (migrates_iff view s f p).1 m ],
)
permitted_iff view s f (derived owner) (producer p) =
    (λ h. inl (ground (arith, h)), λ h. elim h [ inl e ↦ ground (arith, e) | inr (e, m) ↦ cc (e) ])

check_type_iff :
    (cell : CellRef) (ty : ValueType) (value : Value)
    → (check_type cell ty value ≡ ok tt) ↔ HasType ty value
unfolding check_type
check_type_iff cell ty value = elim (Bool-cases (accepts ty value)) [
  | inl t ↦ rw t (λ h. (accepts_iff ty value).0 t, λ h. refl)
  | inr f ↦ rw f (λ h. cc, λ h. cc (f, (accepts_iff ty value).1 h))
]

check_ownership_iff :
    (view : DefView) (cell : CellRef) (s : ObjectTypeName) (f : FieldName) (d : FieldDef)
    (writer : Writer)
    → (check_ownership view cell s f d writer ≡ ok tt) ↔ MayWrite view s f d.ownership writer
unfolding check_ownership
check_ownership_iff view cell s f d writer =
    elim (Bool-cases (permitted view s f d.ownership writer)) [
      | inl t ↦ (λ h. (permitted_iff view s f d.ownership writer).0 t, λ h. rw t refl)
      | inr no_right ↦ (
        λ h. cc (rw no_right at h),
        λ h. cc (no_right, (permitted_iff view s f d.ownership writer).1 h),
      )
    ]

both_iff : (m k : Result (Unit {0})) → ((m >> k) ≡ ok tt) ↔ ((m ≡ ok tt) × (k ≡ ok tt))
both_iff (err e) k = (λ h. cc, λ h. cc (h.0))
both_iff (ok done) k = (λ h. (refl, h), λ h. h.1)

declared_iff :
    (cell : CellRef) (s : ObjectTypeName) (f : FieldName) (value : Value) (writer : Writer)
    (authority : DefView) (found : Option FieldDef)
    → (check_declared cell s f value writer authority found ≡ ok tt) ↔ (
        (d : FieldDef) × (found ≡ some d)
        × MayWrite authority s f (unwrap_or (field authority cell) d).ownership writer
        × HasType d.ty value)
unfolding check_declared
declared_iff cell s f value writer authority none = (λ h. cc, λ h. cc (h.1))
declared_iff cell s f value writer authority (some d) =
    let owns = check_ownership_iff authority cell s f (unwrap_or (field authority cell) d) writer in
    let typed = check_type_iff cell d.ty value in
    let both =
      both_iff (check_ownership authority cell s f (unwrap_or (field authority cell) d) writer)
        (check_type cell d.ty value) in
    (
      λ h. let (may, fits) = both.0 h in (d, refl, owns.0 may, typed.0 fits),
      λ h.
          let e = some_inj h.1 in
          both.1 (
            owns.1 (
                subst
                  (λ (x : FieldDef).
                    MayWrite authority s f (unwrap_or (field authority cell) x).ownership writer)
                  (sym e) h.2),
            typed.1 (subst (λ (x : FieldDef). HasType x.ty value) (sym e) h.3),
          ),
    )

prop_iff :
    (view : DefView) (cell : CellRef) (s : ObjectTypeName) (f : FieldName) (value : Value)
    (writer : Writer) (authority : DefView)
    → (check_prop cell s f value writer authority (get view.objects s) ≡ ok tt)
      ↔ PermittedAt view cell value writer authority (object_prop s f)
unfolding check_prop declared
prop_iff view cell s f value writer authority = elim (Option-cases (get view.objects s)) [
  | inl gone ↦ rw (check_prop, declared, gone) (λ h. cc, λ h. cc (h.1))
  | inr (o, there) ↦
      rw (check_prop, declared, there)
        (declared_iff cell s f value writer authority (get o.fields f))
]

existence_iff :
    (view : DefView) (cell : CellRef) (s : ObjectTypeName) (value : Value) (writer : Writer)
    (authority : DefView)
    → (check_existence cell s value (get view.objects s) ≡ ok tt)
      ↔ PermittedAt view cell value writer authority (object s)
unfolding check_existence
existence_iff view cell s value writer authority = elim (Option-cases (get view.objects s)) [
  | inl gone ↦ rw (check_existence, gone) (λ h. cc, λ h. cc (h.1))
  | inr (o, there) ↦
      let typed = check_type_iff cell ValueType.bool value in
      rw (check_existence, there) (λ h. (o, refl, typed.0 h), λ h. typed.1 h.2)
]

buffer_iff :
    (view : DefView) (cell : CellRef) (value : Value) (writer : Writer) (authority : DefView)
    (buffer : BufferId)
    → (check_buffer view cell value writer authority buffer ≡ ok tt)
      ↔ PermittedAt view cell value writer authority buffer
unfolding check_buffer
buffer_iff view cell value writer authority (object_prop s f) =
    prop_iff view cell s f value writer authority
buffer_iff view cell value writer authority (object s) =
    existence_iff view cell s value writer authority
buffer_iff view cell value writer authority (BufferId.list s) = (λ h. tt, λ h. refl)
buffer_iff view cell value writer authority (BufferId.list_elem s) = (λ h. tt, λ h. refl)
buffer_iff view cell value writer authority BufferId.any_object = (λ h. tt, λ h. refl)
buffer_iff view cell value writer authority BufferId.any_array = (λ h. tt, λ h. refl)

-- A write to a struct's field is accepted exactly when the writer's view declares the field, the
-- value has the declared type, and the writer may write it: a client a source field, a producer a
-- field that it owns or a source field that it is a migration of, by the branch's own declaration
-- where it has one. The existence cell of a struct that the view declares takes either Boolean, or a
-- tombstone, from any writer. Lists and untyped containers take any value from any writer, declared
-- or not.
pub check_write-IsPermitted :
    (view : DefView) (cell : CellRef) (value : Value) (writer : Writer) (authority : DefView)
    → (check_write view cell value writer authority ≡ ok tt)
      ↔ IsPermitted view cell value writer authority
unfolding check_write
check_write-IsPermitted view cell value writer authority =
    buffer_iff view cell value writer authority cell.buffer
