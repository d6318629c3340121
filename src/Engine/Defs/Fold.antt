-- ===== src/Engine/Defs/Fold.antt =====
-- defs.rs: `DefView::apply`, which folds one event into the view.
pub mod Fields
pub mod Linked
use borg_core.Prelude.{
  ℕ, Bool, true, false, Option, none, some, List, [], ◌∷◌, ◌&&◌, if◌then◌else◌, same, ◌==◌, nat_eq,
  string_eq, unwrap_or, push, not,
}
use borg_core.Prelude.Map.{Map, get, insert, remove}
use borg_core.Core.Ids.{LayerId, ProducerId, RepoId}
use borg_core.Core.Cell.{FieldName, ObjectTypeName}
use borg_core.Core.Value.{ValueType, value_type_eq}
use borg_core.Core.Def.{
  FieldDef, ObjectDef, ProducerDef, Ownership, source, derived, ownership_eq, DefEvent,
  declare_field, mutate_field, delete_field, push_producer,
}
use borg_core.Core.Error.{
  Result, ok, err, ◌>>=◌, field_collision, not_declaring_repo, missing_migration,
  migration_on_derived_field,
}
use borg_core.Engine.Defs.{VersionStep, DefView, FieldKey, key_of, field_key_eq, declared}

abbrev pub empty_object : ObjectTypeName → ObjectDef
empty_object s = record { name = s; fields = [] }

-- The fields of a struct, through `entry(s).or_insert(..)`.
abbrev pub object_or_new : DefView → ObjectTypeName → ObjectDef
object_or_new view s = unwrap_or (get view.objects s) (empty_object s)

unfoldable pub put_field : DefView → ObjectTypeName → FieldName → FieldDef → DefView
put_field view s f d =
    let object = object_or_new view s in
    record view {
      objects = insert view.objects s (record object { fields = insert object.fields f d });
    }

unchanged : FieldDef → ValueType → RepoId → Ownership → Bool
unchanged existing ty repo ownership =
    (existing.declaring_repo == repo) && (same existing.ty ty && same existing.ownership ownership)

-- A field that is declared already: its struct has an entry.
declare_over :
    DefView
    → ObjectTypeName
    → FieldName
    → ValueType
    → RepoId
    → Ownership
    → LayerId
    → Option FieldDef
    → Result DefView
unfolding unchanged
declare_over view s f ty repo ownership at none = ok (
    put_field view s f
      (record { name = f; ty = ty; declaring_repo = repo; ownership = ownership; version = at }))
declare_over view s f ty repo ownership at (some existing) =
    if unchanged existing ty repo ownership
    then ok view
    else err (field_collision s f existing.declaring_repo)

unfoldable pub chain_of : DefView → ObjectTypeName → FieldName → List VersionStep
chain_of view s f = unwrap_or (get view.chains (key_of s f)) []

-- `chains.entry(..).or_default().push(..)`.
unfoldable pub push_step : DefView → ObjectTypeName → FieldName → VersionStep → DefView
push_step view s f step = record view {
  chains = insert view.chains (key_of s f) (push (chain_of view s f) step);
}

mutate_owned :
    DefView
    → ObjectTypeName
    → FieldName
    → FieldDef
    → ValueType
    → LayerId
    → ProducerId
    → Option ProducerId
    → Ownership
    → Result DefView
mutate_owned view s f existing ty at forward backward (derived owner) =
    err (migration_on_derived_field s f owner)
mutate_owned view s f existing ty at forward backward source = ok (
    push_step (put_field view s f (record existing { ty = ty; version = at })) s f
      (record { from = existing.version; to = at; carries_up = forward; carries_down = backward }))

mutate_found :
    DefView
    → ObjectTypeName
    → FieldName
    → ValueType
    → RepoId
    → LayerId
    → ProducerId
    → Option ProducerId
    → Option FieldDef
    → Result DefView
unfolding mutate_owned
mutate_found view s f ty repo at forward backward none = err (missing_migration s f)
mutate_found view s f ty repo at forward backward (some existing) =
    if existing.declaring_repo == repo
    then mutate_owned view s f existing ty at forward backward existing.ownership
    else err (not_declaring_repo repo existing.declaring_repo s f)

drop_field : DefView → ObjectTypeName → FieldName → ObjectDef → DefView
drop_field view s f object = record view {
  objects = insert view.objects s (record object { fields = remove object.fields f });
}

delete_from :
    DefView → ObjectTypeName → FieldName → RepoId → ObjectDef → Option FieldDef → Result DefView
unfolding drop_field
delete_from view s f repo object none = ok (drop_field view s f object)
delete_from view s f repo object (some existing) =
    if existing.declaring_repo == repo
    then ok (drop_field view s f object)
    else err (not_declaring_repo repo existing.declaring_repo s f)

delete_in : DefView → ObjectTypeName → FieldName → RepoId → Option ObjectDef → Result DefView
unfolding delete_from
delete_in view s f repo none = ok view
delete_in view s f repo (some object) = delete_from view s f repo object (get object.fields f)

unfoldable pub apply : DefView → DefEvent → LayerId → Result DefView
unfolding declare_over mutate_found delete_in
apply view (declare_field s f ty repo ownership) at =
    declare_over view s f ty repo ownership at (declared view s f)
apply view (mutate_field s f ty repo forward backward) at =
    mutate_found view s f ty repo at forward backward (declared view s f)
apply view (delete_field s f repo) at = delete_in view s f repo (get view.objects s)
apply view (push_producer d) at =
    ok (record view { producers = insert view.producers d.id (record d { version = at }) })

-- `for event in events { view.apply(event, at)?; }`
unfoldable pub apply_all : DefView → List DefEvent → LayerId → Result DefView
apply_all view [] at = ok view
apply_all view (event ∷ events) at = apply view event at >>= λ next. apply_all next events at
