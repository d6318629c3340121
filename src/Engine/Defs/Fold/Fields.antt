-- ===== src/Engine/Defs/Fold/Fields.antt =====
-- What a field and its chain are after a write to one field of a view.
use borg_core.Prelude.{
  inl, inr, some, Option-cases, push, ◌≡◌, ◌≢◌, refl, subst, ◌∙◌, unwrap_or, ◌≟◌, string_eq, nat_eq,
}
use borg_core.Prelude.Map.{get, get-insert_self, get-insert_ne}
use borg_core.Core.Cell.{FieldName, ObjectTypeName}
use borg_core.Core.Def.{FieldDef}
use borg_core.Engine.Defs.{VersionStep, DefView, key_of, field_key_eq, declared}
use borg_core.Engine.Defs.Fold.{object_or_new, put_field, chain_of, push_step}

pub declared-put_field_self :
    (view : DefView) (s : ObjectTypeName) (f : FieldName) (d : FieldDef)
    → declared (put_field view s f d) s f ≡ some d
unfolding declared put_field
declared-put_field_self view s f d =
    rw (declared, get-insert_self view.objects s _)
      (get-insert_self (object_or_new view s).fields f d)

object_or_new-fields :
    (view : DefView) (s : ObjectTypeName) (f : FieldName)
    → get (object_or_new view s).fields f ≡ declared view s f
unfolding declared get
object_or_new-fields view s f = elim (Option-cases (get view.objects s)) [
  | inl gone ↦ rw (declared, gone) refl
  | inr (o, there) ↦ rw (declared, there) refl
]

pub declared-put_field_same :
    (view : DefView) (s : ObjectTypeName) (f f' : FieldName) (d : FieldDef)
    → f ≢ f'
    → declared (put_field view s f d) s f' ≡ declared view s f'
unfolding declared put_field
declared-put_field_same view s f f' d other =
    rw (declared, get-insert_self view.objects s _)
      (get-insert_ne (object_or_new view s).fields f f' d other ∙ object_or_new-fields view s f')

pub declared-put_field_other :
    (view : DefView) (s s' : ObjectTypeName) (f f' : FieldName) (d : FieldDef)
    → key_of s f ≢ key_of s' f'
    → declared (put_field view s f d) s' f' ≡ declared view s' f'
unfolding declared put_field
declared-put_field_other view s s' f f' d other = elim (s ≟ s') [
  | yes same ↦
      subst (λ (t : ObjectTypeName). declared (put_field view s f d) t f' ≡ declared view t f') same
        (declared-put_field_same view s f f' d (λ e. other (cc (same, e))))
  | no apart ↦ rw (declared, get-insert_ne view.objects s s' _ apart) refl
]

pub chain_of-push_step_self :
    (view : DefView) (s : ObjectTypeName) (f : FieldName) (step : VersionStep)
    → chain_of (push_step view s f step) s f ≡ push (chain_of view s f) step
unfolding chain_of push_step
chain_of-push_step_self view s f step =
    rw (unwrap_or, get-insert_self view.chains (key_of s f) _) refl

pub chain_of-push_step_other :
    (view : DefView) (s s' : ObjectTypeName) (f f' : FieldName) (step : VersionStep)
    → key_of s f ≢ key_of s' f'
    → chain_of (push_step view s f step) s' f' ≡ chain_of view s' f'
unfolding chain_of push_step
chain_of-push_step_other view s s' f f' step other =
    rw (unwrap_or, get-insert_ne view.chains (key_of s f) (key_of s' f') _ other) refl

pub chain_of-put_field :
    (view : DefView) (s s' : ObjectTypeName) (f f' : FieldName) (d : FieldDef)
    → chain_of (put_field view s f d) s' f' ≡ chain_of view s' f'
unfolding chain_of put_field
chain_of-put_field view s s' f f' d = refl

pub declared-push_step :
    (view : DefView) (s s' : ObjectTypeName) (f f' : FieldName) (step : VersionStep)
    → declared (push_step view s f step) s' f' ≡ declared view s' f'
unfolding declared push_step
declared-push_step view s s' f f' step = refl
