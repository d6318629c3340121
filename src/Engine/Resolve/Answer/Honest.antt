-- ===== src/Engine/Resolve/Answer/Honest.antt =====
-- What a derived value that is called current promises.
use borg_core.Prelude.{
  ◌≤◌, ◌≡◌, ◌⊎◌, inl, inr, ◌≢◌, Bool, true, false, Option, none, some, All, refl, subst, ap, sym,
  ◌∙◌, leb, leb→le, unwrap_or, if◌then◌else◌,
}
use borg_core.Core.Ids.{BranchId, LayerId, DefVersion, ProducerId}
use borg_core.Core.Cell.{CellRef, Landed, Derivation}
use borg_core.Core.Value.{Value, is_tombstone}
use borg_core.Core.Layer.{ReadPath, ceiling}
use borg_core.Core.Freshness.{
  Freshness, FreshnessRequirement, Resolved, unvalidated, stale, broken, tombstoned,
}
use borg_core.Core.Error.{Result, ok, err, ◌>>=◌}
use borg_core.Engine.Log.{Manager, read_path}
use borg_core.Engine.Poison.{Broken, Poisoning}
use borg_core.Engine.Resolve.Answer.{
  answer, answer_found, answer_by, state_of, poisoning, derived_answer, final_state,
}
use borg_core.Engine.Resolve.Validate.Ends.{Unmoved, IsHonest}
use borg_core.Engine.Resolve.Validate.{Validation, Composed, validated}
use borg_core.Engine.Resolve.Validate.Honest.{validated-IsHonest}
use borg_core.Storage.Memory.State.{Inner}
use borg_core.Storage.Memory.Provider.{get_cell}
use borg_core.Storage.Memory.Sound.{IsSound}

-- The stored watermark is at the layer or past it, or no dependency has moved.
abbrev pub IsUpToDate : Inner → ReadPath → Derivation → LayerId → Type 0
IsUpToDate store q by layer =
    (layer ≤ by.fresh_as_of) ⊎ All (Unmoved store q by.fresh_as_of) by.read_set

-- What validation calls current is so.
claimed-IsUpToDate :
    (store : Inner) (q : ReadPath) (by : Derivation) (layer : LayerId) (w : LayerId)
    → IsHonest store q by.fresh_as_of layer by.read_set w
    → leb layer w ≡ true
    → IsUpToDate store q by layer
claimed-IsUpToDate store q by layer w (inl e) at =
    inl (subst (λ l. layer ≤ l) e (leb→le layer w at))
claimed-IsUpToDate store q by layer w (inr (below, unmoved)) at = inr unmoved

abbrev judged : Bool → LayerId → LayerId → Freshness → Result (Freshness × LayerId)
judged b layer w otherwise = ok (if b then (Freshness.current, layer) else (otherwise, w))

-- A verdict that is current came from the layer reached.
reached :
    (b : Bool) (layer w fresh_as_of : LayerId) (otherwise : Freshness)
    → otherwise ≢ Freshness.current
    → judged b layer w otherwise ≡ ok (Freshness.current, fresh_as_of)
    → b ≡ true
reached true layer w fresh_as_of otherwise other h = refl
reached false layer w fresh_as_of otherwise other h = absurd (other (cc (h)))

abbrev verdict_at : LayerId → LayerId × Composed → Result (Freshness × LayerId)
verdict_at layer r = judged (leb layer r.0) layer r.0 stale

validated-IsUpToDate :
    (store : Inner) (q : ReadPath) (by : Derivation) (layer : LayerId) (fresh_as_of : LayerId)
    → IsSound store
    → (validated store q by.read_set by.fresh_as_of layer >>= verdict_at layer)
      ≡ ok (Freshness.current, fresh_as_of)
    → IsUpToDate store q by layer
validated-IsUpToDate store q by layer fresh_as_of sound h =
    let (w, composed, e, honest) =
      validated-IsHonest store q by.read_set by.fresh_as_of layer sound in
    claimed-IsUpToDate store q by layer w honest (
      reached (leb layer w) layer w fresh_as_of stale (λ x. cc (x))
        (sym (ap (λ (v : Validation). v >>= verdict_at layer) e) ∙ h))

state_of-IsUpToDate :
    (requirement : FreshnessRequirement) (store : Inner) (q : ReadPath) (by : Derivation)
    (layer : LayerId) (fresh_as_of : LayerId)
    → IsSound store
    → state_of requirement store q by layer ≡ ok (Freshness.current, fresh_as_of)
    → IsUpToDate store q by layer
unfolding state_of
state_of-IsUpToDate FreshnessRequirement.any store q by layer fresh_as_of sound h = inl (
    leb→le layer by.fresh_as_of (
      reached (leb layer by.fresh_as_of) layer by.fresh_as_of fresh_as_of unvalidated (λ x. cc (x))
        h))
state_of-IsUpToDate FreshnessRequirement.validated store q by layer fresh_as_of sound h =
    validated-IsUpToDate store q by layer fresh_as_of sound h
state_of-IsUpToDate FreshnessRequirement.current store q by layer fresh_as_of sound h =
    validated-IsUpToDate store q by layer fresh_as_of sound h

kept :
    (b : Bool) (over verdict : Freshness)
    → over ≢ Freshness.current
    → (if b then over else verdict) ≡ Freshness.current
    → verdict ≡ Freshness.current
kept true over verdict other h = absurd (other h)
kept false over verdict other h = h

-- Neither a tombstone nor a poisoning leaves a verdict current that was not.
final_state-current :
    (v : Value) (poison : Option Poisoning) (verdict : Freshness)
    → final_state v poison verdict ≡ Freshness.current
    → verdict ≡ Freshness.current
unfolding final_state
final_state-current v none verdict h = kept (is_tombstone v) tombstoned verdict (λ e. cc (e)) h
final_state-current v (some p) verdict h =
    cc (kept (is_tombstone v) tombstoned broken (λ e. cc (e)) h)

decided :
    (a : Result (Freshness × LayerId)) (b : Result (Option Poisoning)) (found : Landed)
    (producer : ProducerId) (r : Resolved)
    → (a >>= λ verdict. b >>= λ poison. ok (derived_answer found producer poison verdict)) ≡ ok r
    → r.state ≡ Freshness.current
    → (fresh_as_of : LayerId) × (a ≡ ok (Freshness.current, fresh_as_of))
unfolding derived_answer
decided (err e) b found producer r h is = cc (h)
decided (ok verdict) (err e) found producer r h is = cc (h)
decided (ok (verdict, fresh_as_of)) (ok poison) found producer r h is = (
  fresh_as_of,
  ap (λ s. ok (s, fresh_as_of)) (final_state-current found.event.value poison verdict (cc (h, is))),
)

answer_by-IsUpToDate :
    (m : Manager) (table : Broken) (branch : BranchId) (requirement : FreshnessRequirement)
    (q : ReadPath) (layer : LayerId) (found : Landed) (by : Derivation) (r : Resolved)
    → IsSound m.store
    → answer_by m table branch requirement q layer found (some by) ≡ ok r
    → r.state ≡ Freshness.current
    → IsUpToDate m.store q by layer
unfolding answer_by
answer_by-IsUpToDate m table branch requirement q layer found by r sound h is =
    let (fresh_as_of, e) =
      decided (state_of requirement m.store q by layer) (poisoning m table branch by.producer) found
        by.producer r h is in
    state_of-IsUpToDate requirement m.store q by layer fresh_as_of sound e

-- A read on a sound store that calls a derived value current, at whatever requirement, is right
-- that its producer's inputs stand: the value's stored watermark is at the layer read or past it,
-- or no record that its producer read now reflects anything past that watermark.
pub answer-IsUpToDate :
    (m : Manager) (table : Broken) (branch : BranchId) (cell : CellRef) (layer : Option LayerId)
    (at : DefVersion) (requirement : FreshnessRequirement) (q : ReadPath) (found : Landed)
    (by : Derivation) (r : Resolved)
    → IsSound m.store
    → read_path m branch layer ≡ ok q
    → get_cell m.store q cell at ≡ ok (some found)
    → found.event.derivation ≡ some by
    → answer m table branch cell layer at requirement ≡ ok r
    → r.state ≡ Freshness.current
    → IsUpToDate m.store q by (unwrap_or layer (ceiling q))
unfolding answer answer_found
answer-IsUpToDate m table branch cell layer at requirement q found by r sound p g d h is =
    answer_by-IsUpToDate m table branch requirement q (unwrap_or layer (ceiling q)) found by r sound
      (rw (answer, p) (rw g (rw d refl)) ∙ h) is
