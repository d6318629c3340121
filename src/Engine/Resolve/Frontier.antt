-- ===== src/Engine/Resolve/Frontier.antt =====
-- resolve.rs, FrontierTracker: what its watermarks mean, in terms of the moves made on them.
use borg_core.Prelude.{
  ◌≤◌, ◌≡◌, ◌≢◌, ◌↔◌, true, Option, none, some, List, [], ◌∷◌, All, leb→le, unwrap_or,
  if◌then◌else◌, subst, refl, sym, ap, ◌∙◌, arith, max, min, map, leb, ltb, ◌≟◌, nat_eq,
}
use borg_core.Prelude.Map.{get, insert, get-insert_self, get-insert_ne}
use borg_core.Core.Ids.{BranchId, LayerId, ProducerId}
use borg_core.Engine.Resolve.{
  WatermarkKey, watermark_key_eq, FrontierTracker, mark_of, watermark, advance, rewind, settled,
  least, reaches,
}

pub data Move : Type 0 where
  advanced : BranchId → ProducerId → LayerId → Move
  rewound : BranchId → ProducerId → Move

-- The tracker after some moves, the last of them first.
unfoldable pub after : List Move → FrontierTracker
after [] = []
after (advanced b p to ∷ earlier) = advance (after earlier) b p to
after (rewound b p ∷ earlier) = rewind (after earlier) b p

abbrev if_same : {P : Type 0} → Dec P → LayerId → LayerId → LayerId
if_same (yes e) there elsewhere = there
if_same (no n) there elsewhere = elsewhere

-- The highest layer that the producer was advanced to on the branch, since its last rewind there.
unfoldable pub caught_up : List Move → BranchId → ProducerId → LayerId
caught_up [] b p = 0
caught_up (advanced c q to ∷ earlier) b p =
    let before = caught_up earlier b p in if_same (mark_of c q ≟ mark_of b p) (max to before) before
caught_up (rewound c q ∷ earlier) b p =
    let before = caught_up earlier b p in if_same (mark_of c q ≟ mark_of b p) 0 before

-- What a mark that is written does to the watermarks.
watermark-same :
    (marks : FrontierTracker) (k : WatermarkKey) (b : BranchId) (p : ProducerId) (l : LayerId)
    → k ≡ mark_of b p
    → watermark (insert marks k l) b p ≡ l
unfolding watermark
watermark-same marks k b p l e = rw (watermark, sym e) (rw (get-insert_self marks k l) refl)

watermark-other :
    (marks : FrontierTracker) (k : WatermarkKey) (b : BranchId) (p : ProducerId) (l : LayerId)
    → k ≢ mark_of b p
    → watermark (insert marks k l) b p ≡ watermark marks b p
unfolding watermark
watermark-other marks k b p l n = rw (watermark, get-insert_ne marks k (mark_of b p) l n) refl

watermark-at :
    (marks : FrontierTracker) (c b : BranchId) (q p : ProducerId)
    → mark_of c q ≡ mark_of b p
    → watermark marks c q ≡ watermark marks b p
unfolding watermark
watermark-at marks c b q p e = ap (λ k. unwrap_or (get marks k) 0) e

higher : (at to : LayerId) → (if ltb at to then to else at) ≡ max to at
higher at to = ground arith

watermark-insert :
    (marks : FrontierTracker) (c b : BranchId) (q p : ProducerId) (l there elsewhere : LayerId)
    (d : Dec (mark_of c q ≡ mark_of b p))
    → (mark_of c q ≡ mark_of b p → l ≡ there)
    → watermark marks b p ≡ elsewhere
    → watermark (insert marks (mark_of c q) l) b p ≡ if_same d there elsewhere
watermark-insert marks c b q p l there elsewhere (yes e) h k =
    watermark-same marks (mark_of c q) b p l e ∙ h e
watermark-insert marks c b q p l there elsewhere (no n) h k =
    watermark-other marks (mark_of c q) b p l n ∙ k

watermark-after :
    (moves : List Move) (b : BranchId) (p : ProducerId)
    → watermark (after moves) b p ≡ caught_up moves b p
unfolding after caught_up advance rewind
watermark-after [] b p = unfold watermark in unfold get in refl
watermark-after (advanced c q to ∷ earlier) b p =
    watermark-insert (after earlier) c b q p
      (if ltb (watermark (after earlier) c q) to then to else watermark (after earlier) c q)
      (max to (caught_up earlier b p)) (caught_up earlier b p) (mark_of c q ≟ mark_of b p)
      (λ e.
        higher (watermark (after earlier) c q) to
        ∙ ap (max to) (watermark-at (after earlier) c b q p e ∙ watermark-after earlier b p))
      (watermark-after earlier b p)
watermark-after (rewound c q ∷ earlier) b p =
    watermark-insert (after earlier) c b q p 0 0 (caught_up earlier b p) (mark_of c q ≟ mark_of b p)
      (λ e. refl) (watermark-after earlier b p)

abbrev UpTo : LayerId → Option LayerId → Type 0
UpTo target none = Unit
UpTo target (some at) = target ≤ at

UpTo-least_push :
    (target l : LayerId) (rest : Option LayerId)
    → UpTo target (elim rest [ none ↦ some l | some m ↦ some (min l m) ])
      ↔ ((target ≤ l) × UpTo target rest)
UpTo-least_push target l none = (λ h. (h, tt), λ h. h.0)
UpTo-least_push target l (some m) =
    (λ h. (omega (arith, h), omega (arith, h)), λ h. omega (arith, h.0, h.1))

least-UpTo :
    (layers : List LayerId) (target : LayerId)
    → UpTo target (least layers) ↔ All (λ l. target ≤ l) layers
unfolding least
least-UpTo [] target = (λ h. tt, λ h. tt)
least-UpTo (l ∷ layers) target =
    let (forth, back) = UpTo-least_push target l (least layers) in
    let (all, none_left) = least-UpTo layers target in
    (λ h. ((forth h).0, all (forth h).1), λ h. back (h.0, none_left h.1))

reaches-UpTo :
    (at : Option LayerId) (target : LayerId)
    → (elim at [ none ↦ true | some l ↦ leb target l ]) ≡ true ↔ UpTo target at
reaches-UpTo none target = (λ h. tt, λ h. refl)
reaches-UpTo (some at) target = (leb→le target at, λ h. ground (arith, h))

All-watermarks :
    (moves : List Move) (b : BranchId) (producers : List ProducerId) (target : LayerId)
    → All (λ l. target ≤ l) (map (watermark (after moves) b) producers)
      ↔ All (λ p. target ≤ caught_up moves b p) producers
All-watermarks moves b [] target = (λ h. tt, λ h. tt)
All-watermarks moves b (p ∷ producers) target =
    let (forth, back) = All-watermarks moves b producers target in
    (
      λ h. (subst (λ l. target ≤ l) (watermark-after moves b p) h.0, forth h.1),
      λ h. (subst (λ l. target ≤ l) (sym (watermark-after moves b p)) h.0, back h.1),
    )

-- The tracker implements the moves made on it: after any moves, a watermark is the highest layer the
-- producer was advanced to on the branch since its last rewind there, or 0; and a wait for a layer
-- returns exactly where every producer named has been advanced that far since.
pub after-Refines :
    (moves : List Move)
    → ((b : BranchId) (p : ProducerId) → watermark (after moves) b p ≡ caught_up moves b p)
      × ((b : BranchId) (producers : List ProducerId) (target : LayerId)
          → reaches (after moves) b producers target ≡ true
            ↔ All (λ p. target ≤ caught_up moves b p) producers)
unfolding reaches settled
after-Refines moves = (
  watermark-after moves,
  λ b producers target.
      let layers = map (watermark (after moves) b) producers in
      let (returns, waits) = reaches-UpTo (least layers) target in
      let (above, least_above) = least-UpTo layers target in
      let (all, each) = All-watermarks moves b producers target in
      (λ h. all (above (returns h)), λ h. waits (least_above (each h))),
)
