-- ===== src/Kernel/Compaction/Plans.antt =====
-- Where `prepareCompaction` cuts the context.
use axl_raja.Prelude.{
  ℕ, zero, suc, ◌+◌, ◌≤◌, ◌<◌, true, false, none, some, List, [], ◌∷◌, ◌++◌, map, ◌≡◌, refl, sym,
  ap, ◌∙◌, inl, inr, eqb, take, drop, drop-drop, take-append-drop, arith, Bool-cases, Option-cases,
}
use axl_raja.Kernel.Compaction.{ContextGroup}
use axl_raja.Kernel.Compaction.Projection.{ProjectedContext}
use axl_raja.Kernel.Compaction.Planning.{
  starts_turn, is_assistant, total, crossed_at, first_turn, CompactionPlan, ids_of, own_id,
  summary_of, splits, plan_at, plan_of,
}

-- The context is cut in two: the first part is summarized and replaced, the rest is kept.
pub record IsCut (tokens : ContextGroup → ℕ) (limit : ℕ) (context : ProjectedContext)
    (plan : CompactionPlan) : Type 0 where
  pub replaced_first : ContextGroup
  pub replaced : List ContextGroup
  pub first : ContextGroup
  pub kept : List ContextGroup
  pub cut : context.groups ≡ (replaced_first ∷ replaced) ++ first ∷ kept
  pub messages :
      plan.messages_to_summarize ≡ map (λ group. group.message) (replaced_first ∷ replaced)
  pub ids :
      plan.replaced_event_ids
      ≡ own_id context.previous_compaction ++ ids_of (replaced_first ∷ replaced)
  pub summary : plan.previous_summary ≡ summary_of context.previous_compaction
  pub split : plan.split_turn ≡ is_assistant first
  pub turn : starts_turn first ≡ true
  pub recent : total tokens kept < limit

total-drop :
    (tokens : ContextGroup → ℕ) (n : ℕ) (groups : List ContextGroup)
    → total tokens (drop n groups) ≤ total tokens groups
total-drop tokens zero groups = omega arith
total-drop tokens (suc n) [] = omega arith
total-drop tokens (suc n) (group ∷ groups) = omega (arith, total-drop tokens n groups)

crossed_at-none :
    (tokens : ContextGroup → ℕ) (limit : ℕ) (groups : List ContextGroup)
    → 0 < limit
    → crossed_at tokens limit groups ≡ none
    → total tokens groups < limit
unfolding crossed_at
crossed_at-none tokens limit [] pos h = pos
crossed_at-none tokens limit (group ∷ groups) pos h =
    elim (Option-cases (crossed_at tokens limit groups)) [
      | inl e ↦ ground arith
      | inr (i, e) ↦ absurd (ground arith)
    ]

-- What is behind the group where the first loop stops stays below the limit.
crossed_at-total :
    (tokens : ContextGroup → ℕ) (limit : ℕ) (groups : List ContextGroup) (i : ℕ)
    → 0 < limit
    → crossed_at tokens limit groups ≡ some i
    → total tokens (drop (suc i) groups) < limit
unfolding crossed_at
crossed_at-total tokens limit [] i pos h = cc
crossed_at-total tokens limit (group ∷ groups) i pos h =
    elim (Option-cases (crossed_at tokens limit groups)) [
      | inl e ↦ let z : i ≡ 0 = ground arith in rw z (crossed_at-none tokens limit groups pos e)
      | inr (j, e) ↦
          let z : i ≡ suc j = ground arith in rw z (crossed_at-total tokens limit groups j pos e)
    ]

first_turn-split :
    (groups : List ContextGroup) (n : ℕ)
    → first_turn groups ≡ some n
    → (first : ContextGroup) × (kept : List ContextGroup) × (drop n groups ≡ first ∷ kept)
      × (starts_turn first ≡ true)
unfolding first_turn
first_turn-split [] n h = cc
first_turn-split (group ∷ groups) n h = elim (Bool-cases (starts_turn group)) [
  | inl e ↦ let z : n ≡ 0 = ground arith in (group, groups, ap (λ k. drop k (group ∷ groups)) z, e)
  | inr e ↦ elim (Option-cases (first_turn groups)) [
    | inl none_later ↦ absurd (ground arith)
    | inr (m, later) ↦
        let (first, kept, there, turn) = first_turn-split groups m later in
        let z : n ≡ suc m = ground arith in
        (first, kept, ap (λ k. drop k (group ∷ groups)) z ∙ there, turn)
  ]
]

take-∷ :
    (k : ℕ) (groups kept : List ContextGroup) (first : ContextGroup)
    → drop k groups ≡ first ∷ kept
    → eqb k 0 ≡ false
    → (x : ContextGroup) × (xs : List ContextGroup) × (take k groups ≡ x ∷ xs)
take-∷ zero groups kept first there h = absurd (ground arith)
take-∷ (suc k) [] kept first there h = cc
take-∷ (suc k) (x ∷ groups) kept first there h = (x, take k groups, refl)

drop-behind :
    (i n : ℕ) (groups kept : List ContextGroup) (first : ContextGroup)
    → drop (i + n) groups ≡ first ∷ kept
    → kept ≡ drop n (drop (suc i) groups)
drop-behind i n groups kept first there =
    let e : i + n + 1 ≡ suc i + n = omega arith in
    ap (drop 1) (sym there)
    ∙ drop-drop 1 (i + n) groups
    ∙ ap (λ k. drop k groups) e
    ∙ sym (drop-drop n (suc i) groups)

plan_at-IsCut :
    (tokens : ContextGroup → ℕ) (limit k : ℕ) (context : ProjectedContext) (x first : ContextGroup)
    (xs kept : List ContextGroup)
    → take k context.groups ≡ x ∷ xs
    → drop k context.groups ≡ first ∷ kept
    → starts_turn first ≡ true
    → total tokens kept < limit
    → IsCut tokens limit context (plan_at k context)
unfolding plan_at
plan_at-IsCut tokens limit k context x first xs kept taken there turn recent = record {
  replaced_first = x;
  replaced = xs;
  first = first;
  kept = kept;
  cut =
      sym (take-append-drop k context.groups)
      ∙ ap (λ l. l ++ drop k context.groups) taken
      ∙ ap (λ l. (x ∷ xs) ++ l) there;
  messages = ap (map (λ group. group.message)) taken;
  ids = ap (λ l. own_id context.previous_compaction ++ ids_of l) taken;
  summary = refl;
  split = ap splits there;
  turn = turn;
  recent = recent;
}

-- A plan of `prepareCompaction` cuts the projected groups in two. The first part is not empty: its
-- messages are summarized, and its events are replaced together with the last compaction, whose
-- summary is passed on. The kept part starts with a message of the user or the assistant, a split
-- turn is one of the assistant, and behind it stand fewer tokens than the limit.
pub plan_of-IsCut :
    (tokens : ContextGroup → ℕ) (limit : ℕ) (context : ProjectedContext) (plan : CompactionPlan)
    → 0 < limit
    → plan_of tokens limit context ≡ some plan
    → IsCut tokens limit context plan
unfolding plan_of
plan_of-IsCut tokens limit context plan pos h =
    elim (Option-cases (crossed_at tokens limit context.groups)) [
      | inl e ↦ absurd (cc (e, h))
      | inr (i, crossed) ↦ elim (Option-cases (first_turn (drop i context.groups))) [
        | inl e ↦ absurd (cc (e, crossed, h))
        | inr (n, found) ↦ elim (Bool-cases (eqb (i + n) 0)) [
          | inl e ↦ absurd (cc (e, found, crossed, h))
          | inr e ↦
              let (first, kept, behind, turn) = first_turn-split (drop i context.groups) n found in
              let there = sym (drop-drop n i context.groups) ∙ behind in
              let (x, xs, taken) = take-∷ (i + n) context.groups kept first there e in
              let recent : total tokens kept < limit =
                rw (drop-behind i n context.groups kept first there) (
                  omega (
                    arith,
                    total-drop tokens n (drop (suc i) context.groups),
                    crossed_at-total tokens limit context.groups i pos crossed,
                  )) in
              let same : plan_at (i + n) context ≡ plan = cc (e, found, crossed, h) in
              rw (sym same)
                (plan_at-IsCut tokens limit (i + n) context x first xs kept taken there turn recent)
        ]
      ]
    ]
