-- ===== src/Kernel/Compaction/Closure.antt =====
-- The loop that collects what a compaction replaces ends.
use axl_raja.Prelude.{
  ℕ, zero, suc, ◌+◌, ◌≤◌, String, false, Option, none, some, List, [], ◌∷◌, ◌++◌, ◌≡◌, refl, sym,
  ap, inl, inr, ◌==◌, eq_iff, Outcome, ok, err, if◌then◌else◌, length, contains, contains-append,
  leb, arith, Bool-cases, Option-cases,
}
use axl_raja.Protocol.Event.{CanonicalEvent}
use axl_raja.Kernel.Compaction.{
  CompactionError, Compacted, replaces_non_ancestor, find_by_id, reverse_onto, replaced_ids,
  is_before, ancestor, close_over, all_replaced, index_or_zero, replacement_closure,
}

length-reverse_onto : (xs ys : List String) → length (reverse_onto xs ys) ≡ length xs + length ys
length-reverse_onto [] ys = omega arith
length-reverse_onto (x ∷ xs) ys = omega (arith, length-reverse_onto xs (x ∷ ys))

-- how many ids the compactions that are not hidden yet may still push
remaining : List CanonicalEvent → List String → ℕ
remaining [] hidden = 0
remaining (event ∷ events) hidden =
    (if contains event.id hidden then 0 else length (replaced_ids event)) + remaining events hidden

remaining-snoc :
    (events : List CanonicalEvent) (hidden : List String) (id : String)
    → remaining events (hidden ++ id ∷ []) ≤ remaining events hidden
unfolding remaining
remaining-snoc [] hidden id = omega arith
remaining-snoc (event ∷ events) hidden id =
    ground (arith, remaining-snoc events hidden id, contains-append event.id hidden (id ∷ []))

remaining-nil : (events : List CanonicalEvent) → remaining events [] ≡ all_replaced events
unfolding remaining
remaining-nil [] = refl
remaining-nil (event ∷ events) = omega (arith, remaining-nil events)

-- Once an event is hidden, its ids are not pushed again.
remaining-found :
    (events : List CanonicalEvent) (hidden : List String) (id : String) (k : ℕ)
    (event : CanonicalEvent) (i : ℕ)
    → find_by_id id k events ≡ some (event, i)
    → contains id hidden ≡ false
    → remaining events (hidden ++ id ∷ []) + length (replaced_ids event) ≤ remaining events hidden
unfolding remaining find_by_id
remaining-found [] hidden id k event i found new = cc
remaining-found (x ∷ events) hidden id k event i found new =
    elim (Option-cases (find_by_id id (suc k) events)) [
      | inl e ↦ elim (Bool-cases (x.id == id)) [
        | inl s ↦
            let here : x ≡ event = cc (found, e, s) in
            rw (sym here) (
              ground (
                arith,
                remaining-snoc events hidden id,
                contains-append x.id hidden (id ∷ []),
                eq_iff x.id id,
              ))
        | inr s ↦ absurd (cc (found, e, s))
      ]
      | inr ((later, j), e) ↦
          let same : later ≡ event = cc (found, e) in
          let there = remaining-found events hidden id (suc k) later j e new in
          rw (sym same) (ground (arith, there, contains-append x.id hidden (id ∷ [])))
    ]

is_before-some :
    (limit : ℕ) (found : Option (CanonicalEvent × ℕ)) (event : CanonicalEvent)
    → is_before limit found ≡ some event
    → (i : ℕ) × (found ≡ some (event, i))
is_before-some limit none event h = cc
is_before-some limit (some (e, i)) event h = elim (Bool-cases (leb limit i)) [
  | inl late ↦ absurd (cc (late, h))
  | inr early ↦ let same : e ≡ event = cc (early, h) in (i, ap (λ x. some (x, i)) same)
]

ancestor-found :
    (events : List CanonicalEvent) (limit : ℕ) (id : String) (event : CanonicalEvent)
    → ancestor events limit id ≡ some event
    → (i : ℕ) × (find_by_id id 0 events ≡ some (event, i))
unfolding ancestor
ancestor-found events limit id event found =
    is_before-some limit (find_by_id id 0 events) event found

module _ (events : List CanonicalEvent) (compaction_id : String) (limit : ℕ) where
  close_over_ends :
      (fuel : ℕ) (pending hidden : List String)
      → length pending + remaining events hidden ≤ fuel
      → (result : Outcome CompactionError (List String)) × (close_over events compaction_id limit
            fuel pending hidden
          ≡ some result)
  unfolding close_over
  close_over_ends fuel [] hidden h = (ok hidden, refl)
  close_over_ends zero (id ∷ pending) hidden h = absurd (omega arith)
  close_over_ends (suc fuel) (id ∷ pending) hidden h = elim (Bool-cases (contains id hidden)) [
    | inl e ↦
        let (result, r) = close_over_ends fuel pending hidden (omega arith) in (result, simp (e, r))
    | inr e ↦ elim (Option-cases (ancestor events limit id)) [
      | inl missing ↦ (err (replaces_non_ancestor compaction_id id), simp (e, missing))
      | inr (event, found) ↦
          let (i, there) = ancestor-found events limit id event found in
          let (result, r) =
            close_over_ends fuel (reverse_onto (replaced_ids event) pending) (hidden ++ id ∷ []) (
              omega (
                arith,
                length-reverse_onto (replaced_ids event) pending,
                remaining-found events hidden id 0 event i there e,
              )) in
          (result, simp (e, found, r))
    ]
  ]

-- The loop of `replacementClosure` ends on every branch, whatever ids its compactions replace: it
-- returns the hidden ids, or the error of an id that is no ancestor's.
pub replacement_closure_ends :
    (events : List CanonicalEvent) (compaction : Compacted)
    → (result : Outcome CompactionError (List String)) × (replacement_closure events compaction
        ≡ some result)
unfolding replacement_closure
replacement_closure_ends events compaction =
    close_over_ends events compaction.id (index_or_zero (find_by_id compaction.id 0 events))
      (length compaction.replaced_event_ids + all_replaced events)
      (reverse_onto compaction.replaced_event_ids []) []
      (omega (arith, length-reverse_onto compaction.replaced_event_ids [], remaining-nil events))
