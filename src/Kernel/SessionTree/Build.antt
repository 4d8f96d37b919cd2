-- ===== src/Kernel/SessionTree/Build.antt =====
-- `fromEvents` accepts exactly the logs whose events follow their parents, and builds their table.
use axl_raja.Prelude.{
  ℕ, ◌+◌, String, true, false, Option, none, some, List, [], ◌∷◌, ◌++◌, map, ◌≡◌, refl, ◌↔◌, ap,
  ◌∙◌, sym, eq_iff, ok, ◌>>=◌, >>=-eq-ok, contains, append_assoc, append-nil, arith,
}
use axl_raja.Maps.Laws.{has-get}
use axl_raja.Protocol.Event.{CanonicalEvent}
use axl_raja.Kernel.SessionTree.{SessionTree, add_node, link, insert, insert_all, from_events}
use axl_raja.Kernel.SessionTree.Log.{ids, IsLog, IsPlaced}
use axl_raja.Kernel.SessionTree.Table.{
  entry, table, first_id, built, has-table, modify-entry, IsSound, IsSound-snoc, childless,
  add_node-eq,
}

-- The first id of a log does not change when an event with a parent is added.
first_id-snoc :
    (log : List CanonicalEvent) (e : CanonicalEvent) (p : String)
    → contains p (ids log) ≡ true
    → first_id log ≡ first_id (log ++ e ∷ [])
first_id-snoc [] e p h = cc
first_id-snoc (x ∷ log) e p h = refl

module _ (session_id : String) (index : ℕ) (log : List CanonicalEvent) (e : CanonicalEvent) where
  -- Where the event is placed, `link` succeeds and updates the entries before it.
  link-eq :
      (parent : Option String)
      → e.parent_id ≡ parent
      → IsPlaced log parent
      → IsSound log
      → link index e parent (built session_id log)
        ≡ ok (record {
          session_id = session_id;
          nodes = map (entry (log ++ e ∷ [])) log;
          root = first_id (log ++ e ∷ []);
        })
  unfolding link
  link-eq none h placed s = rw placed
  link-eq (some p) h placed s = ground (
    arith,
    has-get p (table log),
    has-table log log p,
    modify-entry log log e p h placed s.distinct,
    first_id-snoc log e p,
  )

  -- Otherwise it throws.
  link_sound :
      (parent : Option String) (t : SessionTree)
      → link index e parent (built session_id log) ≡ ok t
      → IsPlaced log parent
  unfolding link
  link_sound none t h = first_of_root log h
    where
      first_of_root :
          (l : List CanonicalEvent) → link index e none (built session_id l) ≡ ok t → l ≡ []
      first_of_root [] h = refl
      first_of_root (x ∷ l) h = cc
  link_sound (some p) t h = ground (arith, has-get p (table log), has-table log log p)

  -- A successful `insert` has passed its two guards and its `link`.
  insert-eq-ok :
      (t : SessionTree)
      → insert index e (built session_id log) ≡ ok t
      → (e.session_id ≡ session_id)
        × (contains e.id (ids log) ≡ false)
        × ((do linked ← link index e e.parent_id (built session_id log); ok (add_node e linked))
            ≡ ok t)
  unfolding insert
  insert-eq-ok t h = (
    ground (arith, eq_iff e.session_id session_id),
    ground (arith, has-table log log e.id),
    ground (arith, has-table log log e.id),
  )

  insert_sound :
      (t : SessionTree)
      → insert index e (built session_id log) ≡ ok t
      → (e.session_id ≡ session_id) × (contains e.id (ids log) ≡ false) × IsPlaced log e.parent_id
  insert_sound t h =
      let (same, new, rest) = insert-eq-ok t h in
      let (linked, done, _) = >>=-eq-ok (link index e e.parent_id (built session_id log)) _ rest in
      (same, new, link_sound e.parent_id linked done)

  insert-eq :
      IsSound log
      → e.session_id ≡ session_id
      → contains e.id (ids log) ≡ false
      → IsPlaced log e.parent_id
      → insert index e (built session_id log) ≡ ok (built session_id (log ++ e ∷ []))
  unfolding insert
  insert-eq s same new placed = ground (
    arith,
    eq_iff e.session_id session_id,
    has-table log log e.id,
    link-eq e.parent_id refl placed s,
    add_node-eq session_id log e (first_id (log ++ e ∷ [])) new
        (childless log e e.parent_id s refl placed new),
  )

-- The loop, from any log that was accepted.
insert_all-eq :
    (session_id : String) (index : ℕ) (log events : List CanonicalEvent)
    → IsSound log
    → IsLog session_id log events
    → insert_all index events (built session_id log) ≡ ok (built session_id (log ++ events))
unfolding insert_all
insert_all-eq session_id index log [] s h = rw append-nil
insert_all-eq session_id index log (e ∷ events) s (same, new, placed, rest) =
    rw (insert-eq session_id index log e s same new placed) (
      insert_all-eq session_id (index + 1) (log ++ e ∷ []) events (IsSound-snoc log e s new placed)
        rest
      ∙ ap (λ l. ok (built session_id l)) (append_assoc log (e ∷ []) events))

insert_all_sound :
    (session_id : String) (index : ℕ) (log events : List CanonicalEvent) (t : SessionTree)
    → IsSound log
    → insert_all index events (built session_id log) ≡ ok t
    → IsLog session_id log events
unfolding insert_all
insert_all_sound session_id index log [] t s h = tt
insert_all_sound session_id index log (e ∷ events) t s h =
    let (next, done, rest) = >>=-eq-ok (insert index e (built session_id log)) _ h in
    let (same, new, placed) = insert_sound session_id index log e next done in
    let same_next = insert-eq session_id index log e s same new placed in
    (
      same,
      new,
      placed,
      insert_all_sound session_id (index + 1) (log ++ e ∷ []) events t
          (IsSound-snoc log e s new placed) (ground (arith, rest, done, same_next)),
    )

pub IsSound-nil : IsSound []
IsSound-nil = record { distinct = tt; no_orphan = λ id _. refl }

pub from_events-eq :
    (session_id : String) (events : List CanonicalEvent)
    → IsLog session_id [] events
    → from_events session_id events ≡ ok (built session_id events)
unfolding from_events
from_events-eq session_id events h = insert_all-eq session_id 0 [] events IsSound-nil h

-- `fromEvents` succeeds exactly on the logs in which every event belongs to the session, has a new
-- id, and is a root if it is the first and follows its parent if it is not; a success is the table
-- of the log.
pub from_events_iff :
    (session_id : String) (events : List CanonicalEvent) (t : SessionTree)
    → (from_events session_id events ≡ ok t)
      ↔ (IsLog session_id [] events × (t ≡ built session_id events))
unfolding from_events
from_events_iff session_id events t = (
  λ h.
      let log = insert_all_sound session_id 0 [] events t IsSound-nil h in
      (log, cc (h, insert_all-eq session_id 0 [] events IsSound-nil log)),
  λ (log, e). insert_all-eq session_id 0 [] events IsSound-nil log ∙ ap ok (sym e),
)
