-- ===== src/Kernel/AgentSession/Recorded.antt =====
-- What a turn appends to the log of its session.
use axl_raja.Prelude.{
  ℕ, suc, ◌<◌, ◌≤◌, String, false, Option, none, some, List, [], ◌∷◌, ◌++◌, ◌≡◌, refl, arith, sym,
  ◌∙◌, contains, append_assoc, append-nil, eq_iff, ◌==◌,
}
use axl_raja.Protocol.Event.{Payload, CanonicalEvent}
use axl_raja.Kernel.SessionTree.Log.{ids, IsLog, IsPlaced, IsChain, last_id}
use axl_raja.Kernel.SessionTree.Table.{contains-snoc}
use axl_raja.Kernel.AgentSession.{
  World, AgentSession, accept_stored, new_event, append, append_pushed,
}
use axl_raja.Kernel.AgentSession.Invariants.{Keeps, proceed-Keeps, IsInvariant}

-- The log stores the event that it was given, and the random ids differ from each other and from
-- those of the events `old`.
pub record IsHonest (w : World) (old : List CanonicalEvent) : Type 0 where
  pub stored_id : (n : ℕ) (e stored : CanonicalEvent) → w.store n e ≡ some stored → stored.id ≡ e.id
  pub stored_session :
      (n : ℕ) (e stored : CanonicalEvent)
      → w.store n e ≡ some stored
      → stored.session_id ≡ e.session_id
  pub stored_parent :
      (n : ℕ) (e stored : CanonicalEvent)
      → w.store n e ≡ some stored
      → stored.parent_id ≡ e.parent_id
  pub unlike : (m n : ℕ) → m < n → (w.ids m == w.ids n) ≡ false
  pub unused : (n : ℕ) → contains (w.ids n) (ids old) ≡ false

-- The session stands at the end of a log: `observed` continues `old`, and the tip is its last event.
pub record IsRecorded (w : World) (old : List CanonicalEvent) (tip : Option String)
    (s : AgentSession) : Type 0 where
  pub log : IsLog w.session_id old s.observed
  pub linked : IsChain tip s.observed
  pub at_end : s.tip ≡ last_id tip s.observed
  pub placed : IsPlaced (old ++ s.observed) s.tip
  pub fresh : (n : ℕ) → s.calls ≤ n → contains (w.ids n) (ids (old ++ s.observed)) ≡ false

IsLog-snoc :
    (session_id : String) (before events : List CanonicalEvent) (e : CanonicalEvent)
    → IsLog session_id before events
    → e.session_id ≡ session_id
    → contains e.id (ids (before ++ events)) ≡ false
    → IsPlaced (before ++ events) e.parent_id
    → IsLog session_id before (events ++ e ∷ [])
IsLog-snoc session_id before [] e log same new placed =
    (same, rw (append-nil before) at new, rw (append-nil before) at placed, tt)
IsLog-snoc session_id before (x ∷ events) e (s, n, p, log) same new placed = (
  s,
  n,
  p,
  IsLog-snoc session_id (before ++ x ∷ []) events e log same
      (rw (append_assoc before (x ∷ []) events) new)
      (rw (append_assoc before (x ∷ []) events) placed),
)

IsChain-snoc :
    (tip : Option String) (events : List CanonicalEvent) (e : CanonicalEvent)
    → IsChain tip events
    → e.parent_id ≡ last_id tip events
    → IsChain tip (events ++ e ∷ [])
IsChain-snoc tip [] e chain h = (h, tt)
IsChain-snoc tip (x ∷ events) e (p, chain) h = (p, IsChain-snoc (some x.id) events e chain h)

last_id-snoc :
    (tip : Option String) (events : List CanonicalEvent) (e : CanonicalEvent)
    → last_id tip (events ++ e ∷ []) ≡ some e.id
last_id-snoc tip [] e = refl
last_id-snoc tip (x ∷ events) e = last_id-snoc (some x.id) events e

module _ (w : World) (old : List CanonicalEvent) (tip : Option String) where
  pub framed-IsRecorded :
      (s s' : AgentSession)
      → s'.tip ≡ s.tip
      → s'.observed ≡ s.observed
      → s.calls ≤ s'.calls
      → IsRecorded w old tip s
      → IsRecorded w old tip s'
  framed-IsRecorded s s' same_tip same_observed later i = record {
    log = rw same_observed i.log;
    linked = rw same_observed i.linked;
    at_end = rw (same_tip, same_observed) i.at_end;
    placed = rw (same_tip, same_observed) i.placed;
    fresh = λ n h. rw same_observed (i.fresh n (omega arith));
  }

  accept_stored-IsRecorded :
      (s : AgentSession) (operation_id : Option String) (payload : Payload)
      (answer : Option CanonicalEvent)
      → IsHonest w old
      → w.store s.calls (new_event w operation_id payload s) ≡ answer
      → IsRecorded w old tip s
      → IsRecorded w old tip (accept_stored answer (record s { calls = suc s.calls })).1
  accept_stored-IsRecorded s op payload none honest h i =
      framed-IsRecorded s _ refl refl (omega arith) i
  accept_stored-IsRecorded s op payload (some stored) honest h i =
      let same_id = honest.stored_id s.calls _ stored h in
      let same_parent = honest.stored_parent s.calls _ stored h in
      let new = i.fresh s.calls (omega arith) in
      record {
        log =
            IsLog-snoc w.session_id old s.observed stored i.log
              (honest.stored_session s.calls _ stored h) (rw same_id new) (rw same_parent i.placed);
        linked = IsChain-snoc tip s.observed stored i.linked (same_parent ∙ i.at_end);
        at_end = sym (last_id-snoc tip s.observed stored);
        placed = ground (
          arith,
          append_assoc old s.observed (stored ∷ []),
          contains-snoc (old ++ s.observed) stored stored.id,
          eq_iff stored.id stored.id,
        );
        fresh = λ n later. ground (
          arith,
          append_assoc old s.observed (stored ∷ []),
          contains-snoc (old ++ s.observed) stored (w.ids n),
          i.fresh n (omega arith),
          honest.unlike s.calls n later,
        );
      }

  pub append-IsRecorded :
      (operation_id : Option String) (payload : Payload)
      → IsHonest w old
      → Keeps (IsRecorded w old tip) (append w operation_id payload)
  unfolding append
  append-IsRecorded op payload honest s i = accept_stored-IsRecorded s op payload _ honest refl i

  pub recorded : IsHonest w old → IsInvariant w (IsRecorded w old tip)
  unfolding append_pushed
  recorded honest = record {
    kept_by_append = λ op payload s i.
        proceed-Keeps (IsRecorded w old tip) _ (append w op payload s)
          (append-IsRecorded op payload honest s i)
          λ stored t j. framed-IsRecorded t _ refl refl (omega arith) j;
    kept_by_event = λ op payload. append-IsRecorded op payload honest;
    framed = λ s s' tip observed _ later i. framed-IsRecorded s s' tip observed later i;
  }

pub IsLog-append :
    (session_id : String) (before l m : List CanonicalEvent)
    → IsLog session_id before l
    → IsLog session_id (before ++ l) m
    → IsLog session_id before (l ++ m)
IsLog-append session_id before [] m h k = rw (append-nil before) at k
IsLog-append session_id before (e ∷ l) m (s, n, p, h) k = (
  s,
  n,
  p,
  IsLog-append session_id (before ++ e ∷ []) l m h (rw (append_assoc before (e ∷ []) l) k),
)
