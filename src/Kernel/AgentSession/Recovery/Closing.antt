-- ===== src/Kernel/AgentSession/Recovery/Closing.antt =====
-- Behind the recovery every tool call of the branch has one result.
use axl_raja.Prelude.{
  ℕ, String, Bool, true, false, Option, none, some, List, [], ◌∷◌, ◌++◌, ◌≡◌, refl, sym, ap,
  Outcome, err, ◌∙◌, ◌==◌, eq_iff, ok, arith, ◌||◌, Bool-cases, inl, inr, if◌then◌else◌,
  append_assoc, append-nil,
}
use axl_raja.Maps
use axl_raja.Protocol.Event.{Content, Payload, tool_call, tool_result, CanonicalEvent}
use axl_raja.Protocol.Json.{Json}
use axl_raja.Kernel.Replay.Pairing.{
  called, answered, Fits, IsPaired, called-snoc, answered-snoc, call_name, is_answer,
}
use axl_raja.Kernel.AgentSession.{World, AgentSession, Thrown, not_stored}
use axl_raja.Kernel.AgentSession.Recovery.{UnansweredCall, note_call, pending_calls}

-- Each entry is a call of the events that they do not answer, under its own id, once.
abbrev Opens : List CanonicalEvent → List (String × UnansweredCall) → Type 0
Opens before [] = Unit
Opens before ((id, call) ∷ pending) =
    (call.call_id ≡ id)
    × (called id before ≡ some call.name)
    × (answered id before ≡ false)
    × (Maps.has id pending ≡ false)
    × Opens before pending

-- Every call that has no entry is answered.
abbrev Covers : List CanonicalEvent → List (String × UnansweredCall) → Type 0
Covers before pending =
    (id name : String)
    → called id before ≡ some name
    → Maps.has id pending ≡ false
    → answered id before ≡ true

module _ (before : List CanonicalEvent) (e : CanonicalEvent) where
  -- The entries stay open behind an event that answers none of them.
  Opens-snoc :
      (pending : List (String × UnansweredCall))
      → Opens before pending
      → ((id : String) → Maps.has id pending ≡ true → is_answer id e.payload ≡ false)
      → Opens (before ++ e ∷ []) pending
  unfolding Maps.has
  Opens-snoc [] opens h = tt
  Opens-snoc ((id, call) ∷ pending) (same, was_called, waits, once, opens) h = (
    same,
    ground (arith, called-snoc id before e),
    ground (arith, answered-snoc id before e, h id, eq_iff id id),
    once,
    Opens-snoc pending opens λ j there. h j (ground arith),
  )

  has-set :
      (k j : String) (call : UnansweredCall) (pending : List (String × UnansweredCall))
      → Maps.has j (Maps.set k call pending) ≡ (k == j || Maps.has j pending)
  unfolding Maps.has Maps.set
  has-set k j call [] = refl
  has-set k j call ((i, c) ∷ pending) =
      ground (arith, has-set k j call pending, eq_iff i k, eq_iff i j, eq_iff k j)

  has-delete :
      (k j : String) (pending : List (String × UnansweredCall))
      → Opens before pending
      → Maps.has j (Maps.delete k pending) ≡ (if k == j then false else Maps.has j pending)
  unfolding Maps.has Maps.delete
  has-delete k j [] opens = ground arith
  has-delete k j ((i, c) ∷ pending) (_, _, _, once, opens) =
      ground (arith, has-delete k j pending opens, eq_iff i k, eq_iff i j, eq_iff k j)

  Opens-new :
      (k : String) (pending : List (String × UnansweredCall))
      → Opens before pending
      → called k before ≡ none
      → Maps.has k pending ≡ false
  unfolding Maps.has
  Opens-new k [] opens h = refl
  Opens-new k ((id, call) ∷ pending) (_, was_called, _, _, opens) h =
      ground (arith, Opens-new k pending opens h, eq_iff id k)

  Opens-set :
      (k : String) (call : UnansweredCall) (pending : List (String × UnansweredCall))
      → Opens before pending
      → ((id : String) → is_answer id e.payload ≡ false)
      → call.call_id ≡ k
      → called k before ≡ none
      → answered k before ≡ false
      → call_name k e.payload ≡ some call.name
      → Opens (before ++ e ∷ []) (Maps.set k call pending)
  unfolding Maps.has Maps.set
  Opens-set k call [] opens quiet same new unanswered name = (
    same,
    ground (arith, called-snoc k before e),
    ground (arith, answered-snoc k before e),
    refl,
    tt,
  )
  Opens-set k call ((id, c) ∷ pending) (its, was_called, waits, once, opens) quiet same new
        unanswered name =
      let differs : (id == k) ≡ false = ground (arith, eq_iff id k) in
      rw differs (
        its,
        ground (arith, called-snoc id before e),
        ground (arith, answered-snoc id before e, quiet id),
        ground (arith, has-set k id call pending, eq_iff k id),
        Opens-set k call pending opens quiet same new unanswered name,
      )

  Opens-delete :
      (k : String) (pending : List (String × UnansweredCall))
      → Opens before pending
      → ((id : String) → is_answer id e.payload ≡ (k == id))
      → Opens (before ++ e ∷ []) (Maps.delete k pending)
  unfolding Maps.has Maps.delete
  Opens-delete k [] opens answers = tt
  Opens-delete k ((id, c) ∷ pending) (its, was_called, waits, once, opens) answers =
      elim (Bool-cases (id == k)) [
        | inl found ↦
            rw found (
              Opens-snoc pending opens
                λ j there. ground (arith, answers j, eq_iff id k, eq_iff k j))
        | inr differs ↦ rw differs (
          its,
          ground (arith, called-snoc id before e),
          ground (arith, answered-snoc id before e, answers id, eq_iff k id, eq_iff id id),
          ground (arith, has-delete k id pending opens, eq_iff k id),
          Opens-delete k pending opens answers,
        )
      ]

-- What `pending` says of the events before.
pub record IsPending (before : List CanonicalEvent) (pending : List (String × UnansweredCall))
    : Type 0 where
  pub entries : Opens before pending
  pub complete : Covers before pending
  -- a result has its call before it
  pub known : (id : String) → called id before ≡ none → answered id before ≡ false

module _ (before : List CanonicalEvent) (e : CanonicalEvent)
    (pending : List (String × UnansweredCall)) (i : IsPending before pending) where
  pub note_call-IsPending :
      (payload : Payload)
      → e.payload ≡ payload
      → Fits before payload
      → IsPending (before ++ e ∷ []) (note_call e.operation_id payload pending)
  unfolding note_call
  note_call-IsPending (tool_call call_id name input) same fits = record {
    entries =
        Opens-set before e call_id _ pending i.entries (λ id. ground (arith)) refl fits
          (i.known call_id fits) (ground (arith, eq_iff call_id call_id));
    complete = λ id n h absent. ground (
      arith,
      called-snoc id before e,
      answered-snoc id before e,
      i.complete id n,
      has-set before e call_id id
          (record { operation_id = e.operation_id; call_id = call_id; name = name }) pending,
    );
    known = λ id h. ground (arith, called-snoc id before e, answered-snoc id before e, i.known id);
  }
  note_call-IsPending (tool_result call_id name content is_error details) same (fits, waits) =
      record {
        entries = Opens-delete before e call_id pending i.entries λ id. ground (arith);
        complete = λ id n h absent. ground (
          arith,
          called-snoc id before e,
          answered-snoc id before e,
          i.complete id n,
          has-delete before e call_id id pending i.entries,
        );
        known = λ id h. ground (
          arith,
          called-snoc id before e,
          answered-snoc id before e,
          i.known id,
          eq_iff call_id id,
        );
      }
  note_call-IsPending p same fits = record {
    entries = Opens-snoc before e pending i.entries λ id there. ground (arith);
    complete = λ id n h absent.
        ground (arith, called-snoc id before e, answered-snoc id before e, i.complete id n);
    known = λ id h. ground (arith, called-snoc id before e, answered-snoc id before e, i.known id);
  }

pub pending_calls-IsPending :
    (before events : List CanonicalEvent) (pending : List (String × UnansweredCall))
    → IsPending before pending
    → IsPaired before events
    → IsPending (before ++ events) (pending_calls events pending)
unfolding pending_calls
pending_calls-IsPending before [] pending i paired = rw (append-nil before) i
pending_calls-IsPending before (e ∷ events) pending i (fits, paired) =
    rw (sym (append_assoc before (e ∷ []) events)) (
      pending_calls-IsPending (before ++ e ∷ []) events _
        (note_call-IsPending before e pending i e.payload refl fits) paired)

pub IsPaired-append :
    (before l m : List CanonicalEvent)
    → IsPaired before l
    → IsPaired (before ++ l) m
    → IsPaired before (l ++ m)
IsPaired-append before [] m h k = rw (append-nil before) at k
IsPaired-append before (e ∷ l) m (fits, h) k =
    (fits, IsPaired-append (before ++ e ∷ []) l m h (rw (append_assoc before (e ∷ []) l) k))

-- The log keeps the id and the tool of a result that it stores.
pub record IsFaithful (w : World) : Type 0 where
  pub keeps_answer :
      (n : ℕ) (e stored : CanonicalEvent) (call_id name : String) (content : List Content)
      (is_error : Bool) (details : Option Json)
      → w.store n e ≡ some stored
      → e.payload ≡ tool_result call_id name content is_error details
      → (kept : List Content) × (kept_error : Bool) × (kept_details : Option Json) × (stored.payload
          ≡ tool_result call_id name kept kept_error kept_details)

-- Every call of the events has a result.
abbrev pub AreAnswered : List CanonicalEvent → Type 0
AreAnswered events = (id name : String) → called id events ≡ some name → answered id events ≡ true

-- What the loop over the calls has appended behind `before`.
pub record IsClosing (before : List CanonicalEvent) (s : AgentSession)
    (r : Outcome Thrown (Unit {0}) × AgentSession) : Type 0 where
  pub added : List CanonicalEvent
  pub observed : r.1.observed ≡ s.observed ++ added
  pub paired : IsPaired before added
  pub total : r.0 ≡ ok tt → AreAnswered (before ++ added)

pub IsClosing-stopped :
    (before : List CanonicalEvent) (s t : AgentSession)
    → t.observed ≡ s.observed
    → IsClosing before s (err not_stored, t)
IsClosing-stopped before s t same = record {
  added = [];
  observed = same ∙ sym (append-nil s.observed);
  paired = tt;
  total = λ h. absurd (ground arith);
}

pub IsClosing-next :
    (before : List CanonicalEvent) (e : CanonicalEvent) (s t : AgentSession)
    (r : Outcome Thrown (Unit {0}) × AgentSession)
    → Fits before e.payload
    → t.observed ≡ s.observed ++ e ∷ []
    → IsClosing (before ++ e ∷ []) t r
    → IsClosing before s r
IsClosing-next before e s t r fits same i = record {
  added = e ∷ i.added;
  observed = i.observed ∙ ap (λ l. l ++ i.added) same ∙ append_assoc s.observed (e ∷ []) i.added;
  paired = (fits, i.paired);
  total = λ h. rw (append_assoc before (e ∷ []) i.added) at (i.total h);
}
