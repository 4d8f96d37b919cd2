-- ===== src/Kernel/AgentSession/Unanswered.antt =====
-- Branches on which tool calls are executed one after the other.
use axl_raja.Prelude.{
  String, Bool, true, false, Option, none, some, List, [], ◌∷◌, ◌++◌, ◌≡◌, ◌==◌, eq_iff, arith, All,
}
use axl_raja.Protocol.Json.{Json, Members}
use axl_raja.Protocol.Event.{
  Content, tool_call, tool_result, sandbox_violation, other, CanonicalEvent,
}
use axl_raja.Kernel.Compaction.{ToolCallRequest}
use axl_raja.Kernel.Replay.Pairing.{called, answered, called-snoc, answered-snoc, call_name}
use axl_raja.Kernel.AgentSession.Recovery.Closing.{AreAnswered}

-- The ids of the calls are new on the branch, and unlike each other.
abbrev pub AreNew : List CanonicalEvent → List ToolCallRequest → Type 0
AreNew before [] = Unit
AreNew before (call ∷ calls) =
    (called call.call_id before ≡ none)
    × All (λ c. (call.call_id == c.call_id) ≡ false) calls
    × AreNew before calls

-- A result has its call before it.
abbrev pub IsKnown : List CanonicalEvent → Type 0
IsKnown before = (id : String) → called id before ≡ none → answered id before ≡ false

pub AreNew-snoc :
    (before : List CanonicalEvent) (e : CanonicalEvent) (calls : List ToolCallRequest)
    → All (λ c. call_name c.call_id e.payload ≡ none) calls
    → AreNew before calls
    → AreNew (before ++ e ∷ []) calls
AreNew-snoc before e [] quiet new = tt
AreNew-snoc before e (call ∷ calls) (here, quiet) (new, unlike, rest) = (
  ground (arith, called-snoc call.call_id before e),
  unlike,
  AreNew-snoc before e calls quiet rest,
)

-- A branch behind which the calls may be executed.
pub record IsReady (calls : List ToolCallRequest) (before : List CanonicalEvent) : Type 0 where
  pub new : AreNew before calls
  pub known : IsKnown before
  pub closed : AreAnswered before

-- A branch on which `call` alone has no result, behind which `calls` follow.
pub record IsOpen (call : ToolCallRequest) (calls : List ToolCallRequest)
    (before : List CanonicalEvent) : Type 0 where
  pub was_called : called call.call_id before ≡ some call.name
  pub waits : answered call.call_id before ≡ false
  pub known : IsKnown before
  pub others :
      (id name : String)
      → called id before ≡ some name
      → (call.call_id == id) ≡ false
      → answered id before ≡ true
  pub new : AreNew before calls

pub quiet_others :
    (e : CanonicalEvent) (call : ToolCallRequest) (calls : List ToolCallRequest) (input : Members)
    → e.payload ≡ tool_call call.call_id call.name input
    → All (λ c. (call.call_id == c.call_id) ≡ false) calls
    → All (λ c. call_name c.call_id e.payload ≡ none) calls
quiet_others e call [] input same unlike = tt
quiet_others e call (c ∷ calls) input same (here, unlike) =
    (ground arith, quiet_others e call calls input same unlike)

pub quiet-All :
    (e : CanonicalEvent) (calls : List ToolCallRequest)
    → ((id : String) → call_name id e.payload ≡ none)
    → All (λ c. call_name c.call_id e.payload ≡ none) calls
quiet-All e [] quiet = tt
quiet-All e (c ∷ calls) quiet = (quiet c.call_id, quiet-All e calls quiet)

module _ (before : List CanonicalEvent) (e : CanonicalEvent) (call : ToolCallRequest)
    (calls : List ToolCallRequest) where
  pub call-IsOpen :
      (input : Members)
      → IsReady (call ∷ calls) before
      → e.payload ≡ tool_call call.call_id call.name input
      → IsOpen call calls (before ++ e ∷ [])
  call-IsOpen input ready same =
      let (new, unlike, rest) = ready.new in
      record {
        was_called =
            ground (arith, called-snoc call.call_id before e, eq_iff call.call_id call.call_id);
        waits = ground (arith, answered-snoc call.call_id before e, ready.known call.call_id);
        known = λ id h.
            ground (arith, called-snoc id before e, answered-snoc id before e, ready.known id);
        others = λ id name h other.
            ground
              (arith, called-snoc id before e, answered-snoc id before e, ready.closed id name);
        new = AreNew-snoc before e calls (quiet_others e call calls input same unlike) rest;
      }

  pub violation-IsOpen :
      (capability reason : String)
      → IsOpen call calls before
      → e.payload ≡ sandbox_violation capability reason
      → IsOpen call calls (before ++ e ∷ [])
  violation-IsOpen capability reason opened same = record {
    was_called = ground (arith, called-snoc call.call_id before e, opened.was_called);
    waits = ground (arith, answered-snoc call.call_id before e, opened.waits);
    known =
        λ id h. ground (arith, called-snoc id before e, answered-snoc id before e, opened.known id);
    others = λ id name h other.
        ground (arith, called-snoc id before e, answered-snoc id before e, opened.others id name);
    new = AreNew-snoc before e calls (quiet-All e calls λ id. ground arith) opened.new;
  }

  pub other-IsOpen :
      (type : String) (payload : Json)
      → IsOpen call calls before
      → e.payload ≡ other type payload
      → IsOpen call calls (before ++ e ∷ [])
  other-IsOpen type payload opened same = record {
    was_called = ground (arith, called-snoc call.call_id before e, opened.was_called);
    waits = ground (arith, answered-snoc call.call_id before e, opened.waits);
    known =
        λ id h. ground (arith, called-snoc id before e, answered-snoc id before e, opened.known id);
    others = λ id name h earlier.
        ground (arith, called-snoc id before e, answered-snoc id before e, opened.others id name);
    new = AreNew-snoc before e calls (quiet-All e calls λ id. ground arith) opened.new;
  }

  pub answer-IsReady :
      (content : List Content) (is_error : Bool) (details : Option Json)
      → IsOpen call calls before
      → e.payload ≡ tool_result call.call_id call.name content is_error details
      → IsReady calls (before ++ e ∷ [])
  answer-IsReady content is_error details opened same = record {
    new = AreNew-snoc before e calls (quiet-All e calls λ id. ground arith) opened.new;
    known = λ id h. ground (
      arith,
      called-snoc id before e,
      answered-snoc id before e,
      opened.known id,
      opened.was_called,
      eq_iff call.call_id id,
    );
    closed = λ id name h. ground (
      arith,
      called-snoc id before e,
      answered-snoc id before e,
      opened.others id name,
      eq_iff call.call_id id,
    );
  }
