-- ===== src/Kernel/AgentSession/Examples.antt =====
-- The theorems on sessions, at a concrete world.
use axl_raja.Prelude.{
  ℕ, zero, suc, ◌+◌, ◌<◌, String, false, Bool, none, some, List, [], ◌∷◌, ◌≡◌, refl, ◌≢◌, ap, ◌==◌,
  eq_iff, ok, arith, contains, leb, length, Bool-cases, inl, inr, if◌then◌else◌, concat,
}
use Prim.Native.String.{len}
use package.text.Mathlib.TextPositions.{len-append}
use axl_raja.Protocol.Json.{null, end}
use axl_raja.Protocol.Event.{
  Content, text, StopReason, Usage, Payload, tool_call, other, CanonicalEvent,
}
use axl_raja.Kernel.AgentSession.{
  Interaction, requests, World, AgentSession, Stream, text_delta, completed, ends, returned, slept,
  StreamEvent, new_event,
}
use axl_raja.Kernel.SessionTree.{from_events}
use axl_raja.Kernel.SessionTree.Log.{ids, IsChain, last_id, IsLineage}
use axl_raja.Kernel.SessionTree.Table.{built}
use axl_raja.Kernel.SessionTree.Build.{from_events-eq}
use axl_raja.Kernel.Replay.{verify_branch}
use axl_raja.Kernel.Replay.Pairing.{verify_branch_iff}
use axl_raja.Kernel.AgentSession.Turn.{
  run_turn, execute_tool_calls, steering, append_next_queued_message,
}
use axl_raja.Kernel.AgentSession.Commands.{
  Command, inject_with, steer_with, run_turn_with, append_idle_with, compact_with, carry_out_all,
}
use axl_raja.Kernel.Compaction.{ToolCallRequest}
use axl_raja.Kernel.AgentSession.Unanswered.{AreNew}
use axl_raja.Kernel.AgentSession.Calls.{IsHonestCall, execute_tool_calls-IsPaired}
use axl_raja.Kernel.AgentSession.Compacting.{CompactInput}
use axl_raja.Kernel.AgentSession.Recovery.{unanswered_tool_calls, end_calls}
use axl_raja.Kernel.AgentSession.Recovery.Closing.{IsFaithful, AreAnswered}
use axl_raja.Kernel.AgentSession.Recovery.Recovered.{end_calls-IsPaired}
use axl_raja.Kernel.AgentSession.Recorded.{IsHonest}
use axl_raja.Kernel.AgentSession.Sequences.{carry_out_all-IsLog}
use axl_raja.Kernel.AgentSession.Stops.{IsLasting, run_turn-ends}
use axl_raja.Kernel.AgentSession.Overlap.{append_overlapping, append_overlapping_forks}
use axl_raja.Kernel.AgentSession.Queues.{IsLook, append_next_queued_message-IsLook}

-- distinct ids
abbrev tally : ℕ → String
tally zero = "ii"
tally (suc n) = concat ("i" ∷ tally n ∷ [])

len-tally : (n : ℕ) → len (tally n) ≡ n + 2
len-tally zero = refl
len-tally (suc n) =
    omega (arith, len-append "i" (concat (tally n ∷ [])), len-append (tally n) "", len-tally n)

tally_unlike : (m n : ℕ) → m < n → (tally m == tally n) ≡ false
tally_unlike m n h = elim (Bool-cases (tally m == tally n)) [
  | inl same ↦ absurd (
      let e = ap len ((eq_iff (tally m) (tally n)).0 same) in
      omega (arith, len-tally m, len-tally n, e))
  | inr differs ↦ differs
]

tally_unused : (n : ℕ) → (tally n == "a") ≡ false
tally_unused n = elim (Bool-cases (tally n == "a")) [
  | inl same ↦ absurd (
      let e : len (tally n) ≡ 1 = ap len ((eq_iff (tally n) "a").0 same) in
      omega (arith, len-tally n, e))
  | inr differs ↦ differs
]

abbrev counts : Usage
counts = record {
  input_tokens = 1;
  output_tokens = 1;
  cache_read_tokens = 0;
  cache_write_tokens = 0;
}

-- The model asks for one tool, and then answers.
abbrev answers : ℕ → Stream
answers n = record {
  events =
      (if leb n 4
        then StreamEvent.tool_call (record { call_id = "c1"; name = "bash"; input = end })
          ∷ completed StopReason.tool_use counts
          ∷ []
        else text_delta "done" ∷ completed StopReason.stop counts ∷ []);
  ending = ends;
}

-- The log stores every event as it is; the signal is aborted from the call `last` on.
abbrev world : (last : ℕ) → World
world last = record {
  session_id = "s";
  ids = tally;
  clock = λ n. n;
  store = λ n e. some e;
  refusal = λ n. "full";
  model = answers;
  tool = λ n call. returned (text "file" ∷ []) false none;
  interactions = λ n call. requests null ∷ Interaction.answers none null ∷ [];
  is_aborted = λ n. leb last n;
  steered = λ n. [];
  followed_up = λ n. [];
  delay = λ n error attempt. 1;
  sleep = λ n. slept;
  max_attempts = none;
}

abbrev root : CanonicalEvent
root = record {
  id = "a";
  session_id = "s";
  operation_id = none;
  parent_id = none;
  timestamp = 1;
  payload = other "session.created" null;
}

abbrev idle_session : AgentSession
idle_session = record {
  tip = some "a";
  messages = [];
  context_usage = none;
  active_operation = none;
  accepting_queued_messages = false;
  steering_messages = [];
  follow_up_messages = [];
  appended = [];
  observed = [];
  calls = 0;
}

abbrev question : List Content
question = text "list" ∷ []

world-IsHonest : (last : ℕ) → IsHonest (world last) (root ∷ [])
world-IsHonest last = record {
  stored_id = λ n e stored h. ground arith;
  stored_session = λ n e stored h. ground arith;
  stored_parent = λ n e stored h. ground arith;
  unlike = tally_unlike;
  unused = λ n. ground (arith, eq_iff "a" (tally n), eq_iff (tally n) "a", tally_unused n);
}

-- One turn: the question, the assistant's message with the call, the call, the two events of an
-- interaction, the result, the answer.
turn_of_seven : length ((run_turn (world 99) 3 "op" question idle_session).1.observed) ≡ 7
unfolding run_turn
turn_of_seven = refl

-- The stored branch has one event to replace; the model summarizes it.
abbrev summary_of_all : CompactInput
summary_of_all = record {
  has_empty_instructions = false;
  plan = λ tip. some ("a" ∷ []);
  trim = λ summary. summary;
  messages = λ event. [];
}

-- A command of the user, steering that comes too late, and a turn; each awaited.
abbrev commands : List Command
commands =
    inject_with "skill" "be brief"
    ∷ steer_with question
    ∷ run_turn_with 3 "op" question
    ∷ compact_with "op3" summary_of_all
    ∷ append_idle_with "op2" (other "session.closed" null)
    ∷ []

carry_out_all-IsLog_example :
    let s' = carry_out_all (world 99) commands idle_session in
    (from_events "s" (root ∷ s'.observed) ≡ ok (built "s" (root ∷ s'.observed)))
    × IsChain (some "a") s'.observed
    × (s'.tip ≡ last_id (some "a") s'.observed)
carry_out_all-IsLog_example =
    carry_out_all-IsLog (world 99) (root ∷ []) (built "s" (root ∷ [])) idle_session commands
      (world-IsHonest 99) (from_events-eq "s" (root ∷ []) (refl, refl, refl, tt)) refl refl

world-IsLasting : (last : ℕ) → IsLasting (world last)
world-IsLasting last m n h aborted = ground arith

run_turn-ends_example : (run_turn (world 5) 6 "op" question idle_session).0 ≢ ok none
run_turn-ends_example =
    run_turn-ends (world 5) 5 6 "op" question idle_session (world-IsLasting 5) refl (omega arith)
      (omega arith)

abbrev enqueued : Payload
enqueued = other "queue.enqueued" null

abbrev first_event : CanonicalEvent
first_event = new_event (world 99) (some "op") (tool_call "c1" "bash" end) idle_session

abbrev second_event : CanonicalEvent
second_event = new_event (world 99) (some "op2") enqueued (record idle_session { calls = 1 })

-- An enqueued prompt, while the turn appends a tool call.
append_overlapping_forks_example :
    let s' =
      append_overlapping
        (world 99)
        (some "op")
        (tool_call "c1" "bash" end)
        (some "op2")
        enqueued
        idle_session in
    (s'.observed ≡ first_event ∷ second_event ∷ [])
    × (s'.tip ≡ some second_event.id)
    × (first_event.parent_id ≡ some "a")
    × (second_event.parent_id ≡ some "a")
    × ((path : List CanonicalEvent)
        → IsLineage (root ∷ first_event ∷ second_event ∷ []) second_event.id path
        → contains first_event.id (ids path) ≡ false)
append_overlapping_forks_example =
    append_overlapping_forks (world 99) (root ∷ []) (built "s" (root ∷ [])) idle_session (some "op")
      (some "op2") (tool_call "c1" "bash" end) enqueued first_event second_event (world-IsHonest 99)
      (from_events-eq "s" (root ∷ []) (refl, refl, refl, tt)) refl refl refl

world-IsFaithful : (last : ℕ) → IsFaithful (world last)
world-IsFaithful last = record {
  keeps_answer = λ n e stored call_id name content is_error details h same.
      (content, is_error, details, ground arith);
}

-- A crash has left the call c1 without a result.
end_calls-IsPaired_example :
    let (outcome, s') =
      end_calls (world 99) (unanswered_tool_calls (root ∷ first_event ∷ [])) idle_session in
    (added : List CanonicalEvent) × (s'.observed ≡ added)
    × (verify_branch (root ∷ first_event ∷ added) ≡ ok tt)
    × (outcome ≡ ok tt → AreAnswered (root ∷ first_event ∷ added))
end_calls-IsPaired_example =
    end_calls-IsPaired (world 99) (root ∷ first_event ∷ []) idle_session (world-IsFaithful 99)
      ((verify_branch_iff (root ∷ first_event ∷ [])).1 (tt, (refl, tt)))

world-IsHonestCall : (last : ℕ) → IsHonestCall (world last)
world-IsHonestCall last = record {
  faithful = world-IsFaithful last;
  keeps_call = λ n e stored call_id name input h same. (input, ground arith);
  keeps_other = λ n e stored type payload h same. (type, payload, ground arith);
  keeps_violation = λ n e stored capability reason h same. (capability, reason, ground arith);
}

abbrev read_call : ToolCallRequest
read_call = record { call_id = "c2"; name = "read"; input = end }

abbrev wanted : List ToolCallRequest
wanted = record { call_id = "c1"; name = "bash"; input = end } ∷ read_call ∷ []

-- Two calls; the signal is aborted behind the first.
execute_tool_calls-IsPaired_example :
    let (outcome, s') = execute_tool_calls (world 3) "op" wanted idle_session in
    (added : List CanonicalEvent) × (s'.observed ≡ added)
    × (verify_branch (root ∷ added) ≡ ok tt)
    × ((aborted : Bool) → outcome ≡ ok aborted → AreAnswered (root ∷ added))
execute_tool_calls-IsPaired_example =
    execute_tool_calls-IsPaired (world 3) "op" wanted (root ∷ []) idle_session
      (world-IsHonestCall 3) ((verify_branch_iff (root ∷ [])).1 (tt, tt))
      (λ id name h. absurd (ground arith))
      (let last : AreNew (root ∷ []) (read_call ∷ []) = (refl, tt, tt) in (refl, (refl, tt), last))

append_next_queued_message-IsLook_example :
    IsLook
      (world 99)
      steering
      (record idle_session { steering_messages = question ∷ [] })
      (question ∷ [])
      (append_next_queued_message
        (world 99)
        steering
        "op"
        (record idle_session { steering_messages = question ∷ [] }))
append_next_queued_message-IsLook_example =
    append_next_queued_message-IsLook (world 99) steering "op"
      (record idle_session { steering_messages = question ∷ [] })
