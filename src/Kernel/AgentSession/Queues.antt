-- ===== src/Kernel/AgentSession/Queues.antt =====
-- The input that `steer` and `followUp` queue.
use axl_raja.Prelude.{
  ℕ, suc, String, Bool, true, false, Option, none, some, List, [], ◌∷◌, ◌++◌, ◌≡◌, refl, ap,
  Outcome, ok, err,
}
use axl_raja.Protocol.Event.{Content, user_message, CanonicalEvent}
use axl_raja.Kernel.Compaction.{user}
use axl_raja.Kernel.AgentSession.{
  World, AgentSession, Thrown, not_stored, proceed, return, accept_stored, push_appended,
  push_message, new_event, content_of, ◌>>=◌, append_user_message, append_pushed, append,
}
use axl_raja.Kernel.AgentSession.Turn.{
  Queue, steering, follow_ups, queue_of, arrived, shift, tail, deliver, append_next_queued_message,
}

-- What the look at a queue does that holds `queue`.
pub data IsLook (w : World) (q : Queue) (s : AgentSession) (queue : List (List Content))
    (r : Outcome Thrown Bool × AgentSession) : Type 0 where
  -- nothing is queued
  is_empty :
      queue ≡ []
      → r.0 ≡ ok false
      → r.1.observed ≡ s.observed
      → queue_of q r.1 ≡ []
      → IsLook w q s queue r
  -- the log refuses the first input, which stays queued
  is_refused :
      r.0 ≡ err not_stored
      → r.1.observed ≡ s.observed
      → queue_of q r.1 ≡ queue
      → IsLook w q s queue r
  -- the log stores the message of the first input, which leaves the queue
  is_delivered :
      (content : List Content) (rest : List (List Content)) (n : ℕ) (e stored : CanonicalEvent)
      → e.payload ≡ user_message content
      → w.store n e ≡ some stored
      → queue ≡ content ∷ rest
      → r.0 ≡ ok true
      → r.1.observed ≡ s.observed ++ stored ∷ []
      → queue_of q r.1 ≡ rest
      → IsLook w q s queue r

module _ (w : World) where
  deliver_first :
      (q : Queue) (s t : AgentSession) (content : List Content) (rest : List (List Content)) (n : ℕ)
      (e : CanonicalEvent) (answer : Option CanonicalEvent)
      → e.payload ≡ user_message content
      → w.store n e ≡ answer
      → queue_of q t ≡ content ∷ rest
      → t.observed ≡ s.observed
      → IsLook w q s (content ∷ rest) (
          proceed
            (λ _. shift q >>= λ _. return true)
            (proceed
              (λ stored. push_message (user (content_of stored.payload)))
              (proceed
                (λ stored. push_appended stored >>= λ _. return stored)
                (accept_stored answer t))))
  deliver_first q s t content rest n e none message h full same = is_refused refl same full
  deliver_first steering s t content rest n e (some stored) message h full same =
      is_delivered content rest n e stored message h refl refl (ap (λ l. l ++ stored ∷ []) same)
        (ap tail full)
  deliver_first follow_ups s t content rest n e (some stored) message h full same =
      is_delivered content rest n e stored message h refl refl (ap (λ l. l ++ stored ∷ []) same)
        (ap tail full)

  deliver-IsLook :
      (q : Queue) (operation_id : String) (s t : AgentSession) (queue : List (List Content))
      → queue_of q t ≡ queue
      → t.observed ≡ s.observed
      → IsLook w q s queue (deliver w q operation_id queue t)
  unfolding append_user_message append_pushed append
  deliver-IsLook q op s t [] full same = is_empty refl refl same full
  deliver-IsLook steering op s t (content ∷ rest) full same =
      deliver_first steering s (record t { calls = suc t.calls }) content rest t.calls
        (new_event w (some op) (user_message content) t) _ refl refl full same
  deliver-IsLook follow_ups op s t (content ∷ rest) full same =
      deliver_first follow_ups s (record t { calls = suc t.calls }) content rest t.calls
        (new_event w (some op) (user_message content) t) _ refl refl full same

-- A look at a queue, with what has arrived meanwhile behind what was queued, has one of three
-- outcomes: nothing is queued, and the look appends nothing; the log refuses the first input, the
-- look throws, and all of the input stays queued in its order; or the log stores a user
-- message with the first input, which alone leaves the queue.
pub append_next_queued_message-IsLook :
    (w : World) (q : Queue) (operation_id : String) (s : AgentSession)
    → IsLook w q s
        (queue_of q s ++ arrived w q s.calls)
        (append_next_queued_message w q operation_id s)
unfolding append_next_queued_message
append_next_queued_message-IsLook w steering op s = deliver-IsLook w steering op s _ _ refl refl
append_next_queued_message-IsLook w follow_ups op s = deliver-IsLook w follow_ups op s _ _ refl refl
