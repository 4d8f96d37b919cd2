-- ===== src/Sdk/Delivery.antt =====
-- The delivery of a prompt (packages/sdk/src/delivery.ts). The client is a function from a request to
-- its answer; the requests that were made are listed.
pub mod Certainty
mod Examples
use axl_raja.Prelude.{
  String, Bool, true, false, List, [], ◌∷◌, ◌++◌, ◌==◌, Outcome, ok, err, contains, if◌then◌else◌,
}

pub data PromptDeliveryMode : Type 0 where
  prompt steer follow_up interrupt queue_front queue_back : PromptDeliveryMode

pub data Priority : Type 0 where
  front back : Priority

-- The methods that are called; session and content are the same in each.
pub data Request : Type 0 where
  session_send session_interrupt_and_deliver session_steer session_follow_up : Request
  session_queue_enqueue : Priority → Request

-- An AxlClientError with its code, or another error.
pub data ClientError : Type 0 where
  axl_client_error : (code : String) → ClientError
  other_error : (message : String) → ClientError

pub data Response : Type 0 where
  completed : (operation_id stop_reason : String) → Response
  queued : (queue_item_id state : String) → Response
  accepted : Response

pub data PromptDeliveryOutcome : Type 0 where
  is_completed : PromptDeliveryMode → Response → PromptDeliveryOutcome
  is_accepted : PromptDeliveryMode → PromptDeliveryOutcome
  is_queued : PromptDeliveryMode → Response → PromptDeliveryOutcome
  is_uncertain : PromptDeliveryMode → PromptDeliveryOutcome

abbrev pub connection_codes : List String
connection_codes = "disconnected" ∷ "connection_error" ∷ "reconnect_failed" ∷ "write_failed" ∷ []

unfoldable pub uncertain : ClientError → Bool
uncertain (axl_client_error code) = contains code connection_codes
uncertain (other_error message) = false

abbrev pub is_inactive : ClientError → Bool
is_inactive (axl_client_error code) = code == "operation_inactive"
is_inactive (other_error message) = false

-- What is left of a call: its requests, and what it returns or throws.
abbrev pub Run : Type 0
Run = List Request × Outcome ClientError PromptDeliveryOutcome

module _ (client : List Request → Request → Outcome ClientError Response) where
  abbrev pub answered :
      List Request → (Response → PromptDeliveryOutcome) → Outcome ClientError Response → Run
  answered requests outcome (ok response) = (requests, ok (outcome response))
  answered requests outcome (err e) = (requests, err e)

  -- one `client.request`, behind the requests made before
  abbrev pub request : List Request → Request → (Response → PromptDeliveryOutcome) → Run
  request before next outcome = answered (before ++ next ∷ []) outcome (client before next)

  -- the inner `catch` of a steer or follow-up
  abbrev pub or_enqueue :
      PromptDeliveryMode → Request → Priority → Outcome ClientError Response → Run
  or_enqueue mode first priority (ok response) = (first ∷ [], ok (is_accepted mode))
  or_enqueue mode first priority (err e) =
      if is_inactive e
      then request (first ∷ []) (session_queue_enqueue priority) (is_queued mode)
      else (first ∷ [], err e)

  -- the outer `try`
  unfoldable pub dispatch : PromptDeliveryMode → Run
  dispatch prompt = request [] session_send (is_completed prompt)
  dispatch interrupt = request [] session_interrupt_and_deliver (is_completed interrupt)
  dispatch queue_front = request [] (session_queue_enqueue front) (is_queued queue_front)
  dispatch queue_back = request [] (session_queue_enqueue back) (is_queued queue_back)
  dispatch steer = or_enqueue steer session_steer front (client [] session_steer)
  dispatch follow_up = or_enqueue follow_up session_follow_up back (client [] session_follow_up)

  -- the outer `catch`
  abbrev pub or_uncertain : PromptDeliveryMode → Run → Run
  or_uncertain mode (requests, ok outcome) = (requests, ok outcome)
  or_uncertain mode (requests, err e) =
      if uncertain e then (requests, ok (is_uncertain mode)) else (requests, err e)

  unfoldable pub deliver_prompt : PromptDeliveryMode → Run
  unfolding dispatch uncertain
  deliver_prompt mode = or_uncertain mode (dispatch mode)
