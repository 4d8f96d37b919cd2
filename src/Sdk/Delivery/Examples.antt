-- ===== src/Sdk/Delivery/Examples.antt =====
-- A steer that comes too late.
use axl_raja.Prelude.{List, [], ◌∷◌, ◌≡◌, refl, Outcome, ok, err}
use axl_raja.Sdk.Delivery.{
  steer, front, Request, session_steer, session_queue_enqueue, ClientError, axl_client_error,
  Response, queued, is_queued, deliver_prompt,
}
use axl_raja.Sdk.Delivery.Certainty.{IsDelivery, deliver_prompt-IsDelivery}

abbrev too_late : List Request → Request → Outcome ClientError Response
too_late before session_steer = err (axl_client_error "operation_inactive")
too_late before _ = ok (queued "q1" "queued")

enqueues_in_front : deliver_prompt too_late steer ≡ (
  session_steer ∷ session_queue_enqueue front ∷ [],
  ok (is_queued steer (queued "q1" "queued")),
)
unfolding deliver_prompt
enqueues_in_front = refl

deliver_prompt-IsDelivery_example : IsDelivery too_late steer (deliver_prompt too_late steer)
deliver_prompt-IsDelivery_example = deliver_prompt-IsDelivery too_late steer
