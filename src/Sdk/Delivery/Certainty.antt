-- ===== src/Sdk/Delivery/Certainty.antt =====
-- What the caller of `deliverPrompt` knows afterwards.
use axl_raja.Prelude.{
  true, false, List, [], ◌∷◌, ◌≡◌, refl, sym, ap, ◌∙◌, Outcome, ok, err, Bool-cases, inl, inr,
}
use mathlib.Core.Path.{subst}
use axl_raja.Sdk.Delivery.{
  PromptDeliveryMode, prompt, steer, follow_up, interrupt, queue_front, queue_back, Priority, front,
  back, Request, session_send, session_interrupt_and_deliver, session_steer, session_follow_up,
  session_queue_enqueue, ClientError, Response, PromptDeliveryOutcome, is_completed, is_accepted,
  is_queued, is_uncertain, uncertain, is_inactive, Run, answered, or_enqueue, dispatch,
  or_uncertain, deliver_prompt,
}

abbrev pub first_request : PromptDeliveryMode → Request
first_request prompt = session_send
first_request interrupt = session_interrupt_and_deliver
first_request queue_front = session_queue_enqueue front
first_request queue_back = session_queue_enqueue back
first_request steer = session_steer
first_request follow_up = session_follow_up

-- The queue's end for an input that comes too late to steer or to follow up.
pub data Waits : PromptDeliveryMode → Priority → Type 0 where
  steers : Waits steer front
  follows : Waits follow_up back

-- What an answer to the first request says.
abbrev pub first_outcome : PromptDeliveryMode → Response → PromptDeliveryOutcome
first_outcome prompt response = is_completed prompt response
first_outcome interrupt response = is_completed interrupt response
first_outcome queue_front response = is_queued queue_front response
first_outcome queue_back response = is_queued queue_back response
first_outcome steer response = is_accepted steer
first_outcome follow_up response = is_accepted follow_up

-- Which requests were made, the answer to the last, and what a response to that one says.
pub data Made (client : List Request → Request → Outcome ClientError Response)
    (mode : PromptDeliveryMode)
    : List Request
      → Outcome ClientError Response
      → (Response → PromptDeliveryOutcome)
      → Type 0 where
  once :
      ((priority : Priority) (e : ClientError)
        → Waits mode priority
        → client [] (first_request mode) ≡ err e
        → is_inactive e ≡ false)
      → Made client mode
          (first_request mode ∷ [])
          (client [] (first_request mode))
          (first_outcome mode)
  twice :
      (e : ClientError) (priority : Priority)
      → Waits mode priority
      → client [] (first_request mode) ≡ err e
      → is_inactive e ≡ true
      → Made client mode
          (first_request mode ∷ session_queue_enqueue priority ∷ [])
          (client (first_request mode ∷ []) (session_queue_enqueue priority))
          (is_queued mode)

-- How the answer to the last request becomes the result.
pub data Told (mode : PromptDeliveryMode) (says : Response → PromptDeliveryOutcome)
    (answer : Outcome ClientError Response) (r : Outcome ClientError PromptDeliveryOutcome)
    : Type 0 where
  is_done :
      (response : Response)
      → answer ≡ ok response
      → r ≡ ok (says response)
      → Told mode says answer r
  is_unknown :
      (e : ClientError)
      → answer ≡ err e
      → uncertain e ≡ true
      → r ≡ ok (is_uncertain mode)
      → Told mode says answer r
  is_thrown :
      (e : ClientError) → answer ≡ err e → uncertain e ≡ false → r ≡ err e → Told mode says answer r

pub record IsDelivery (client : List Request → Request → Outcome ClientError Response)
    (mode : PromptDeliveryMode) (r : Run) : Type 0 where
  pub answer : Outcome ClientError Response
  pub says : Response → PromptDeliveryOutcome
  pub made : Made client mode r.0 answer says
  pub told : Told mode says answer r.1

module _ (client : List Request → Request → Outcome ClientError Response)
    (mode : PromptDeliveryMode) where
  answered-IsDelivery :
      (requests : List Request) (says : Response → PromptDeliveryOutcome)
      (answer : Outcome ClientError Response)
      → Made client mode requests answer says
      → IsDelivery client mode (or_uncertain client mode (answered client requests says answer))
  answered-IsDelivery requests says (ok response) made = record {
    answer = ok response;
    says = says;
    made = made;
    told = is_done response refl refl;
  }
  answered-IsDelivery requests says (err e) made = elim (Bool-cases (uncertain e)) [
    | inl lost ↦
        rw lost
          (record { answer = err e; says = says; made = made; told = is_unknown e refl lost refl })
    | inr known ↦
        rw known
          (record { answer = err e; says = says; made = made; told = is_thrown e refl known refl })
  ]

  Made-once :
      (answer : Outcome ClientError Response)
      → client [] (first_request mode) ≡ answer
      → ((priority : Priority) (e : ClientError)
          → Waits mode priority
          → answer ≡ err e
          → is_inactive e ≡ false)
      → Made client mode (first_request mode ∷ []) answer (first_outcome mode)
  Made-once answer same last =
      subst (λ a. Made client mode (first_request mode ∷ []) a (first_outcome mode)) same
        (once (λ priority e waits failed. last priority e waits (sym same ∙ failed)))

  or_enqueue-IsDelivery :
      (priority : Priority) (answer : Outcome ClientError Response)
      → Waits mode priority
      → ((response : Response) → first_outcome mode response ≡ is_accepted mode)
      → client [] (first_request mode) ≡ answer
      → IsDelivery client mode
          (or_uncertain client mode (or_enqueue client mode (first_request mode) priority answer))
  or_enqueue-IsDelivery priority (ok response) waits accepts same = record {
    answer = ok response;
    says = first_outcome mode;
    made = Made-once (ok response) same λ _ e _ h. cc;
    told = is_done response refl (ap ok (sym (accepts response)));
  }
  or_enqueue-IsDelivery priority (err e) waits accepts same = elim (Bool-cases (is_inactive e)) [
    | inl inactive ↦ rw inactive (
        answered-IsDelivery (first_request mode ∷ session_queue_enqueue priority ∷ [])
          (is_queued mode) _ (twice e priority waits same inactive))
    | inr other ↦ rw other (
        answered-IsDelivery (first_request mode ∷ []) (first_outcome mode) (err e)
          (Made-once (err e) same λ _ e' _ h. cc (h, other)))
  ]

-- `deliverPrompt` makes the request of its mode, and a second one only for a steer or a follow-up
-- whose operation is no longer active, and always then: it enqueues that, in front for a steer and at
-- the back for a follow-up. Where the last request was answered, it returns `completed` for a prompt
-- and an interrupt, `accepted` for a steer or follow-up that was taken, and `queued` for what was
-- enqueued, with the response. Where the last request failed, it returns `uncertain` exactly for the
-- errors of a lost connection, and throws every other error.
pub deliver_prompt-IsDelivery :
    (client : List Request → Request → Outcome ClientError Response) (mode : PromptDeliveryMode)
    → IsDelivery client mode (deliver_prompt client mode)
unfolding deliver_prompt dispatch
deliver_prompt-IsDelivery client prompt =
    answered-IsDelivery client prompt _ _ (client [] session_send)
      (once λ _ _ waits _. elim waits [ ])
deliver_prompt-IsDelivery client interrupt =
    answered-IsDelivery client interrupt _ _ (client [] session_interrupt_and_deliver)
      (once λ _ _ waits _. elim waits [ ])
deliver_prompt-IsDelivery client queue_front =
    answered-IsDelivery client queue_front _ _ (client [] (session_queue_enqueue front))
      (once λ _ _ waits _. elim waits [ ])
deliver_prompt-IsDelivery client queue_back =
    answered-IsDelivery client queue_back _ _ (client [] (session_queue_enqueue back))
      (once λ _ _ waits _. elim waits [ ])
deliver_prompt-IsDelivery client steer =
    or_enqueue-IsDelivery client steer front (client [] session_steer) steers (λ _. refl) refl
deliver_prompt-IsDelivery client follow_up =
    or_enqueue-IsDelivery client follow_up back (client [] session_follow_up) follows (λ _. refl)
      refl
