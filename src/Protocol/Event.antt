-- ===== src/Protocol/Event.antt =====
-- Canonical events (packages/protocol/src/event-envelope.ts and events.ts). Identifiers are texts;
-- a payload has a constructor for each event type that the modelled code reads or writes, and `other`
-- for the rest.
use axl_raja.Prelude.{ℕ, String, Bool, Option, List}
use axl_raja.Protocol.Json.{Json, Members}

pub record BlobReference : Type 0 where
  pub sha256 : String
  pub media_type : String
  pub size_bytes : ℕ
  pub name : Option String

-- TextContent, ThinkingContent and BlobContent; a user's content holds no `thinking`.
pub data Content : Type 0 where
  text thinking : String → Content
  blob : BlobReference → Content

pub data StopReason : Type 0 where
  stop length tool_use error aborted : StopReason

-- Usage of packages/protocol/src/model-stream.ts
pub record Usage : Type 0 where
  pub input_tokens : ℕ
  pub output_tokens : ℕ
  pub cache_read_tokens : ℕ
  pub cache_write_tokens : ℕ

pub data Payload : Type 0 where
  user_message : (content : List Content) → Payload
  user_shell : (command : String) (content : List Content) (is_error excluded : Bool) → Payload
  assistant_message :
      (content : List Content) (stop_reason : StopReason) (usage : Option Usage)
      (error_message : Option String)
      → Payload
  tool_call : (call_id name : String) (input : Members) → Payload
  tool_result :
      (call_id name : String) (content : List Content) (is_error : Bool) (details : Option Json)
      → Payload
  context_injected : (source content : String) → Payload
  context_compacted : (summary : String) (replaced_event_ids : List String) → Payload
  request_configured : (configuration : Json) → Payload
  retry_scheduled : (attempt max_attempts delay_ms : ℕ) (code : String) → Payload
  sandbox_violation : (capability reason : String) → Payload
  session_error : (code message : String) (retryable : Bool) → Payload
  other : (type : String) (payload : Json) → Payload

pub record CanonicalEvent : Type 0 where
  pub id : String
  pub session_id : String
  pub operation_id : Option String
  pub parent_id : Option String
  pub timestamp : ℕ
  pub payload : Payload
