-- ===== src/Kernel/EventLog.antt =====
-- The append-only event log (packages/kernel/src/jsonl-event-log.ts, with
-- packages/protocol/src/canonical-event.ts). A file is the list of its bytes. What the file system
-- does to a call is an argument: the bytes that each write accepts, and how every other call ends.
pub mod Decode
pub mod Writing
pub mod Partial
pub mod Durable
pub mod Recovery
pub mod Append
mod Examples
use axl_raja.Prelude.{
  ℕ, zero, suc, ◌+◌, ◌-◌, ◌*◌, String, Bool, true, false, not, Option, none, some, List, [], ◌∷◌,
  ◌++◌, ◌==◌, ltb, eqb, Outcome, ok, err, ◌>>=◌, if◌then◌else◌, length, take, drop, ◌≡◌, any,
}
use axl_raja.Protocol.Event.{CanonicalEvent}

abbrev pub newline : ℕ
newline = 0x0a

-- MAX_CANONICAL_EVENT_BYTES
abbrev pub max_canonical_event_bytes : ℕ
max_canonical_event_bytes = 768 * 1024

-- `JSON.stringify` with the UTF-8 encoder, and the UTF-8 decoder with `JSON.parse`, on either side
-- of `parseEvent`, which `is_valid` decides: the text of a JSON value holds no raw line break, and
-- that of a valid event reads back.
pub record Codec : Type 0 where
  pub is_valid : CanonicalEvent → Bool
  pub encode : CanonicalEvent → List ℕ
  pub parse : List ℕ → Option CanonicalEvent
  pub parse-encode : (e : CanonicalEvent) → is_valid e ≡ true → parse (encode e) ≡ some e
  pub encode_one_line : (e : CanonicalEvent) → any (λ b. eqb b newline) (encode e) ≡ false

-- the errors of the module, with the line of a corrupt log
pub data LogError : Type 0 where
  corruption : (line : ℕ) → LogError
  migration_required : CanonicalEvent → (encoded_bytes : ℕ) → LogError
  event_size : CanonicalEvent → (encoded_bytes : ℕ) → LogError
  invalid_event other_session rollback_failed close_failed io : LogError

pub record Decoded : Type 0 where
  pub events : List CanonicalEvent
  pub clean_byte_length : ℕ

pub record ReadResult : Type 0 where
  pub events : List CanonicalEvent
  pub recovered_bytes : ℕ

-- the end of `readAndRecover`: what follows the last line break is cut off the file
abbrev pub recovered : Bool → List ℕ → Decoded → Outcome LogError ReadResult × List ℕ
recovered truncates bytes decoded =
    let recovered_bytes = length bytes - decoded.clean_byte_length in
    let result : ReadResult = record {
      events = decoded.events;
      recovered_bytes = recovered_bytes;
    } in
    if not (ltb 0 recovered_bytes)
    then (ok result, bytes)
    else if truncates
    then (ok result, take decoded.clean_byte_length bytes)
    else (err io, bytes)

-- bytes.indexOf(0x0a, lineStart) with the two subarrays that it separates
unfoldable pub cut_line : List ℕ → Option (List ℕ × List ℕ)
cut_line [] = none
cut_line (b ∷ bytes) =
    if eqb b newline
    then some ([], bytes)
    else elim (cut_line bytes) [ none ↦ none | some (line, rest) ↦ some (b ∷ line, rest) ]

module _ (codec : Codec) (session_id : String) where
  unfoldable pub decode_event_line : ℕ → List ℕ → Outcome LogError CanonicalEvent
  decode_event_line line_number line =
      let oversized = ltb max_canonical_event_bytes (length line) in
      elim (codec.parse line) [
        | none ↦ err (corruption line_number)
        | some event ↦
            if not (event.session_id == session_id)
            then err (corruption line_number)
            else if oversized
            then err (migration_required event (length line))
            else ok event
      ]

  -- The loop of `decodeEventLogBytes`, over the bytes from `lineStart` on; none says that the fuel
  -- ran out.
  unfoldable pub decode_lines :
      ℕ
      → (bytes : List ℕ) (line_start line_number : ℕ) → List CanonicalEvent
      → Option (Outcome LogError Decoded)
  decode_lines zero bytes line_start line_number events = none
  decode_lines (suc fuel) bytes line_start line_number events = elim (cut_line bytes) [
    | none ↦ some (ok (record { events = events; clean_byte_length = line_start }))
    | some (line, rest) ↦ elim (decode_event_line line_number line) [
      | err e ↦ some (err e)
      | ok event ↦
          decode_lines fuel rest (line_start + length line + 1) (line_number + 1)
            (events ++ event ∷ [])
    ]
  ]

  -- Every round but the last takes a line break, so the rounds are fewer than the bytes and two.
  unfoldable pub decode_event_log_bytes : List ℕ → Option (Outcome LogError Decoded)
  unfolding decode_lines decode_event_line cut_line
  decode_event_log_bytes bytes = decode_lines (suc (length bytes)) bytes 0 1 []

  -- The file is truncated to its whole lines; `truncates` says whether that call succeeds.
  unfoldable pub read_and_recover : Bool → List ℕ → Option (Outcome LogError ReadResult × List ℕ)
  unfolding decode_event_log_bytes
  read_and_recover truncates bytes = elim (decode_event_log_bytes bytes) [
    | none ↦ none
    | some result ↦ elim result [
      | err e ↦ some (err e, bytes)
      | ok decoded ↦ some (recovered truncates bytes decoded)
    ]
  ]
