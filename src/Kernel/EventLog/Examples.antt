-- ===== src/Kernel/EventLog/Examples.antt =====
-- The event log's theorems and tests with a small codec.
use axl_raja.Prelude.{
  ap, String, Bool, true, false, Option, none, some, List, [], ◌∷◌, ◌++◌, ◌≡◌, refl, ◌==◌, ◌&&◌,
  eq_iff, eqb, arith, ok, All,
}
use axl_raja.Protocol.Json.{Json, null}
use axl_raja.Protocol.Event.{CanonicalEvent, Payload, other}
use axl_raja.Kernel.EventLog.{Codec, decode_event_log_bytes, read_and_recover}
use axl_raja.Kernel.EventLog.Writing.{
  wrote, fails, resolves, rejects, Faults, appended, not_closed, rolled_back, append_durably,
  Options, append,
}
use axl_raja.Kernel.EventLog.Decode.{line_of, lines_of, Fits, decode_event_log_bytes-lines_of}
use axl_raja.Kernel.EventLog.Durable.{IsLeft, append_durably-IsLeft, append_durably_returns}
use axl_raja.Kernel.EventLog.Recovery.{IsRead, Survive, append_durably_recovers}
use axl_raja.Kernel.EventLog.Append.{IsStored, append-IsStored}

abbrev resumed : CanonicalEvent
resumed = record {
  id = "a";
  session_id = "s";
  operation_id = none;
  parent_id = none;
  timestamp = 7;
  payload = other "session.resumed" null;
}

abbrev is_absent : Option String → Bool
is_absent none = true
is_absent (some _) = false

abbrev is_null : Json → Bool
is_null null = true
is_null _ = false

abbrev is_resumed : Payload → Bool
is_resumed (other type payload) = type == "session.resumed" && is_null payload
is_resumed _ = false

-- A codec whose only valid event is `resumed`, written as one byte.
abbrev is_the_event : CanonicalEvent → Bool
is_the_event e =
    e.id == "a"
    && (e.session_id == "s"
        && (is_absent e.operation_id
            && (is_absent e.parent_id && (eqb e.timestamp 7 && is_resumed e.payload))))

is_resumed_eq : (p : Payload) → is_resumed p ≡ true → p ≡ other "session.resumed" null
is_resumed_eq (other type null) h = ground (arith, eq_iff type "session.resumed")
is_resumed_eq _ h = ground arith

is_the_event_eq : (e : CanonicalEvent) → is_the_event e ≡ true → resumed ≡ e
is_the_event_eq e h =
    ground (arith, eq_iff e.id "a", eq_iff e.session_id "s", is_resumed_eq e.payload)

parse_byte : (e : CanonicalEvent) → is_the_event e ≡ true → some resumed ≡ some e
parse_byte e h = ap some (is_the_event_eq e h)

abbrev byte_codec : Codec
byte_codec = record {
  is_valid = is_the_event;
  encode = λ e. 123 ∷ [];
  parse = λ bytes. some resumed;
  parse-encode = parse_byte;
  encode_one_line = λ e. refl;
}

resumed-Fits : Fits byte_codec "s" resumed
resumed-Fits = (refl, refl, omega arith)

abbrev log : List CanonicalEvent
log = resumed ∷ resumed ∷ []

log-Fits : All (Fits byte_codec "s") log
log-Fits = (resumed-Fits, (resumed-Fits, tt))

-- A write of one byte, and then a failure that is rolled back.
abbrev failing : Faults
failing = record {
  opens = resolves;
  stats = resolves;
  writes = wrote 1 ∷ fails ∷ [];
  syncs = resolves;
  truncates = resolves;
  rollback_syncs = resolves;
  closes = resolves;
}

abbrev slow : Faults
slow = record {
  opens = resolves;
  stats = resolves;
  writes = wrote 1 ∷ wrote 5 ∷ [];
  syncs = resolves;
  truncates = resolves;
  rollback_syncs = resolves;
  closes = resolves;
}

-- The line is stored, and then `close` throws.
abbrev unclosed : Faults
unclosed = record slow { closes = rejects }

log_tests :
    (append_durably failing (123 ∷ 10 ∷ []) (9 ∷ 10 ∷ []) ≡ (rolled_back, 9 ∷ 10 ∷ []))
    × (append_durably slow (123 ∷ 10 ∷ []) (9 ∷ 10 ∷ []) ≡ (appended, 9 ∷ 10 ∷ 123 ∷ 10 ∷ []))
    × (append_durably unclosed (123 ∷ 10 ∷ []) (9 ∷ 10 ∷ [])
        ≡ (not_closed appended, 9 ∷ 10 ∷ 123 ∷ 10 ∷ []))
    × (read_and_recover byte_codec "s" true (123 ∷ 10 ∷ 123 ∷ [])
        ≡ some (ok (record { events = resumed ∷ []; recovered_bytes = 1 }), 123 ∷ 10 ∷ []))
unfolding append_durably read_and_recover
log_tests = (refl, refl, refl, refl)

decode_event_log_bytes-lines_of_example :
    decode_event_log_bytes byte_codec "s" (lines_of byte_codec log ++ 123 ∷ [])
    ≡ some (ok (record { events = log; clean_byte_length = 4 }))
decode_event_log_bytes-lines_of_example =
    decode_event_log_bytes-lines_of byte_codec "s" log (123 ∷ []) log-Fits refl

append_durably-IsLeft_example :
    (let (outcome, file) = append_durably failing (123 ∷ 10 ∷ []) (9 ∷ 10 ∷ []) in
      IsLeft (9 ∷ 10 ∷ []) (123 ∷ 10 ∷ []) outcome file)
append_durably-IsLeft_example = append_durably-IsLeft failing (123 ∷ 10 ∷ []) (9 ∷ 10 ∷ [])

append_durably_returns_example :
    append_durably slow (123 ∷ 10 ∷ []) (9 ∷ 10 ∷ []) ≡ (appended, 9 ∷ 10 ∷ 123 ∷ 10 ∷ [])
append_durably_returns_example =
    append_durably_returns slow (123 ∷ 10 ∷ []) (9 ∷ 10 ∷ []) refl refl
      (omega arith, (omega arith, tt)) (omega arith) refl refl

append_durably_recovers_example :
    (let (outcome, file) =
        append_durably failing (line_of byte_codec resumed) (lines_of byte_codec log) in
      (survivors : List CanonicalEvent) × IsRead byte_codec "s" file survivors
      × Survive outcome log resumed survivors)
append_durably_recovers_example =
    append_durably_recovers byte_codec "s" failing log resumed log-Fits resumed-Fits

abbrev plain : Options
plain = record { redact = λ e. ok e; prepare_event = none; prepare_oversized_event = none }

append-IsStored_example :
    (let (answer, file) = append byte_codec "s" plain slow resumed (lines_of byte_codec log) in
      IsStored byte_codec "s" log answer file)
append-IsStored_example = append-IsStored byte_codec "s" plain slow log resumed
