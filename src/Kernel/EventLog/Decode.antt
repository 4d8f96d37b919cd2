-- ===== src/Kernel/EventLog/Decode.antt =====
-- Decoding what was encoded, with or without a torn tail.
use axl_raja.Prelude.{
  ℕ, zero, suc, ◌+◌, ◌<◌, ◌≤◌, String, Bool, true, false, Option, none, some, List, [], ◌∷◌, ◌++◌,
  ◌≡◌, refl, ◌∙◌, sym, eqb, Outcome, ok, length, length-append, any, append_assoc, append-nil,
  arith, All, eq_iff,
}
use axl_raja.Protocol.Event.{CanonicalEvent}
use axl_raja.Kernel.EventLog.{
  Codec, LogError, newline, max_canonical_event_bytes, Decoded, cut_line, decode_event_line,
  decode_lines, decode_event_log_bytes,
}

-- One line for each event, as `append` writes it.
abbrev pub line_of : Codec → CanonicalEvent → List ℕ
line_of codec e = codec.encode e ++ newline ∷ []

abbrev pub lines_of : Codec → List CanonicalEvent → List ℕ
lines_of codec [] = []
lines_of codec (e ∷ events) = line_of codec e ++ lines_of codec events

-- What the log of a session may hold.
abbrev pub Fits : Codec → String → CanonicalEvent → Type 0
Fits codec session_id e =
    (e.session_id ≡ session_id)
    × (codec.is_valid e ≡ true)
    × (length (codec.encode e) ≤ max_canonical_event_bytes)

abbrev pub has_newline : List ℕ → Bool
has_newline = any (λ b. eqb b newline)

pub cut_line-line :
    (line rest : List ℕ)
    → has_newline line ≡ false
    → cut_line (line ++ newline ∷ rest) ≡ some (line, rest)
unfolding cut_line
cut_line-line [] rest h = refl
cut_line-line (b ∷ line) rest h = ground (arith, cut_line-line line rest)

pub cut_line-torn : (tail : List ℕ) → has_newline tail ≡ false → cut_line tail ≡ none
unfolding cut_line
cut_line-torn [] h = refl
cut_line-torn (b ∷ tail) h = ground (arith, cut_line-torn tail)

decoded_eq :
    {events events' : List CanonicalEvent} {n m : ℕ}
    → events ≡ events'
    → n ≡ m
    → ◌≡◌ {A = Option (Outcome LogError Decoded)}
        (some (ok (record { events = events; clean_byte_length = n })))
        (some (ok (record { events = events'; clean_byte_length = m })))
decoded_eq p q = λ i. some (ok (record { events = p i; clean_byte_length = q i }))

module _ (codec : Codec) (session_id : String) where
  decode_event_line-encode :
      (n : ℕ) (e : CanonicalEvent)
      → Fits codec session_id e
      → decode_event_line codec session_id n (codec.encode e) ≡ ok e
  unfolding decode_event_line
  decode_event_line-encode n e (same, valid, small) =
      ground (arith, codec.parse-encode e valid, eq_iff e.session_id session_id)

  decode_lines-torn :
      (fuel : ℕ) (bytes : List ℕ) (start n : ℕ) (done : List CanonicalEvent)
      → cut_line bytes ≡ none
      → decode_lines codec session_id (suc fuel) bytes start n done
        ≡ some (ok (record { events = done; clean_byte_length = start }))
  unfolding decode_lines
  decode_lines-torn fuel bytes start n done h = ground arith

  decode_lines-line :
      (fuel : ℕ) (bytes line rest : List ℕ) (start n : ℕ) (done : List CanonicalEvent)
      (e : CanonicalEvent)
      → cut_line bytes ≡ some (line, rest)
      → decode_event_line codec session_id n line ≡ ok e
      → decode_lines codec session_id (suc fuel) bytes start n done
        ≡ decode_lines codec session_id fuel rest (start + length line + 1) (n + 1) (done ++ e ∷ [])
  unfolding decode_lines
  decode_lines-line fuel bytes line rest start n done e h k = ground arith

  cut_line-event :
      (e : CanonicalEvent) (rest : List ℕ)
      → cut_line (line_of codec e ++ rest) ≡ some (codec.encode e, rest)
  cut_line-event e rest =
      rw append_assoc (cut_line-line (codec.encode e) rest (codec.encode_one_line e))

  -- Whole lines decode to their events; what follows the last line break is left out.
  pub decode_lines-eq :
      (fuel : ℕ) (events done : List CanonicalEvent) (tail : List ℕ) (start n : ℕ)
      → All (Fits codec session_id) events
      → has_newline tail ≡ false
      → length events < fuel
      → decode_lines codec session_id fuel (lines_of codec events ++ tail) start n done
        ≡ some (
            ok (record {
              events = done ++ events;
              clean_byte_length = start + length (lines_of codec events);
            }))
  decode_lines-eq zero events done tail start n fits torn h = absurd (omega arith)
  decode_lines-eq (suc fuel) [] done tail start n fits torn h =
      decode_lines-torn fuel tail start n done (cut_line-torn tail torn)
      ∙ decoded_eq (sym (append-nil done)) (omega arith)
  decode_lines-eq (suc fuel) (e ∷ events) done tail start n (fit, fits) torn h =
      decode_lines-line fuel ((line_of codec e ++ lines_of codec events) ++ tail) (codec.encode e)
        (lines_of codec events ++ tail) start n done e
        (rw append_assoc (cut_line-event e (lines_of codec events ++ tail)))
        (decode_event_line-encode n e fit)
      ∙ decode_lines-eq fuel events (done ++ e ∷ []) tail (start + length (codec.encode e) + 1)
          (n + 1) fits torn (omega arith)
      ∙ decoded_eq (append_assoc done (e ∷ []) events) (
          omega (
            arith,
            length-append (line_of codec e) (lines_of codec events),
            length-append (codec.encode e) (newline ∷ []),
          ))

  length-lines_of : (events : List CanonicalEvent) → length events ≤ length (lines_of codec events)
  length-lines_of [] = omega arith
  length-lines_of (e ∷ events) = omega (
    arith,
    length-lines_of events,
    length-append (line_of codec e) (lines_of codec events),
    length-append (codec.encode e) (newline ∷ []),
  )

-- The bytes of some events that the session's log may hold, followed by a tail without a line
-- break, decode to exactly these events, and the clean length is that of their lines.
pub decode_event_log_bytes-lines_of :
    (codec : Codec) (session_id : String) (events : List CanonicalEvent) (tail : List ℕ)
    → All (Fits codec session_id) events
    → has_newline tail ≡ false
    → decode_event_log_bytes codec session_id (lines_of codec events ++ tail)
      ≡ some (ok (record { events = events; clean_byte_length = length (lines_of codec events) }))
unfolding decode_event_log_bytes
decode_event_log_bytes-lines_of codec session_id events tail fits torn =
    decode_lines-eq codec session_id (suc (length (lines_of codec events ++ tail))) events [] tail 0
      1 fits torn
      (omega (
        arith,
        length-append (lines_of codec events) tail,
        length-lines_of codec session_id events,
      ))
    ∙ decoded_eq refl (omega arith)
