-- ===== src/Kernel/EventLog/Recovery.antt =====
-- Reading a log after an append that may have been cut short.
use axl_raja.Prelude.{
  ℕ, zero, suc, ◌≤◌, String, true, false, some, List, [], ◌∷◌, ◌++◌, ◌≡◌, refl, ap, ◌∙◌, sym, ◌⊎◌,
  inl, inr, ok, length, length-append, take, take-append_exact, append_assoc, append-nil, arith,
  All, All-append,
}
use mathlib.Core.Path.{subst}
use native.Mathlib.Decide.{dec_le}
use axl_raja.Protocol.Event.{CanonicalEvent}
use axl_raja.Kernel.EventLog.{Codec, newline, recovered, read_and_recover}
use axl_raja.Kernel.EventLog.Writing.{
  Faults, Appended, appended, not_begun, rolled_back, not_closed, not_rolled_back, died,
  append_durably,
}
use axl_raja.Kernel.EventLog.Decode.{
  line_of, lines_of, Fits, has_newline, decode_event_log_bytes-lines_of,
}
use axl_raja.Kernel.EventLog.Partial.{take_all}
use axl_raja.Kernel.EventLog.Durable.{IsLeft, append_durably-IsLeft}

lines_of-append :
    (codec : Codec) (l m : List CanonicalEvent)
    → lines_of codec (l ++ m) ≡ lines_of codec l ++ lines_of codec m
lines_of-append codec [] m = refl
lines_of-append codec (e ∷ l) m =
    ap (λ r. line_of codec e ++ r) (lines_of-append codec l m)
    ∙ sym (append_assoc (line_of codec e) (lines_of codec l) (lines_of codec m))

pub lines_of-snoc :
    (codec : Codec) (l : List CanonicalEvent) (e : CanonicalEvent)
    → lines_of codec (l ++ e ∷ []) ≡ lines_of codec l ++ line_of codec e
lines_of-snoc codec l e =
    lines_of-append codec l (e ∷ []) ∙ ap (λ r. lines_of codec l ++ r) (append-nil _)

has_newline-take : (k : ℕ) (l : List ℕ) → has_newline l ≡ false → has_newline (take k l) ≡ false
has_newline-take zero l h = refl
has_newline-take (suc k) [] h = refl
has_newline-take (suc k) (x ∷ l) h = ground (arith, has_newline-take k l)

take-append_left {ℓ} :
    {A : Type ℓ} (k : ℕ) (l m : List A) → k ≤ length l → take k (l ++ m) ≡ take k l
take-append_left zero l m h = refl
take-append_left (suc k) [] m h = absurd (omega arith)
take-append_left (suc k) (x ∷ l) m h = ap (λ r. x ∷ r) (take-append_left k l m (omega arith))

-- A file with a torn tail is cut where its last whole line ends.
recovered-torn :
    (events : List CanonicalEvent) (whole tail : List ℕ)
    → recovered true (whole ++ tail) (record { events = events; clean_byte_length = length whole })
      ≡ (ok (record { events = events; recovered_bytes = length tail }), whole)
recovered-torn events whole [] = rw append-nil (ground arith)
recovered-torn events whole (b ∷ tail) =
    ground (arith, length-append whole (b ∷ tail), take-append_exact whole (b ∷ tail))

module _ (codec : Codec) (session_id : String) where
  -- A file of whole lines with a torn tail is read as its events and cut to their lines.
  pub read_and_recover-lines_of :
      (events : List CanonicalEvent) (tail : List ℕ)
      → All (Fits codec session_id) events
      → has_newline tail ≡ false
      → read_and_recover codec session_id true (lines_of codec events ++ tail)
        ≡ some
            (ok (record { events = events; recovered_bytes = length tail }), lines_of codec events)
  unfolding read_and_recover
  read_and_recover-lines_of events tail fits torn = ground (
    arith,
    decode_event_log_bytes-lines_of codec session_id events tail fits torn,
    recovered-torn events (lines_of codec events) tail,
  )

  -- What a read returns, and the file that it leaves.
  pub record IsRead (file : List ℕ) (events : List CanonicalEvent) : Type 0 where
    pub tail_length : ℕ
    pub read_eq :
        read_and_recover codec session_id true file
        ≡ some
            (ok (record { events = events; recovered_bytes = tail_length }), lines_of codec events)

  pub IsRead-lines_of :
      (events : List CanonicalEvent)
      → All (Fits codec session_id) events
      → IsRead (lines_of codec events) events
  IsRead-lines_of events fits = record {
    tail_length = 0;
    read_eq =
        subst
          (λ f.
            read_and_recover codec session_id true f
            ≡ some (ok (record { events = events; recovered_bytes = 0 }), lines_of codec events))
          (append-nil (lines_of codec events)) (read_and_recover-lines_of events [] fits refl);
  }

  IsRead-whole :
      (events : List CanonicalEvent) (e : CanonicalEvent)
      → All (Fits codec session_id) events
      → Fits codec session_id e
      → IsRead (lines_of codec events ++ line_of codec e) (events ++ e ∷ [])
  IsRead-whole events e fits fit =
      subst (λ f. IsRead f (events ++ e ∷ [])) (lines_of-snoc codec events e)
        (IsRead-lines_of (events ++ e ∷ [])
          (All-append (Fits codec session_id) events (e ∷ []) fits (fit, tt)))

  IsRead-torn :
      (events : List CanonicalEvent) (e : CanonicalEvent) (k : ℕ)
      → All (Fits codec session_id) events
      → k ≤ length (codec.encode e)
      → IsRead (lines_of codec events ++ take k (line_of codec e)) events
  IsRead-torn events e k fits h = record {
    tail_length = length (take k (line_of codec e));
    read_eq = read_and_recover-lines_of events (take k (line_of codec e)) fits (
        rw (take-append_left k (codec.encode e) (newline ∷ []) h)
          (has_newline-take k (codec.encode e) (codec.encode_one_line e)));
  }

  -- Any first part of a line: the event is there exactly if the whole line is.
  IsRead-part :
      (events : List CanonicalEvent) (e : CanonicalEvent) (k : ℕ)
      → All (Fits codec session_id) events
      → Fits codec session_id e
      → k ≤ length (line_of codec e)
      → (survivors : List CanonicalEvent) × IsRead
          (lines_of codec events ++ take k (line_of codec e))
          survivors
        × ((survivors ≡ events) ⊎ (survivors ≡ events ++ e ∷ []))
  IsRead-part events e k fits fit h = elim (dec_le k (length (codec.encode e))) [
    | yes part ↦ (events, IsRead-torn events e k fits part, inl refl)
    | no whole ↦
        let all_of_it : k ≡ length (line_of codec e) =
          omega (arith, length-append (codec.encode e) (newline ∷ [])) in
        (
          events ++ e ∷ [],
          rw (all_of_it, take_all (length (line_of codec e)) (line_of codec e) (omega arith))
              (IsRead-whole events e fits fit),
          inr refl,
        )
  ]

-- The events that a read finds after an append that ended so.
abbrev pub Survive :
    Appended → (events : List CanonicalEvent) → CanonicalEvent → List CanonicalEvent → Type 0
Survive appended events e survivors = survivors ≡ events ++ e ∷ []
Survive not_begun events e survivors = survivors ≡ events
Survive rolled_back events e survivors = survivors ≡ events
Survive (not_closed outcome) events e survivors = Survive outcome events e survivors
Survive not_rolled_back events e survivors = (survivors ≡ events) ⊎ (survivors ≡ events ++ e ∷ [])
Survive died events e survivors = (survivors ≡ events) ⊎ (survivors ≡ events ++ e ∷ [])

module _ (codec : Codec) (session_id : String) (events : List CanonicalEvent) (e : CanonicalEvent)
    (fits : All (Fits codec session_id) events) (fit : Fits codec session_id e) where
  pub IsLeft-recovers :
      (outcome : Appended) (file : List ℕ)
      → IsLeft (lines_of codec events) (line_of codec e) outcome file
      → (survivors : List CanonicalEvent) × IsRead codec session_id file survivors
        × Survive outcome events e survivors
  IsLeft-recovers appended file left =
      (events ++ e ∷ [], rw left (IsRead-whole codec session_id events e fits fit), refl)
  IsLeft-recovers rolled_back file left =
      (events, rw left (IsRead-lines_of codec session_id events fits), refl)
  IsLeft-recovers not_begun file left =
      (events, rw left (IsRead-lines_of codec session_id events fits), refl)
  IsLeft-recovers (not_closed outcome) file left = IsLeft-recovers outcome file left
  IsLeft-recovers not_rolled_back file (k, h, left) =
      rw left (IsRead-part codec session_id events e k fits fit h)
  IsLeft-recovers died file (k, h, left) =
      rw left (IsRead-part codec session_id events e k fits fit h)

-- However each call of `appendDurably` ends, for an event and the lines of a log, the next read
-- succeeds, cuts the file to whole lines, and returns the old events: with the new one last if the
-- append returned, without it if it threw before writing or was rolled back, and either way if the
-- process died or the rollback failed. Where `close` throws, it is as it would be without that error.
pub append_durably_recovers :
    (codec : Codec) (session_id : String) (faults : Faults) (events : List CanonicalEvent)
    (e : CanonicalEvent)
    → All (Fits codec session_id) events
    → Fits codec session_id e
    → (let (outcome, file) = append_durably faults (line_of codec e) (lines_of codec events) in
        (survivors : List CanonicalEvent) × IsRead codec session_id file survivors
        × Survive outcome events e survivors)
append_durably_recovers codec session_id faults events e fits fit =
    let r = append_durably faults (line_of codec e) (lines_of codec events) in
    IsLeft-recovers codec session_id events e fits fit r.0 r.1
      (append_durably-IsLeft faults (line_of codec e) (lines_of codec events))
