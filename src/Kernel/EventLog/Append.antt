-- ===== src/Kernel/EventLog/Append.antt =====
-- What `append` stores, and that nothing else reaches the file.
use axl_raja.Prelude.{
  ℕ, ◌≤◌, String, true, Option, none, some, List, [], ◌∷◌, ◌++◌, ◌≡◌, refl, ◌∙◌, sym, eq_iff,
  Outcome, ok, err, ◌>>=◌, >>=-eq-ok, length, arith, take, append-nil,
}
use mathlib.Core.Path.{subst}
use axl_raja.Protocol.Event.{CanonicalEvent}
use axl_raja.Kernel.EventLog.{
  Codec, newline, max_canonical_event_bytes, LogError, corruption, event_size, rollback_failed,
  close_failed,
}
use axl_raja.Kernel.EventLog.Writing.{
  Faults, Appended, appended, not_begun, rolled_back, not_closed, not_rolled_back, died,
  append_durably, Options, parse_event, encode_canonical_event, check_session, prepared,
  encoded_event, encode_or_prepare, prepare_or_keep, prepare_append, answer_of, store,
  store_prepared, append,
}
use axl_raja.Kernel.EventLog.Decode.{line_of, lines_of, Fits}
use axl_raja.Kernel.EventLog.Durable.{IsLeft, IsLeft-part, append_durably-IsLeft}
use axl_raja.Kernel.EventLog.Recovery.{lines_of-snoc}

module _ (codec : Codec) (session_id : String) (options : Options) where
  -- An event with its own bytes that the log may hold.
  abbrev pub IsReady : CanonicalEvent × List ℕ → Type 0
  IsReady r = Fits codec session_id r.0 × (r.1 ≡ codec.encode r.0)

  check_session-eq-ok :
      (e e' : CanonicalEvent) → check_session session_id e ≡ ok e' → e'.session_id ≡ session_id
  unfolding check_session
  check_session-eq-ok e e' h = ground (arith, eq_iff e.session_id session_id)

  prepared-eq-ok :
      (prepare : CanonicalEvent → Outcome LogError CanonicalEvent) (e e' : CanonicalEvent)
      → prepared codec session_id options prepare e ≡ ok e'
      → e'.session_id ≡ session_id
  unfolding prepared
  prepared-eq-ok prepare e e' h =
      let (changed, _, rest) = >>=-eq-ok (prepare e) _ h in
      let (parsed, _, checked) = >>=-eq-ok (parse_event codec changed) _ rest in
      check_session-eq-ok parsed e' checked

  prepare_or_keep-eq-ok :
      (o : Option (CanonicalEvent → Outcome LogError CanonicalEvent)) (e e' : CanonicalEvent)
      → prepare_or_keep codec session_id options o e ≡ ok e'
      → e'.session_id ≡ session_id
  unfolding prepare_or_keep
  prepare_or_keep-eq-ok none e e' h = check_session-eq-ok e e' h
  prepare_or_keep-eq-ok (some prepare) e e' h = prepared-eq-ok prepare e e' h

  encode_canonical_event-eq-ok :
      (e : CanonicalEvent) (bytes : List ℕ)
      → encode_canonical_event codec e ≡ ok bytes
      → (codec.is_valid e ≡ true)
        × (length (codec.encode e) ≤ max_canonical_event_bytes)
        × (bytes ≡ codec.encode e)
  unfolding encode_canonical_event parse_event
  encode_canonical_event-eq-ok e bytes h = (ground arith, ground arith, ground arith)

  encoded_event-IsReady :
      (e : CanonicalEvent) (r : CanonicalEvent × List ℕ)
      → e.session_id ≡ session_id
      → encoded_event codec e ≡ ok r
      → IsReady r
  unfolding encoded_event
  encoded_event-IsReady e r same h =
      let (bytes, done, rest) = >>=-eq-ok (encode_canonical_event codec e) _ h in
      let (valid, small, own) = encode_canonical_event-eq-ok e bytes done in
      let result : ◌≡◌ {A = CanonicalEvent × List ℕ} (e, bytes) r = ok_eq rest in
      subst IsReady result ((same, valid, small), own)
    where
      ok_eq :
          {x y : CanonicalEvent × List ℕ}
          → ◌≡◌ {A = Outcome LogError (CanonicalEvent × List ℕ)} (ok x) (ok y)
          → x ≡ y
      ok_eq h = cc

  encode_or_prepare-IsReady :
      (e : CanonicalEvent) (first : Outcome LogError (CanonicalEvent × List ℕ))
      (r : CanonicalEvent × List ℕ)
      → ((s : CanonicalEvent × List ℕ) → first ≡ ok s → IsReady s)
      → encode_or_prepare codec session_id options e first ≡ ok r
      → IsReady r
  unfolding encode_or_prepare
  encode_or_prepare-IsReady e (ok s) r ready h = ready r h
  encode_or_prepare-IsReady e (err (event_size large size)) r ready h =
      again options.prepare_oversized_event h
    where
      again :
          (o : Option (CanonicalEvent → Outcome LogError CanonicalEvent))
          → ◌≡◌ {A = Outcome LogError (CanonicalEvent × List ℕ)}
              (elim o [
                | none ↦ err (event_size large size)
                | some prepare ↦
                    prepared codec session_id options prepare e >>= λ s. encoded_event codec s
              ])
              (ok r)
          → IsReady r
      again none h = cc
      again (some prepare) h =
          let (smaller, done, rest) = >>=-eq-ok (prepared codec session_id options prepare e) _ h in
          encoded_event-IsReady smaller r (prepared-eq-ok prepare e smaller done) rest
  encode_or_prepare-IsReady e (err other) r ready h = cc

  prepare_append-IsReady :
      (value : CanonicalEvent) (r : CanonicalEvent × List ℕ)
      → prepare_append codec session_id options value ≡ ok r
      → IsReady r
  unfolding prepare_append
  prepare_append-IsReady value r h =
      let (redacted, _, rest) = >>=-eq-ok (options.redact value) _ h in
      let (checked, _, rest') = >>=-eq-ok (check_session session_id redacted) _ rest in
      let (e, done, last) =
        >>=-eq-ok (prepare_or_keep codec session_id options options.prepare_event checked) _
          rest' in
      let same = prepare_or_keep-eq-ok options.prepare_event checked e done in
      encode_or_prepare-IsReady e (encoded_event codec e) r
        (λ s first. encoded_event-IsReady e s same first) last

-- The file after an append, by what the append answered.
abbrev pub IsStored :
    Codec
    → String
    → List CanonicalEvent
    → Option (Outcome LogError CanonicalEvent)
    → List ℕ
    → Type 0
IsStored codec session_id events (some (ok e)) file =
    Fits codec session_id e × (file ≡ lines_of codec (events ++ e ∷ []))
IsStored codec session_id events (some (err rollback_failed)) file =
    (line : List ℕ) × (k : ℕ) × (file ≡ lines_of codec events ++ take k line)
IsStored codec session_id events (some (err close_failed)) file =
    (line : List ℕ) × (k : ℕ) × (file ≡ lines_of codec events ++ take k line)
IsStored codec session_id events (some (err e)) file = file ≡ lines_of codec events
IsStored codec session_id events none file =
    (line : List ℕ) × (k : ℕ) × (file ≡ lines_of codec events ++ take k line)

module _ (codec : Codec) (session_id : String) (events : List CanonicalEvent) where
  unchanged-IsStored :
      (e : LogError) → IsStored codec session_id events (some (err e)) (lines_of codec events)
  unchanged-IsStored rollback_failed = ([], 0, sym (append-nil (lines_of codec events)))
  unchanged-IsStored close_failed = ([], 0, sym (append-nil (lines_of codec events)))
  unchanged-IsStored (corruption n) = refl
  unchanged-IsStored _ = refl

  answer-IsStored :
      (e : CanonicalEvent) (outcome : Appended) (file : List ℕ)
      → Fits codec session_id e
      → IsLeft (lines_of codec events) (line_of codec e) outcome file
      → IsStored codec session_id events (answer_of e outcome) file
  answer-IsStored e appended file fit left = (fit, left ∙ sym (lines_of-snoc codec events e))
  answer-IsStored e not_begun file fit left = left
  answer-IsStored e rolled_back file fit left = left
  answer-IsStored e (not_closed outcome) file fit left =
      let (k, h, part) = IsLeft-part (lines_of codec events) (line_of codec e) outcome file left in
      (line_of codec e, k, part)
  answer-IsStored e not_rolled_back file fit (k, h, left) = (line_of codec e, k, left)
  answer-IsStored e died file fit (k, h, left) = (line_of codec e, k, left)

  store-IsStored :
      (faults : Faults) (r : CanonicalEvent × List ℕ)
      → Fits codec session_id r.0 × (r.1 ≡ codec.encode r.0)
      → (let (answer, file) = store faults (lines_of codec events) r in
          IsStored codec session_id events answer file)
  store-IsStored faults (e, bytes) (fit, own) =
      let r = append_durably faults (bytes ++ newline ∷ []) (lines_of codec events) in
      answer-IsStored e r.0 r.1 fit (
        subst (λ b. IsLeft (lines_of codec events) (b ++ newline ∷ []) r.0 r.1) own
          (append_durably-IsLeft faults (bytes ++ newline ∷ []) (lines_of codec events)))

  store_prepared-IsStored :
      (faults : Faults) (first : Outcome LogError (CanonicalEvent × List ℕ))
      → ((r : CanonicalEvent × List ℕ)
          → first ≡ ok r
          → Fits codec session_id r.0 × (r.1 ≡ codec.encode r.0))
      → (let (answer, file) = store_prepared faults (lines_of codec events) first in
          IsStored codec session_id events answer file)
  store_prepared-IsStored faults (err e) ready = unchanged-IsStored e
  store_prepared-IsStored faults (ok r) ready = store-IsStored faults r (ready r refl)

-- On a file of whole lines, whatever the options' functions and the file system do: an append that
-- returns an event has added exactly that event's line, and the event belongs to the session, is
-- valid and is not too large; an append that throws leaves the file as it was, unless its rollback or
-- its `close` failed; in those cases, and where the process dies, the old lines are still there, with
-- a first part of some line behind them.
pub append-IsStored :
    (codec : Codec) (session_id : String) (options : Options) (faults : Faults)
    (events : List CanonicalEvent) (value : CanonicalEvent)
    → (let (answer, file) = append codec session_id options faults value (lines_of codec events) in
        IsStored codec session_id events answer file)
unfolding append
append-IsStored codec session_id options faults events value =
    store_prepared-IsStored codec session_id events faults
      (prepare_append codec session_id options value)
      (prepare_append-IsReady codec session_id options value)
