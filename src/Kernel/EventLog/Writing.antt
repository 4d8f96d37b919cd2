-- ===== src/Kernel/EventLog/Writing.antt =====
-- The writing half of the log: `appendDurably`, `encodeCanonicalEvent` and `append`. What the file
-- system does to a call is an argument: the bytes that each write accepts, and how every other call ends.
use axl_raja.Prelude.{
  ℕ, ◌+◌, String, not, Option, none, some, List, [], ◌∷◌, ◌++◌, ◌==◌, ltb, eqb, Outcome, ok, err,
  ◌>>=◌, if◌then◌else◌, length, take, drop,
}
use axl_raja.Protocol.Event.{CanonicalEvent}
use axl_raja.Kernel.EventLog.{
  Codec, newline, max_canonical_event_bytes, LogError, event_size, invalid_event, other_session,
  rollback_failed, close_failed, io,
}

-- what the operating system answers to one `handle.write`: the number of bytes, or an error
pub data Write : Type 0 where
  wrote : ℕ → Write
  fails : Write

-- how the loop of `appendDurably` ends; `crashes` says that the process died before it ended
pub data Progress : Type 0 where
  completes throws crashes : Progress

-- A write of `chunk` at `position`, which is the end of the file or before it.
abbrev pub write_at : ℕ → List ℕ → List ℕ → List ℕ
write_at position chunk file = take position file ++ chunk ++ drop (position + length chunk) file

-- The write loop of `appendDurably`: an answer for each call of `handle.write`, which writes some
-- first bytes of what is left of the line.
unfoldable pub write_loop :
    List Write → (line : List ℕ) (before written : ℕ) → List ℕ → Progress × List ℕ
write_loop [] line before written file =
    if ltb written (length line) then (crashes, file) else (completes, file)
write_loop (fails ∷ answers) line before written file =
    if ltb written (length line) then (throws, file) else (completes, file)
write_loop (wrote n ∷ answers) line before written file =
    let chunk = take n (drop written line) in
    let rest =
      write_loop answers line before (written + length chunk)
        (write_at (before + written) chunk file) in
    if not (ltb written (length line))
    then (completes, file)
    else if eqb (length chunk) 0
    then (throws, file)
    else rest

-- how any other call of the file system ends; the process may die in it
pub data Answer : Type 0 where
  resolves rejects dies : Answer

-- `open`, `handle.stat`, the writes, `handle.sync`, `handle.truncate` and `handle.sync` of the
-- rollback, and `handle.close`
pub record Faults : Type 0 where
  pub opens : Answer
  pub stats : Answer
  pub writes : List Write
  pub syncs : Answer
  pub truncates : Answer
  pub rollback_syncs : Answer
  pub closes : Answer

-- `appendDurably` returns, throws before the first write, throws the error of the write, throws an
-- AggregateError, throws the error of `close` in place of another end, or never ends since the
-- process dies.
pub data Appended : Type 0 where
  appended not_begun rolled_back not_rolled_back died : Appended
  not_closed : Appended → Appended

abbrev pub cut_back : Answer → ℕ → List ℕ → Appended × List ℕ
cut_back resolves before file = (rolled_back, take before file)
cut_back rejects before file = (not_rolled_back, take before file)
cut_back dies before file = (died, take before file)

abbrev pub roll_back_with : Answer → Faults → ℕ → List ℕ → Appended × List ℕ
roll_back_with resolves faults before file = cut_back faults.rollback_syncs before file
roll_back_with rejects faults before file = (not_rolled_back, file)
roll_back_with dies faults before file = (died, file)

abbrev pub roll_back : Faults → ℕ → List ℕ → Appended × List ℕ
roll_back faults before file = roll_back_with faults.truncates faults before file

abbrev pub sync_line : Answer → Faults → ℕ → List ℕ → Appended × List ℕ
sync_line resolves faults before file = (appended, file)
sync_line rejects faults before file = roll_back faults before file
sync_line dies faults before file = (died, file)

abbrev pub finish : Faults → ℕ → Progress × List ℕ → Appended × List ℕ
finish faults before (completes, file) = sync_line faults.syncs faults before file
finish faults before (throws, file) = roll_back faults before file
finish faults before (crashes, file) = (died, file)

-- the outer `finally` block
abbrev pub close : Answer → Appended × List ℕ → Appended × List ℕ
close answer (died, file) = (died, file)
close resolves (outcome, file) = (outcome, file)
close rejects (outcome, file) = (not_closed outcome, file)
close dies (outcome, file) = (died, file)

-- the outer `try` block, from the answer of `handle.stat` on
abbrev pub write_behind : Answer → Faults → (line file : List ℕ) → Appended × List ℕ
write_behind resolves faults line file =
    finish faults (length file) (write_loop faults.writes line (length file) 0 file)
write_behind rejects faults line file = (not_begun, file)
write_behind dies faults line file = (died, file)

abbrev pub append_opened : Answer → Faults → (line file : List ℕ) → Appended × List ℕ
append_opened resolves faults line file =
    close faults.closes (write_behind faults.stats faults line file)
append_opened rejects faults line file = (not_begun, file)
append_opened dies faults line file = (died, file)

unfoldable pub append_durably : Faults → (line file : List ℕ) → Appended × List ℕ
unfolding write_loop
append_durably faults line file = append_opened faults.opens faults line file

module _ (codec : Codec) where
  -- `parseEvent`
  unfoldable pub parse_event : CanonicalEvent → Outcome LogError CanonicalEvent
  parse_event event = if codec.is_valid event then ok event else err invalid_event

  -- encodeCanonicalEvent
  unfoldable pub encode_canonical_event : CanonicalEvent → Outcome LogError (List ℕ)
  unfolding parse_event
  encode_canonical_event value = do
    event ← parse_event value
    let encoded = codec.encode event
    if ltb max_canonical_event_bytes (length encoded)
        then err (event_size event (length encoded))
        else ok encoded

  unfoldable pub encoded_event : CanonicalEvent → Outcome LogError (CanonicalEvent × List ℕ)
  unfolding encode_canonical_event
  encoded_event event = do bytes ← encode_canonical_event event; ok (event, bytes)

-- the session checks of `append`
unfoldable pub check_session : String → CanonicalEvent → Outcome LogError CanonicalEvent
check_session session_id event =
    if event.session_id == session_id then ok event else err other_session

-- the options of a log: `redact` is `redactEventForStorage` with the secret values of the moment
pub record Options : Type 0 where
  pub redact : CanonicalEvent → Outcome LogError CanonicalEvent
  pub prepare_event : Option (CanonicalEvent → Outcome LogError CanonicalEvent)
  pub prepare_oversized_event : Option (CanonicalEvent → Outcome LogError CanonicalEvent)

abbrev pub answer_of : CanonicalEvent → Appended → Option (Outcome LogError CanonicalEvent)
answer_of event appended = some (ok event)
answer_of event not_begun = some (err io)
answer_of event rolled_back = some (err io)
answer_of event not_rolled_back = some (err rollback_failed)
answer_of event (not_closed outcome) = some (err close_failed)
answer_of event died = none

abbrev pub store :
    Faults → List ℕ → CanonicalEvent × List ℕ → Option (Outcome LogError CanonicalEvent) × List ℕ
store faults file (event, encoded) =
    let (outcome, file') = append_durably faults (encoded ++ newline ∷ []) file in
    (answer_of event outcome, file')

abbrev pub store_prepared :
    Faults
    → List ℕ
    → Outcome LogError (CanonicalEvent × List ℕ)
    → Option (Outcome LogError CanonicalEvent) × List ℕ
store_prepared faults file (err e) = (some (err e), file)
store_prepared faults file (ok r) = store faults file r

module _ (codec : Codec) (session_id : String) (options : Options) where
  -- `parseEvent(await prepare(event))`, with the session check behind it
  unfoldable pub prepared :
      (CanonicalEvent → Outcome LogError CanonicalEvent)
      → CanonicalEvent
      → Outcome LogError CanonicalEvent
  unfolding parse_event check_session
  prepared prepare event = do
    changed ← prepare event
    parsed ← parse_event codec changed
    check_session session_id parsed

  -- the `try` around the first encoding: only a size error leads to the second
  unfoldable pub encode_or_prepare :
      CanonicalEvent
      → Outcome LogError (CanonicalEvent × List ℕ)
      → Outcome LogError (CanonicalEvent × List ℕ)
  unfolding encoded_event prepared
  encode_or_prepare event (ok result) = ok result
  encode_or_prepare event (err (event_size large size)) = elim options.prepare_oversized_event [
    | none ↦ err (event_size large size)
    | some prepare ↦ do smaller ← prepared prepare event; encoded_event codec smaller
  ]
  encode_or_prepare event (err e) = err e

  unfoldable pub prepare_or_keep :
      Option (CanonicalEvent → Outcome LogError CanonicalEvent)
      → CanonicalEvent
      → Outcome LogError CanonicalEvent
  unfolding check_session prepared
  prepare_or_keep none event = check_session session_id event
  prepare_or_keep (some prepare) event = prepared prepare event

  -- everything that `append` does before it writes: the event that is stored, and its bytes
  unfoldable pub prepare_append : CanonicalEvent → Outcome LogError (CanonicalEvent × List ℕ)
  unfolding check_session prepare_or_keep encode_or_prepare encoded_event
  prepare_append value = do
    redacted ← options.redact value
    checked ← check_session session_id redacted
    event ← prepare_or_keep options.prepare_event checked
    encode_or_prepare event (encoded_event codec event)

  -- JsonlEventLog.append, on its turn in the queue of operations; none says that the process died
  unfoldable pub append :
      Faults → CanonicalEvent → List ℕ → Option (Outcome LogError CanonicalEvent) × List ℕ
  unfolding prepare_append append_durably
  append faults value file = store_prepared faults file (prepare_append value)
