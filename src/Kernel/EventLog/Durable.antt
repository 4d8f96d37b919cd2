-- ===== src/Kernel/EventLog/Durable.antt =====
-- What `appendDurably` leaves on disk, whatever the writes and syncs answer.
use axl_raja.Prelude.{
  ℕ, ◌≤◌, List, ◌++◌, ◌≡◌, refl, ap, ◌∙◌, sym, length, take, take-append_exact, append-nil, arith,
}
use mathlib.Core.Path.{subst}
use axl_raja.Kernel.EventLog.Writing.{
  Progress, completes, throws, crashes, write_loop, Answer, resolves, rejects, dies, Faults,
  Appended, appended, not_begun, rolled_back, not_rolled_back, not_closed, died, cut_back,
  roll_back, roll_back_with, sync_line, finish, close, write_behind, append_opened, append_durably,
}
use axl_raja.Kernel.EventLog.Partial.{
  take_all, partial, IsPartial, write_loop-IsPartial, MakesProgress, write_loop_completes,
}

-- What is on disk when `appendDurably` ends: the whole line, or the old file, or, where the rollback
-- failed or the process died, the old file with some first part of the line. An error of `close`
-- changes nothing on disk.
abbrev pub IsLeft : (file line : List ℕ) → Appended → List ℕ → Type 0
IsLeft file line appended file' = file' ≡ file ++ line
IsLeft file line not_begun file' = file' ≡ file
IsLeft file line rolled_back file' = file' ≡ file
IsLeft file line (not_closed outcome) file' = IsLeft file line outcome file'
IsLeft file line not_rolled_back file' = (k : ℕ) × (k ≤ length line) × (file' ≡ file ++ take k line)
IsLeft file line died file' = (k : ℕ) × (k ≤ length line) × (file' ≡ file ++ take k line)

-- In any case it is the old file with some first part of the line.
pub IsLeft-part :
    (file line : List ℕ) (outcome : Appended) (file' : List ℕ)
    → IsLeft file line outcome file'
    → (k : ℕ) × (k ≤ length line) × (file' ≡ file ++ take k line)
IsLeft-part file line appended file' left = (
  length line,
  omega arith,
  left ∙ ap (λ l. file ++ l) (sym (take_all (length line) line (omega arith))),
)
IsLeft-part file line not_begun file' left = (0, omega arith, left ∙ sym (append-nil file))
IsLeft-part file line rolled_back file' left = (0, omega arith, left ∙ sym (append-nil file))
IsLeft-part file line (not_closed outcome) file' left = IsLeft-part file line outcome file' left
IsLeft-part file line not_rolled_back file' left = left
IsLeft-part file line died file' left = left

cut_back-IsLeft :
    (file line : List ℕ) (answer : Answer) (k : ℕ)
    → (let (outcome, file') = cut_back answer (length file) (partial file line k) in
        IsLeft file line outcome file')
cut_back-IsLeft file line resolves k = take-append_exact file (take k line)
cut_back-IsLeft file line rejects k =
    (0, omega arith, take-append_exact file (take k line) ∙ sym (append-nil file))
cut_back-IsLeft file line dies k =
    (0, omega arith, take-append_exact file (take k line) ∙ sym (append-nil file))

roll_back_with-IsLeft :
    (file line : List ℕ) (answer : Answer) (faults : Faults) (k : ℕ)
    → k ≤ length line
    → (let (outcome, file') = roll_back_with answer faults (length file) (partial file line k) in
        IsLeft file line outcome file')
roll_back_with-IsLeft file line resolves faults k h =
    cut_back-IsLeft file line faults.rollback_syncs k
roll_back_with-IsLeft file line rejects faults k h = (k, h, refl)
roll_back_with-IsLeft file line dies faults k h = (k, h, refl)

roll_back-IsLeft :
    (file line : List ℕ) (faults : Faults) (k : ℕ)
    → k ≤ length line
    → (let (outcome, file') = roll_back faults (length file) (partial file line k) in
        IsLeft file line outcome file')
roll_back-IsLeft file line faults = roll_back_with-IsLeft file line faults.truncates faults

sync_line-IsLeft :
    (file line : List ℕ) (answer : Answer) (faults : Faults)
    → (let (outcome, file') =
          sync_line answer faults (length file) (partial file line (length line)) in
        IsLeft file line outcome file')
sync_line-IsLeft file line resolves faults =
    ap (λ l. file ++ l) (take_all (length line) line (omega arith))
sync_line-IsLeft file line rejects faults =
    roll_back-IsLeft file line faults (length line) (omega arith)
sync_line-IsLeft file line dies faults = (length line, omega arith, refl)

finish-IsLeft :
    (file line : List ℕ) (faults : Faults) (progress : Progress) (k : ℕ)
    → k ≤ length line
    → (progress ≡ completes → k ≡ length line)
    → (let (outcome, file') = finish faults (length file) (progress, partial file line k) in
        IsLeft file line outcome file')
finish-IsLeft file line faults completes k h done =
    rw (done refl) (sync_line-IsLeft file line faults.syncs faults)
finish-IsLeft file line faults throws k h done = roll_back-IsLeft file line faults k h
finish-IsLeft file line faults crashes k h done = (k, h, refl)

IsPartial-IsLeft :
    (file line : List ℕ) (faults : Faults) (r : Progress × List ℕ)
    → IsPartial file line r
    → (let (outcome, file') = finish faults (length file) r in IsLeft file line outcome file')
IsPartial-IsLeft file line faults (progress, now) part =
    subst
      (λ f.
        let (outcome, file') = finish faults (length file) (progress, f) in
        IsLeft file line outcome file')
      (sym part.file_eq)
      (finish-IsLeft file line faults progress part.count part.bound part.all_written)

close-IsLeft :
    (file line : List ℕ) (answer : Answer) (r : Appended × List ℕ)
    → IsLeft file line r.0 r.1
    → (let (outcome, file') = close answer r in IsLeft file line outcome file')
close-IsLeft file line answer (died, f) left = left
close-IsLeft file line resolves (appended, f) left = left
close-IsLeft file line rejects (appended, f) left = left
close-IsLeft file line dies (appended, f) left = IsLeft-part file line appended f left
close-IsLeft file line resolves (not_begun, f) left = left
close-IsLeft file line rejects (not_begun, f) left = left
close-IsLeft file line dies (not_begun, f) left = IsLeft-part file line not_begun f left
close-IsLeft file line resolves (rolled_back, f) left = left
close-IsLeft file line rejects (rolled_back, f) left = left
close-IsLeft file line dies (rolled_back, f) left = IsLeft-part file line rolled_back f left
close-IsLeft file line resolves (not_rolled_back, f) left = left
close-IsLeft file line rejects (not_rolled_back, f) left = left
close-IsLeft file line dies (not_rolled_back, f) left = left
close-IsLeft file line resolves (not_closed outcome, f) left = left
close-IsLeft file line rejects (not_closed outcome, f) left = left
close-IsLeft file line dies (not_closed outcome, f) left = IsLeft-part file line outcome f left

write_behind-IsLeft :
    (file line : List ℕ) (answer : Answer) (faults : Faults)
    → (let (outcome, file') = write_behind answer faults line file in
        IsLeft file line outcome file')
write_behind-IsLeft file line resolves faults =
    IsPartial-IsLeft file line faults (write_loop faults.writes line (length file) 0 file) (
      subst (λ f. IsPartial file line (write_loop faults.writes line (length file) 0 f))
        (append-nil file) (write_loop-IsPartial file line faults.writes 0 (omega arith)))
write_behind-IsLeft file line rejects faults = refl
write_behind-IsLeft file line dies faults = (0, omega arith, sym (append-nil file))

append_opened-IsLeft :
    (file line : List ℕ) (answer : Answer) (faults : Faults)
    → (let (outcome, file') = append_opened answer faults line file in
        IsLeft file line outcome file')
append_opened-IsLeft file line resolves faults =
    close-IsLeft file line faults.closes (write_behind faults.stats faults line file)
      (write_behind-IsLeft file line faults.stats faults)
append_opened-IsLeft file line rejects faults = refl
append_opened-IsLeft file line dies faults = (0, omega arith, sym (append-nil file))

-- However each call of the file system ends, in any of which the process may die: an append that
-- returns has added the whole line; one that throws before it writes, or the write's error, has left
-- the file as it was; and one whose rollback failed, or whose process died, has added some first part
-- of the line and changed nothing before it. Where `close` throws, the file is as it was before that.
pub append_durably-IsLeft :
    (faults : Faults) (line file : List ℕ)
    → (let (outcome, file') = append_durably faults line file in IsLeft file line outcome file')
unfolding append_durably
append_durably-IsLeft faults line file = append_opened-IsLeft file line faults.opens faults

finish_completed :
    (faults : Faults) (before : ℕ) (r : Progress × List ℕ)
    → faults.syncs ≡ resolves
    → r.0 ≡ completes
    → (finish faults before r).0 ≡ appended
finish_completed faults before (completes, f) s h = rw s
finish_completed faults before (throws, f) s h = cc
finish_completed faults before (crashes, f) s h = cc

left_appended :
    (file line : List ℕ) (r : Appended × List ℕ)
    → r.0 ≡ appended
    → IsLeft file line r.0 r.1
    → r ≡ (appended, file ++ line)
left_appended file line (appended, f) h left = ap (λ g. (appended, g)) left
left_appended file line (not_begun, f) h left = cc
left_appended file line (rolled_back, f) h left = cc
left_appended file line (not_rolled_back, f) h left = cc
left_appended file line (died, f) h left = cc
left_appended file line (not_closed outcome, f) h left = cc

-- If the file can be opened, measured, synced and closed, every write accepts at least one byte, and
-- there are as many writes as the line has bytes, then the append returns, and the file ends with the
-- line.
pub append_durably_returns :
    (faults : Faults) (line file : List ℕ)
    → faults.opens ≡ resolves
    → faults.stats ≡ resolves
    → MakesProgress faults.writes
    → length line ≤ length faults.writes
    → faults.syncs ≡ resolves
    → faults.closes ≡ resolves
    → append_durably faults line file ≡ (appended, file ++ line)
unfolding append_durably
append_durably_returns faults line file opened measured p enough synced closed =
    let r = write_loop faults.writes line (length file) 0 file in
    let done : r.0 ≡ completes =
      subst (λ f. (write_loop faults.writes line (length file) 0 f).0 ≡ completes) (append-nil file)
        (write_loop_completes file line faults.writes 0 (omega arith) p (omega arith)) in
    let finished =
      left_appended file line (finish faults (length file) r)
        (finish_completed faults (length file) r synced done)
        (write_behind-IsLeft file line resolves faults) in
    let written = write_behind resolves faults line file in
    ap (λ a. append_opened a faults line file) opened
    ∙ ap (λ a. close faults.closes (write_behind a faults line file)) measured
    ∙ ap (λ a. close a written) closed
    ∙ ap (close resolves) finished
