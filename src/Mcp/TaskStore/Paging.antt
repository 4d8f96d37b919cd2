-- ===== src/Mcp/TaskStore/Paging.antt =====
-- A client that follows the cursors of `listTasks` gets every task once.
use axl_raja.Prelude.{
  ℕ, zero, suc, ◌+◌, ◌≤◌, ◌<◌, String, true, false, Option, none, some, List, [], ◌∷◌, ◌++◌, map,
  ◌≡◌, refl, sym, ap, ◌∙◌, inl, inr, ◌==◌, eq_iff, eq_refl, arith, Bool-cases, Outcome, ok, err,
  length, take, drop, ltb, length-drop, drop-drop, take-append-drop,
}
use mathlib.Core.List.{map-append}
use axl_raja.Mcp.TaskStore.{Task, StoredTask, Tasks, File, StoreError, read}
use axl_raja.Mcp.TaskStore.Queries.{
  list_tasks, entries_of, page_size, index_after, last_id, Page, page_from, page_of,
}

-- No two of the tasks have one id: their ids are the keys of the file's map.
abbrev pub HaveDistinctIds : List StoredTask → Type 0
HaveDistinctIds [] = Unit
HaveDistinctIds (s ∷ entries) = (index_after s.task.task_id entries ≡ 0) × HaveDistinctIds entries

abbrev pub tasks_of : List StoredTask → List Task
tasks_of = map (λ stored. stored.task)

-- What a client has listed, or the error; none says that its loop ran out of fuel.
abbrev pub Listing : Type 0
Listing = Option (Outcome StoreError (List Task))

abbrev add_rest : Page → Listing → Listing
add_rest page none = none
add_rest page (some (err e)) = some (err e)
add_rest page (some (ok rest)) = some (ok (page.tasks ++ rest))

abbrev next_page : (Option String → Listing) → Page → Option String → Listing
next_page follow page none = some (ok page.tasks)
next_page follow page (some cursor) = add_rest page (follow (some cursor))

abbrev visit_page : (Option String → Listing) → Outcome StoreError Page → Listing
visit_page follow (err e) = some (err e)
visit_page follow (ok page) = next_page follow page page.next_cursor

-- A client's loop over `listTasks`, whose calls are numbered: each reads the clock anew.
unfoldable pub visit : ℕ → (ℕ → ℕ) → Option String → File → (call : ℕ) → Option String → Listing
unfolding list_tasks
visit zero clock session_id file call cursor = none
visit (suc fuel) clock session_id file call cursor =
    visit_page (visit fuel clock session_id file (suc call))
      (list_tasks (clock call) cursor session_id file)

-- The loop over pages of one list.
visit_entries : ℕ → List StoredTask → Option String → Listing
visit_entries zero entries cursor = none
visit_entries (suc fuel) entries cursor =
    visit_page (visit_entries fuel entries) (page_of cursor entries)

index_after-∷ :
    (x : StoredTask) (entries : List StoredTask) (cursor : String) (n : ℕ)
    → index_after x.task.task_id entries ≡ 0
    → index_after cursor entries ≡ suc n
    → index_after cursor (x ∷ entries) ≡ suc (suc n)
unfolding index_after
index_after-∷ x entries cursor n new found = elim (Bool-cases (x.task.task_id == cursor)) [
  | inl e ↦ let same = (eq_iff x.task.task_id cursor).0 e in absurd (cc (same, new, found))
  | inr e ↦ simp (e, found)
]

-- The last id of a page leads to the index after the page.
last_id-page :
    (n start : ℕ) (entries : List StoredTask)
    → HaveDistinctIds entries
    → start + suc n ≤ length entries
    → (cursor : String) × (last_id (take (suc n) (drop start entries)) ≡ some cursor)
      × (index_after cursor entries ≡ suc (start + n))
unfolding last_id index_after
last_id-page n start [] d h = absurd (omega arith)
last_id-page zero zero (x ∷ entries) d h = (x.task.task_id, refl, simp (eq_refl x.task.task_id))
last_id-page (suc n) zero (x ∷ []) d h = absurd (omega arith)
last_id-page (suc n) zero (x ∷ y ∷ entries) (new, d) h =
    let (cursor, last, index) = last_id-page n zero (y ∷ entries) d (omega arith) in
    (cursor, last, index_after-∷ x (y ∷ entries) cursor (0 + n) new index ∙ omega arith)
last_id-page n (suc start) (x ∷ entries) (new, d) h =
    let (cursor, last, index) = last_id-page n start entries d (omega arith) in
    (cursor, last, index_after-∷ x entries cursor (start + n) new index ∙ omega arith)

module _ {ℓ} {A : Type ℓ} where
  take-long : (n : ℕ) (xs : List A) → length xs ≤ n → take n xs ≡ xs
  take-long zero [] h = refl
  take-long zero (x ∷ xs) h = absurd (omega arith)
  take-long (suc n) [] h = refl
  take-long (suc n) (x ∷ xs) h = ap (λ l. x ∷ l) (take-long n xs (omega arith))

  take-then-drop :
      (n start : ℕ) (xs : List A) → take n (drop start xs) ++ drop (start + n) xs ≡ drop start xs
  take-then-drop n start xs = rw (sym (drop-drop n start xs)) (take-append-drop n (drop start xs))

page_of-some :
    (n : ℕ) (cursor : String) (entries : List StoredTask)
    → index_after cursor entries ≡ suc n
    → page_of (some cursor) entries ≡ ok (page_from (suc n) entries)
unfolding page_of
page_of-some n cursor entries index = simp index

page_of-none : (entries : List StoredTask) → page_of none entries ≡ ok (page_from 0 entries)
unfolding page_of
page_of-none entries = refl

page_from-more :
    (start : ℕ) (entries : List StoredTask)
    → start + page_size < length entries
    → (page_from start entries).next_cursor ≡ last_id (take page_size (drop start entries))
unfolding page_from
page_from-more start entries more =
    let t : ltb (start + page_size) (length entries) ≡ true = ground arith in simp t

-- The page at `start` is followed by the page behind it.
page_of-next :
    (start : ℕ) (entries : List StoredTask)
    → HaveDistinctIds entries
    → start + page_size < length entries
    → (cursor : String) × ((page_from start entries).next_cursor ≡ some cursor)
      × (page_of (some cursor) entries ≡ ok (page_from (start + page_size) entries))
page_of-next start entries d more =
    let (cursor, last, index) = last_id-page 99 start entries d (omega arith) in
    let e : suc (start + 99) ≡ start + page_size = omega arith in
    (
      cursor,
      page_from-more start entries more ∙ last,
      page_of-some (start + 99) cursor entries index ∙ ap (λ k. ok (page_from k entries)) e,
    )

-- The page at `start` and what is behind it.
page_from-tasks :
    (start : ℕ) (entries : List StoredTask)
    → (page_from start entries).tasks ++ tasks_of (drop (start + page_size) entries)
      ≡ tasks_of (drop start entries)
unfolding page_from
page_from-tasks start entries =
    sym (map-append _ (take page_size (drop start entries)) (drop (start + page_size) entries))
    ∙ ap tasks_of (take-then-drop page_size start entries)

page_from-last :
    (start : ℕ) (entries : List StoredTask)
    → length entries ≤ start + page_size
    → ((page_from start entries).next_cursor ≡ none)
      × ((page_from start entries).tasks ≡ tasks_of (drop start entries))
unfolding page_from
page_from-last start entries end =
    let t : ltb (start + page_size) (length entries) ≡ false = ground arith in
    (
      simp t,
      ap tasks_of
          (take-long page_size (drop start entries) (omega (arith, length-drop start entries))),
    )

visit_entries-from :
    (fuel start : ℕ) (entries : List StoredTask) (cursor : Option String)
    → HaveDistinctIds entries
    → page_of cursor entries ≡ ok (page_from start entries)
    → start ≤ length entries
    → length entries < start + fuel
    → visit_entries fuel entries cursor ≡ some (ok (tasks_of (drop start entries)))
unfolding visit_entries
visit_entries-from zero start entries cursor d here inside enough = absurd (omega arith)
visit_entries-from (suc fuel) start entries cursor d here inside enough =
    elim (Bool-cases (ltb (start + page_size) (length entries))) [
      | inl e ↦
          let more : start + page_size < length entries = ground arith in
          let (next, follows, there) = page_of-next start entries d more in
          let rest =
            visit_entries-from fuel (start + page_size) entries (some next) d there (omega arith)
              (omega arith) in
          simp (here, follows, rest, page_from-tasks start entries)
      | inr e ↦
          let (stops, all) = page_from-last start entries (ground arith) in simp (here, stops, all)
    ]

visit_page-ext :
    (f g : Option String → Listing) (page : Outcome StoreError Page)
    → ((cursor : Option String) → f cursor ≡ g cursor)
    → visit_page f page ≡ visit_page g page
visit_page-ext f g (err e) same = refl
visit_page-ext f g (ok page) same = ext page.next_cursor
  where
    ext : (cursor : Option String) → next_page f page cursor ≡ next_page g page cursor
    ext none = refl
    ext (some cursor) = ap (add_rest page) (same (some cursor))

list_tasks-eq :
    (now : ℕ) (cursor session_id : Option String) (file : File) (tasks : Tasks)
    → read now file ≡ ok tasks
    → list_tasks now cursor session_id file ≡ page_of cursor (entries_of session_id tasks)
unfolding list_tasks
list_tasks-eq now cursor session_id file tasks h = simp h refl

visit-visit_entries :
    (fuel : ℕ) (clock : ℕ → ℕ) (session_id : Option String) (file : File) (tasks : Tasks) (call : ℕ)
    (cursor : Option String)
    → ((k : ℕ) → read (clock k) file ≡ ok tasks)
    → visit fuel clock session_id file call cursor
      ≡ visit_entries fuel (entries_of session_id tasks) cursor
unfolding visit visit_entries
visit-visit_entries zero clock session_id file tasks call cursor h = refl
visit-visit_entries (suc fuel) clock session_id file tasks call cursor h =
    visit_page-ext (visit fuel clock session_id file (suc call))
      (visit_entries fuel (entries_of session_id tasks)) _
      (λ c. visit-visit_entries fuel clock session_id file tasks (suc call) c h)
    ∙ ap (visit_page (visit_entries fuel (entries_of session_id tasks)))
        (list_tasks-eq (clock call) cursor session_id file tasks (h call))

-- Calls of `listTasks` that follow the cursors from the first page end, and list every task of the
-- session once, in order, where the tasks have distinct ids, the file does not change meanwhile, and
-- each call reads the same live tasks in it, so that none expires between two calls.
pub visit_all :
    (clock : ℕ → ℕ) (session_id : Option String) (file : File) (tasks : Tasks)
    → ((k : ℕ) → read (clock k) file ≡ ok tasks)
    → HaveDistinctIds (entries_of session_id tasks)
    → visit (suc (length (entries_of session_id tasks))) clock session_id file 0 none
      ≡ some (ok (tasks_of (entries_of session_id tasks)))
visit_all clock session_id file tasks h d =
    let entries = entries_of session_id tasks in
    visit-visit_entries (suc (length entries)) clock session_id file tasks 0 none h
    ∙ visit_entries-from (suc (length entries)) 0 entries none d (page_of-none entries)
        (omega arith) (omega arith)
