-- ===== src/Kernel/MutationQueue.antt =====
-- The queue of file mutations (packages/kernel/src/tools/file-mutation-queue.ts). A promise of the
-- queue is the list of the mutations that it waits for.
pub mod Order
pub mod Links
pub mod Starts
mod Examples
use axl_raja.Prelude.{
  ℕ, suc, String, Bool, true, false, ◌&&◌, ◌||◌, Option, none, some, List, [], ◌∷◌, ◌≡◌, ◌==◌, eqb,
  if◌then◌else◌,
}

abbrev pub listed : ℕ → List ℕ → Bool
listed n [] = false
listed n (m ∷ ms) = eqb n m || listed n ms

-- QueueRegistration; `previous` is resolved as soon as its mutations have called `release`
pub record Registration : Type 0 where
  pub id : ℕ
  pub path : String
  pub previous : List ℕ

-- const tail = previous.then(() => current)
abbrev pub tail_of : Registration → List ℕ
tail_of entry = entry.id ∷ entry.previous

abbrev pub entry_ids : List Registration → List ℕ
entry_ids [] = []
entry_ids (entry ∷ rest) = entry.id ∷ entry_ids rest

-- The registrations are newest first; `released` are the mutations that called `release`.
pub record Queues : Type 0 where
  pub next : ℕ
  pub queues : String → Option (List ℕ)
  pub registrations : List Registration
  pub started : List Registration
  pub released : List ℕ

abbrev pub no_queues : Queues
no_queues = record {
  next = 0;
  queues = λ path. none;
  registrations = [];
  started = [];
  released = [];
}

-- queues.get(path) ?? Promise.resolve()
abbrev pub or_resolved : Option (List ℕ) → List ℕ
or_resolved none = []
or_resolved (some promise) = promise

abbrev pub same_ids : List ℕ → List ℕ → Bool
same_ids [] [] = true
same_ids [] (m ∷ ms) = false
same_ids (n ∷ ns) [] = false
same_ids (n ∷ ns) (m ∷ ms) = eqb n m && same_ids ns ms

-- queues.get(path) === entry.tail
abbrev pub is_tail : Option (List ℕ) → List ℕ → Bool
is_tail none promise = false
is_tail (some found) promise = same_ids found promise

abbrev pub set_at : String → Option (List ℕ) → (String → Option (List ℕ)) → String → Option (List ℕ)
set_at path promise queues other = if path == other then promise else queues other

-- The body of `registered`, where the policy grants `path`; where it throws, nothing changes.
unfoldable pub register : Option String → Queues → Queues
register none s = s
register (some path) s =
    let entry : Registration = record {
      id = s.next;
      path = path;
      previous = or_resolved (s.queues path);
    } in
    record s {
      next = suc s.next;
      queues = set_at path (some (tail_of entry)) s.queues;
      registrations = entry ∷ s.registrations;
    }

-- await entry.previous
unfoldable pub is_resolved : List ℕ → List ℕ → Bool
is_resolved released [] = true
is_resolved released (n ∷ ns) = listed n released && is_resolved released ns

-- mutate(entry.path) is called
unfoldable pub start_mutation : Registration → Queues → Queues
start_mutation entry s = record s { started = entry ∷ s.started }

-- the `finally` block, behind a mutation that returned or threw
unfoldable pub finish_mutation : Registration → Queues → Queues
finish_mutation entry s = record s {
  released = entry.id ∷ s.released;
  queues =
      (if is_tail (s.queues entry.path) (tail_of entry)
        then set_at entry.path none s.queues
        else s.queues);
}

pub data In : Registration → List Registration → Type 0 where
  here : {entry : Registration} {rest : List Registration} → In entry (entry ∷ rest)
  there :
      {entry other : Registration} {rest : List Registration}
      → In entry rest
      → In entry (other ∷ rest)

-- What happens between two awaits of the calls of `withFileMutationQueue`, in any order.
pub data QueueStep : Queues → Queues → Type 0 where
  registers : {s : Queues} → (granted : Option String) → QueueStep s (register granted s)
  starts :
      {s : Queues}
      → (entry : Registration) → In entry s.registrations
      → listed entry.id (entry_ids s.started) ≡ false
      → is_resolved s.released entry.previous ≡ true
      → QueueStep s (start_mutation entry s)
  finishes :
      {s : Queues}
      → (entry : Registration) → In entry s.started
      → listed entry.id s.released ≡ false
      → QueueStep s (finish_mutation entry s)

pub data Reachable : Queues → Type 0 where
  begins : Reachable no_queues
  goes_on : {s t : Queues} → Reachable s → QueueStep s t → Reachable t
