-- ===== src/Kernel/MutationQueue/Order.antt =====
-- In which order mutations of one file run.
use axl_raja.Prelude.{
  ℕ, String, true, ◌||◌, Option, none, some, List, [], ◌∷◌, ◌++◌, ◌≡◌, refl, All, arith, eq_iff, ap,
}
use axl_raja.Kernel.MutationQueue.{
  listed, Registration, tail_of, Queues, or_resolved, same_ids, is_tail, register, is_resolved,
  start_mutation, finish_mutation, In, here, there, QueueStep, registers, starts, finishes,
  Reachable, begins, goes_on,
}

-- A registration of the path is waited for by the promise, or it is released.
abbrev pub Covers : String → List ℕ → List ℕ → Registration → Type 0
Covers path promise released f =
    f.path ≡ path → (listed f.id promise || listed f.id released) ≡ true

abbrev pub IsOrdered : List ℕ → List Registration → Type 0
IsOrdered released [] = Unit
IsOrdered released (e ∷ older) =
    All (Covers e.path e.previous released) older × IsOrdered released older

pub record IsQueued (s : Queues) : Type 0 where
  pub ordered : IsOrdered s.released s.registrations
  covers :
      (path : String) → All (Covers path (or_resolved (s.queues path)) s.released) s.registrations
  resolved : All (λ e. is_resolved s.released e.previous ≡ true) s.started

-- every member of a mapped list
pub All-map :
    {P Q : Registration → Type 0} (l : List Registration)
    → ((e : Registration) → P e → Q e)
    → All P l
    → All Q l
All-map [] f all = tt
All-map (e ∷ l) f (first, all) = (f e first, All-map l f all)

resolved-In :
    (released : List ℕ) (l : List Registration) (entry : Registration)
    → In entry l
    → All (λ e. is_resolved released e.previous ≡ true) l
    → is_resolved released entry.previous ≡ true
resolved-In released [] entry i all = elim i [ ]
resolved-In released (first ∷ l) entry here (resolved, all) = resolved
resolved-In released (first ∷ l) entry (there i) (resolved, all) =
    resolved-In released l entry i all

Covers-later :
    (path : String) (promise released : List ℕ) (n : ℕ) (f : Registration)
    → Covers path promise released f
    → Covers path promise (n ∷ released) f
Covers-later path promise released n f covered same = ground (arith, covered same)

IsOrdered-later :
    (n : ℕ) (released : List ℕ) (l : List Registration)
    → IsOrdered released l
    → IsOrdered (n ∷ released) l
IsOrdered-later n released [] all = tt
IsOrdered-later n released (e ∷ l) (first, all) =
    (All-map l (Covers-later e.path e.previous released n) first, IsOrdered-later n released l all)

is_resolved-later :
    (n : ℕ) (released promise : List ℕ)
    → is_resolved released promise ≡ true
    → is_resolved (n ∷ released) promise ≡ true
unfolding is_resolved
is_resolved-later n released [] h = refl
is_resolved-later n released (m ∷ ms) h = ground (arith, is_resolved-later n released ms)

pub listed-resolved :
    (n : ℕ) (released promise : List ℕ)
    → is_resolved released promise ≡ true
    → listed n promise ≡ true
    → listed n released ≡ true
unfolding is_resolved
listed-resolved n released [] h l = absurd (ground arith)
listed-resolved n released (m ∷ ms) h l = ground (arith, listed-resolved n released ms)

same_ids-listed :
    (n : ℕ) (found promise : List ℕ)
    → same_ids found promise ≡ true
    → listed n found ≡ listed n promise
same_ids-listed n [] [] h = refl
same_ids-listed n [] (m ∷ ms) h = absurd (ground arith)
same_ids-listed n (m ∷ ms) [] h = absurd (ground arith)
same_ids-listed n (i ∷ is) (m ∷ ms) h = ground (arith, same_ids-listed n is ms)

register-IsQueued :
    (granted : Option String) (s : Queues) → IsQueued s → IsQueued (register granted s)
unfolding register
register-IsQueued none s q = q
register-IsQueued (some path) s q = record {
  ordered = (q.covers path, q.ordered);
  covers = λ other. (
    λ is_other. ground (arith, eq_iff path other),
    All-map s.registrations
        (λ f covered is_other. ground (arith, eq_iff path other, covered is_other, ap s.queues))
        (q.covers other),
  );
  resolved = q.resolved;
}

dropped-Covers :
    (found : Option (List ℕ)) (entry f : Registration) (released : List ℕ)
    → is_tail found (tail_of entry) ≡ true
    → is_resolved released entry.previous ≡ true
    → (listed f.id (or_resolved found) || listed f.id released) ≡ true
    → listed f.id (entry.id ∷ released) ≡ true
dropped-Covers none entry f released same resolved covered = absurd (ground arith)
dropped-Covers (some found) entry f released same resolved covered = ground (
  arith,
  same_ids-listed f.id found (tail_of entry) same,
  listed-resolved f.id released entry.previous resolved,
)

finish-Covers :
    (entry : Registration) (s : Queues) (path : String) (f : Registration)
    → is_resolved s.released entry.previous ≡ true
    → Covers path (or_resolved (s.queues path)) s.released f
    → Covers path
        (or_resolved ((finish_mutation entry s).queues path))
        (finish_mutation entry s).released
        f
unfolding finish_mutation
finish-Covers entry s path f resolved covered is_path = ground (
  arith,
  covered is_path,
  eq_iff entry.path path,
  ap s.queues,
  dropped-Covers (s.queues path) entry f s.released,
)

finish-IsQueued :
    (entry : Registration) (s : Queues)
    → In entry s.started
    → IsQueued s
    → IsQueued (finish_mutation entry s)
unfolding finish_mutation
finish-IsQueued entry s i q = record {
  ordered = IsOrdered-later entry.id s.released s.registrations q.ordered;
  covers = λ path.
      All-map s.registrations
        (λ f. finish-Covers entry s path f (resolved-In s.released s.started entry i q.resolved))
        (q.covers path);
  resolved = All-map s.started (λ e. is_resolved-later entry.id s.released e.previous) q.resolved;
}

step-IsQueued : (s t : Queues) → QueueStep s t → IsQueued s → IsQueued t
unfolding start_mutation
step-IsQueued s t (registers granted) q = register-IsQueued granted s q
step-IsQueued s t (starts entry i new resolved) q = record {
  ordered = q.ordered;
  covers = q.covers;
  resolved = (resolved, q.resolved);
}
step-IsQueued s t (finishes entry i new) q = finish-IsQueued entry s i q

pub Reachable-IsQueued : (s : Queues) → Reachable s → IsQueued s
Reachable-IsQueued s begins = record { ordered = tt; covers = λ path. tt; resolved = tt }
Reachable-IsQueued t (goes_on {s} reachable step) =
    step-IsQueued s t step (Reachable-IsQueued s reachable)

pub older-IsOrdered :
    (released : List ℕ) (newer older : List Registration) (e : Registration)
    → IsOrdered released (newer ++ e ∷ older)
    → All (Covers e.path e.previous released) older
older-IsOrdered released [] older e (first, all) = first
older-IsOrdered released (n ∷ newer) older e (first, all) =
    older-IsOrdered released newer older e all
