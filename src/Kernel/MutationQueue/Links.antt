-- ===== src/Kernel/MutationQueue/Links.antt =====
-- Which mutations the promises of the queue wait for.
use axl_raja.Prelude.{
  ℕ, String, Bool, true, false, Option, none, some, List, [], ◌∷◌, ◌++◌, ◌≡◌, refl, ◌==◌, All,
  arith, if◌then◌else◌, eq_iff, ap, ◌∙◌, Bool-cases, inl, inr,
}
use axl_raja.Kernel.MutationQueue.{
  listed, Registration, tail_of, Queues, or_resolved, is_tail, set_at, register, is_resolved,
  start_mutation, finish_mutation, QueueStep, registers, starts, finishes, Reachable, begins,
  goes_on,
}

-- the ids of the registrations of a path
abbrev pub ids_at : String → List Registration → List ℕ
ids_at path [] = []
ids_at path (e ∷ l) = let rest = ids_at path l in if e.path == path then e.id ∷ rest else rest

abbrev pub IsFrom : String → List Registration → List ℕ → Type 0
IsFrom path l promise = All (λ n. listed n (ids_at path l) ≡ true) promise

abbrev pub IsLinked : List Registration → Type 0
IsLinked [] = Unit
IsLinked (e ∷ older) = IsFrom e.path older e.previous × IsLinked older

pub record IsNamed (s : Queues) : Type 0 where
  pub linked : IsLinked s.registrations
  pub named : (path : String) → IsFrom path s.registrations (or_resolved (s.queues path))

IsFrom-later :
    (e : Registration) (path : String) (l : List Registration) (promise : List ℕ)
    → IsFrom path l promise
    → IsFrom path (e ∷ l) promise
IsFrom-later e path l [] all = tt
IsFrom-later e path l (n ∷ ns) (first, all) = (ground (arith, first), IsFrom-later e path l ns all)

register-IsNamed : (granted : Option String) (s : Queues) → IsNamed s → IsNamed (register granted s)
unfolding register
register-IsNamed none s q = q
register-IsNamed (some path) s q =
    let entry : Registration = record {
      id = s.next;
      path = path;
      previous = or_resolved (s.queues path);
    } in
    record { linked = (q.named path, q.linked); named = λ other. named_at entry refl refl other }
  where
    named_at :
        (entry : Registration)
        → entry.path ≡ path
        → entry.previous ≡ or_resolved (s.queues path)
        → (other : String)
        → IsFrom other
            (entry ∷ s.registrations)
            (or_resolved (set_at path (some (tail_of entry)) s.queues other))
    named_at entry at previous other = elim (Bool-cases (path == other)) [
      | inl same ↦
          let eq : path ≡ other = (eq_iff path other).0 same in
          rw same (
            ground (arith, at, eq),
            rw (previous ∙ ap (λ p. or_resolved (s.queues p)) eq)
                (IsFrom-later entry other s.registrations _ (q.named other)),
          )
      | inr differs ↦ rw differs (IsFrom-later entry other s.registrations _ (q.named other))
    ]

finish-IsNamed : (entry : Registration) (s : Queues) → IsNamed s → IsNamed (finish_mutation entry s)
unfolding finish_mutation
finish-IsNamed entry s q = record {
  linked = q.linked;
  named = λ path.
      elim (is_tail (s.queues entry.path) (tail_of entry))
        as (λ last.
          IsFrom path s.registrations
            (or_resolved ((if last then set_at entry.path none s.queues else s.queues) path))) [
              | true ↦ deleted path (entry.path == path)
              | false ↦ q.named path
            ];
}
  where
    deleted :
        (path : String) (same : Bool)
        → IsFrom path s.registrations (or_resolved (if same then none else s.queues path))
    deleted path true = tt
    deleted path false = q.named path

step-IsNamed : (s t : Queues) → QueueStep s t → IsNamed s → IsNamed t
unfolding start_mutation
step-IsNamed s t (registers granted) q = register-IsNamed granted s q
step-IsNamed s t (starts entry i new resolved) q = record { linked = q.linked; named = q.named }
step-IsNamed s t (finishes entry i new) q = finish-IsNamed entry s q

pub Reachable-IsNamed : (s : Queues) → Reachable s → IsNamed s
Reachable-IsNamed s begins = record { linked = tt; named = λ path. tt }
Reachable-IsNamed t (goes_on {s} reachable step) =
    step-IsNamed s t step (Reachable-IsNamed s reachable)

pub older-IsLinked :
    (newer older : List Registration) (e : Registration)
    → IsLinked (newer ++ e ∷ older)
    → IsFrom e.path older e.previous
older-IsLinked [] older e (first, all) = first
older-IsLinked (n ∷ newer) older e (first, all) = older-IsLinked newer older e all

listed-ids_at :
    (n : ℕ) (path : String) (released : List ℕ) (l : List Registration)
    → All (λ e. e.path ≡ path → listed e.id released ≡ true) l
    → listed n (ids_at path l) ≡ true
    → listed n released ≡ true
listed-ids_at n path released [] all h = absurd (ground arith)
listed-ids_at n path released (e ∷ l) (first, all) h =
    ground (arith, eq_iff e.path path, first, listed-ids_at n path released l all)

pub IsFrom-is_resolved :
    (path : String) (released : List ℕ) (l : List Registration) (promise : List ℕ)
    → IsFrom path l promise
    → All (λ e. e.path ≡ path → listed e.id released ≡ true) l
    → is_resolved released promise ≡ true
unfolding is_resolved
IsFrom-is_resolved path released l [] all done = refl
IsFrom-is_resolved path released l (n ∷ ns) (first, all) done = ground (
  arith,
  listed-ids_at n path released l done first,
  IsFrom-is_resolved path released l ns all done,
)
