-- ===== src/Kernel/MutationQueue/Examples.antt =====
-- Two mutations of one file.
use axl_raja.Prelude.{[], ◌∷◌, ◌≡◌, true, some, refl, All, ◌↔◌}
use axl_raja.Kernel.MutationQueue.{
  listed, Registration, Queues, no_queues, register, start_mutation, finish_mutation, is_resolved,
  here, there, registers, starts, finishes, begins, goes_on, Reachable,
}
use axl_raja.Kernel.MutationQueue.Starts.{is_resolved_iff}

abbrev first : Registration
first = record { id = 0; path = "/w/a"; previous = [] }

abbrev second : Registration
second = record { id = 1; path = "/w/a"; previous = 0 ∷ [] }

abbrev at_end : Queues
at_end = start_mutation second (
    finish_mutation first
      (start_mutation first (register (some "/w/a") (register (some "/w/a") no_queues))))

at_end-Reachable : Reachable at_end
unfolding register is_resolved finish_mutation start_mutation
at_end-Reachable =
    goes_on
      (goes_on
        (goes_on (goes_on (goes_on begins (registers (some "/w/a"))) (registers (some "/w/a")))
          (starts first (there here) refl refl))
        (finishes first here refl))
      (starts second here refl refl)

is_resolved_iff_example :
    (is_resolved at_end.released second.previous ≡ true)
    ↔ All
        (λ earlier. earlier.path ≡ second.path → listed earlier.id at_end.released ≡ true)
        (first ∷ [])
unfolding register start_mutation finish_mutation
is_resolved_iff_example = is_resolved_iff at_end [] (first ∷ []) second at_end-Reachable refl
