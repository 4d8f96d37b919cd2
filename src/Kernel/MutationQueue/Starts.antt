-- ===== src/Kernel/MutationQueue/Starts.antt =====
-- When a mutation of a file may start.
use axl_raja.Prelude.{true, List, ◌∷◌, ◌++◌, ◌≡◌, All, arith, ◌↔◌}
use axl_raja.Kernel.MutationQueue.{listed, Registration, Queues, is_resolved, Reachable}
use axl_raja.Kernel.MutationQueue.Order.{
  IsOrdered, All-map, listed-resolved, Reachable-IsQueued, older-IsOrdered,
}
use axl_raja.Kernel.MutationQueue.Links.{
  IsLinked, Reachable-IsNamed, older-IsLinked, IsFrom-is_resolved,
}

-- The mutations of one path wait for each other and for no other mutation: in every state that
-- registrations, starts and ends reach in any order, what a mutation awaits is resolved exactly if
-- all mutations of the same path that were registered before it have been released.
pub is_resolved_iff :
    (s : Queues) (newer older : List Registration) (entry : Registration)
    → Reachable s
    → s.registrations ≡ newer ++ entry ∷ older
    → (is_resolved s.released entry.previous ≡ true)
      ↔ All (λ earlier. earlier.path ≡ entry.path → listed earlier.id s.released ≡ true) older
is_resolved_iff s newer older entry reachable split =
    let ordered : IsOrdered s.released (newer ++ entry ∷ older) =
      rw split at (Reachable-IsQueued s reachable).ordered in
    let linked : IsLinked (newer ++ entry ∷ older) =
      rw split at (Reachable-IsNamed s reachable).linked in
    (
      λ resolved.
          All-map older
            (λ earlier covered same.
              ground (
                arith,
                covered same,
                listed-resolved earlier.id s.released entry.previous resolved,
              ))
            (older-IsOrdered s.released newer older entry ordered),
      IsFrom-is_resolved entry.path s.released older entry.previous
          (older-IsLinked newer older entry linked),
    )
