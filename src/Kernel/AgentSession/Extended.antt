-- ===== src/Kernel/AgentSession/Extended.antt =====
-- Methods of a session as they add events to a branch whose tool calls are checked.
use axl_raja.Prelude.{
  Option, none, some, List, [], ◌∷◌, ◌++◌, ◌≡◌, refl, sym, ap, ◌∙◌, Outcome, ok, err, arith,
  append_assoc, append-nil,
}
use axl_raja.Protocol.Event.{CanonicalEvent}
use axl_raja.Kernel.Replay.Pairing.{Fits, IsPaired}
use axl_raja.Kernel.AgentSession.{
  AgentSession, Thrown, not_stored, Run, proceed, return, ◌>>=◌, accept_stored, push_appended,
}

-- What a method adds behind `before`, and what holds where it returns.
pub record IsExtended {A : Type 0} (Done : List CanonicalEvent → Type 0)
    (before : List CanonicalEvent) (s : AgentSession) (r : Outcome Thrown A × AgentSession)
    : Type 0 where
  pub added : List CanonicalEvent
  pub observed : r.1.observed ≡ s.observed ++ added
  pub paired : IsPaired before added
  pub done : (a : A) → r.0 ≡ ok a → Done (before ++ added)

module _ {A : Type 0} (Done : List CanonicalEvent → Type 0) (before : List CanonicalEvent)
    (s : AgentSession) where
  pub stopped-IsExtended :
      (t : AgentSession)
      → t.observed ≡ s.observed
      → IsExtended {A = A} Done before s (err not_stored, t)
  stopped-IsExtended t same = record {
    added = [];
    observed = same ∙ sym (append-nil s.observed);
    paired = tt;
    done = λ a h. absurd (ground arith);
  }

  pub returned-IsExtended :
      (a : A) (t : AgentSession)
      → t.observed ≡ s.observed
      → Done before
      → IsExtended {A = A} Done before s (ok a, t)
  returned-IsExtended a t same holds = record {
    added = [];
    observed = same ∙ sym (append-nil s.observed);
    paired = tt;
    done = λ b h. rw append-nil holds;
  }

  pub next-IsExtended :
      (e : CanonicalEvent) (t : AgentSession) (r : Outcome Thrown A × AgentSession)
      → Fits before e.payload
      → t.observed ≡ s.observed ++ e ∷ []
      → IsExtended Done (before ++ e ∷ []) t r
      → IsExtended Done before s r
  next-IsExtended e t r fits same i = record {
    added = e ∷ i.added;
    observed = i.observed ∙ ap (λ l. l ++ i.added) same ∙ append_assoc s.observed (e ∷ []) i.added;
    paired = (fits, i.paired);
    done = λ a h. rw (append_assoc before (e ∷ []) i.added) at (i.done a h);
  }

  -- One `appended.push(await this.append(…))`, and what follows it.
  pub pushed-IsExtended :
      (next : CanonicalEvent → Run A) (t : AgentSession) (answer : Option CanonicalEvent)
      → t.observed ≡ s.observed
      → ((stored : CanonicalEvent)
          → answer ≡ some stored
          → Fits before stored.payload
            × ((u : AgentSession)
                → u.observed ≡ s.observed ++ stored ∷ []
                → IsExtended Done (before ++ stored ∷ []) u (next stored u)))
      → IsExtended Done before s (
          proceed next (
            proceed
              (λ stored. push_appended stored >>= λ _. return stored)
              (accept_stored answer t)))
  pushed-IsExtended next t none same follows = stopped-IsExtended t same
  pushed-IsExtended next t (some stored) same follows =
      let (fits, goes_on) = follows stored refl in
      let u = record t {
        tip = some stored.id;
        observed = t.observed ++ stored ∷ [];
        appended = t.appended ++ stored ∷ [];
      } in
      let grown = ap (λ l. l ++ stored ∷ []) same in
      next-IsExtended stored u _ fits grown (goes_on u grown)

pub proceed_assoc :
    {A B C : Type 0} (next : B → Run C) (first : A → Run B) (r : Outcome Thrown A × AgentSession)
    → proceed (λ a s. proceed next (first a s)) r ≡ proceed next (proceed first r)
proceed_assoc next first (ok a, s) = refl
proceed_assoc next first (err e, s) = refl

pub same-IsExtended :
    {A : Type 0} (Done : List CanonicalEvent → Type 0) (before : List CanonicalEvent)
    (s t : AgentSession) (r : Outcome Thrown A × AgentSession)
    → t.observed ≡ s.observed
    → IsExtended Done before t r
    → IsExtended Done before s r
same-IsExtended Done before s t r same i = record {
  added = i.added;
  observed = i.observed ∙ ap (λ l. l ++ i.added) same;
  paired = i.paired;
  done = i.done;
}
