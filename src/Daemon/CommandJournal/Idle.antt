-- ===== src/Daemon/CommandJournal/Idle.antt =====
-- The entries of a journal with no effect running, and how the operations act on them.
use axl_raja.Prelude.{String, Bool, false, Option, none, some, List, [], ◌∷◌, ◌≡◌, refl, arith}
use axl_raja.Maps
use axl_raja.Daemon.CommandJournal.{CommandEntry, CommandCompletion, set_running, set_completion}

-- The entry as a new process has it: no effect runs.
abbrev pub idle : CommandEntry → CommandEntry
idle entry = record entry { running = false }

abbrev pub idle_all : List (String × CommandEntry) → List (String × CommandEntry)
idle_all [] = []
idle_all ((k, e) ∷ m) = (k, idle e) ∷ idle_all m

abbrev pub idle_option : Option CommandEntry → Option CommandEntry
idle_option none = none
idle_option (some e) = some (idle e)

pub get-idle_all :
    (k : String) (m : List (String × CommandEntry))
    → Maps.get k (idle_all m) ≡ idle_option (Maps.get k m)
unfolding Maps.get
get-idle_all k [] = refl
get-idle_all k ((j, e) ∷ m) = ground (arith, get-idle_all k m)

pub has-idle_all :
    (k : String) (m : List (String × CommandEntry))
    → Maps.get k m ≡ none
    → Maps.has k (idle_all m) ≡ false
unfolding Maps.get Maps.has
has-idle_all k [] h = refl
has-idle_all k ((j, e) ∷ m) h = ground (arith, has-idle_all k m)

pub set-idle_all :
    (k : String) (e : CommandEntry) (m : List (String × CommandEntry))
    → idle_all (Maps.set k e m) ≡ Maps.set k (idle e) (idle_all m)
unfolding Maps.set
set-idle_all k e [] = refl
set-idle_all k e ((j, f) ∷ m) = ground (arith, set-idle_all k e m)

pub set_running-idle_all :
    (k : String) (running : Bool) (m : List (String × CommandEntry))
    → idle_all (Maps.modify k (set_running running) m) ≡ idle_all m
unfolding Maps.modify set_running
set_running-idle_all k running [] = refl
set_running-idle_all k running ((j, f) ∷ m) = ground (arith, set_running-idle_all k running m)

pub set_completion-idle_all :
    (k : String) (c : CommandCompletion) (m : List (String × CommandEntry))
    → idle_all (Maps.modify k (set_completion c) m) ≡ Maps.modify k (set_completion c) (idle_all m)
unfolding Maps.modify set_completion
set_completion-idle_all k c [] = refl
set_completion-idle_all k c ((j, f) ∷ m) = ground (arith, set_completion-idle_all k c m)
