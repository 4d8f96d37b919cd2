-- ===== src/Kernel/AgentSession/Reported.antt =====
-- The guard of a turn.
use axl_raja.Prelude.{ℕ, String, Option, List, ◌≡◌, ap}
use axl_raja.Protocol.Event.{Content}
use axl_raja.Kernel.AgentSession.{World, AgentSession, when_idle, Run}
use axl_raja.Kernel.AgentSession.Turn.{run_turn, turn_body, TurnResult, begin, release}

module _ (w : World) (fuel : ℕ) (operation_id : String) (content : List Content)
    (s : AgentSession) where
  abbrev pub turn : Run (Option TurnResult)
  turn t = release w (turn_body w fuel operation_id content (begin w operation_id t))

  pub run_turn-when_idle :
      (active : Option String)
      → s.active_operation ≡ active
      → run_turn w fuel operation_id content s ≡ when_idle active turn s
  unfolding run_turn
  run_turn-when_idle active h = ap (λ o. when_idle o turn s) h
