-- ===== src/Orchestrator/Looping.antt =====
-- All the rounds of the loop of `run_orchestrated`.
use ai_researcher_agent_loca.Prelude.{ℕ, zero, suc, Bool, true, false, ◌≡◌, arith, ◌⊎◌, inl, inr}
use ai_researcher_agent_loca.StateMachine.{converged, paused}
use ai_researcher_agent_loca.Orchestrator.{Orchestrator, Outcome, done}
use ai_researcher_agent_loca.Orchestrator.Loop.{
  World, at_rest, Next, again, leave, return, run_loop,
}
use ai_researcher_agent_loca.Orchestrator.Hoare.{Ends, Ends-done, Ends-bind, Ends-if}
use ai_researcher_agent_loca.Orchestrator.Rounds.{IsGoing, IsRounded, one_round-Is}

-- The loop ends with the research stopped, and the run goes on, or paused, and the run returns.
abbrev pub IsLooped : Bool → Orchestrator → Type 0
IsLooped true o = o.project.state ≡ converged
IsLooped false o = o.project.state ≡ paused

module _ (w : World) (limit : ℕ) where
  rest-Is :
      (k : ℕ) (o : Orchestrator)
      → at_rest o.project.state ≡ true
      → IsGoing k limit o ⊎ (o.project.state ≡ converged)
      → o.project.state ≡ converged
  unfolding at_rest
  rest-Is k o e (inl (inl ((here, rest), bound))) =
      let wrong : false ≡ true = rw here at e in absurd cc
  rest-Is k o e (inl (inr ((here, rest), bound))) =
      let wrong : false ≡ true = rw here at e in absurd cc
  rest-Is k o e (inr here) = here

  busy-Is :
      (k : ℕ) (o : Orchestrator)
      → at_rest o.project.state ≡ false
      → IsGoing k limit o ⊎ (o.project.state ≡ converged)
      → IsGoing k limit o
  unfolding at_rest
  busy-Is k o e (inl going) = going
  busy-Is k o e (inr here) = let wrong : true ≡ false = rw here at e in absurd cc

  IsGoing-zero : (o : Orchestrator) → IsGoing 0 limit o → ⊥
  IsGoing-zero o (inl (h, bound)) = omega arith
  IsGoing-zero o (inr (h, bound)) = omega arith

  after-Is :
      (k : ℕ) (next : Next) (o : Orchestrator) (rest : Outcome Bool)
      → IsRounded k limit next o
      → (IsGoing k limit o ⊎ (o.project.state ≡ converged) → Ends IsLooped rest)
      → Ends IsLooped (elim next [ again ↦ rest | leave ↦ done true o | return ↦ done false o ])
  after-Is k again o rest h more = more h
  after-Is k leave o rest h more = Ends-done IsLooped true o h
  after-Is k return o rest h more = Ends-done IsLooped false o h

  pub run_loop-Is :
      (k : ℕ) (o : Orchestrator)
      → IsGoing k limit o ⊎ (o.project.state ≡ converged)
      → Ends IsLooped (run_loop w k o)
  unfolding run_loop
  run_loop-Is zero o h =
      Ends-if IsLooped (at_rest o.project.state) _ _
        (λ e. Ends-done IsLooped true o (rest-Is zero o e h))
        (λ e. absurd (IsGoing-zero o (busy-Is zero o e h)))
  run_loop-Is (suc k) o h =
      let ih : (o1 : Orchestrator)
          → IsGoing k limit o1 ⊎ (o1.project.state ≡ converged)
          → Ends IsLooped (run_loop w k o1) =
        run_loop-Is k in
      Ends-if IsLooped (at_rest o.project.state) _ _
        (λ e. Ends-done IsLooped true o (rest-Is (suc k) o e h))
        (λ e.
          Ends-bind (IsRounded k limit) IsLooped _ _
            (one_round-Is w (w.round k) limit k o (busy-Is (suc k) o e h))
            (λ next o1 h1. after-Is k next o1 (run_loop w k o1) h1 (ih o1)))
