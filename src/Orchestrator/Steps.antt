-- ===== src/Orchestrator/Steps.antt =====
-- The phases from the states in which they are called.
use ai_researcher_agent_loca.Prelude.{
  ℕ, ◌+◌, subst, ◌<◌, Bool, true, false, Option, some, ◌≡◌, refl, arith, inl, inr, leb, ◌==◌,
}
use ai_researcher_agent_loca.Job.{Time}
use ai_researcher_agent_loca.Budget.{spend_query, spend_sources, spend_document}
use ai_researcher_agent_loca.StateMachine.{
  created, clarifying, planned, searching, fetching, extracting, verifying, analyzing_gaps,
  generating_followups, converged, synthesizing, completed, paused, same_state, allowed,
  can_transition,
}
use ai_researcher_agent_loca.Convergence.{StopReason, evaluate}
use ai_researcher_agent_loca.Orchestrator.{
  after_problem_definition, after_initial_research_plan, after_first_research_cycle, Orchestrator,
  bind, move, persist_checkpoint,
}
use ai_researcher_agent_loca.Orchestrator.Phases.{
  call, ClarifyWork, ask_user, phase_clarify, phase_plan, begin_iteration, SearchWork, run_queries,
  phase_search_fetch_extract, AnalysisWork, Judge, is_satisfied, go_on_iterating, stop_iterating,
  phase_analyze, phase_synthesize,
}
use ai_researcher_agent_loca.Orchestrator.Hoare.{
  Ends, Ends-bind, Ends-if, Ends-weaken, Is, IsGated, IsEither, gated-IsEither, call_for-Is,
  Ends-done, move-done, move-Is, call-Is, review_gate-Is,
}

-- The end of the analysis: the next iteration, or the end of the iterations, or a gate.
abbrev pub IsAnalysed : (it limit : ℕ) → Bool → Orchestrator → Type 0
IsAnalysed it limit true o = Is searching (it + 1) limit o × (it < limit)
IsAnalysed it limit false o = IsEither converged paused it limit o

module _ (it limit : ℕ) (now : Time) where
  ask_user-Is :
      (asks : Bool) (o : Orchestrator)
      → Is clarifying it limit o
      → IsEither clarifying paused it limit (ask_user now asks o)
  unfolding ask_user can_transition allowed
  ask_user-Is false o h = inl h
  ask_user-Is true o h =
      let waiting = record o { review_gate_pending = some "WAITING_FOR_USER" } in
      let (o', (e, h')) = move-done clarifying it limit now paused waiting refl h in inr (rw e h')

  -- The state is compared to tell a pause.
  asked-Is :
      (asked : Orchestrator)
      → IsEither clarifying paused it limit asked
      → (same_state asked.project.state paused ≡ true → Is paused it limit asked)
        × (same_state asked.project.state paused ≡ false → Is clarifying it limit asked)
  asked-Is asked (inl (here, rest)) =
      (λ e. let wrong : false ≡ true = rw here at e in absurd cc, λ e. (here, rest))
  asked-Is asked (inr (here, rest)) =
      (λ e. (here, rest), λ e. let wrong : true ≡ false = rw here at e in absurd cc)

  pub phase_clarify-Is :
      (work : ClarifyWork) (o : Orchestrator)
      → Is created it limit o
      → Ends (λ u. IsEither clarifying paused it limit) (phase_clarify now work o)
  unfolding phase_clarify can_transition allowed persist_checkpoint
  phase_clarify-Is work o h =
      let Q = λ (u : Unit). IsEither clarifying paused it limit in
      Ends-bind (λ u. Is clarifying it limit) Q _ _
        (move-Is created it limit now clarifying o refl h)
        (λ u o1 h1.
          Ends-bind (λ u. Is clarifying it limit) Q _ _
            (call-Is clarifying it limit now work.clarified o1 h1)
            (λ u o2 h2.
              let asked = ask_user now work.asks_user o2 in
              let (is_paused, goes_on) = asked-Is asked (ask_user-Is work.asks_user o2 h2) in
              Ends-if Q (same_state asked.project.state paused) _ _
                (λ e. Ends-done Q tt _ (inr (is_paused e)))
                (λ e.
                  Ends-bind (IsGated clarifying it limit) Q _ _
                    (review_gate-Is clarifying it limit now after_problem_definition asked refl
                      (goes_on e))
                    (λ passed o3 h3.
                      Ends-done Q tt o3 (gated-IsEither clarifying it limit passed o3 h3)))))

  pub phase_plan-Is :
      (works : Bool) (o : Orchestrator)
      → Is clarifying it limit o
      → Ends (λ u. IsEither planned paused it limit) (phase_plan now works o)
  unfolding phase_plan can_transition allowed
  phase_plan-Is works o h =
      let Q = λ (u : Unit). IsEither planned paused it limit in
      Ends-bind (λ u. Is clarifying it limit) Q _ _ (call-Is clarifying it limit now works o h)
        (λ u o1 h1.
          Ends-bind (IsGated clarifying it limit) Q _ _
            (review_gate-Is clarifying it limit now after_initial_research_plan o1 refl h1)
            (λ passed o2 h2.
              Ends-if Q passed _ _
                (λ e.
                  Ends-weaken (λ u. Is planned it limit) Q _
                    (move-Is clarifying it limit now planned o2 refl
                      (subst (λ b. IsGated clarifying it limit b o2) e h2))
                    (λ u o3 h3. inl h3))
                (λ e.
                  Ends-done Q tt o2 (inr (subst (λ b. IsGated clarifying it limit b o2) e h2)))))

  pub begin_iteration-Is :
      (o : Orchestrator)
      → Is planned it limit o
      → Ends (λ u. Is searching (it + 1) limit) (begin_iteration now o)
  unfolding begin_iteration can_transition allowed
  begin_iteration-Is o (here, (at_it, at_limit)) =
      move-Is planned (it + 1) limit now searching _ refl (here, (ground arith, at_limit))

  extract-Is :
      (work : SearchWork) (o : Orchestrator)
      → Is fetching it limit o
      → Ends
          (λ u. Is analyzing_gaps it limit)
          (bind (move now extracting o) (λ _ o3. bind (call work.extracted o3) (λ _ o4.
            bind
              (move now verifying o4)
              (λ _ o5. bind (call work.consolidated o5) (λ _ o6. move now analyzing_gaps o6)))))
  unfolding can_transition allowed
  extract-Is work o h =
      let Q = λ (u : Unit). Is analyzing_gaps it limit in
      Ends-bind (λ u. Is extracting it limit) Q _ _
        (move-Is fetching it limit now extracting o refl h)
        (λ u o3 h3.
          Ends-bind (λ u. Is extracting it limit) Q _ _
            (call-Is extracting it limit now work.extracted o3 h3)
            (λ u o4 h4.
              Ends-bind (λ u. Is verifying it limit) Q _ _
                (move-Is extracting it limit now verifying o4 refl h4)
                (λ u o5 h5.
                  Ends-bind (λ u. Is verifying it limit) Q _ _
                    (call-Is verifying it limit now work.consolidated o5 h5)
                    (λ u o6 h6. move-Is verifying it limit now analyzing_gaps o6 refl h6))))

  run_queries-Is :
      (work : SearchWork) (o : Orchestrator)
      → Is searching it limit o
      → Ends (λ u. Is analyzing_gaps it limit) (run_queries now work o)
  unfolding run_queries can_transition allowed spend_query spend_sources spend_document
  run_queries-Is work o h =
      let Q = λ (u : Unit). Is analyzing_gaps it limit in
      Ends-bind (λ (found : ℕ × ℕ). Is searching it limit) Q _ _
        (call_for-Is searching it limit now work.retrieved o h)
        (λ found o0 h0.
          Ends-bind (λ u. Is fetching it limit) Q _ _
            (move-Is searching it limit now fetching _ refl h0)
            (λ u o1 h1.
              Ends-bind (λ (documents : ℕ). Is fetching it limit) Q _ _
                (call_for-Is fetching it limit now work.fetched o1 h1)
                (λ documents o2 h2. extract-Is work _ h2)))

  pub phase_search-Is :
      (work : SearchWork) (o : Orchestrator)
      → Is searching it limit o
      → Ends
          (λ u. IsEither converged analyzing_gaps it limit)
          (phase_search_fetch_extract now work o)
  unfolding phase_search_fetch_extract can_transition allowed
  phase_search-Is work o h =
      let Q = λ (u : Unit). IsEither converged analyzing_gaps it limit in
      let ran : (o1 : Orchestrator) → Is searching it limit o1 → Ends Q (run_queries now work o1) =
        λ o1 h1.
          Ends-weaken (λ u. Is analyzing_gaps it limit) Q _ (run_queries-Is work o1 h1)
            (λ u o' h'. inr h') in
      Ends-if Q (work.queued == 0) _ _
        (λ e.
          Ends-bind (λ (n : ℕ). Is searching it limit) Q _ _
            (call_for-Is searching it limit now work.followups o h)
            (λ n o1 h1.
              Ends-if Q (n == 0) _ _
                (λ e'.
                  Ends-weaken (λ u. Is converged it limit) Q _
                    (move-Is searching it limit now converged _ refl h1) (λ u o' h'. inl h'))
                (λ e'. ran o1 h1)))
        (λ e. ran o h)

  go_on_iterating-Is :
      (work : AnalysisWork) (o : Orchestrator)
      → Is analyzing_gaps it limit o
      → it < limit
      → Ends (IsAnalysed it limit) (go_on_iterating now work o)
  unfolding go_on_iterating can_transition allowed
  go_on_iterating-Is work o h below =
      let Q = IsAnalysed it limit in
      Ends-bind (λ u. Is generating_followups it limit) Q _ _
        (move-Is analyzing_gaps it limit now generating_followups o refl h)
        (λ u o1 h1.
          Ends-bind (λ u. Is generating_followups it limit) Q _ _
            (call-Is generating_followups it limit now work.followed_up o1 h1)
            (λ u o2 h2.
              let (here, (at_it, at_limit)) = h2 in
              Ends-bind (λ u. Is searching (it + 1) limit) Q _ _
                (move-Is generating_followups (it + 1) limit now searching
                  (record o2 { current_iteration = o2.current_iteration + 1 }) refl
                  (here, (ground arith, at_limit)))
                (λ u o3 h3. Ends-done Q true o3 (h3, below))))

  stop_iterating-Is :
      (reason : Option StopReason) (o : Orchestrator)
      → Is analyzing_gaps it limit o
      → Ends (IsAnalysed it limit) (stop_iterating now reason o)
  unfolding stop_iterating can_transition allowed persist_checkpoint
  stop_iterating-Is reason o h =
      let Q = IsAnalysed it limit in
      Ends-if Q (is_satisfied reason) _ _
        (λ e.
          Ends-bind (λ u. Is converged it limit) Q _ _
            (move-Is analyzing_gaps it limit now converged _ refl h)
            (λ u o1 h1. Ends-done Q false o1 (inl h1)))
        (λ e.
          Ends-bind (λ u. Is generating_followups it limit) Q _ _
            (move-Is analyzing_gaps it limit now generating_followups _ refl h)
            (λ u o1 h1.
              Ends-bind (λ u. Is converged it limit) Q _ _
                (move-Is generating_followups it limit now converged o1 refl h1)
                (λ u o2 h2. Ends-done Q false o2 (inl h2))))

  pub phase_analyze-Is :
      (judge : Judge) (work : AnalysisWork) (o : Orchestrator)
      → Is analyzing_gaps it limit o
      → Ends (IsAnalysed it limit) (phase_analyze now judge work o)
  unfolding phase_analyze can_transition allowed
  phase_analyze-Is judge work o h =
      let Q = IsAnalysed it limit in
      Ends-bind (λ u. Is analyzing_gaps it limit) Q _ _
        (call-Is analyzing_gaps it limit now work.analysed o h)
        (λ u o1 h1.
          let (here, (at_it, at_limit)) = h1 in
          let decision =
            evaluate judge.thresholds judge.has_provider work.answer now o1.budget work.stats in
          Ends-if Q decision.should_stop _ _ (λ e. stop_iterating-Is _ _ h1)
            (λ e.
              Ends-if Q (leb o1.budget.cfg.max_iterations o1.current_iteration) _ _
                (λ over.
                  Ends-bind (λ u. Is converged it limit) Q _ _
                    (move-Is analyzing_gaps it limit now converged _ refl h1)
                    (λ u o2 h2. Ends-done Q false o2 (inl h2)))
                (λ under.
                  let below : it < limit = ground (arith, under) in
                  Ends-if Q (o1.current_iteration == 1) _ _
                    (λ first.
                      Ends-bind (IsGated analyzing_gaps it limit) Q _ _
                        (review_gate-Is analyzing_gaps it limit now after_first_research_cycle _
                          refl h1)
                        (λ passed o2 h2.
                          Ends-if Q passed _ _
                            (λ e'.
                              go_on_iterating-Is work o2
                                (subst (λ b. IsGated analyzing_gaps it limit b o2) e' h2) below)
                            (λ e'.
                              Ends-done Q false o2
                                (inr (subst (λ b. IsGated analyzing_gaps it limit b o2) e' h2)))))
                    (λ later. go_on_iterating-Is work _ h1 below))))

  pub phase_synthesize-Is :
      (reported : Bool) (o : Orchestrator)
      → Is converged it limit o
      → Ends (λ u. Is completed it limit) (phase_synthesize now reported o)
  unfolding phase_synthesize can_transition allowed
  phase_synthesize-Is reported o h =
      let Q = λ (u : Unit). Is completed it limit in
      Ends-bind (λ u. Is synthesizing it limit) Q _ _
        (move-Is converged it limit now synthesizing o refl h)
        (λ u o1 h1.
          Ends-bind (λ u. Is synthesizing it limit) Q _ _
            (call-Is synthesizing it limit now reported o1 h1)
            (λ u o2 h2. move-Is synthesizing it limit now completed o2 refl h2))
