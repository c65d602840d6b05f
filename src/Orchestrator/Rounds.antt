-- ===== src/Orchestrator/Rounds.antt =====
-- One round of the loop of `run_orchestrated`: each turns a search into an analysis
-- or an analysis into the next iteration, so that twice the iterations left bound the rounds.
use ai_researcher_agent_loca.Prelude.{
  ℕ, suc, ◌+◌, ◌-◌, ◌*◌, ◌≤◌, Bool, true, false, not, ◌||◌, Option, none, some, ◌≡◌, refl, arith,
  ◌⊎◌, inl, inr, any_of, [], ◌∷◌, subst, if◌then◌else◌,
}
use ai_researcher_agent_loca.Job.{Time}
use ai_researcher_agent_loca.StateMachine.{
  ProjectState, searching, analyzing_gaps, converged, paused, failed, completed, same_state,
  allowed, can_transition,
}
use ai_researcher_agent_loca.Convergence.{StopReason}
use ai_researcher_agent_loca.Orchestrator.{
  Orchestrator, Outcome, bind, done, request_stop, request_pause, check_pause, save_cursor,
  persist_checkpoint, step_has_pause, LoopStepSpec,
}
use ai_researcher_agent_loca.Orchestrator.Phases.{phase_search_fetch_extract}
use ai_researcher_agent_loca.Orchestrator.Loop.{
  Round, World, Next, again, leave, return, analysis_round, work_round, one_round,
}
use ai_researcher_agent_loca.Orchestrator.Hoare.{
  Ends, Ends-done, Ends-bind, Ends-if, Is, IsGated, IsEither, move-Is, save_cursor-Is,
  pause_at_step-Is,
}
use ai_researcher_agent_loca.Orchestrator.Steps.{IsAnalysed, phase_search-Is, phase_analyze-Is}

-- The project is searching or analysing, with at most `k` rounds to go.
abbrev pub IsGoing : (k limit : ℕ) → Orchestrator → Type 0
IsGoing k limit o =
    (Is searching o.current_iteration limit o × (2 * (limit - o.current_iteration) + 2 ≤ k))
    ⊎ (Is analyzing_gaps o.current_iteration limit o × (2 * (limit - o.current_iteration) + 1 ≤ k))

-- After a round, with at most `k` rounds to go.
abbrev pub IsRounded : (k limit : ℕ) → Next → Orchestrator → Type 0
IsRounded k limit again o = IsGoing k limit o ⊎ (o.project.state ≡ converged)
IsRounded k limit leave o = o.project.state ≡ converged
IsRounded k limit return o = o.project.state ≡ paused

-- The optional pause of the manifest.
pub Ends-pause :
    {A : Type 0} (Q : A → Orchestrator → Type 0) (found : Option LoopStepSpec) (x : Outcome A)
    (y : LoopStepSpec → Outcome A)
    → Ends Q x
    → ((spec : LoopStepSpec) → Ends Q (y spec))
    → Ends Q (elim found [ none ↦ x | some spec ↦ y spec ])
Ends-pause Q none x y without with_pause = without
Ends-pause Q (some spec) x y without with_pause = with_pause spec

module _ (s : ProjectState) (it limit : ℕ) (now : Time) where
  asked_to-Is :
      (stops pauses : Bool) (o : Orchestrator)
      → Is s it limit o
      → Is s it limit (
          if pauses
          then request_pause (if stops then request_stop o else o)
          else (if stops then request_stop o else o))
  unfolding request_stop request_pause
  asked_to-Is true true o h = h
  asked_to-Is true false o h = h
  asked_to-Is false true o h = h
  asked_to-Is false false o h = h

  check_pause-Is :
      (o : Orchestrator)
      → can_transition s paused ≡ true
      → Is s it limit o
      → Ends (λ is_paused. IsGated s it limit (not is_paused)) (check_pause now o)
  unfolding check_pause persist_checkpoint
  check_pause-Is o ok h =
      let Q = λ (is_paused : Bool). IsGated s it limit (not is_paused) in
      Ends-if Q
        (not o.pause_requested
          || any_of (same_state o.project.state) (paused ∷ converged ∷ completed ∷ failed ∷ []))
        _ _ (λ e. Ends-done Q false o h)
        (λ e.
          Ends-bind (λ u. Is paused it limit) Q _ _ (move-Is s it limit now paused o ok h)
            (λ u o' h'. Ends-done Q true _ h'))

module _ (w : World) (r : Round) (it limit k : ℕ) where
  search_round-Is :
      (o : Orchestrator)
      → Is searching it limit o
      → 2 * (limit - it) + 2 ≤ suc k
      → Ends (IsRounded k limit) (
          bind
            (phase_search_fetch_extract r.now r.search
              (save_cursor r.now "per_iteration" 0 o.current_iteration false none o))
            (λ _ o1. done again o1))
  search_round-Is o h bound =
      let Q = IsRounded k limit in
      Ends-bind (λ u. IsEither converged analyzing_gaps it limit) Q _ _
        (phase_search-Is it limit r.now r.search _ (
          save_cursor-Is searching it limit r.now "per_iteration" 0 o.current_iteration false none o
            h))
        (λ u o1 h1. Ends-done Q again o1 (elim h1 [
          | inl (here, rest) ↦ inr here
          | inr (here, (at_it, at_limit)) ↦ inl (inr ((here, (refl, at_limit)), ground arith))
        ]))

  analysed-Is :
      (cont : Bool) (o : Orchestrator)
      → IsAnalysed it limit cont o
      → 2 * (limit - it) + 1 ≤ suc k
      → (o.project.state ≡ paused) ⊎ IsRounded k limit (if cont then again else leave) o
  analysed-Is true o ((here, (at_it, at_limit)), below) bound =
      inr (inl (inl ((here, (refl, at_limit)), ground arith)))
  analysed-Is false o (inl (here, rest)) bound = inr here
  analysed-Is false o (inr (here, rest)) bound = inl here

  onward-Is :
      (cont : Bool) (o : Orchestrator)
      → IsAnalysed it limit cont o
      → same_state o.project.state paused ≡ false
      → same_state o.project.state converged ≡ false
      → Is searching (it + 1) limit o
  onward-Is true o (h, below) e e' = h
  onward-Is false o (inl (here, rest)) e e' = let wrong : true ≡ false = rw here at e' in absurd cc
  onward-Is false o (inr (here, rest)) e e' = let wrong : true ≡ false = rw here at e in absurd cc

  analysis_round-Is :
      (o : Orchestrator)
      → Is analyzing_gaps it limit o
      → 2 * (limit - it) + 1 ≤ suc k
      → Ends (IsRounded k limit) (analysis_round w r o)
  unfolding analysis_round save_cursor persist_checkpoint can_transition allowed
  analysis_round-Is o h bound =
      let Q = IsRounded k limit in
      Ends-bind (IsAnalysed it limit) Q _ _ (phase_analyze-Is it limit r.now w.judge r.analysis _ h)
        (λ cont o1 h1.
          Ends-if Q (same_state o1.project.state paused) _ _
            (λ e. Ends-done Q return _ (ground arith))
            (λ e.
              let goes : IsRounded k limit (if cont then again else leave) o1 =
                elim (analysed-Is cont o1 h1 bound) [
                  | inl here ↦ let wrong : true ≡ false = rw here at e in absurd cc
                  | inr rounded ↦ rounded
                ] in
              Ends-pause Q
                (step_has_pause w.upper w.loop.per_iteration "evaluate_convergence"
                  o1.approved_gates)
                _ _ (Ends-done Q (if cont then again else leave) o1 goes)
                (λ spec.
                  Ends-if Q (same_state o1.project.state converged) _ _
                    (λ e'. Ends-done Q (if cont then again else leave) o1 goes)
                    (λ e'.
                      Ends-bind (λ u. Is paused (it + 1) limit) Q _ _
                        (pause_at_step-Is searching (it + 1) limit r.now w.upper "per_iteration" 6
                          o1.current_iteration spec o1 refl (onward-Is cont o1 h1 e e'))
                        (λ u o2 h2. let (here, rest) = h2 in Ends-done Q return o2 here)))))

module _ (w : World) (r : Round) (limit k : ℕ) where
  work_round-Is :
      (o : Orchestrator) → IsGoing (suc k) limit o → Ends (IsRounded k limit) (work_round w r o)
  unfolding work_round
  work_round-Is o (inl (h, bound)) =
      let Q = IsRounded k limit in
      let (here, rest) = h in
      Ends-if Q (same_state o.project.state searching) _ _
        (λ e. search_round-Is w r o.current_iteration limit k o h bound)
        (λ e. let wrong : true ≡ false = rw here at e in absurd cc)
  work_round-Is o (inr (h, bound)) =
      let Q = IsRounded k limit in
      let (here, rest) = h in
      Ends-if Q (same_state o.project.state searching) _ _
        (λ e. let wrong : false ≡ true = rw here at e in absurd cc)
        (λ e.
          Ends-if Q (same_state o.project.state analyzing_gaps) _ _
            (λ e'. analysis_round-Is w r o.current_iteration limit k o h bound)
            (λ e'. let wrong : true ≡ false = rw here at e' in absurd cc))

  -- A round from a state `s` of the loop, given the work of its phase.
  one_round-from :
      (s : ProjectState) (it : ℕ) (o : Orchestrator)
      → can_transition s converged ≡ true
      → can_transition s paused ≡ true
      → Is s it limit o
      → ((o' : Orchestrator) → Is s it limit o' → IsGoing (suc k) limit o')
      → Ends (IsRounded k limit) (one_round w r o)
  unfolding one_round save_cursor persist_checkpoint
  one_round-from s it o stops pauses h going =
      let Q = IsRounded k limit in
      let o1 = if r.stop_asked then request_stop o else o in
      let o2 = if r.pause_asked then request_pause o1 else o1 in
      let h2 : Is s it limit o2 = asked_to-Is s it limit r.now r.stop_asked r.pause_asked o h in
      Ends-if Q o2.stop_requested _ _
        (λ e.
          Ends-bind (λ u. Is converged it limit) Q _ _
            (move-Is s it limit r.now converged
              (record o2 { stop_reason = some StopReason.user_stopped }) stops h2)
            (λ u o3 h3. let (here, rest) = h3 in Ends-done Q leave o3 here))
        (λ e.
          Ends-bind (λ is_paused. IsGated s it limit (not is_paused)) Q _ _
            (check_pause-Is s it limit r.now o2 pauses h2)
            (λ is_paused o3 h3.
              Ends-if Q is_paused _ _
                (λ e'.
                  let (here, rest) = subst (λ b. IsGated s it limit (not b) o3) e' h3 in
                  Ends-done Q return _ here)
                (λ e'.
                  work_round-Is o3 (going o3 (subst (λ b. IsGated s it limit (not b) o3) e' h3)))))

  pub one_round-Is :
      (o : Orchestrator) → IsGoing (suc k) limit o → Ends (IsRounded k limit) (one_round w r o)
  unfolding can_transition allowed
  one_round-Is o (inl (h, bound)) =
      one_round-from searching o.current_iteration o refl refl h (λ o' h'.
        let (here, (at_it, at_limit)) = h' in inl ((here, (refl, at_limit)), ground arith))
  one_round-Is o (inr (h, bound)) =
      one_round-from analyzing_gaps o.current_iteration o refl refl h (λ o' h'.
        let (here, (at_it, at_limit)) = h' in inr ((here, (refl, at_limit)), ground arith))
