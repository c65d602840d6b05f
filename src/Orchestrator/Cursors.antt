-- ===== src/Orchestrator/Cursors.antt =====
-- The cursor over a run of `LoopRunner`, and which stop condition is found.
use ai_researcher_agent_loca.Prelude.{
  ℕ, zero, suc, ◌+◌, String, Bool, true, false, not, ◌&&◌, ◌||◌, Option, some, List, [], ◌∷◌, ◌≡◌,
  refl, ◌⊎◌, inl, inr, is_none, str_eq, if◌then◌else◌,
}
use ai_researcher_agent_loca.Job.{Time}
use ai_researcher_agent_loca.StateMachine.{paused, same_state}
use ai_researcher_agent_loca.Orchestrator.{
  Cursor, LoopStepSpec, Orchestrator, Outcome, done, raised, bind, save_cursor, persist_checkpoint,
  pause_at_step, gate_name,
}
use ai_researcher_agent_loca.Orchestrator.Runner.{
  LoopRunner, is_refusal, StepsEnd, all_done, has_converged, has_paused, after_step, run_phase,
  run_iteration, end_iteration, iterate, cursor_phase, complete_run, run_synthesis, run_iterations,
  run_setup, loop_runner_run,
}

-- What holds if the call returns.
unfoldable pub OnReturn : {A : Type 0} → (Q : A → Orchestrator → Type 0) → Outcome A → Type 0
OnReturn Q (done a o) = Q a o
OnReturn Q (raised f o) = Unit

pub OnReturn-done :
    {A : Type 0} (Q : A → Orchestrator → Type 0) (a : A) (o : Orchestrator)
    → Q a o
    → OnReturn Q (done a o)
unfolding OnReturn
OnReturn-done Q a o h = h

pub OnReturn-bind :
    {A B : Type 0} (P : A → Orchestrator → Type 0) (Q : B → Orchestrator → Type 0) (m : Outcome A)
    (rest : A → Orchestrator → Outcome B)
    → OnReturn P m
    → ((a : A) (o : Orchestrator) → P a o → OnReturn Q (rest a o))
    → OnReturn Q (bind m rest)
unfolding OnReturn bind
OnReturn-bind P Q (done a o) rest h next = next a o h
OnReturn-bind P Q (raised f o) rest h next = tt

pub OnReturn-if :
    {A : Type 0} (Q : A → Orchestrator → Type 0) (b : Bool) (x y : Outcome A)
    → OnReturn Q x
    → OnReturn Q y
    → OnReturn Q (if b then x else y)
OnReturn-if Q true x y then_x else_y = then_x
OnReturn-if Q false x y then_x else_y = else_y

pub OnReturn-choose :
    {A : Type 0} (Q : A → Orchestrator → Type 0) (b : Bool) (x y : Outcome A)
    → (b ≡ true → OnReturn Q x)
    → (b ≡ false → OnReturn Q y)
    → OnReturn Q (if b then x else y)
OnReturn-choose Q true x y then_x else_y = then_x refl
OnReturn-choose Q false x y then_x else_y = else_y refl

OnReturn-any : {A : Type 0} (m : Outcome A) → OnReturn (λ a o. Unit) m
unfolding OnReturn
OnReturn-any (done a o) = tt
OnReturn-any (raised f o) = tt

-- The cursor says that the run is completed, or that it waits at a pause.
abbrev pub IsParked : Orchestrator → Type 0
IsParked o =
    (cur : Cursor) × ((o.loop_cursor ≡ some cur)
      × ((cur.phase ≡ "completed") ⊎ (cur.pending_pause ≡ true)))

-- A list of steps that makes the run return leaves the cursor parked.
abbrev IsLeft : StepsEnd → Orchestrator → Type 0
IsLeft all_done o = Unit
IsLeft has_converged o = Unit
IsLeft has_paused o = IsParked o

-- A loop that the run does not go on after leaves the cursor parked.
abbrev GoesOn : Bool → Orchestrator → Type 0
GoesOn true o = Unit
GoesOn false o = IsParked o

save_cursor-IsParked :
    (now : Time) (phase : String) (i it : ℕ) (gate : Option String) (o : Orchestrator)
    → IsParked (save_cursor now phase i it true gate o)
unfolding save_cursor persist_checkpoint
save_cursor-IsParked now phase i it gate o = (_, (refl, inr refl))

after_step-IsLeft :
    (r : LoopRunner) (phase : String) (i it : ℕ) (spec : LoopStepSpec) (is_converged : Bool)
    (rest : Orchestrator → Outcome StepsEnd) (o : Orchestrator)
    → OnReturn IsLeft (rest o)
    → OnReturn IsLeft (after_step r phase i it spec is_converged rest o)
unfolding after_step pause_at_step
after_step-IsLeft r phase i it spec is_converged rest o h =
    OnReturn-if IsLeft spec.pause_after _ _
      (OnReturn-bind (λ u. IsParked) IsLeft _ _
        (OnReturn-bind (λ u o1. Unit) (λ u. IsParked) _ _ (OnReturn-any _)
          (λ u o1 h1.
            OnReturn-done (λ u. IsParked) tt _
              (save_cursor-IsParked r.now phase i it (some (gate_name r.upper spec)) o1)))
        (λ u o1 h1. OnReturn-done IsLeft has_paused o1 h1))
      (OnReturn-if IsLeft is_converged _ _ (OnReturn-done IsLeft has_converged o tt) h)

run_phase-IsLeft :
    (r : LoopRunner) (phase : String) (it : Orchestrator → ℕ) (i : ℕ) (steps : List LoopStepSpec)
    (o : Orchestrator)
    → OnReturn IsLeft (run_phase r phase it i steps o)
unfolding run_phase
run_phase-IsLeft r phase it i [] o = OnReturn-done IsLeft all_done o tt
run_phase-IsLeft r phase it i (spec ∷ steps) o =
    let ih = run_phase-IsLeft r phase it (i + 1) steps in
    OnReturn-bind (λ cont o1. Unit) IsLeft _ _ (OnReturn-any _)
      (λ cont o1 h1.
        OnReturn-if IsLeft
          (not (is_none (r.handlers spec.step))
            && (same_state o1.project.state paused || is_refusal cont))
          _ _
          (OnReturn-done IsLeft has_paused _
            (save_cursor-IsParked r.now phase i (it o1) o1.review_gate_pending o1))
          (after_step-IsLeft r phase i (it o1) spec false (run_phase r phase it (i + 1) steps) o1
            (ih o1)))

run_iteration-IsLeft :
    (r : LoopRunner) (it i : ℕ) (steps : List LoopStepSpec) (o : Orchestrator)
    → OnReturn IsLeft (run_iteration r it i steps o)
unfolding run_iteration
run_iteration-IsLeft r it i [] o = OnReturn-done IsLeft all_done o tt
run_iteration-IsLeft r it i (spec ∷ steps) o =
    let ih = run_iteration-IsLeft r it (i + 1) steps in
    OnReturn-bind (λ cont o1. Unit) IsLeft _ _ (OnReturn-any _)
      (λ cont o1 h1.
        OnReturn-if IsLeft
          (not (is_none (r.handlers spec.step)) && same_state o1.project.state paused) _ _
          (OnReturn-done IsLeft has_paused _
            (save_cursor-IsParked r.now "per_iteration" i it o1.review_gate_pending o1))
          (after_step-IsLeft r "per_iteration" i it spec
            (is_refusal cont && str_eq spec.step "evaluate_convergence")
            (run_iteration r it (i + 1) steps) o1 (ih o1)))

-- The end of one iteration's steps, given the iterations after it.
next-GoesOn :
    (r : LoopRunner) (it : ℕ) (rest : Orchestrator → Outcome Bool) (ended : StepsEnd)
    (o : Orchestrator)
    → IsLeft ended o
    → ((o1 : Orchestrator) → OnReturn GoesOn (rest o1))
    → OnReturn GoesOn (elim ended [
      | has_paused ↦ done false o
      | all_done ↦
          bind
            (end_iteration r it all_done o)
            (λ leaves o2. if leaves then done true o2 else rest o2)
      | has_converged ↦ done true o
    ])
next-GoesOn r it rest has_paused o h more = OnReturn-done GoesOn false o h
next-GoesOn r it rest has_converged o h more = OnReturn-done GoesOn true o tt
next-GoesOn r it rest all_done o h more =
    OnReturn-bind (λ leaves o2. Unit) GoesOn _ _ (OnReturn-any _)
      (λ leaves o2 h2. OnReturn-if GoesOn leaves _ _ (OnReturn-done GoesOn true o2 tt) (more o2))

iterate-GoesOn :
    (r : LoopRunner) (left it i : ℕ) (o : Orchestrator) → OnReturn GoesOn (iterate r left it i o)
unfolding iterate
iterate-GoesOn r zero it i o = OnReturn-done GoesOn true o tt
iterate-GoesOn r (suc left) it i o =
    let ih = iterate-GoesOn r left (it + 1) 0 in
    OnReturn-bind IsLeft GoesOn _ _ (run_iteration-IsLeft r it i _ _)
      (λ ended o1 h1. next-GoesOn r it (iterate r left (it + 1) 0) ended o1 h1 ih)

complete_run-IsParked :
    (r : LoopRunner) (o : Orchestrator) → OnReturn (λ u. IsParked) (complete_run r o)
unfolding complete_run save_cursor persist_checkpoint OnReturn
complete_run-IsParked r o = (_, (refl, inl refl))

-- After the steps of a phase, given what follows.
ended-IsParked :
    (next : Outcome Unit) (ended : StepsEnd) (o : Orchestrator)
    → IsLeft ended o
    → OnReturn (λ u. IsParked) next
    → OnReturn
        (λ u. IsParked)
        (elim ended [ has_paused ↦ done tt o | all_done ↦ next | has_converged ↦ next ])
ended-IsParked next has_paused o h more = OnReturn-done (λ u. IsParked) tt o h
ended-IsParked next all_done o h more = more
ended-IsParked next has_converged o h more = more

run_synthesis-IsParked :
    (r : LoopRunner) (i : ℕ) (o : Orchestrator) → OnReturn (λ u. IsParked) (run_synthesis r i o)
unfolding run_synthesis
run_synthesis-IsParked r i o =
    OnReturn-bind IsLeft (λ u. IsParked) _ _
      (run_phase-IsLeft r "synthesis" (λ o1. o1.current_iteration) i _ o)
      (λ ended o1 h1. ended-IsParked (complete_run r o1) ended o1 h1 (complete_run-IsParked r o1))

loop_end-IsParked :
    (next : Outcome Unit) (goes_on : Bool) (o : Orchestrator)
    → GoesOn goes_on o
    → OnReturn (λ u. IsParked) next
    → OnReturn (λ u. IsParked) (if goes_on then next else done tt o)
loop_end-IsParked next true o h more = more
loop_end-IsParked next false o h more = OnReturn-done (λ u. IsParked) tt o h

run_iterations-IsParked :
    (r : LoopRunner) (cur : Option Cursor) (i : ℕ) (o : Orchestrator)
    → OnReturn (λ u. IsParked) (run_iterations r cur i o)
unfolding run_iterations
run_iterations-IsParked r cur i o =
    OnReturn-bind GoesOn (λ u. IsParked) _ _ (iterate-GoesOn r _ _ i _)
      (λ goes_on o1 h1.
        loop_end-IsParked (run_synthesis r 0 o1) goes_on o1 h1 (run_synthesis-IsParked r 0 o1))

run_setup-IsParked :
    (r : LoopRunner) (cur : Option Cursor) (o : Orchestrator)
    → OnReturn (λ u. IsParked) (run_setup r cur o)
unfolding run_setup
run_setup-IsParked r cur o =
    OnReturn-bind IsLeft (λ u. IsParked) _ _ (run_phase-IsLeft r "setup" (λ o1. 0) _ _ o)
      (λ ended o1 h1. ended-IsParked _ ended o1 h1 (run_iterations-IsParked r cur 0 _))

-- Whatever the handlers do, a run that returns leaves a cursor that is marked completed or has a
-- pause pending.
pub loop_runner_run-IsParked :
    (r : LoopRunner) (o : Orchestrator) → OnReturn (λ u. IsParked) (loop_runner_run r o)
unfolding loop_runner_run
loop_runner_run-IsParked r o =
    let Q = λ (u : Unit). IsParked in
    OnReturn-if Q (str_eq (cursor_phase o.loop_cursor) "setup") _ _
      (run_setup-IsParked r o.loop_cursor o)
      (OnReturn-if Q (str_eq (cursor_phase o.loop_cursor) "per_iteration") _ _
        (run_iterations-IsParked r o.loop_cursor _ o)
        (OnReturn-if Q (str_eq (cursor_phase o.loop_cursor) "synthesis") _ _
          (run_synthesis-IsParked r _ o) (complete_run-IsParked r o)))
