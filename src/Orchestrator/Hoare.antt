-- ===== src/Orchestrator/Hoare.antt =====
-- What holds at the end of a call of the orchestrator, statement by statement.
use ai_researcher_agent_loca.Prelude.{
  ℕ, String, Bool, true, false, not, Option, none, some, ◌≡◌, refl, arith, ◌⊎◌, inl, inr,
  Bool-cases, if◌then◌else◌, any_of, str_eq,
}
use ai_researcher_agent_loca.Job.{Time}
use ai_researcher_agent_loca.StateMachine.{
  ProjectState, paused, same_state, can_transition, transition,
}
use ai_researcher_agent_loca.Orchestrator.{
  ReviewGate, gate_value, LoopStepSpec, Orchestrator, worker_failed, Outcome, done, raised, bind,
  move, persist_checkpoint, review_gate, save_cursor, pause_at_step,
}
use ai_researcher_agent_loca.Orchestrator.Phases.{call, call_for}

-- The call returns with `Q`, or a worker's exception ends it: no transition is refused.
unfoldable pub Ends : {A : Type 0} → (Q : A → Orchestrator → Type 0) → Outcome A → Type 0
Ends Q (done a o) = Q a o
Ends Q (raised f o) = f ≡ worker_failed

pub Ends-done :
    {A : Type 0} (Q : A → Orchestrator → Type 0) (a : A) (o : Orchestrator)
    → Q a o
    → Ends Q (done a o)
unfolding Ends
Ends-done Q a o h = h

pub Ends-raised :
    {A : Type 0} (Q : A → Orchestrator → Type 0) (o : Orchestrator)
    → Ends Q (raised worker_failed o)
unfolding Ends
Ends-raised Q o = refl

pub Ends-bind :
    {A B : Type 0} (P : A → Orchestrator → Type 0) (Q : B → Orchestrator → Type 0) (m : Outcome A)
    (rest : A → Orchestrator → Outcome B)
    → Ends P m
    → ((a : A) (o : Orchestrator) → P a o → Ends Q (rest a o))
    → Ends Q (bind m rest)
unfolding Ends bind
Ends-bind P Q (done a o) rest h next = next a o h
Ends-bind P Q (raised f o) rest h next = h

pub Ends-if :
    {A : Type 0} (Q : A → Orchestrator → Type 0) (b : Bool) (x y : Outcome A)
    → (b ≡ true → Ends Q x)
    → (b ≡ false → Ends Q y)
    → Ends Q (if b then x else y)
unfolding Ends
Ends-if Q true x y then_x else_y = then_x refl
Ends-if Q false x y then_x else_y = else_y refl

pub Ends-weaken :
    {A : Type 0} (P Q : A → Orchestrator → Type 0) (m : Outcome A)
    → Ends P m
    → ((a : A) (o : Orchestrator) → P a o → Q a o)
    → Ends Q m
unfolding Ends
Ends-weaken P Q (done a o) h weaken = weaken a o h
Ends-weaken P Q (raised f o) h weaken = h

-- The project's state, the iteration it is in and the configured limit of iterations.
abbrev pub Is : ProjectState → (it limit : ℕ) → Orchestrator → Type 0
Is s it limit o =
    (o.project.state ≡ s) × ((o.current_iteration ≡ it) × (o.budget.cfg.max_iterations ≡ limit))

-- A gate is passed, or the project pauses at it.
abbrev pub IsGated : ProjectState → (it limit : ℕ) → Bool → Orchestrator → Type 0
IsGated s it limit true o = Is s it limit o
IsGated s it limit false o = Is paused it limit o

-- One of two states.
abbrev pub IsEither : (s t : ProjectState) (it limit : ℕ) → Orchestrator → Type 0
IsEither s t it limit o = Is s it limit o ⊎ Is t it limit o

pub gated-IsEither :
    (s : ProjectState) (it limit : ℕ) (passed : Bool) (o : Orchestrator)
    → IsGated s it limit passed o
    → IsEither s paused it limit o
gated-IsEither s it limit true o h = inl h
gated-IsEither s it limit false o h = inr h

module _ (s : ProjectState) (it limit : ℕ) (now : Time) where
  pub move-done :
      (t : ProjectState) (o : Orchestrator)
      → can_transition s t ≡ true
      → Is s it limit o
      → (o' : Orchestrator) × ((move now t o ≡ done tt o') × Is t it limit o')
  unfolding move transition
  move-done t o ok (here, rest) =
      let ok' : can_transition o.project.state t ≡ true = rw here ok in
      elim (Bool-cases (same_state o.project.state t)) [
        | inl e ↦ (o, (rw e refl, (ground arith, rest)))
        | inr e ↦ (
          record o { project = record o.project { state = t; updated_at = now } },
          (rw (e, ok') refl, (refl, rest)),
        )
      ]

  pub move-Is :
      (t : ProjectState) (o : Orchestrator)
      → can_transition s t ≡ true
      → Is s it limit o
      → Ends (λ u. Is t it limit) (move now t o)
  move-Is t o ok h =
      let (o', (e, h')) = move-done t o ok h in rw e (Ends-done (λ u. Is t it limit) tt o' h')

  pub call-Is :
      (works : Bool) (o : Orchestrator) → Is s it limit o → Ends (λ u. Is s it limit) (call works o)
  unfolding Ends call
  call-Is true o h = h
  call-Is false o h = refl

  pub call_for-Is :
      {A : Type 0} (answer : Option A) (o : Orchestrator)
      → Is s it limit o
      → Ends (λ (a : A). Is s it limit) (call_for answer o)
  unfolding Ends call_for
  call_for-Is none o h = refl
  call_for-Is (some a) o h = h

  pub persist_checkpoint-Is :
      (o : Orchestrator) → Is s it limit o → Is s it limit (persist_checkpoint now o)
  unfolding persist_checkpoint
  persist_checkpoint-Is o h = h

  pub save_cursor-Is :
      (phase : String) (i k : ℕ) (pending : Bool) (gate : Option String) (o : Orchestrator)
      → Is s it limit o
      → Is s it limit (save_cursor now phase i k pending gate o)
  unfolding save_cursor persist_checkpoint
  save_cursor-Is phase i k pending gate o h = h

  pub review_gate-Is :
      (gate : ReviewGate) (o : Orchestrator)
      → can_transition s paused ≡ true
      → Is s it limit o
      → Ends (IsGated s it limit) (review_gate now gate o)
  unfolding review_gate persist_checkpoint
  review_gate-Is gate o ok h =
      Ends-if (IsGated s it limit) (not o.review_gates_enabled) _ _
        (λ off. Ends-done (IsGated s it limit) true o h)
        (λ on.
          Ends-if (IsGated s it limit) (any_of (str_eq (gate_value gate)) o.approved_gates) _ _
            (λ approved. Ends-done (IsGated s it limit) true o h)
            (λ fresh.
              Ends-bind (λ u. Is paused it limit) (IsGated s it limit) _ _ (move-Is paused _ ok h)
                (λ u o' h'. Ends-done (IsGated s it limit) false _ h')))

  pub pause_at_step-Is :
      (upper : String → String) (phase : String) (i k : ℕ) (spec : LoopStepSpec) (o : Orchestrator)
      → can_transition s paused ≡ true
      → Is s it limit o
      → Ends (λ u. Is paused it limit) (pause_at_step upper now phase i k spec o)
  unfolding pause_at_step save_cursor persist_checkpoint
  pause_at_step-Is upper phase i k spec o ok h =
      Ends-bind (λ u. Is paused it limit) (λ u. Is paused it limit) _ _ (move-Is paused _ ok h)
        (λ u o' h'. Ends-done (λ u. Is paused it limit) tt _ h')
