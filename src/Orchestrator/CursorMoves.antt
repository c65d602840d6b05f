-- ===== src/Orchestrator/CursorMoves.antt =====
-- What `resume_cursor` does to a parked cursor, and which stop condition is found.
use ai_researcher_agent_loca.Prelude.{
  ℕ, ◌+◌, String, true, false, not, ◌||◌, Option, none, some, List, [], ◌∷◌, ◌++◌, ◌≡◌, refl, ◌⊎◌,
  inl, inr, All, In, Bool-cases, any_of, str_eq, eq_refl, ◌∙◌, sym, subst,
}
use ai_researcher_agent_loca.Job.{Time}
use ai_researcher_agent_loca.StateMachine.{
  ProjectState, paused, same_state, can_transition, transition,
}
use ai_researcher_agent_loca.Orchestrator.{
  Cursor, Orchestrator, done, move, save_cursor, persist_checkpoint,
}
use ai_researcher_agent_loca.Orchestrator.StopWhen.{
  StopConditionSpec, is_fulfilled, evaluate_stop_conditions,
}
use ai_researcher_agent_loca.Orchestrator.Runner.{LoopRunner}
use ai_researcher_agent_loca.Orchestrator.CursorResume.{
  cursor_gate, approve_gate, resume_target, resume_at, resume_cursor,
}
use ai_researcher_agent_loca.Orchestrator.Cursors.{
  OnReturn, OnReturn-done, OnReturn-bind, OnReturn-if, OnReturn-choose,
}

-- Either no condition is met, and none is found, or the one that is found is among them and met.
pub evaluate_stop_conditions-found :
    (conditions : List StopConditionSpec) (metrics : String → Option ℕ) (it : ℕ)
    → ((evaluate_stop_conditions conditions metrics it ≡ none)
        × All (λ cond. is_fulfilled metrics it cond ≡ false) conditions)
      ⊎ ((cond : StopConditionSpec) × ((evaluate_stop_conditions conditions metrics it ≡ some cond)
            × (In cond conditions × (is_fulfilled metrics it cond ≡ true))))
unfolding evaluate_stop_conditions
evaluate_stop_conditions-found [] metrics it = inl (refl, tt)
evaluate_stop_conditions-found (cond ∷ conditions) metrics it =
    let ih = evaluate_stop_conditions-found conditions metrics it in
    elim (Bool-cases (is_fulfilled metrics it cond)) [
      | inl met ↦ inr (cond, (rw met refl, (inl refl, met)))
      | inr unmet ↦ elim ih [
        | inl (e, all) ↦ inl (rw unmet e, (unmet, all))
        | inr (later, (e, (there, met))) ↦ inr (later, (rw unmet e, (inr there, met)))
      ]
    ]

any_of-last :
    (gate : String) (gates : List String) → any_of (str_eq gate) (gates ++ (gate ∷ [])) ≡ true
any_of-last gate [] = rw (eq_refl gate) refl
any_of-last gate (g ∷ gates) =
    let ih = any_of-last gate gates in
    elim (Bool-cases (str_eq gate g)) [ inl e ↦ rw e refl | inr e ↦ rw e ih ]

-- The gate is approved, or its name is empty.
abbrev IsApproved : Option String → List String → Type 0
IsApproved none gates = Unit
IsApproved (some gate) gates = (str_eq gate "" || any_of (str_eq gate) gates) ≡ true

approve_gate-IsApproved :
    (gate : Option String) (o : Orchestrator) → IsApproved gate (approve_gate gate o).approved_gates
unfolding approve_gate
approve_gate-IsApproved none o = tt
approve_gate-IsApproved (some gate) o =
    elim (Bool-cases (str_eq gate "" || any_of (str_eq gate) o.approved_gates)) [
      | inl old ↦ rw old old
      | inr new ↦ rw new (elim (Bool-cases (str_eq gate "")) [
        | inl e ↦ rw e refl
        | inr e ↦ rw (e, any_of-last gate o.approved_gates) refl
      ])
    ]

abbrev IsKept : Orchestrator → Orchestrator → Type 0
IsKept o o' =
    (o'.approved_gates ≡ o.approved_gates) × (o'.review_gate_pending ≡ o.review_gate_pending)

move-IsKept :
    (now : Time) (t : ProjectState) (o : Orchestrator) → OnReturn (λ u. IsKept o) (move now t o)
unfolding move transition OnReturn
move-IsKept now t o = elim (Bool-cases (same_state o.project.state t)) [
  | inl e ↦ rw e (refl, refl)
  | inr e ↦ elim (Bool-cases (can_transition o.project.state t)) [
    | inl ok ↦ rw (e, ok) (refl, refl)
    | inr refused ↦ rw (e, refused) tt
  ]
]

abbrev advanced : Cursor → Cursor
advanced cur = record {
  phase = cur.phase;
  step_index = cur.step_index + 1;
  iteration = cur.iteration;
  pending_pause = false;
  gate = none;
}

-- The cursor one step further, with the pending gate approved.
abbrev pub IsAdvanced : Cursor → (gate : Option String) → Orchestrator → Type 0
IsAdvanced cur gate o =
    (o.loop_cursor ≡ some (advanced cur))
    × ((o.review_gate_pending ≡ none) × IsApproved gate o.approved_gates)

saved-advances :
    (r : LoopRunner) (cur : Cursor) (gate : Option String) (opened o1 : Orchestrator)
    → IsKept opened o1
    → opened.review_gate_pending ≡ none
    → IsApproved gate opened.approved_gates
    → OnReturn
        (λ (u : Unit). IsAdvanced cur gate)
        (done tt (save_cursor r.now cur.phase (cur.step_index + 1) cur.iteration false none o1))
unfolding save_cursor persist_checkpoint OnReturn
saved-advances r cur gate opened o1 (gates, pending) none_pending approved =
    (refl, (pending ∙ none_pending, subst (IsApproved gate) (sym gates) approved))

resume_at-advances :
    (r : LoopRunner) (cur : Cursor) (o : Orchestrator)
    → cur.pending_pause ≡ true
    → OnReturn (λ u. IsAdvanced cur (cursor_gate cur o)) (resume_at r cur o)
unfolding resume_at
resume_at-advances r cur o pending =
    let Q = λ (u : Unit). IsAdvanced cur (cursor_gate cur o) in
    let opened = record (approve_gate (cursor_gate cur o) o) { review_gate_pending = none } in
    OnReturn-choose Q (not cur.pending_pause) _ _
      (λ e. let wrong : false ≡ true = rw pending at e in absurd cc)
      (λ e.
        OnReturn-bind (λ u. IsKept opened) Q _ _
          (OnReturn-if (λ u. IsKept opened) (same_state opened.project.state paused) _ _
            (move-IsKept r.now (resume_target r cur) opened)
            (OnReturn-done (λ u. IsKept opened) tt opened (refl, refl)))
          (λ u o1 h1.
            saved-advances r cur (cursor_gate cur o) opened o1 h1 refl
              (approve_gate-IsApproved (cursor_gate cur o) o)))

-- Resuming a cursor with a pause pending: if the transition out of the pause is not refused, the
-- cursor stands one step further in the same phase and iteration, with no pause pending, no gate
-- is pending, and the gate of the pause, if it has a name, is among the approved ones.
pub resume_cursor-advances :
    (r : LoopRunner) (cur : Cursor) (o : Orchestrator)
    → o.loop_cursor ≡ some cur
    → cur.pending_pause ≡ true
    → OnReturn (λ u. IsAdvanced cur (cursor_gate cur o)) (resume_cursor r o)
unfolding resume_cursor
resume_cursor-advances r cur o at_cursor pending =
    subst
      (λ found.
        OnReturn (λ u. IsAdvanced cur (cursor_gate cur o))
          (elim found [ none ↦ done tt o | some c ↦ resume_at r c o ]))
      (sym at_cursor) (resume_at-advances r cur o pending)
