-- ===== src/StateMachine/Paths.antt =====
-- Where sequences of transitions lead.
use ai_researcher_agent_loca.Prelude.{
  true, List, [], ◌∷◌, ◌≡◌, ◌≢◌, ◌⊎◌, inl, inr, refl, arith, In, Bool-cases, map,
}
use ai_researcher_agent_loca.Job.{Time}
use ai_researcher_agent_loca.StateMachine.{
  ProjectState, created, clarifying, planned, searching, fetching, extracting, verifying,
  analyzing_gaps, generating_followups, iterating, converged, synthesizing, completed, paused,
  failed, cancelled, same_state, allowed, Project, can_transition, Transition, unchanged, saved,
  illegal, transition,
}

-- The project after a call of `transition`: a refused one raises and leaves it as it is.
abbrev pub outcome : Project → Transition → Project
outcome project unchanged = project
outcome project (saved project') = project'
outcome project (illegal current target) = project

-- The project after a sequence of calls, each with its time.
abbrev pub travel : List (Time × ProjectState) → Project → Project
travel [] project = project
travel ((now, target) ∷ rest) project =
    travel rest (outcome project (transition now project target))

-- The states in which the project stands before each call.
abbrev pub visited : List (Time × ProjectState) → Project → List ProjectState
visited [] project = []
visited ((now, target) ∷ rest) project =
    project.state ∷ visited rest (outcome project (transition now project target))

transition-cases :
    (now : Time) (project : Project) (target : ProjectState)
    → ((outcome project (transition now project target)).state ≡ project.state)
      ⊎ (((outcome project (transition now project target)).state ≡ target)
          × (can_transition project.state target ≡ true))
unfolding transition
transition-cases now project target = elim (Bool-cases (same_state project.state target)) [
  | inl e ↦ inl (rw e refl)
  | inr e ↦ elim (Bool-cases (can_transition project.state target)) [
    | inl ok ↦ inr (rw (e, ok) refl, ok)
    | inr refused ↦ inl (rw (e, refused) refl)
  ]
]

is_completed : (s : ProjectState) → (s ≡ completed) ⊎ (s ≢ completed)
is_completed s = ground arith

completed-gate : (s : ProjectState) → can_transition s completed ≡ true → s ≡ synthesizing
unfolding can_transition allowed
completed-gate s h = ground arith

cancelled_stuck : (target : ProjectState) → can_transition cancelled target ≡ true → ⊥
unfolding can_transition allowed
cancelled_stuck target h = ground arith

-- A cancelled project stays cancelled over any sequence of transitions.
pub cancelled-travel :
    (calls : List (Time × ProjectState)) (project : Project)
    → project.state ≡ cancelled
    → (travel calls project).state ≡ cancelled
cancelled-travel [] project h = h
cancelled-travel ((now, target) ∷ calls) project h = elim (transition-cases now project target) [
  | inl same ↦ cancelled-travel calls _ (cc (same, h))
  | inr (moved, ok) ↦ absurd (cancelled_stuck target (rw h at ok))
]

-- A project that is not COMPLETED and comes to be so has been SYNTHESIZING on the way.
pub completed-visited :
    (calls : List (Time × ProjectState)) (project : Project)
    → project.state ≢ completed
    → (travel calls project).state ≡ completed
    → In synthesizing (visited calls project)
completed-visited [] project start h = absurd (start h)
completed-visited ((now, target) ∷ calls) project start h =
    elim (is_completed (outcome project (transition now project target)).state) [
      | inr other ↦ inr (completed-visited calls _ other h)
      | inl there ↦ elim (transition-cases now project target) [
        | inl same ↦ absurd (start (cc (same, there)))
        | inr (moved, ok) ↦
            let target_completed : target ≡ completed = cc (moved, there) in
            inl (completed-gate project.state (rw target_completed at ok))
      ]
    ]

-- The states of a way to COMPLETED.
abbrev route : ProjectState → List ProjectState
route created = clarifying ∷ planned ∷ searching ∷ converged ∷ synthesizing ∷ completed ∷ []
route clarifying = planned ∷ searching ∷ converged ∷ synthesizing ∷ completed ∷ []
route planned = searching ∷ converged ∷ synthesizing ∷ completed ∷ []
route searching = converged ∷ synthesizing ∷ completed ∷ []
route fetching = searching ∷ converged ∷ synthesizing ∷ completed ∷ []
route extracting = fetching ∷ searching ∷ converged ∷ synthesizing ∷ completed ∷ []
route verifying = analyzing_gaps ∷ synthesizing ∷ completed ∷ []
route analyzing_gaps = synthesizing ∷ completed ∷ []
route generating_followups = synthesizing ∷ completed ∷ []
route iterating = analyzing_gaps ∷ synthesizing ∷ completed ∷ []
route converged = synthesizing ∷ completed ∷ []
route synthesizing = completed ∷ []
route completed = []
route paused = synthesizing ∷ completed ∷ []
route failed = synthesizing ∷ completed ∷ []
route cancelled = []

route_completes :
    (now since : Time) (state : ProjectState)
    → state ≢ cancelled
    → (travel
        (map (λ target. (now, target)) (route state))
        (record { state = state; updated_at = since })).state
      ≡ completed
unfolding transition can_transition allowed
route_completes now since created h = refl
route_completes now since clarifying h = refl
route_completes now since planned h = refl
route_completes now since searching h = refl
route_completes now since fetching h = refl
route_completes now since extracting h = refl
route_completes now since verifying h = refl
route_completes now since analyzing_gaps h = refl
route_completes now since generating_followups h = refl
route_completes now since iterating h = refl
route_completes now since converged h = refl
route_completes now since synthesizing h = refl
route_completes now since completed h = refl
route_completes now since paused h = refl
route_completes now since failed h = refl
route_completes now since cancelled h = absurd (h refl)

-- From any state but CANCELLED there is a sequence of transitions that completes the project.
pub completed-reachable :
    (now : Time) (project : Project)
    → project.state ≢ cancelled
    → (calls : List (Time × ProjectState)) × ((travel calls project).state ≡ completed)
completed-reachable now project h = (
  map (λ target. (now, target)) (route project.state),
  route_completes now project.updated_at project.state h,
)
