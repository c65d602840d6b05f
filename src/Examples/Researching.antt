-- ===== src/Examples/Researching.antt =====
-- The theorems about the research loop, at small data.
use ai_researcher_agent_loca.Prelude.{
  ℕ, String, Bool, true, false, none, some, [], ◌∷◌, ◌≡◌, refl, arith, inl,
}
use ai_researcher_agent_loca.StateMachine.{ProjectState, planned, searching, fetching, paused}
use ai_researcher_agent_loca.Budget.{
  Budget, exhausted, queries_left, documents_left, sources_left, llm_calls_left,
}
use ai_researcher_agent_loca.Convergence.{
  Stats, Thresholds, ModelAnswer, asks_model, tiebreaker, signals, evaluate, converged, stop,
}
use ai_researcher_agent_loca.Orchestrator.{
  gate_value, Orchestrator, Cursor, LoopSpec, LoopStepSpec, done, persist_checkpoint,
}
use ai_researcher_agent_loca.Orchestrator.Loop.{World, Round, limited}
use ai_researcher_agent_loca.Orchestrator.Control.{run, resume, Stored}
use ai_researcher_agent_loca.Orchestrator.Hoare.{Ends}
use ai_researcher_agent_loca.Orchestrator.Running.{is_active, IsFinished, RunEnds, run-finishes}
use ai_researcher_agent_loca.Orchestrator.Resuming.{resume-finishes}
use ai_researcher_agent_loca.Orchestrator.Interrupted.{is_interrupted, run-interrupted}
use ai_researcher_agent_loca.JobRunners.{paused_at, deep_research}
use ai_researcher_agent_loca.JobRunners.Research.{
  IsAnswered, deep_research-answers, deep_research-paused,
}
use ai_researcher_agent_loca.Orchestrator.Reports.{IsWithheld, run-IsWithheld}
use ai_researcher_agent_loca.Orchestrator.Runner.{LoopRunner, loop_runner_run}
use ai_researcher_agent_loca.Orchestrator.CursorResume.{cursor_gate, resume_cursor}
use ai_researcher_agent_loca.Orchestrator.Cursors.{OnReturn, IsParked, loop_runner_run-IsParked}
use ai_researcher_agent_loca.Orchestrator.CursorMoves.{IsAdvanced, resume_cursor-advances}

abbrev limits_budget : Budget
limits_budget = record {
  cfg = record {
    max_queries_per_iteration = 5;
    max_iterations = 3;
    max_documents = 40;
    max_sources_total = 60;
    max_llm_calls = 100;
    max_wall_clock_minutes = 30;
  };
  usage = record {
    queries_used = 0;
    documents_used = 0;
    sources_discovered = 0;
    llm_calls_used = 0;
    iterations_used = 0;
    bytes_downloaded = 0;
  };
  started = 100;
}

abbrev project_in : ProjectState → Orchestrator
project_in s = record {
  project = record { state = s; updated_at = 100 };
  current_iteration = 0;
  stop_reason = none;
  review_gate_pending = none;
  approved_gates = [];
  loop_cursor = none;
  budget = limits_budget;
  review_gates_enabled = true;
  stop_requested = false;
  pause_requested = false;
}

abbrev good_stats : Stats
good_stats = record {
  total_evidence = 20;
  new_evidence = 9;
  new_claims = 4;
  high_importance_gaps = 0;
  duplicate_rate = 100;
  rejection_rate = 100;
  retrieval_failures = 0;
}

abbrev thresholds : Thresholds
thresholds = record { scale = 1000; duplicate_rate_converged = 600; new_evidence_threshold = 100 }

abbrev a_round : ℕ → Round
a_round n = record {
  now = 200;
  stop_asked = false;
  pause_asked = false;
  search = record {
    queued = 4;
    followups = some 2;
    retrieved = some (3, 6);
    fetched = some 5;
    extracted = true;
    consolidated = true;
  };
  analysis = record {
    analysed = true;
    stats = good_stats;
    answer = some (record { should_continue = true });
    followed_up = true;
  };
}

abbrev step : String → Bool → LoopStepSpec
step name pauses = record { step = name; pause_after = pauses; gate = none }

abbrev a_loop : LoopSpec
a_loop = record {
  setup = step "clarify" false ∷ step "plan" true ∷ [];
  per_iteration = step "search" false ∷ step "evaluate_convergence" false ∷ [];
  synthesis = step "write_reports" false ∷ [];
}

abbrev a_world : World
a_world = record {
  loop = a_loop;
  upper = λ s. s;
  judge = record { thresholds = thresholds; has_provider = true };
  start = 150;
  clarify = record { clarified = true; asks_user = false };
  planned_all = true;
  round = a_round;
  reported = true;
}

run-finishes_example : RunEnds (run a_world (some 2) (project_in planned))
unfolding is_active limited
run-finishes_example = run-finishes a_world (some 2) (project_in planned) refl (omega arith)

abbrev all_stored : Stored
all_stored = record { has_problem = true; has_plan = true; followed_up = true }

abbrev gated : Orchestrator
gated = record (project_in paused) { review_gate_pending = some "AFTER_FIRST_RESEARCH_CYCLE" }

resume-finishes_example : Ends (λ u. IsFinished) (resume a_world all_stored gated)
resume-finishes_example = resume-finishes a_world all_stored gated (inl refl) (omega arith)

run-interrupted_example :
    run a_world none (project_in fetching)
    ≡ done tt (persist_checkpoint 150 (limited none (project_in fetching)))
unfolding is_interrupted
run-interrupted_example =
    run-interrupted a_world none (project_in fetching) refl refl refl refl refl

-- Every step has a handler that goes on.
abbrev a_runner : LoopRunner
a_runner = record {
  loop = a_loop;
  stop_when = record { metric = "gaps_open"; op = "<="; value = 3; after_iteration = 2 } ∷ [];
  handlers = λ name. some (λ spec o. done (some true) o);
  metrics_provider = λ it. some (λ metric. some 5);
  upper = λ s. s;
  max_iterations = 2;
  now = 300;
}

loop_runner_run-IsParked_example :
    OnReturn (λ u. IsParked) (loop_runner_run a_runner (project_in searching))
loop_runner_run-IsParked_example = loop_runner_run-IsParked a_runner (project_in searching)

abbrev parked : Cursor
parked = record {
  phase = "setup";
  step_index = 1;
  iteration = 0;
  pending_pause = true;
  gate = some "AFTER_PLAN";
}

abbrev parked_project : Orchestrator
parked_project = record (project_in paused) {
  loop_cursor = some parked;
  review_gate_pending = some "AFTER_PLAN";
}

resume_cursor-advances_example :
    OnReturn
      (λ u. IsAdvanced parked (cursor_gate parked parked_project))
      (resume_cursor a_runner parked_project)
resume_cursor-advances_example = resume_cursor-advances a_runner parked parked_project refl refl

abbrev enough : ModelAnswer
enough = record { should_continue = false }

model_stops : evaluate thresholds true (some enough) 200 limits_budget good_stats ≡ stop converged
unfolding evaluate exhausted queries_left documents_left sources_left llm_calls_left signals
    tiebreaker asks_model
model_stops = refl

deep_research-answers_example :
    IsAnswered (deep_research a_world (some "PAUSE") (project_in searching))
unfolding is_active
deep_research-answers_example =
    deep_research-answers a_world (some "PAUSE") (project_in searching) refl refl (omega arith)

deep_research-paused_example :
    ((deep_research a_world none gated).answer ≡ paused_at 0)
    × ((deep_research a_world none gated).project.project.state ≡ paused)
deep_research-paused_example = deep_research-paused a_world none gated refl refl

run-IsWithheld_example : IsWithheld [] (run a_world (some 3) (project_in searching))
unfolding gate_value
run-IsWithheld_example =
    run-IsWithheld a_world (some 3) (project_in searching) refl refl (λ e. absurd cc)
