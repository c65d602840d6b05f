-- ===== src/Permissions.antt =====
-- src/research_engine/security/permissions.py: permissions, the tools that need them, and the
-- sandbox of paths. A resolved path is the list of its parts; `Path.resolve` is a parameter.
pub mod Grants
pub mod Sandbox
use ai_researcher_agent_loca.Prelude.{
  ℕ, String, Bool, true, false, not, ◌||◌, ◌&&◌, List, [], ◌∷◌, ◌++◌, Option, none, some, any_of,
  str_eq, ◌==◌, if◌then◌else◌,
}

pub data Permission : Type 0 where
  read research write execute_experiment admin : Permission

abbrev rank : Permission → ℕ
rank read = 0
rank research = 1
rank write = 2
rank execute_experiment = 3
rank admin = 4

-- Membership in a set of permissions.
abbrev pub contains : Permission → List Permission → Bool
contains p = any_of (λ q. rank p == rank q)

-- `IMPLIED`
unfoldable pub implied : Permission → List Permission
implied read = read ∷ []
implied write = read ∷ write ∷ []
implied research = read ∷ research ∷ []
implied execute_experiment = read ∷ write ∷ execute_experiment ∷ []
implied admin = read ∷ research ∷ write ∷ execute_experiment ∷ admin ∷ []

pub record PermissionEngine : Type 0 where
  pub granted : List Permission

-- `granted or {READ}`
unfoldable pub new_engine : List Permission → PermissionEngine
new_engine [] = record { granted = read ∷ [] }
new_engine (p ∷ perms) = record { granted = p ∷ perms }

unfoldable pub grant : List Permission → PermissionEngine → PermissionEngine
grant perms engine = record { granted = perms ++ engine.granted }

unfoldable pub has : Permission → PermissionEngine → Bool
unfolding implied
has required engine =
    if contains admin engine.granted
    then true
    else any_of (λ g. contains required (implied g)) engine.granted

pub record PermissionDeniedError : Type 0 where
  pub required : Permission
  pub action : String

-- `require`: the error that it raises, if it does.
unfoldable pub require :
    Permission → (action : String) → PermissionEngine → Option PermissionDeniedError
unfolding has
require required action engine =
    if has required engine then none else some (record { required = required; action = action })

pub record ToolSpec : Type 0 where
  pub name : String
  pub risk : String
  pub permission : Permission
  pub side_effects : List String
  pub resource_scope : String

abbrev tool : String → String → Permission → List String → String → ToolSpec
tool name risk permission side_effects resource_scope = record {
  name = name;
  risk = risk;
  permission = permission;
  side_effects = side_effects;
  resource_scope = resource_scope;
}

-- `TOOL_REGISTRY`
unfoldable pub tool_registry : List ToolSpec
tool_registry =
    tool "get_research_status" "low" read [] "read"
    ∷ tool "search_research_memory" "low" read [] "read"
    ∷ tool "ask_research_memory" "low" read [] "read+llm"
    ∷ tool "start_research" "medium" research ("spawns_jobs" ∷ "network_fetch" ∷ "llm_calls" ∷ [])
        "project_write"
    ∷ tool "pause_research" "low" research ("mutates_job_state" ∷ []) "job_control"
    ∷ tool "cancel_research" "medium" research ("mutates_job_state" ∷ []) "job_control"
    ∷ tool "add_experiment_result" "high" write ("updates_hypotheses" ∷ "creates_evidence" ∷ [])
        "project_write"
    ∷ tool "execute_experiment" "high" execute_experiment ("runs_subprocess" ∷ "cpu_usage" ∷ [])
        "sandboxed_subprocess"
    ∷ tool "delete_project" "high" admin ("destroys_data" ∷ []) "filesystem"
    ∷ []

abbrev pub Parts : Type 0
Parts = List String

-- `_is_relative_to`
unfoldable pub is_relative_to : (child parent : Parts) → Bool
is_relative_to child [] = true
is_relative_to [] (root ∷ parent) = false
is_relative_to (part ∷ child) (root ∷ parent) = str_eq part root && is_relative_to child parent

unfoldable pub is_forbidden : String → Bool
is_forbidden part = any_of (str_eq part) (".ssh" ∷ ".gnupg" ∷ ".aws" ∷ ".kube" ∷ [])

-- What a validation does: it returns the resolved path or raises a PermissionError.
pub data Checked : Type 0 where
  inside : Parts → Checked
  outside_sandbox forbidden_component : Checked

module _ (resolve : String → Parts) (roots : List Parts) where
  unfoldable pub validate_read : String → Checked
  unfolding is_forbidden
  validate_read path =
      let p = resolve path in
      if not (any_of (is_relative_to p) roots)
      then outside_sandbox
      else if any_of is_forbidden p
      then forbidden_component
      else inside p

  unfoldable pub validate_write : String → Checked
  validate_write path = elim (validate_read path) [
    | inside p ↦ if not (any_of (is_relative_to p) roots) then outside_sandbox else inside p
    | outside_sandbox ↦ outside_sandbox
    | forbidden_component ↦ forbidden_component
  ]

-- `for_data_dir`: the roots of the sandbox that it builds.
unfoldable pub data_dir_roots :
    (resolve : String → Parts) (data_dir : String) → List String → List Parts
data_dir_roots resolve data_dir extra_roots = resolve data_dir ∷ resolve_all extra_roots
  where
    resolve_all : List String → List Parts
    resolve_all [] = []
    resolve_all (root ∷ rest) = resolve root ∷ resolve_all rest
