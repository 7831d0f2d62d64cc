-- ===== src/Tools.antt =====
-- Which tools an agent sees and may call: src/core/tools/tool-access-policy.ts, with the permissions of
-- src/memory/contracts/agent-permissions.ts.
use maids_claw.Common.{
  Bool, true, false, not, ◌&&◌, ◌||◌, List, [], ◌∷◌, Option, none, some, String, str_eq,
  if◌then◌else◌, select, any_of,
}
use maids_claw.Common.Maps.{get, has, add}
pub mod Exposure

pub data AgentRole : Type 0 where
  maiden : AgentRole
  rp_agent : AgentRole
  task_agent : AgentRole

pub record AgentPermissions : Type 0 where
  pub agent_id : String
  pub can_access_cognition : Bool
  pub can_write_cognition : Bool
  pub can_read_admin_only : Bool
  pub can_read_private_memory : Bool
  pub can_read_redacted_memory : Bool
  pub can_write_authoritatively : Bool
  pub can_propose_pinned_summary : Bool
  pub can_commit_pinned_summary : Bool
  pub can_read_shared_blocks : Bool
  pub can_mutate_shared_blocks : Bool
  pub can_mutate_admin_rules : Bool
  pub can_settle_rp_turn : Bool

unfoldable pub get_default_permissions : String → AgentRole → AgentPermissions
get_default_permissions agent_id rp_agent = record {
  agent_id = agent_id;
  can_access_cognition = true;
  can_write_cognition = true;
  can_read_admin_only = false;
  can_read_private_memory = true;
  can_read_redacted_memory = false;
  can_write_authoritatively = false;
  can_propose_pinned_summary = true;
  can_commit_pinned_summary = false;
  can_read_shared_blocks = true;
  can_mutate_shared_blocks = false;
  can_mutate_admin_rules = false;
  can_settle_rp_turn = true;
}
get_default_permissions agent_id maiden = record {
  agent_id = agent_id;
  can_access_cognition = false;
  can_write_cognition = false;
  can_read_admin_only = true;
  can_read_private_memory = true;
  can_read_redacted_memory = true;
  can_write_authoritatively = true;
  can_propose_pinned_summary = false;
  can_commit_pinned_summary = true;
  can_read_shared_blocks = true;
  can_mutate_shared_blocks = true;
  can_mutate_admin_rules = true;
  can_settle_rp_turn = false;
}
get_default_permissions agent_id task_agent = record {
  agent_id = agent_id;
  can_access_cognition = false;
  can_write_cognition = false;
  can_read_admin_only = false;
  can_read_private_memory = false;
  can_read_redacted_memory = false;
  can_write_authoritatively = false;
  can_propose_pinned_summary = false;
  can_commit_pinned_summary = false;
  can_read_shared_blocks = false;
  can_mutate_shared_blocks = false;
  can_mutate_admin_rules = false;
  can_settle_rp_turn = false;
}

-- a capability, and the permission that it asks for
abbrev pub capability_map : List (String × (AgentPermissions → Bool))
capability_map =
    ("cognition_read", λ p. p.can_access_cognition)
    ∷ ("cognition_write", λ p. p.can_write_cognition)
    ∷ ("admin_read", λ p. p.can_read_admin_only)
    ∷ ("memory.read.private", λ p. p.can_read_private_memory)
    ∷ ("memory.read.redacted", λ p. p.can_read_redacted_memory)
    ∷ ("memory.write.authoritative", λ p. p.can_write_authoritatively)
    ∷ ("summary.pin.propose", λ p. p.can_propose_pinned_summary)
    ∷ ("summary.pin.commit", λ p. p.can_commit_pinned_summary)
    ∷ ("shared.block.read", λ p. p.can_read_shared_blocks)
    ∷ ("shared.block.mutate", λ p. p.can_mutate_shared_blocks)
    ∷ ("admin.rules.mutate", λ p. p.can_mutate_admin_rules)
    ∷ ("rp_settlement", λ p. p.can_settle_rp_turn)
    ∷ []

pub data Cardinality : Type 0 where
  card_once : Cardinality
  card_multiple : Cardinality
  card_at_most_once : Cardinality

-- the part of a contract that the policy reads
pub record ToolExecutionContract : Type 0 where
  pub cardinality : Cardinality
  pub capability_requirements : List String

pub record ToolSchema : Type 0 where
  pub name : String
  pub execution_contract : Option ToolExecutionContract

pub record ToolPermission : Type 0 where
  pub tool_name : String
  pub allowed : Bool

pub record ToolExecutionContext : Type 0 where
  pub schema : Option ToolSchema
  pub permissions : Option AgentPermissions
  pub turn_tools_used : Option (List String)

-- the `Set` of the tools that are allowed
abbrev pub allowed_from : List ToolPermission → List String → List String
allowed_from [] tools = tools
allowed_from (p ∷ ps) tools = allowed_from ps (if p.allowed then add p.tool_name tools else tools)

-- no permissions at all allow every tool
unfoldable pub get_filtered_schemas : List ToolPermission → List ToolSchema → List ToolSchema
get_filtered_schemas [] all_schemas = all_schemas
get_filtered_schemas (p ∷ ps) all_schemas =
    select (λ schema. has schema.name (allowed_from (p ∷ ps) [])) all_schemas

abbrev pub is_allowed : String → List ToolPermission → Bool
is_allowed tool_name [] = true
is_allowed tool_name (p ∷ ps) = any_of (λ q. str_eq q.tool_name tool_name && q.allowed) (p ∷ ps)

abbrev pub field_holds : AgentPermissions → Option (AgentPermissions → Bool) → Bool
field_holds permissions none = false
field_holds permissions (some field) = field permissions

-- one requirement that is unknown or not met is enough
abbrev pub lacks : AgentPermissions → List String → Bool
lacks permissions requirements =
    any_of (λ r. not (field_holds permissions (get r capability_map))) requirements

abbrev pub lacks_capability : Option AgentPermissions → List String → Bool
lacks_capability none requirements = false
lacks_capability (some permissions) requirements = lacks permissions requirements

abbrev pub is_single_use : Cardinality → Bool
is_single_use card_once = true
is_single_use card_multiple = false
is_single_use card_at_most_once = true

abbrev pub used_up : String → Cardinality → Option (List String) → Bool
used_up tool_name c none = false
used_up tool_name c (some used) = is_single_use c && has tool_name used

abbrev pub contract_of : Option ToolSchema → Option ToolExecutionContract
contract_of none = none
contract_of (some schema) = schema.execution_contract

abbrev pub meets_contract : String → ToolExecutionContext → Option ToolExecutionContract → Bool
meets_contract tool_name context none = true
meets_contract tool_name context (some contract) =
    if lacks_capability context.permissions contract.capability_requirements
    then false
    else not (used_up tool_name contract.cardinality context.turn_tools_used)

abbrev pub meets_context : String → Option ToolExecutionContext → Bool
meets_context tool_name none = true
meets_context tool_name (some context) =
    meets_contract tool_name context (contract_of context.schema)

unfoldable pub can_execute_tool : List ToolPermission → String → Option ToolExecutionContext → Bool
can_execute_tool tool_permissions tool_name context =
    if is_allowed tool_name tool_permissions then meets_context tool_name context else false
