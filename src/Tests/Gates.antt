-- ===== src/Tests/Gates.antt =====
-- Tools and their gate.
use maids_claw.Common.{◌≡◌, true, false, none, some, List, [], ◌∷◌, select}
use maids_claw.Tools.{
  ToolPermission, ToolSchema, ToolExecutionContract, AgentPermissions, rp_agent, card_once,
  get_filtered_schemas, can_execute_tool, get_default_permissions,
}
use maids_claw.Tools.Exposure.{get_filtered_schemas-can_execute_tool}

abbrev permissions : List ToolPermission
permissions =
    record { tool_name = "settle"; allowed = true }
    ∷ record { tool_name = "shell"; allowed = false }
    ∷ []

abbrev settling : ToolExecutionContract
settling = record { cardinality = card_once; capability_requirements = "rp_settlement" ∷ [] }

abbrev settle : ToolSchema
settle = record { name = "settle"; execution_contract = some settling }

abbrev schemas : List ToolSchema
schemas = record { name = "shell"; execution_contract = none } ∷ settle ∷ []

get_filtered_schemas-can_execute_tool_example :
    get_filtered_schemas permissions schemas
    ≡ select (λ schema. can_execute_tool permissions schema.name none) schemas
get_filtered_schemas-can_execute_tool_example =
    get_filtered_schemas-can_execute_tool permissions schemas

abbrev granted : AgentPermissions
unfolding get_default_permissions
granted = get_default_permissions "rin" rp_agent
