-- ===== src/Tools/Exposure.antt =====
-- The tools that the model sees are those that it may call.
use maids_claw.Common.{
  ◌≡◌, refl, sym, ap, ◌∙◌, Bool, true, false, ◌&&◌, ◌||◌, List, [], ◌∷◌, none, String, str_eq,
  if◌then◌else◌, select, any_of, inl, inr, Bool-cases, arith,
}
use maids_claw.Common.Maps.{has, add, has-add}
use maids_claw.Tools.{
  ToolPermission, ToolSchema, AgentPermissions, ToolExecutionContract, get_filtered_schemas,
  can_execute_tool, allowed_from, lacks, is_single_use,
}

has-allowed_from :
    (name : String) (ps : List ToolPermission) (tools : List String)
    → has name (allowed_from ps tools)
      ≡ (any_of (λ q. str_eq q.tool_name name && q.allowed) ps || has name tools)
has-allowed_from name [] tools = refl
has-allowed_from name (p ∷ ps) tools = elim (Bool-cases p.allowed) [
  | inl yes_allowed ↦ rw yes_allowed (
      has-allowed_from name ps (add p.tool_name tools)
      ∙ rw (has-add p.tool_name name tools) (ground arith))
  | inr barred ↦ rw barred (has-allowed_from name ps tools ∙ ground arith)
]

select-same :
    {A : Type 0} (p q : A → Bool) (xs : List A) → ((x : A) → p x ≡ q x) → select p xs ≡ select q xs
select-same p q [] h = refl
select-same p q (x ∷ xs) h = rw (h x) (ap (λ ys. if q x then x ∷ ys else ys) (select-same p q xs h))

select-all : {A : Type 0} (xs : List A) → select (λ x. true) xs ≡ xs
select-all [] = refl
select-all (x ∷ xs) = ap (◌∷◌ x) (select-all xs)

-- The schemas that the model sees are, in their order, those of the tools that the execution gate lets
-- through by its allowlist.
pub get_filtered_schemas-can_execute_tool :
    (permissions : List ToolPermission) (schemas : List ToolSchema)
    → get_filtered_schemas permissions schemas
      ≡ select (λ schema. can_execute_tool permissions schema.name none) schemas
unfolding get_filtered_schemas can_execute_tool
get_filtered_schemas-can_execute_tool [] schemas = sym (select-all schemas)
get_filtered_schemas-can_execute_tool (p ∷ ps) schemas =
    select-same _ _ schemas λ schema. has-allowed_from schema.name (p ∷ ps) [] ∙ ground arith

-- what lets a call of a tool with a contract through
pub record IsCleared (permissions : List ToolPermission) (granted : AgentPermissions)
    (used : List String) (schema : ToolSchema) (contract : ToolExecutionContract) : Type 0 where
  pub exposed : can_execute_tool permissions schema.name none ≡ true
  pub capable : lacks granted contract.capability_requirements ≡ false
  pub unused : (is_single_use contract.cardinality && has schema.name used) ≡ false
