-- ===== src/State.antt =====
-- src/state/blackboard.ts and src/state/namespaces.ts: the store that parts of the program share, with
-- its two indexes by session. A value is of any type.
pub mod Index
pub mod Agreement
pub mod Guards
pub mod Snapshot
use maids_claw.Common.{
  sort_by, select, String, Bool, true, false, not, ◌&&◌, Option, none, some, List, [], ◌∷◌, str_eq,
  starts_with, if◌then◌else◌, is_some, or_else, find_first, Result, ok, throw, ◌>>=◌,
}
use maids_claw.Common.Maps.{get, set, unset, has, add, remove}

pub data MergeRule : Type 0 where
  last_write_wins replace_by_delegation_id per_key_owner : MergeRule

pub record NamespaceDefinition : Type 0 where
  pub prefix : String
  pub owner : String
  pub merge_rule : MergeRule
  pub reserved : Bool
  pub single_writer : Option String

unfoldable pub v1_namespaces : List NamespaceDefinition
v1_namespaces =
    record {
      prefix = "session.";
      owner = "T27a";
      merge_rule = last_write_wins;
      reserved = false;
      single_writer = some "system";
    }
    ∷ record {
      prefix = "delegation.";
      owner = "T20a";
      merge_rule = replace_by_delegation_id;
      reserved = false;
      single_writer = some "maiden";
    }
    ∷ record {
      prefix = "task.";
      owner = "T28a";
      merge_rule = per_key_owner;
      reserved = false;
      single_writer = none;
    }
    ∷ record {
      prefix = "agent_runtime.";
      owner = "T10";
      merge_rule = last_write_wins;
      reserved = false;
      single_writer = none;
    }
    ∷ record {
      prefix = "transport.";
      owner = "T26";
      merge_rule = last_write_wins;
      reserved = false;
      single_writer = some "gateway";
    }
    ∷ record {
      prefix = "autonomy.";
      owner = "T28b";
      merge_rule = last_write_wins;
      reserved = true;
      single_writer = none;
    }
    ∷ []

unfoldable pub resolve_namespace : String → Option NamespaceDefinition
unfolding v1_namespaces
resolve_namespace key = find_first (λ ns. starts_with key ns.prefix) v1_namespaces

pub record Blackboard (V : Type 0) : Type 0 where
  pub store : List (String × V)
  pub session_key_index : List (String × List String)
  pub key_session_index : List (String × String)

pub data BoardFault : Type 0 where
  invalid_namespace namespace_reserved ownership_violation : BoardFault

unfoldable pub validate_key : String → Result BoardFault NamespaceDefinition
unfolding resolve_namespace
validate_key key = elim (resolve_namespace key) [
  | none ↦ throw invalid_namespace
  | some ns ↦ if ns.reserved then throw namespace_reserved else ok ns
]

-- `caller !== ns.singleWriter`
unfoldable pub is_writer : Option String → String → Bool
is_writer none w = false
is_writer (some c) w = str_eq c w

unfoldable pub validate_ownership :
    NamespaceDefinition → Option String → Result BoardFault (Unit {0})
unfolding is_writer
validate_ownership ns caller = elim ns.single_writer [
  | none ↦ ok tt
  | some w ↦ if is_writer caller w then ok tt else throw ownership_violation
]

-- a key taken out of the set of a session, which goes when it is empty
unfoldable pub drop_key :
    String → String → List (String × List String) → List (String × List String)
drop_key session key index = elim (get session index) [
  | none ↦ index
  | some keys ↦ elim (remove key keys) [
    | [] ↦ unset session index
    | k ∷ ks ↦ set session (k ∷ ks) index
  ]
]

unfoldable pub leave_other :
    Option String → String → String → List (String × List String) → List (String × List String)
unfolding drop_key
leave_other none session key index = index
leave_other (some old) session key index =
    if str_eq old session then index else drop_key old key index

module _ {V : Type 0} where
  unfoldable pub assign_key_to_session : String → String → Blackboard V → Blackboard V
  unfolding leave_other
  assign_key_to_session key session b =
      let index = leave_other (get key b.key_session_index) session key b.session_key_index in
      record b {
        session_key_index = set session (add key (or_else (get session index) [])) index;
        key_session_index = set key session b.key_session_index;
      }

  unfoldable pub remove_key_from_session_index : String → Blackboard V → Blackboard V
  unfolding drop_key
  remove_key_from_session_index key b = elim (get key b.key_session_index) [
    | none ↦ b
    | some session ↦ record b {
      session_key_index = drop_key session key b.session_key_index;
      key_session_index = unset key b.key_session_index;
    }
  ]

  unfoldable pub store_value : String → V → Option String → Blackboard V → Blackboard V
  unfolding assign_key_to_session
  store_value key value none b = record b { store = set key value b.store }
  store_value key value (some session) b =
      assign_key_to_session key session (record b { store = set key value b.store })

  unfoldable pub set_key :
      String
      → V
      → (caller session : Option String) → Blackboard V
      → Result BoardFault (Blackboard V)
  unfolding validate_key validate_ownership store_value
  set_key key value caller session b = do
    ns ← validate_key key
    _ ← validate_ownership ns caller
    ok (store_value key value session b)

  unfoldable pub delete_value : String → Blackboard V → Bool × Blackboard V
  unfolding remove_key_from_session_index
  delete_value key b = elim (get key b.store) [
    | none ↦ (false, b)
    | some v ↦ (true, remove_key_from_session_index key (record b { store = unset key b.store }))
  ]

  unfoldable pub delete_key :
      String → (caller : Option String) → Blackboard V → Result BoardFault (Bool × Blackboard V)
  unfolding validate_key validate_ownership delete_value
  delete_key key caller b = do
    ns ← validate_key key
    _ ← validate_ownership ns caller
    ok (delete_value key b)

abbrev pub reserved_namespace : Option NamespaceDefinition → Bool
reserved_namespace none = false
reserved_namespace (some ns) = ns.reserved

unfoldable pub is_reserved_key : String → Bool
unfolding resolve_namespace
is_reserved_key key = reserved_namespace (resolve_namespace key)

module _ {V : Type 0} where
  unfoldable pub clear : Blackboard V → Blackboard V
  clear b = record { store = []; session_key_index = []; key_session_index = [] }

  -- the entries of a session's keys that are not reserved and stored
  abbrev pub entry_of : String → Option V → List (String × V) → List (String × V)
  entry_of key none rest = rest
  entry_of key (some value) rest = (key, value) ∷ rest

  unfoldable pub session_entries : Blackboard V → List String → List (String × V)
  unfolding is_reserved_key
  session_entries b [] = []
  session_entries b (key ∷ keys) =
      let rest = session_entries b keys in
      if is_reserved_key key then rest else entry_of key (get key b.store) rest

  -- the comparison of `sort`; `collates a b` where `a.localeCompare(b)` is negative
  abbrev pub key_first : (String → String → Bool) → String × V → String × V → Bool
  key_first collates x y = not (collates y.0 x.0)

  abbrev pub entries_of : Blackboard V → Option (List String) → List (String × V)
  entries_of b none = []
  entries_of b (some keys) = session_entries b keys

  unfoldable pub to_snapshot :
      (String → String → Bool) → Option String → Blackboard V → List (String × V)
  unfolding session_entries is_reserved_key
  to_snapshot collates (some session_id) b =
      sort_by (key_first collates) (entries_of b (get session_id b.session_key_index))
  to_snapshot collates none b =
      sort_by (key_first collates) (select (λ e. not (is_reserved_key e.0)) b.store)

  unfoldable pub get_namespace : String → Blackboard V → List (String × V)
  get_namespace prefix b = select (λ e. starts_with e.0 prefix) b.store
