-- ===== src/Workflow/TeamDomain.antt =====
-- src/workflows/teammode-domain.ts: the definition of a team, its state, and what they demand beyond
-- the shape. The functions on texts that the source calls are those of a TextHost.
use omp_lazy.Prelude.{
  ℕ, String, Bool, true, ◌&&◌, ◌||◌, not, List, [], ◌∷◌, ◌++◌, Option, none, some, map, length, all,
  any, find_last, if◌then◌else◌, ltb, leb, ◌==◌, string_eq, nat_eq, option_eq, is_some,
}
use omp_lazy.State.Codec.{no_duplicates}

pub record MemberDefinition : Type 0 where
  pub requested_name : String
  pub agent_type : String
  pub focus : String
  pub ownership : List String
  pub deliverable : String
  pub isolated : Bool

pub record TeamDefinition : Type 0 where
  pub team_name : String
  pub members : List MemberDefinition

-- `normalizedOwnership` without its last test, `left.startsWith(right + "/")`, the sort of paths,
-- whether `localeCompare` is at most 0, and `JSON.stringify` of a canonical definition
pub record TextHost : Type 0 where
  pub normalize : String → String
  pub is_below : String → String → Bool
  pub sort : List String → List String
  pub locale_leb : String → String → Bool
  pub stringify : TeamDefinition → String

-- What the binding and the completion of a team add to a member
pub record RuntimeMember : Type 0 where
  pub definition : MemberDefinition
  pub actual_agent_id : Option String
  pub actual_job_id : Option String
  pub worktree_path : Option String
  pub acceptance_key : Option String

pub data TeamStatus : Type 0 where
  initializing active completed cancelled archived : TeamStatus

pub record TeamState : Type 0 where
  pub team_name : String
  pub run_id : String
  pub attempt : ℕ
  pub revision : ℕ
  pub status : TeamStatus
  pub members : List RuntimeMember

pub record TeamWorktreeBinding : Type 0 where
  pub requested_name : String
  pub path : String

-- The path that a member claims
pub record Claim : Type 0 where
  pub member : String
  pub path : String

-- The actual identifiers that there are
abbrev pub somes : List (Option String) → List String
somes [] = []
somes (none ∷ xs) = somes xs
somes (some x ∷ xs) = x ∷ somes xs

abbrev pub agent_id : RuntimeMember → Option String
agent_id m = m.actual_agent_id

abbrev pub is_bound : RuntimeMember → Bool
is_bound m = is_some m.actual_agent_id

abbrev pub is_identified : RuntimeMember → Bool
is_identified m = is_some m.actual_agent_id && is_some m.actual_job_id

abbrev pub is_accepted : RuntimeMember → Bool
is_accepted m = is_some m.acceptance_key

abbrev pub is_unbound : RuntimeMember → Bool
is_unbound m =
    not (is_some m.actual_agent_id)
    && not (is_some m.actual_job_id)
    && not (is_some m.acceptance_key)

-- What a status demands of the members
abbrev pub status_schema : TeamStatus → List RuntimeMember → Bool
status_schema TeamStatus.initializing members = all is_unbound members
status_schema TeamStatus.active members = all is_identified members
status_schema TeamStatus.completed members = all is_identified members && all is_accepted members
status_schema TeamStatus.cancelled members = true
status_schema TeamStatus.archived members =
    not (any is_bound members) || all is_identified members && all is_accepted members

abbrev pub size_schema : List RuntimeMember → Bool
size_schema members = leb 2 (length members) && leb (length members) 8

abbrev pub some_ownership : MemberDefinition → Bool
some_ownership m = leb 1 (length m.ownership) && leb (length m.ownership) 32

-- The same of the definition that a member of the state extends
abbrev pub owns_some : RuntimeMember → Bool
owns_some m = some_ownership m.definition

unfoldable pub team_state_schema : TeamState → Bool
team_state_schema team =
    ltb 0 team.revision
    && size_schema team.members
    && all owns_some team.members
    && status_schema team.status team.members
    && no_duplicates (somes (map agent_id team.members))

module _ (host : TextHost) where
  abbrev pub normalized_ownership : String → String
  normalized_ownership path =
      let normal = host.normalize path in if normal == "" then "." else normal

  unfoldable pub paths_overlap : String → String → Bool
  paths_overlap left right =
      left == "."
      || right == "."
      || left == right
      || host.is_below left right
      || host.is_below right left

  abbrev pub claims_of : List MemberDefinition → List Claim
  claims_of [] = []
  claims_of (m ∷ ms) =
      map (λ path. record { member = m.requested_name; path = normalized_ownership path })
        m.ownership
      ++ claims_of ms

  abbrev pub claims_clash : Claim → Claim → Bool
  claims_clash a b = not (a.member == b.member) && paths_overlap a.path b.path

  -- The two loops over the pairs of claims
  abbrev pub ownership_disjoint : List Claim → Bool
  ownership_disjoint [] = true
  ownership_disjoint (c ∷ cs) = not (any (claims_clash c) cs) && ownership_disjoint cs

  abbrev pub name_of : MemberDefinition → String
  name_of m = m.requested_name

  unfoldable pub team_definition_schema : TeamDefinition → Bool
  team_definition_schema team =
      leb 2 (length team.members)
      && leb (length team.members) 8
      && all some_ownership team.members
      && no_duplicates (map name_of team.members)
      && ownership_disjoint (claims_of team.members)

  abbrev pub canonical_member : MemberDefinition → MemberDefinition
  canonical_member m = record m { ownership = host.sort (map normalized_ownership m.ownership) }

  abbrev pub insert_member : MemberDefinition → List MemberDefinition → List MemberDefinition
  insert_member m [] = m ∷ []
  insert_member m (x ∷ xs) =
      let rest = insert_member m xs in
      if host.locale_leb m.requested_name x.requested_name then m ∷ x ∷ xs else x ∷ rest

  abbrev pub sort_members : List MemberDefinition → List MemberDefinition
  sort_members [] = []
  sort_members (m ∷ ms) = insert_member m (sort_members ms)

  unfoldable pub team_definition_key : String → List MemberDefinition → String
  team_definition_key team_name members =
      host.stringify
        (record { team_name = team_name; members = sort_members (map canonical_member members) })

  abbrev pub definition_of : RuntimeMember → MemberDefinition
  definition_of m = m.definition

  unfoldable pub matches_team_definition : TeamState → TeamDefinition → Bool
  matches_team_definition state definition =
      team_definition_key state.team_name (map definition_of state.members)
      == team_definition_key definition.team_name definition.members

-- `new Map(bindings)`: the last binding of a name
abbrev pub path_of : Option TeamWorktreeBinding → Option String
path_of none = none
path_of (some b) = some b.path

abbrev pub get_binding : List TeamWorktreeBinding → String → Option String
get_binding bindings name = path_of (find_last (λ b. b.requested_name == name) bindings)

abbrev pub binding_name : TeamWorktreeBinding → String
binding_name b = b.requested_name

abbrev pub has_worktree : RuntimeMember → Bool
has_worktree m = is_some m.worktree_path

abbrev pub expected_bindings : List RuntimeMember → List RuntimeMember
expected_bindings [] = []
expected_bindings (m ∷ ms) =
    let rest = expected_bindings ms in if has_worktree m then m ∷ rest else rest

-- A map has one entry for each name, so its size is that of the list when no name is repeated.
unfoldable pub matches_team_worktree_bindings : TeamState → List TeamWorktreeBinding → Bool
matches_team_worktree_bindings state bindings =
    let expected = expected_bindings state.members in
    no_duplicates (map binding_name bindings)
    && length bindings == length expected
    && all (λ m. get_binding bindings m.definition.requested_name == m.worktree_path) expected
