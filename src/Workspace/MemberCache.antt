-- ===== src/Workspace/MemberCache.antt =====
-- The cached members of services/workspace-service/internal/workspace/cache.go: a hash of JSON
-- texts by the users' ids. JSON is a parameter.
pub mod Texts
pub mod Members
use distributed_workflow_sys.Prelude.{
  String, Option, none, some, List, [], ◌∷◌, ◌++◌, ◌==◌, eqb, if◌then◌else◌,
}
use distributed_workflow_sys.Prelude.Act.{Act, Result, ok, fail, ◌>>=◌, pure, returned}
use distributed_workflow_sys.Domain.Workspace.{WorkspaceMemberResponse}
use distributed_workflow_sys.Redis.{Redis, Command, hset, hdel, del, expire}
use distributed_workflow_sys.Task.Cache.{placeholder}
use distributed_workflow_sys.Workspace.Cache.{Json, workspace_members_key}

module _ (json : Json) where
  -- The first text that does not decode ends the reading.
  unfoldable pub decode_members : List String → Result (List WorkspaceMemberResponse)
  decode_members [] = ok []
  decode_members (val ∷ vals) =
      let rest = decode_members vals in
      if val == placeholder then rest else elim (json.unmarshal val) [
        | ok m ↦ elim rest [ ok ms ↦ ok (m ∷ ms) | fail e ↦ fail e ]
        | fail e ↦ fail e
      ]

  -- The commands of the loop; the first member that does not encode ends it.
  unfoldable pub member_fields : String → List WorkspaceMemberResponse → Result (List Command)
  member_fields key [] = ok []
  member_fields key (m ∷ members) = elim (json.marshal m) [
    | ok text ↦ elim (member_fields key members) [
      | ok cs ↦ ok (hset key ((m.user_id, text) ∷ []) ∷ cs)
      | fail e ↦ fail e
    ]
    | fail e ↦ fail e
  ]

  unfoldable pub member_commands : String → List WorkspaceMemberResponse → Result (List Command)
  unfolding member_fields
  member_commands key [] = ok (hset key ((placeholder, placeholder) ∷ []) ∷ [])
  member_commands key (m ∷ members) = member_fields key (m ∷ members)

  module _ {W : Type 0} (rdb : Redis W) where
    unfoldable pub get_members : String → Act W (Option (List WorkspaceMemberResponse))
    unfolding decode_members workspace_members_key
    get_members workspace_id = rdb.exists (workspace_members_key workspace_id) >>= λ exists.
        if eqb exists 0
        then pure none
        else (rdb.hvals (workspace_members_key workspace_id) >>= λ vals.
            returned (decode_members vals) >>= λ members. pure (some members))

    unfoldable pub set_members : String → List WorkspaceMemberResponse → Act W (Unit {0})
    unfolding member_commands workspace_members_key
    set_members workspace_id members = do
      cs ← returned (member_commands (workspace_members_key workspace_id) members)
      rdb.exec (
          del (workspace_members_key workspace_id) ∷ cs
          ++ expire (workspace_members_key workspace_id) ∷ [])

    unfoldable pub put_member : String → WorkspaceMemberResponse → Act W (Unit {0})
    put_member key member = do
      text ← returned (json.marshal member)
      rdb.exec (hdel key placeholder ∷ hset key ((member.user_id, text) ∷ []) ∷ [])

    unfoldable pub add_member : String → WorkspaceMemberResponse → Act W (Unit {0})
    unfolding put_member workspace_members_key
    add_member workspace_id member = rdb.exists (workspace_members_key workspace_id) >>= λ exists.
        if eqb exists 0 then pure tt else put_member (workspace_members_key workspace_id) member

    unfoldable invalidate_members : String → Act W (Unit {0})
    unfolding workspace_members_key
    invalidate_members workspace_id = rdb.exec (del (workspace_members_key workspace_id) ∷ [])
