-- ===== src/Tests/Invitations.antt =====
-- The theorems on workspaces, at one invitation and at a small Redis.
use distributed_workflow_sys.Prelude.{
  ◌≡◌, ◌≢◌, refl, sym, ap, subst, String, Option, none, some, true, false, ◌&&◌, ◌⊎◌, inl, inr,
  Bool-cases, List, [], ◌∷◌, ◌++◌, any, ◌==◌, ne-beq, eq_refl, if◌then◌else◌,
}
use distributed_workflow_sys.Prelude.Act.{Act, ok, fail}
use distributed_workflow_sys.Prelude.Keeps.{Refused}
use distributed_workflow_sys.Domain.Workspace.{WorkspaceInvitation, WorkspaceRepository}
use distributed_workflow_sys.Workspace.Service.{Service}
use distributed_workflow_sys.Workspace.Invite.{accept_invitation}
use distributed_workflow_sys.Workspace.Temporal.{EmailClient}
use distributed_workflow_sys.Workspace.Invitation.{
  Reads, Eligible, Request, accept, check, expire, accept_invitation-guarded,
}
use distributed_workflow_sys.Workspace.RoleCache.{
  Redis, Hashes, field_role, workspace_roles_key, get_member_role, set_member_role,
  set_member_role-get, set_member_role-masks,
}
use distributed_workflow_sys.Task.Service.{
  Service as Tasks, not_a_member, check_member, check_access,
}
use distributed_workflow_sys.Task.Access.{verdict, CachedRole, Coherent, check_access-decides}
use distributed_workflow_sys.Tests.Board.{proper_name}
use distributed_workflow_sys.Tests.Database.{violation}
use distributed_workflow_sys.Tests.TaskService.{done, workspace, ws_cache, service_with}

-- The status of the one invitation, and the ids of the members.
pub record World : Type 0 where
  pub status : String
  pub members : List String

abbrev pub invitation : String → WorkspaceInvitation
invitation status = record {
  id = "i";
  workspace_id = "ws";
  inviter_id = "owner";
  email = "eve@example.org";
  role = "MEMBER";
  token = "token";
  status = status;
  expires_at = 10;
  created_at = 1;
}

abbrev down : {W A : Type 0} → Act W A
down w = (fail violation, w)

-- A workspace service over a repository, for which everybody is Eve.
abbrev pub service_over : {W : Type 0} → WorkspaceRepository W → Service W
service_over repo = record {
  ws_repo = repo;
  user_repo = record {
    upsert_user = λ u. down;
    bulk_upsert_users = λ us. down;
    find_by_id = λ id w. (
      ok (record {
        id = id;
        full_name = "Eve";
        email = "eve@example.org";
        role = "";
        avatar_url = "";
        created_at = 1;
      }),
      w,
    );
    find_by_email = λ email. down;
  };
  execute_workflow = λ id email role token w. (ok tt, w);
  notification_writer = record { write_messages = λ m. down };
  frontend_url = "http://localhost";
  cache = record {
    add_owned_workspace_id = λ a b. down;
    add_joined_workspace_id = λ a b. down;
    set_workspace_meta = λ ws. down;
    get_workspace_meta = λ id. down;
    get_workspace_metas = λ ids. down;
    get_owned_workspace_ids = λ a n c. down;
    get_joined_workspace_ids = λ a n c. down;
    set_owned_workspace_ids = λ a ids. down;
    set_joined_workspace_ids = λ a ids. down;
    invalidate_owned_workspaces = λ a. down;
    invalidate_joined_workspaces = λ a. down;
    get_members = λ a. down;
    set_members = λ a ms. down;
    add_member = λ a m. down;
    invalidate_members = λ a. down;
    get_member_role = λ a b. down;
    set_member_role = λ a b role. down;
    invalidate_member_role = λ a b. down;
  };
  runtime = record {
    new_v7 = λ w. (ok "m", w);
    new_v4 = λ w. (ok "fresh", w);
    now = λ w. (7, w);
    marshal_task = λ t. ok t.title;
    marshal_status_update = λ u. ok u.status;
    marshal_notification = λ p. ok p.title;
  };
  sort_by_joined = λ ms. ms;
}

abbrev service : Service World
service = service_over (record {
  create = λ id ws. down;
  find_by_slug = λ a slug. down;
  get_by_owner_id = λ a id n c. down;
  get_by_member_id = λ a id n c. down;
  create_invite = λ id i. down;
  find_invite_by_token = λ a token w. (ok (invitation w.status), w);
  update_invite_status = λ a b status w. (ok tt, record w { status = status });
  add_member = λ id m w. (ok tt, record w { members = w.members ++ m.user_id ∷ [] });
  is_member = λ a user w. (ok (any (λ m. m == user) w.members), w);
  find_by_id = λ a b. down;
  get_members = λ id. down;
  get_member_role = λ a b. down;
})

abbrev NoMember : World → Type 0
NoMember w = w.members ≡ []

reads : Reads service NoMember
reads = record {
  find_invite = λ a token w h. h;
  set_expired = λ a b w h. h;
  set_accepted = λ a b w h. h;
  is_member = λ a b w h. h;
  find_user = λ id w h. h;
  now = λ w h. h;
}

accept_invitation-guarded_example :
    Refused NoMember
      (accept_invitation service "token" "eve" (record { status = "PENDING"; members = [] }))
    ⊎ Eligible service NoMember reads "token" "eve" (record { status = "PENDING"; members = [] })
accept_invitation-guarded_example =
    accept_invitation-guarded service NoMember reads "token" "eve"
      (record { status = "PENDING"; members = [] }) refl

abbrev pub mail : {W : Type 0} → EmailClient W
mail = record { send_invite = λ to token. down; send_reminder = λ to. down }

abbrev Accepted : String → Type 0
Accepted s = if s == "PENDING" then ⊥ else Unit {0}

pub accepted : ◌≢◌ {A = String} "ACCEPTED" "PENDING"
accepted e = subst Accepted e tt

abbrev pub requests : List Request
requests = accept "bob" ∷ check ∷ expire ∷ accept "eve" ∷ []

-- A field of a hash with its value.
pub record Field : Type 0 where
  pub key : String
  pub field : String
  pub value : String

abbrev hash : List Field → String → String → Option String
hash [] key field = none
hash (e ∷ w) key field =
    if (e.key == key) && (e.field == field) then some e.value else hash w key field

abbrev redis : Redis (List Field)
redis = record {
  exists = λ key w. (ok (if any (λ e. e.key == key) w then 1 else 0), w);
  hget = λ key field w. (ok (hash w key field), w);
  hset_expire =
      λ key field value w. (ok tt, record { key = key; field = field; value = value } ∷ w);
  hdel = λ key field w. (fail violation, w);
}

exists-key :
    (w : List Field) (key field value : String)
    → hash w key field ≡ some value
    → any (λ e. e.key == key) w ≡ true
exists-key [] key field value h = absurd (subst (λ o. elim o [ none ↦ Unit {0} | some v ↦ ⊥ ]) h tt)
exists-key (e ∷ w) key field value h = elim (Bool-cases (e.key == key)) [
  | inl here ↦ rw here refl
  | inr further ↦ rw further (exists-key w key field value (rw further at h))
]

laws : Hashes redis hash
laws = record {
  hget = λ w key field. refl;
  exists = λ w key field value h. rw (exists-key w key field value h) refl;
  set = λ w w' key field value h.
      subst (λ o. hash o key field ≡ some value) (ap (λ r. r.1) h)
        (rw (eq_refl key, eq_refl field) refl);
  set_other = λ w w' key field value other h apart.
      subst (λ o. hash o key other ≡ hash w key other) (ap (λ r. r.1) h)
        (rw (eq_refl key, ne-beq field other (λ e. apart (sym e))) refl);
}

abbrev after_set : List Field
after_set = (set_member_role redis "ws" "anna" "ADMIN" []).1

set_anna : set_member_role redis "ws" "anna" "ADMIN" [] ≡ (ok tt, after_set)
unfolding set_member_role
set_anna = refl

bob_apart : ◌≢◌ {A = String} "bob" "anna"
bob_apart e = subst (λ s. if s == "anna" then ⊥ else Unit {0}) e tt

set_member_role-get_example :
    ((get_member_role redis "ws" "anna" after_set).0 ≡ ok (some "ADMIN"))
    × ((other : String)
        → other ≢ "anna"
        → (get_member_role redis "ws" other after_set).0
          ≡ ok (some (field_role (hash [] (workspace_roles_key "ws") other))))
set_member_role-get_example =
    set_member_role-get redis hash laws "ws" "anna" "ADMIN" [] after_set (set_anna)

set_member_role-masks_example :
    (check_member
      (service_with
        (record ws_cache { get_member_role = get_member_role redis })
        (λ m w. (ok tt, w)))
      "ws"
      "bob"
      []
      after_set).0
    ≡ fail not_a_member
set_member_role-masks_example =
    set_member_role-masks redis hash laws
      (service_with (record ws_cache { get_member_role = get_member_role redis })
        (λ m w. (ok tt, w)))
      "ws" "anna" "ADMIN" "bob" [] [] after_set (λ a b v. refl) set_anna bob_apart refl

-- A task service with the roles in this Redis and with cached metadata of the workspace.
abbrev cached_service : Tasks (List Field)
cached_service =
    service_with
      (record ws_cache {
        get_workspace_meta = λ id. done (some workspace);
        set_workspace_meta = λ ws. done tt;
        get_member_role = get_member_role redis;
        set_member_role = set_member_role redis;
      })
      (λ m w. (ok tt, w))

-- No roles are cached, or Bob's is.
abbrev BobCached : List Field → Type 0
BobCached w =
    (any (λ e. e.key == workspace_roles_key "ws") w ≡ false)
    ⊎ (hash w (workspace_roles_key "ws") "bob" ≡ some "MEMBER")

bob_role :
    (w : List Field)
    → BobCached w
    → CachedRole "owner" (some "MEMBER") (get_member_role redis "ws" "bob" w).0
      × BobCached (get_member_role redis "ws" "bob" w).1
unfolding get_member_role
bob_role w (inl missing) = rw missing (tt, inl missing)
bob_role w (inr held) =
    rw (exists-key w (workspace_roles_key "ws") "bob" "MEMBER" held, held) (refl, inr refl)

bob_Coherent : Coherent cached_service BobCached "ws" "bob" "owner" (some "MEMBER")
unfolding set_member_role
bob_Coherent = record {
  cached_workspace = λ w i. (refl, i);
  stored_workspace = λ w i. (refl, i);
  store_workspace = λ ws e w i. i;
  cached_role = bob_role;
  stored_role = λ w i. (refl, i);
  store_role = λ w i. inr refl;
  proper = λ e. proper_name "MEMBER" tt (ap (λ o. field_role o) e);
}

-- The roles of Anna and Bob are cached.
abbrev two_roles : List Field
two_roles = (set_member_role redis "ws" "bob" "MEMBER" after_set).1

check_access-decides_example :
    ((check_access cached_service "ws" "bob" ("ADMIN" ∷ []) two_roles).0
      ≡ verdict "owner" (some "MEMBER") "bob" ("ADMIN" ∷ []))
    × BobCached (check_access cached_service "ws" "bob" ("ADMIN" ∷ []) two_roles).1
unfolding set_member_role
check_access-decides_example =
    check_access-decides cached_service BobCached "ws" "bob" "owner" (some "MEMBER") bob_Coherent
      ("ADMIN" ∷ []) two_roles (inr refl)
