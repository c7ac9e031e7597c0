-- ===== src/Task/Access.antt =====
-- What checkAccess of internal/task/service.go decides, as against the membership table.
use distributed_workflow_sys.Prelude.{
  ◌≡◌, refl, sym, ◌≢◌, ap, subst, String, Option, none, some, inl, inr, List, [], ◌∷◌, any, arith,
  ◌==◌, ne-beq, Bool-cases, if◌then◌else◌,
}
use distributed_workflow_sys.Prelude.Act.{
  app, no_rows, other, Result, ok, fail, after_cases, pure, raise,
}
use distributed_workflow_sys.Prelude.Keeps.{Keeps}
use distributed_workflow_sys.Domain.Workspace.{Workspace}
use distributed_workflow_sys.Task.Service.{
  Service, not_a_member, not_enough, found_workspace, fetch_workspace, workspace_or_fetch,
  role_or_refuse, fetch_role, role_or_fetch, check_role, check_member, check_access,
}

-- The role that a cached entry must show: the empty text stands for a stranger.
abbrev pub role_text : Option String → String
role_text none = ""
role_text (some role) = role

-- The verdict on a user by the owner of the workspace and the user's role in the member table.
unfoldable pub permits : List String → String → Result (Unit {0})
permits [] r = ok tt
permits (a ∷ allowed) r = if any (λ b. b == r) (a ∷ allowed) then ok tt else fail not_enough

-- A role that is found, or the refusal of a stranger.
abbrev known_role : Option String → Result String
known_role none = fail not_a_member
known_role (some r) = ok r

abbrev permits_role : List String → Result String → Result (Unit {0})
permits_role allowed_roles (fail e) = fail e
permits_role allowed_roles (ok r) = permits allowed_roles r

unfoldable pub verdict : String → Option String → String → List String → Result (Unit {0})
unfolding permits
verdict owner role user_id allowed_roles =
    if owner == user_id then ok tt else permits_role allowed_roles (known_role role)

known_role-text :
    {W : Type 0} (I : W → Type 0) (role : Option String) (r : String) (w : W)
    → role ≢ some ""
    → r ≡ role_text role
    → I w
    → let answer = (if r == "" then raise not_a_member else pure r) w in
      (answer.0 ≡ known_role role) × I answer.1
known_role-text I none r w proper h i = rw h (refl, i)
known_role-text I (some q) r w proper h i = rw (h, ne-beq q "" (λ e. proper (ap some e))) (refl, i)

abbrev StoredOwner : String → Result Workspace → Type 0
StoredOwner owner (fail e) = ⊥
StoredOwner owner (ok ws) = ws.owner_id ≡ owner

module _ (owner : String) (role : Option String) where
  abbrev CachedWorkspace : Result (Option Workspace) → Type 0
  CachedWorkspace (fail e) = Unit {0}
  CachedWorkspace (ok none) = Unit {0}
  CachedWorkspace (ok (some ws)) = ws.owner_id ≡ owner

  abbrev StoredWorkspace : Result (Option Workspace) → Type 0
  StoredWorkspace (fail e) = ⊥
  StoredWorkspace (ok none) = ⊥
  StoredWorkspace (ok (some ws)) = ws.owner_id ≡ owner

  abbrev pub CachedRole : Result (Option String) → Type 0
  CachedRole (fail e) = Unit {0}
  CachedRole (ok none) = Unit {0}
  CachedRole (ok (some r)) = r ≡ role_text role

  abbrev StoredRole : Result String → Type 0
  StoredRole (ok r) = role ≡ some r
  StoredRole (fail no_rows) = role ≡ none
  StoredRole (fail (app e)) = ⊥
  StoredRole (fail (other e)) = ⊥

-- In the worlds of `I` both tables answer for this workspace and user, and the cache, where it
-- answers for them, agrees with the tables. This stays so when it is told what the tables hold. No
-- member has the empty role.
pub record Coherent {W : Type 0} (s : Service W) (I : W → Type 0)
    (workspace_id user_id owner : String) (role : Option String) : Type 0 where
  pub cached_workspace :
      (w : W)
      → I w
      → CachedWorkspace owner role (s.ws_cache.get_workspace_meta workspace_id w).0
        × I (s.ws_cache.get_workspace_meta workspace_id w).1
  pub stored_workspace :
      (w : W)
      → I w
      → StoredWorkspace owner role (s.ws_repo.find_by_id workspace_id workspace_id w).0
        × I (s.ws_repo.find_by_id workspace_id workspace_id w).1
  pub store_workspace :
      (ws : Workspace) → ws.owner_id ≡ owner → Keeps I (s.ws_cache.set_workspace_meta ws)
  pub cached_role :
      (w : W)
      → I w
      → CachedRole owner role (s.ws_cache.get_member_role workspace_id user_id w).0
        × I (s.ws_cache.get_member_role workspace_id user_id w).1
  pub stored_role :
      (w : W)
      → I w
      → StoredRole owner role (s.ws_repo.get_member_role workspace_id user_id w).0
        × I (s.ws_repo.get_member_role workspace_id user_id w).1
  pub store_role : Keeps I (s.ws_cache.set_member_role workspace_id user_id (role_text role))
  pub proper : role ≢ some ""

module _ {W : Type 0} (s : Service W) (I : W → Type 0) (workspace_id user_id owner : String)
    (role : Option String) (c : Coherent s I workspace_id user_id owner role) where
  abbrev Gives : Result Workspace × W → Type 0
  Gives r = StoredOwner owner r.0 × I r.1

  found_workspace-Gives :
      (found : Option Workspace) (w : W)
      → StoredWorkspace owner role (ok found)
      → I w
      → Gives (found_workspace s found w)
  unfolding found_workspace
  found_workspace-Gives none w h i = absurd h
  found_workspace-Gives (some ws) w h i = (h, c.store_workspace ws h w i)

  fetch_workspace-Gives : (w : W) → I w → Gives (fetch_workspace s workspace_id w)
  unfolding fetch_workspace
  fetch_workspace-Gives w i =
      let answer = c.stored_workspace w i in
      after_cases Gives (s.ws_repo.find_by_id workspace_id workspace_id w) (found_workspace s)
        (λ e w' r. absurd (subst (λ o. StoredWorkspace owner role o.0) r answer.0))
        (λ found w' r.
          found_workspace-Gives found w' (subst (λ o. StoredWorkspace owner role o.0) r answer.0)
            (subst (λ o. I o.1) r answer.1))

  workspace_or_fetch-Gives :
      (cached : Result (Option Workspace)) (w : W)
      → CachedWorkspace owner role cached
      → I w
      → Gives (workspace_or_fetch s workspace_id cached w)
  unfolding workspace_or_fetch
  workspace_or_fetch-Gives (ok (some ws)) w h i = (h, i)
  workspace_or_fetch-Gives (ok none) w h i = fetch_workspace-Gives w i
  workspace_or_fetch-Gives (fail e) w h i = fetch_workspace-Gives w i

  abbrev Known : Result String × W → Type 0
  Known r = (r.0 ≡ known_role role) × I r.1

  -- The role text that is cached is that of the table.
  stored_text :
      (r : String) (w : W)
      → r ≡ role_text role
      → I w
      → I (s.ws_cache.set_member_role workspace_id user_id r w).1
  stored_text r w e i =
      subst (λ q. I (s.ws_cache.set_member_role workspace_id user_id q w).1) (sym e)
        (c.store_role w i)

  role_or_refuse-Known :
      (r : Result String) (w : W)
      → StoredRole owner role r
      → I w
      → Known (role_or_refuse s workspace_id user_id r w)
  unfolding role_or_refuse
  role_or_refuse-Known (ok r) w h i = (rw h refl, stored_text r w (sym (ap role_text h)) i)
  role_or_refuse-Known (fail no_rows) w h i = (rw h refl, stored_text "" w (sym (ap role_text h)) i)
  role_or_refuse-Known (fail (app e)) w h i = absurd h
  role_or_refuse-Known (fail (other e)) w h i = absurd h

  fetch_role-Known : (w : W) → I w → Known (fetch_role s workspace_id user_id w)
  unfolding fetch_role
  fetch_role-Known w i = role_or_refuse-Known _ _ (c.stored_role w i).0 (c.stored_role w i).1

  role_or_fetch-Known :
      (cached : Result (Option String)) (w : W)
      → CachedRole owner role cached
      → I w
      → Known (role_or_fetch s workspace_id user_id cached w)
  unfolding role_or_fetch
  role_or_fetch-Known (ok (some r)) w h i = known_role-text I role r w c.proper h i
  role_or_fetch-Known (ok none) w h i = fetch_role-Known w i
  role_or_fetch-Known (fail e) w h i = fetch_role-Known w i

  check_role-permits :
      (allowed : List String) (r : String) (w : W)
      → check_role s allowed r w ≡ (permits allowed r, w)
  unfolding check_role permits
  check_role-permits [] r w = refl
  check_role-permits (a ∷ allowed) r w = ground arith

  abbrev Decided : Result (Unit {0}) → Result (Unit {0}) × W → Type 0
  Decided answer r = (r.0 ≡ answer) × I r.1

  check_member-permits :
      (allowed : List String) (w : W)
      → I w
      → Decided
          (permits_role allowed (known_role role))
          (check_member s workspace_id user_id allowed w)
  unfolding check_member
  check_member-permits allowed w i =
      let (r, w1) = s.ws_cache.get_member_role workspace_id user_id w in
      let (h, i1) = c.cached_role w i in
      let known = role_or_fetch-Known r w1 h i1 in
      after_cases (Decided (permits_role allowed (known_role role)))
        (role_or_fetch s workspace_id user_id r w1) (check_role s allowed)
        (λ e w' q. let (same, j) = subst Known q known in (ap (permits_role allowed) same, j))
        (λ a w' q.
          let (same, j) = subst Known q known in
          subst (Decided (permits_role allowed (known_role role)))
            (sym (check_role-permits allowed a w')) (ap (permits_role allowed) same, j))

  -- Where both tables answer and the cache, if it answers, agrees with them on this workspace and
  -- user, `check_access` gives exactly the verdict of the tables, and leaves the two in agreement:
  -- the owner passes; a stranger is refused; a member passes if no role is required or the
  -- member's role is among the required ones, and is refused otherwise.
  pub check_access-decides :
      (allowed : List String) (w : W)
      → I w
      → ((check_access s workspace_id user_id allowed w).0 ≡ verdict owner role user_id allowed)
        × I (check_access s workspace_id user_id allowed w).1
  unfolding check_access verdict
  check_access-decides allowed w i =
      let (cached, w1) = s.ws_cache.get_workspace_meta workspace_id w in
      let (h, i1) = c.cached_workspace w i in
      let given = workspace_or_fetch-Gives cached w1 h i1 in
      after_cases (Decided (verdict owner role user_id allowed))
        (workspace_or_fetch s workspace_id cached w1) _ (λ e w' q. absurd (subst Gives q given).0)
        (λ ws w' q.
          let (owned, j) = subst Gives q given in
          elim (Bool-cases (owner == user_id)) [
            | inl own ↦ rw (owned, own) (refl, j)
            | inr not_own ↦ rw (owned, not_own) (check_member-permits allowed w' j)
          ])
