-- ===== src/Task/Controller/Guarded.antt =====
-- Requests that change tasks, from the header to the service.
use distributed_workflow_sys.Prelude.{
  ◌≡◌, refl, sym, ap, ◌∙◌, subst, String, ◌⊎◌, inl, inr, ◌==◌, [], ◌∷◌,
}
use distributed_workflow_sys.Prelude.Act.{Act, Result, ok, fail, ◌>>=◌}
use distributed_workflow_sys.Prelude.Keeps.{Refused, Refused-bind, after-Refused, if_cases}
use distributed_workflow_sys.Domain.Task.{TaskCreateInput, TaskUpdateInput, CommentCreateInput}
use distributed_workflow_sys.Http.{Codec, Request, require_id, bind_json}
use distributed_workflow_sys.Middleware.Auth.{AuthMiddleware, token_string, protect, with_user}
use distributed_workflow_sys.Middleware.Auth.Still.{Still, protect-Keeps}
use distributed_workflow_sys.Middleware.Auth.Sessions.{Genuine, Lets, protect-Lets}
use distributed_workflow_sys.Task.Service.{Service}
use distributed_workflow_sys.Task.Quiet.{Quiet}
use distributed_workflow_sys.Task.Guarded.{
  Permitted, MayReplace, MayMove, create_task-guarded, add_comment-guarded,
  update_full_task-guarded, update_task_status-guarded,
}
use distributed_workflow_sys.Task.Controller.{
  Texts, post_task, update_task, update_status, post_comment,
}

-- A call that reads the request alone.
abbrev Plain : {W A : Type 0} → Act W A → Type 0
Plain {W} m = (w : W) → (m w).1 ≡ w

require_id-Plain :
    {W : Type 0} (message : String) (c : Request) → Plain {W = W} (require_id message c)
unfolding require_id
require_id-Plain {W} message c w =
    if_cases (λ (m : Act W (Unit {0})). (m w).1 ≡ w) (c.id == "") _ _ (λ h. refl) (λ h. refl)

bind_json-Plain : {W A : Type 0} (body : Result A) → Plain {W = W} (bind_json body)
unfolding bind_json
bind_json-Plain (ok a) w = refl
bind_json-Plain (fail e) w = refl

module _ {W : Type 0} (P : W → Type 0) where
  Plain-guarded :
      {A B : Type 0} (X : Type 0) (m : Act W A) (f : A → Act W B) (w : W)
      → Plain m
      → P w
      → ((a : A) → Refused P (f a w) ⊎ X)
      → Refused P ((m >>= f) w) ⊎ X
  Plain-guarded X m f w plain h next =
      Refused-bind X m f w (λ v k. subst P (sym (plain v)) k) h
        (λ a w' e k. subst (λ v. Refused P (f a v) ⊎ X) (sym (plain w) ∙ ap (λ o. o.1) e) (next a))

  then-guarded :
      {A B : Type 0} (X : Type 0) (m : Act W A) (f : A → Act W B) (w : W)
      → Refused P (m w) ⊎ X
      → Refused P ((m >>= f) w) ⊎ X
  then-guarded X m f w (inl refused) = inl (after-Refused P (m w) f refused)
  then-guarded X m f w (inr x) = inr x

module _ {W : Type 0} (m : AuthMiddleware W) (P : W → Type 0) (still : Still m P) where
  -- The user whom Protect lets through, with the world after it.
  abbrev pub LetIn : String → W → String → W → Type 0
  LetIn auth_header w user w1 =
      (protect m auth_header w ≡ (ok user, w1)) × Genuine m (token_string auth_header) w user

  -- The request is refused with no effect, or who was let in was entitled to the action then.
  abbrev pub RefusedOr : {D : Type 0} → String → (String → W → Type 0) → Act W D → W → Type 0
  RefusedOr auth_header May request w =
      Refused P (request w)
      ⊎ ((user : String) × (w1 : W) × LetIn auth_header w user w1 × May user w1)

  protect-Genuine :
      (auth_header : String) (w w1 : W) (user : String)
      → protect m auth_header w ≡ (ok user, w1)
      → LetIn auth_header w user w1
  protect-Genuine auth_header w w1 user e = (
    e,
    subst (λ o. Lets (Genuine m (token_string auth_header) w) o.0) e (protect-Lets m auth_header w),
  )

  module _ {A B D : Type 0} (auth_header message : String) (c : Request) (body : Result A)
      (May : String → W → Type 0) (act : String → A → Act W B)
      (guarded : (user : String) (input : A) (w : W)
        → P w
        → Refused P (act user input w) ⊎ May user w)
      (reply : B → Act W D) (w : W) (h : P w) where
    -- The shape of the handlers: an id, a body, the service and the answer.
    handler-guarded :
        RefusedOr auth_header May
          (with_user m auth_header λ user. require_id message (record c { user_id = user }) >>= λ _.
            bind_json body >>= λ input. act user input >>= reply)
          w
    unfolding with_user
    handler-guarded =
        let X = (user : String) × (w1 : W) × LetIn auth_header w user w1 × May user w1 in
        Refused-bind X (protect m auth_header) _ w (protect-Keeps m P still auth_header) h
          λ user w1 e k.
            let let_in = protect-Genuine auth_header w w1 user e in
            Plain-guarded P X (require_id message (record c { user_id = user })) _ w1
              (require_id-Plain message (record c { user_id = user })) k
              λ _. Plain-guarded P X (bind_json body) _ w1 (bind_json-Plain body) k λ input.
                then-guarded P X (act user input) reply w1 (elim (guarded user input w1 k) [
                  | inl refused ↦ inl refused
                  | inr may ↦ inr (user, w1, let_in, may)
                ])

  module _ (s : Service W) (q : Quiet s P) (codec : Codec) (texts : Texts) (auth_header : String)
      (c : Request) (w : W) (h : P w) where
    -- A request to create, replace or move a task or to comment on one, from its header to its
    -- answer: for every predicate of the world that the reads of the service and Protect's calls
    -- keep, either it ends in an error and keeps the predicate, or Protect let a user in with a
    -- genuine token and session, and this user was entitled to the action: as an administrator or
    -- the owner to create or replace, as the assignee too to move, and as any member to comment.
    pub task_requests-guarded :
        (creation : Result TaskCreateInput) (update : Result TaskUpdateInput)
        (status : Result String) (comment : Result CommentCreateInput)
        → (RefusedOr auth_header
            (λ user. Permitted s P q c.id user ("ADMIN" ∷ []))
            (with_user m auth_header
              λ user. post_task s codec texts (record c { user_id = user }) creation)
            w)
          × (RefusedOr auth_header
              (λ user. MayReplace s P q c.id user c.task_id)
              (with_user m auth_header
                λ user. update_task s codec texts (record c { user_id = user }) update)
              w)
          × (RefusedOr auth_header
              (λ user. MayMove s P q c.id user c.task_id)
              (with_user m auth_header
                λ user. update_status s codec texts (record c { user_id = user }) status)
              w)
          × (RefusedOr auth_header
              (λ user. Permitted s P q c.id user [])
              (with_user m auth_header
                λ user. post_comment s codec texts (record c { user_id = user }) comment)
              w)
    unfolding post_task update_task update_status post_comment
    task_requests-guarded creation update status comment = (
      handler-guarded auth_header "Workspace ID is required" c creation _ _
          (λ user input v k. create_task-guarded s P q c.id user c.project_id input v k) _ w h,
      handler-guarded auth_header "Workspace ID is required" c update _ _
          (λ user input v k. update_full_task-guarded s P q c.id user c.task_id input v k) _ w h,
      handler-guarded auth_header "Workspace ID is required" c status _ _
          (λ user new v k. update_task_status-guarded s P q c.id user c.task_id new v k) _ w h,
      handler-guarded auth_header "Workspace ID is required" c comment _ _
          (λ user input v k. add_comment-guarded s P q c.id user c.task_id input v k) _ w h,
    )
