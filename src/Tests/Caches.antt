-- ===== src/Tests/Caches.antt =====
-- The theorems on the workspace and project caches, at a Redis that runs: its world is the contents
-- of all keys.
use Prim.Native.String.{◌++◌ as text_append}
use Prim.Native.Char.{Char}
use text.Mathlib.TextLemmas.{cons-append, nil-append, append-nil}
use distributed_workflow_sys.Prelude.{
  ℕ, ◌≡◌, refl, sym, ap, ap₂, ◌∙◌, String, some, none, inl, inr, Bool-cases, List, [], ◌∷◌, map,
  keep, take, ◌==◌, eq_iff,
}
use distributed_workflow_sys.Prelude.Act.{ok}
use mathlib.Core.List.Perm
use distributed_workflow_sys.Domain.Project.{Project}
use distributed_workflow_sys.Domain.Workspace.{WorkspaceMemberResponse}
use distributed_workflow_sys.Workspace.MemberCache.{set_members, get_members}
use distributed_workflow_sys.Workspace.MemberCache.Members.{Valued, Shown, set_members-get}
use distributed_workflow_sys.Paging.{behind, sort_desc, paginate}
use distributed_workflow_sys.Paging.Order.{self}
use distributed_workflow_sys.Redis.{Redis, lex_max}
use distributed_workflow_sys.Redis.Laws.{sets_after, hashes_after, Keeping}
use distributed_workflow_sys.Workspace.Cache.{
  Json, user_owned_key, user_joined_key, get_owned_workspace_ids, get_joined_workspace_ids,
  set_owned_workspace_ids, set_joined_workspace_ids, add_owned_workspace_id,
  add_joined_workspace_id, set_workspace_meta, get_workspace_meta,
}
use distributed_workflow_sys.Workspace.Cache.Lists.{set_workspace_ids-get, add_workspace_id-get}
use distributed_workflow_sys.Workspace.Cache.Metas.{set_workspace_meta-get}
use distributed_workflow_sys.Project.Cache.{get_project_ids, set_project_ids}
use distributed_workflow_sys.Project.Cache.Lists.{set_project_ids-get}
use distributed_workflow_sys.Tests.Columns.{formats, formats-Readable}
use distributed_workflow_sys.Tests.TaskService.{workspace}

pub record World : Type 0 where
  pub sets : String → List String
  pub hashes : String → List (String × String)

-- The bound without its sign.
abbrev bound_text : String → String
bound_text String.[] = ""
bound_text (String.◌∷◌ c s) = s

abbrev some_key : List String → List (String × String) → ℕ
some_key (m ∷ ms) hash = 1
some_key [] (f ∷ fs) = 1
some_key [] [] = 0

abbrev redis : Redis World
redis = record {
  exec = λ cs w. (
    ok tt,
    record {
      sets = λ key. sets_after key cs (w.sets key);
      hashes = λ key. hashes_after key cs (w.hashes key);
    },
  );
  exists = λ key w. (ok (some_key (w.sets key) (w.hashes key)), w);
  zrev_range_by_lex = λ key max limit w.
      (ok (take limit (keep (behind self (bound_text max)) (sort_desc self (w.sets key)))), w);
  hget_all = λ key w. (ok (w.hashes key), w);
  hget_alls = λ keys w. (ok (map w.hashes keys), w);
  hvals = λ key w. (ok (map (λ f. f.1) (w.hashes key)), w);
}

bound_text-append :
    (sign : Char) (cursor : String)
    → bound_text (text_append (String.◌∷◌ sign "") (text_append cursor "")) ≡ cursor
bound_text-append sign cursor =
    ap bound_text (cons-append sign "" (text_append cursor ""))
    ∙ nil-append (text_append cursor "")
    ∙ append-nil cursor

bound_text-lex_max : (cursor : String) → bound_text (lex_max cursor) ≡ cursor
unfolding lex_max
bound_text-lex_max cursor = elim (Bool-cases (cursor == "")) [
  | inl start ↦ rw start (sym ((eq_iff cursor "").0 start))
  | inr named ↦ rw named (bound_text-append _ cursor)
]

keeping : Keeping redis (λ w. w.sets) (λ w. w.hashes)
keeping = record {
  sets = λ w w' cs key e. ap (λ o. o.1.sets key) (sym e);
  hashes = λ w w' cs key e. ap (λ o. o.1.hashes key) (sym e);
  no_set = λ w key h g. ap₂ (λ m f. (ok (some_key m f), w)) h g;
  a_set = λ w key m ms h. ap (λ s. (ok (some_key s (w.hashes key)), w)) h;
  range = λ w key m ms cursor limit h.
      ap₂ (λ c s. (ok (take limit (keep (behind self c) (sort_desc self s))), w))
        (bound_text-lex_max cursor) h;
  fields = λ w key h. refl;
  all_fields = λ w keys h. refl;
}

abbrev empty : World
empty = record { sets = λ key. []; hashes = λ key. [] }

abbrev two_ids : List String
two_ids = "a" ∷ "c" ∷ []

set_workspace_ids-get_example :
    (get_owned_workspace_ids redis "anna" 1 "c"
        (set_owned_workspace_ids redis "anna" two_ids empty).1
      ≡ (ok (some ("a" ∷ [])), (set_owned_workspace_ids redis "anna" two_ids empty).1))
    × (get_joined_workspace_ids redis "anna" 1 "c"
          (set_joined_workspace_ids redis "anna" two_ids empty).1
        ≡ (ok (some ("a" ∷ [])), (set_joined_workspace_ids redis "anna" two_ids empty).1))
unfolding set_owned_workspace_ids set_joined_workspace_ids paginate sort_desc
set_workspace_ids-get_example =
    set_workspace_ids-get redis (λ w. w.sets) (λ w. w.hashes) keeping "anna" two_ids 1 "c" empty _ _
      ((refl, tt), (tt, tt)) (refl, (refl, tt)) refl refl

abbrev cached : World
cached = (set_owned_workspace_ids redis "anna" two_ids empty).1

add_workspace_id-get_example :
    (get_owned_workspace_ids redis "anna" 2 "" (add_owned_workspace_id redis "anna" "b" cached).1
      ≡ (ok (some ("c" ∷ "b" ∷ [])), (add_owned_workspace_id redis "anna" "b" cached).1))
    × (get_joined_workspace_ids redis "anna" 2 ""
          (add_joined_workspace_id redis "anna" "b" cached).1
        ≡ (ok none, (add_joined_workspace_id redis "anna" "b" cached).1))
unfolding set_owned_workspace_ids user_owned_key user_joined_key add_owned_workspace_id
    add_joined_workspace_id paginate sort_desc
add_workspace_id-get_example =
    add_workspace_id-get redis (λ w. w.sets) (λ w. w.hashes) keeping "anna" "b" 2 "" cached _ _ refl
      refl refl refl refl

set_workspace_meta-get_example :
    get_workspace_meta redis formats "ws" (set_workspace_meta redis formats workspace cached).1
    ≡ (ok (some workspace), (set_workspace_meta redis formats workspace cached).1)
unfolding set_workspace_meta
set_workspace_meta-get_example =
    set_workspace_meta-get redis (λ w. w.sets) (λ w. w.hashes) keeping formats
      formats-Readable.reads workspace cached _ refl

set_project_ids-get_example :
    get_project_ids redis "ws" 1 "c" (set_project_ids redis "ws" two_ids empty).1
    ≡ (ok (some ("a" ∷ [])), (set_project_ids redis "ws" two_ids empty).1)
unfolding set_project_ids paginate sort_desc
set_project_ids-get_example =
    set_project_ids-get redis (λ w. w.sets) (λ w. w.hashes) keeping "ws" two_ids 1 "c" empty _
      ((refl, tt), (tt, tt)) refl

abbrev pub project : String → Project
project id = record {
  id = id;
  workspace_id = "ws";
  name = "Site";
  description = "";
  status = "ACTIVE";
  created_by = "anna";
  created_at = 2;
}

some_key-field :
    (m : List String) (f : String × String) (fs : List (String × String)) → some_key m (f ∷ fs) ≡ 1
some_key-field [] f fs = refl
some_key-field (x ∷ m) f fs = refl

valued : Valued redis (λ w. w.hashes)
valued = record {
  a_hash = λ w key f fs h.
      ap (λ (n : ℕ). (ok n, w)) (ap (some_key (w.sets key)) h ∙ some_key-field (w.sets key) f fs);
  hvals = λ w key. (map (λ f. f.1) (w.hashes key), refl, Perm.refl (map (λ f. f.1) (w.hashes key)));
}

abbrev a_member : String → WorkspaceMemberResponse
a_member id = record {
  user_id = id;
  full_name = "Anna";
  email = "anna@example.org";
  role = "MEMBER";
  joined_at = 3;
}

-- The text of a member is the user's id.
abbrev json : Json
json = record { marshal = λ m. ok m.user_id; unmarshal = λ s. ok (a_member s) }

abbrev two_members : List WorkspaceMemberResponse
two_members = a_member "anna" ∷ a_member "bob" ∷ []

abbrev with_members : World
with_members = (set_members json redis "ws" two_members cached).1

set_members-get_example : Shown two_members (get_members json redis "ws" with_members).0
unfolding set_members
set_members-get_example =
    set_members-get json (λ m. m.user_id) redis (λ w. w.sets) (λ w. w.hashes) keeping valued "ws"
      two_members cached with_members ((refl, tt), (tt, tt))
      ((refl, refl, refl), ((refl, refl, refl), tt)) refl
