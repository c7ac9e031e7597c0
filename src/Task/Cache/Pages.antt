-- ===== src/Task/Cache/Pages.antt =====
-- The second page of a column whose first page has been cached.
use distributed_workflow_sys.Prelude.{
  ℕ, ◌≤◌, ◌≡◌, ◌≢◌, refl, sym, ap, subst, ◌∙◌, String, Option, some, List, [], ◌∷◌, All, ne-beq,
}
use distributed_workflow_sys.Prelude.Act.{ok}
use distributed_workflow_sys.Domain.Task.{Task}
use distributed_workflow_sys.Task.Service.{Service}
use distributed_workflow_sys.Task.Service.Listing.{get, column, column_by, column_cached}
use distributed_workflow_sys.Task.Cache.SortedSets.{Members, Ordinary, NotBelow, run_all, scored}
use distributed_workflow_sys.Task.Cache.ColumnCommands.{column-holds, column-Ordinary}
use distributed_workflow_sys.Task.Cache.{
  Formats, Command, Redis, del, zset_key, column_commands, set_column_cache, max_score, score_below,
  real_ids, cached_ids, get_task_ids,
}

-- What Redis says of sorted sets: `members` is the content. A set with a member exists, a member's
-- score is the one it has, no member lies below a score that none is less than, and a pipeline that
-- is accepted runs its commands one after the other.
pub record Zsets {W : Type 0} (rdb : Redis W) (members : W → String → Members) : Type 0 where
  pub exists :
      (w : W) (zkey id : String) (s : Option ℕ)
      → get id (members w zkey) ≡ some s
      → rdb.exists zkey w ≡ (ok 1, w)
  pub zscore :
      (w : W) (zkey id : String) (s : ℕ)
      → get id (members w zkey) ≡ some (some s)
      → rdb.zscore zkey id w ≡ (ok (some s), w)
  pub none_below :
      (w : W) (zkey : String) (max n : ℕ)
      → All (λ e. NotBelow max e.1) (members w zkey)
      → rdb.zrev_range zkey (some max) n w ≡ (ok [], w)
  pub executed :
      (w w' : W) (commands : List Command) (zkey : String)
      → All Ordinary commands
      → rdb.exec commands w ≡ (ok tt, w')
      → members w' zkey ≡ run_all zkey commands (members w zkey)

module _ {W : Type 0} (f : Formats) (rdb : Redis W) (members : W → String → Members)
    (laws : Zsets rdb members) where
  get_task_ids-below :
      (project_id status id : String) (limit m : ℕ) (w : W)
      → get id (members w (zset_key project_id status)) ≡ some (some m)
      → All (λ e. NotBelow m e.1) (members w (zset_key project_id status))
      → id ≢ ""
      → get_task_ids f rdb project_id status limit id w ≡ (ok (some []), w)
  unfolding get_task_ids cached_ids score_below max_score real_ids
  get_task_ids-below project_id status id limit m w found least named =
      let zkey = zset_key project_id status in
      rw
        (
          laws.exists w zkey id (some m) found,
          ne-beq id "" named,
          laws.zscore w zkey id m found,
          laws.none_below w zkey m limit least,
        )
        refl

  -- Once a page of tasks has been cached as a column, the column's next page, behind the task of
  -- the page with the least score, is empty and has no cursor, whatever tasks the table still has.
  pub set_column_cache-column :
      (s : Service W) (workspace_id project_id status : String) (page : List Task) (last : String)
      (limit m : ℕ) (w w' : W)
      → ((n : ℕ) (c : String) (v : W)
          → s.task_cache.get_task_ids project_id status n c v
            ≡ get_task_ids f rdb project_id status n c v)
      → set_column_cache f rdb project_id status page w ≡ (ok tt, w')
      → get last (scored f page) ≡ some m
      → All (λ e. m ≤ e.1) (scored f page)
      → last ≢ ""
      → column s workspace_id project_id status limit last w' ≡ (ok ([], ""), w')
  unfolding column column_by column_cached set_column_cache
  set_column_cache-column s workspace_id project_id status page last limit m w w' same cached found
        least named =
      let zkey = zset_key project_id status in
      let kept =
        laws.executed w w' (del zkey ∷ column_commands f rdb zkey page) zkey
          (column-Ordinary f rdb zkey page) cached in
      let (held, above) = column-holds f rdb zkey page last m (members w zkey) found least in
      let empty =
        get_task_ids-below project_id status last limit m w' (ap (get last) kept ∙ held)
          (subst (All (λ e. NotBelow m e.1)) (sym kept) above) named in
      rw (same limit last w', empty) refl
