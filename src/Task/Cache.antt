-- ===== src/Task/Cache.antt =====
-- services/workspace-service/internal/task/cache.go: tasks as Redis hashes and the columns of a
-- board as sorted sets by the time in the task's id. Redis, the parser of UUIDs and the time format
-- are parameters. A pipeline is the list of its commands; the expiry time of a key is not kept.
pub mod RoundTrip
pub mod SortedSets
pub mod ColumnCommands
pub mod Pages
use distributed_workflow_sys.Prelude.{
  ℕ, ◌+◌, ◌*◌, ◌^◌, String, Option, none, some, Bool, List, [], ◌∷◌, ◌++◌, map, ◌==◌, eqb, not,
  if◌then◌else◌, joined,
}
use distributed_workflow_sys.Prelude.Act.{
  Act, Error, other, Result, ok, fail, ◌>>=◌, ◌>>◌, pure, raise, returned, attempt, value_or,
}
use distributed_workflow_sys.Domain.Task.{Task}
use distributed_workflow_sys.Task.Service.Listing.{get}

-- The version of a UUID and its first six bytes.
pub record Uuid : Type 0 where
  pub version : ℕ
  pub b0 : ℕ
  pub b1 : ℕ
  pub b2 : ℕ
  pub b3 : ℕ
  pub b4 : ℕ
  pub b5 : ℕ

-- `uuid.Parse`, and time.Time's Format and Parse at RFC3339Nano and RFC3339. The zero time is 0.
pub record Formats : Type 0 where
  pub parse_uuid : String → Result Uuid
  pub format_nano : ℕ → String
  pub parse_nano : String → Option ℕ
  pub parse_plain : String → Option ℕ

-- The score `none` is -1, which only the placeholder of an empty column has.
pub data Command : Type 0 where
  hset : String → List (String × String) → Command
  expire : String → Command
  del : String → Command
  zadd : String → Option ℕ → String → Command
  zrem : String → String → Command
  keep_latest : String → ℕ → Command

-- `exec` runs a pipeline. `zrev_range` gives the members below a score, latest first, and `zscore`
-- gives `none` for redis.Nil;
-- `hget_alls` is a pipeline of HGETALL, in which the hash of a missing key is empty.
pub record Redis (W : Type 0) : Type 0 where
  pub exec : List Command → Act W (Unit {0})
  pub exists : String → Act W ℕ
  pub zscore : String → String → Act W (Option ℕ)
  pub zrev_range : String → Option ℕ → ℕ → Act W (List String)
  pub hget_alls : List String → Act W (List (List (String × String)))

unfoldable pub zset_key : String → String → String
zset_key project_id column_name = joined ("project:" ∷ project_id ∷ ":col:" ∷ column_name ∷ [])

unfoldable hash_key : String → String
hash_key task_id = joined ("task:" ∷ task_id ∷ ":data" ∷ [])

abbrev pub placeholder : String
placeholder = "__empty__"

-- A missing key of a Go map of texts is the empty text.
abbrev pub text_at : String → List (String × String) → String
text_at k m = elim (get k m) [ none ↦ "" | some v ↦ v ]

abbrev pub name_text : Option String → String
name_text none = ""
name_text (some name) = name

abbrev pub name_of_text : String → Option String
name_of_text s = if s == "" then none else some s

module _ (f : Formats) where
  -- The bytes are shifted into 48 bits, which do not overlap.
  unfoldable pub version_score : String → Uuid → Result ℕ
  version_score task_id u =
      if eqb u.version 7
      then ok (u.b0 * 2 ^ 40 + u.b1 * 2 ^ 32 + u.b2 * 2 ^ 24 + u.b3 * 2 ^ 16 + u.b4 * 2 ^ 8 + u.b5)
      else fail (other (joined ("task ID " ∷ task_id ∷ " is not a UUIDv7" ∷ [])))

  unfoldable pub score_of : String → Result Uuid → Result ℕ
  unfolding version_score
  score_of task_id (ok u) = version_score task_id u
  score_of task_id (fail e) = fail e

  unfoldable pub get_uuidv7_score : String → Result ℕ
  unfolding score_of
  get_uuidv7_score task_id = score_of task_id (f.parse_uuid task_id)

  unfoldable pub serialize_task : Task → List (String × String)
  serialize_task t =
      ("id", t.id)
      ∷ ("workspace_id", t.workspace_id)
      ∷ ("project_id", t.project_id)
      ∷ ("title", t.title)
      ∷ ("description", t.description)
      ∷ ("status", t.status)
      ∷ ("priority", t.priority)
      ∷ ("assignee_id", t.assignee_id)
      ∷ ("assignee_name", name_text t.assignee_name)
      ∷ ("deadline", f.format_nano t.deadline)
      ∷ ("created_at", f.format_nano t.created_at)
      ∷ []

  -- An unreadable time is tried without fractions and then taken as the zero time.
  unfoldable plain_or_zero : Option ℕ → ℕ
  plain_or_zero none = 0
  plain_or_zero (some t) = t

  unfoldable pub nano_or_plain : String → Option ℕ → ℕ
  unfolding plain_or_zero
  nano_or_plain s (some t) = t
  nano_or_plain s none = plain_or_zero (f.parse_plain s)

  unfoldable pub time_of_text : String → ℕ
  unfolding nano_or_plain
  time_of_text s = if s == "" then 0 else nano_or_plain s (f.parse_nano s)

  unfoldable pub deserialize_task : List (String × String) → Task
  unfolding time_of_text
  deserialize_task res = record {
    id = text_at "id" res;
    workspace_id = text_at "workspace_id" res;
    project_id = text_at "project_id" res;
    title = text_at "title" res;
    description = text_at "description" res;
    status = text_at "status" res;
    priority = text_at "priority" res;
    assignee_id = text_at "assignee_id" res;
    assignee_name = name_of_text (text_at "assignee_name" res);
    deadline = time_of_text (text_at "deadline" res);
    created_at = time_of_text (text_at "created_at" res);
  }

  -- The commands that store a task's hash.
  unfoldable pub store_hash : Task → List Command
  unfolding serialize_task hash_key
  store_hash t = hset (hash_key t.id) (serialize_task t) ∷ expire (hash_key t.id) ∷ []

  -- The commands that put a task into a column that is cached; the latest hundred stay.
  unfoldable join_column : String → ℕ → String → Bool → List Command
  join_column zkey score task_id cached =
      if cached
      then zrem zkey placeholder ∷ zadd zkey (some score) task_id ∷ keep_latest zkey 100 ∷ []
      else []

  module _ {W : Type 0} (rdb : Redis W) where
    unfoldable pub add_task : Task → Act W (Unit {0})
    unfolding get_uuidv7_score store_hash join_column zset_key
    add_task t = do
      score ← returned (get_uuidv7_score t.id)
      exists ← rdb.exists (zset_key t.project_id t.status)
      rdb.exec (
          store_hash t
          ++ join_column (zset_key t.project_id t.status) score t.id (not (eqb exists 0)))

    unfoldable pub set_task_meta : Task → Act W (Unit {0})
    unfolding store_hash
    set_task_meta t = rdb.exec (store_hash t)

    unfoldable pub update_task_meta : Task → Act W (Unit {0})
    unfolding store_hash
    update_task_meta t = rdb.exec (store_hash t)

    -- The exclusive upper score: that of the cursor in the column, else that in its id, else none.
    unfoldable pub max_score : String → String → Option ℕ → Option ℕ
    unfolding get_uuidv7_score
    max_score zkey cursor (some score) = some score
    max_score zkey cursor none = elim (get_uuidv7_score cursor) [ ok s ↦ some s | fail e ↦ none ]

    unfoldable pub score_below : String → String → Act W (Option ℕ)
    unfolding max_score
    score_below zkey cursor =
        if cursor == ""
        then pure none
        else (rdb.zscore zkey cursor >>= λ score. pure (max_score zkey cursor score))

    unfoldable pub real_ids : List String → List String
    real_ids [] = []
    real_ids (id ∷ ids) = if id == placeholder then real_ids ids else id ∷ real_ids ids

    unfoldable pub cached_ids : String → ℕ → String → Act W (Option (List String))
    unfolding score_below real_ids
    cached_ids zkey limit cursor = do
      max ← score_below zkey cursor
      members ← rdb.zrev_range zkey max limit
      pure (some (real_ids members))

    unfoldable pub get_task_ids : String → String → ℕ → String → Act W (Option (List String))
    unfolding cached_ids zset_key
    get_task_ids project_id status limit cursor = rdb.exists (zset_key project_id status) >>= λ n.
        if eqb n 0 then pure none else cached_ids (zset_key project_id status) limit cursor

    -- The results of the pipeline: tasks, and the ids that are missing.
    unfoldable read_hash :
        String → List (String × String) → List Task × List String → List Task × List String
    unfolding deserialize_task
    read_hash id res (tasks, missing) =
        if text_at "id" res == ""
        then (tasks, id ∷ missing)
        else (deserialize_task res ∷ tasks, missing)

    unfoldable read_hashes : List String → List (List (String × String)) → List Task × List String
    unfolding read_hash
    read_hashes [] hashes = ([], [])
    read_hashes (id ∷ ids) [] = read_hash id [] (read_hashes ids [])
    read_hashes (id ∷ ids) (res ∷ hashes) = read_hash id res (read_hashes ids hashes)

    unfoldable pub get_task_metas : List String → Act W (List Task × List String)
    unfolding read_hashes hash_key
    get_task_metas [] = pure ([], [])
    get_task_metas (id ∷ task_ids) = do
      hashes ← rdb.hget_alls (map hash_key (id ∷ task_ids))
      pure (read_hashes (id ∷ task_ids) hashes)

    -- The members of a column, and the hashes of its tasks; an id without a score is passed over.
    unfoldable pub column_hashes : List Task → List Command
    unfolding get_uuidv7_score store_hash
    column_hashes [] = []
    column_hashes (t ∷ tasks) =
        elim (get_uuidv7_score t.id) [ ok s ↦ store_hash t | fail e ↦ [] ] ++ column_hashes tasks

    unfoldable pub column_members : String → List Task → List Command
    unfolding get_uuidv7_score
    column_members zkey [] = []
    column_members zkey (t ∷ tasks) =
        elim (get_uuidv7_score t.id) [ ok s ↦ zadd zkey (some s) t.id ∷ [] | fail e ↦ [] ]
        ++ column_members zkey tasks

    unfoldable pub expire_if_any : String → List Command → List Command
    expire_if_any zkey [] = []
    expire_if_any zkey (c ∷ cs) = c ∷ cs ++ expire zkey ∷ []

    unfoldable pub column_commands : String → List Task → List Command
    unfolding column_hashes column_members expire_if_any
    column_commands zkey [] = zadd zkey none placeholder ∷ expire zkey ∷ []
    column_commands zkey (t ∷ tasks) =
        column_hashes (t ∷ tasks) ++ expire_if_any zkey (column_members zkey (t ∷ tasks))

    unfoldable pub set_column_cache : String → String → List Task → Act W (Unit {0})
    unfolding column_commands zset_key
    set_column_cache project_id status tasks =
        rdb.exec
          (del (zset_key project_id status) ∷ column_commands (zset_key project_id status) tasks)

    -- A failing look at the new column counts as "not cached".
    unfoldable pub update_task_status : String → String → String → String → Act W (Unit {0})
    unfolding get_uuidv7_score join_column zset_key hash_key
    update_task_status project_id task_id old_status new_status = do
      score ← returned (get_uuidv7_score task_id)
      new_exists ← attempt (rdb.exists (zset_key project_id new_status))
      rdb.exec (
          hset (hash_key task_id) (("status", new_status) ∷ [])
          ∷ expire (hash_key task_id)
          ∷ zrem (zset_key project_id old_status) task_id
          ∷ join_column (zset_key project_id new_status) score task_id
              (not (eqb (value_or 0 new_exists) 0)))

    unfoldable pub invalidate_tasks : String → Act W (Unit {0})
    unfolding zset_key
    invalidate_tasks project_id =
        rdb.exec (
          map (λ st. del (zset_key project_id st))
            ("TODO" ∷ "IN_PROGRESS" ∷ "REVIEW" ∷ "DONE" ∷ []))
