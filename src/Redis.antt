-- ===== src/Redis.antt =====
-- The Redis client as the workspace and project caches use it: hashes, and sorted sets whose
-- members all have the score 0 and so stand in the order of their texts.
pub mod Laws
use distributed_workflow_sys.Prelude.{ℕ, String, List, [], ◌∷◌, ◌==◌, if◌then◌else◌, joined}
use distributed_workflow_sys.Prelude.Act.{Act}

pub data Command : Type 0 where
  hset : String → List (String × String) → Command
  hdel : String → String → Command
  zadd : String → List String → Command
  zrem : String → String → Command
  del : String → Command
  expire : String → Command

-- `exec` runs a pipeline, a transaction or a single command. `zrev_range_by_lex` goes from an upper
-- bound downwards to the end and gives at most so many members. `hget_alls` is a pipeline of
-- HGETALL, in which the hash of a missing key is empty. The expiry time of a key is not kept.
pub record Redis (W : Type 0) : Type 0 where
  pub exec : List Command → Act W (Unit {0})
  pub exists : String → Act W ℕ
  pub zrev_range_by_lex : String → String → ℕ → Act W (List String)
  pub hget_all : String → Act W (List (String × String))
  pub hget_alls : List String → Act W (List (List (String × String)))
  pub hvals : String → Act W (List String)

-- The upper bound of a page.
unfoldable pub lex_max : String → String
lex_max cursor = if cursor == "" then "+" else joined ("(" ∷ cursor ∷ [])
