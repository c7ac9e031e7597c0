-- ===== src/Tests/Columns.antt =====
-- The theorems on the task cache, at a small Redis that runs: its world is the members of the
-- sorted sets by their keys. Times are written in strokes.
use Prim.Native.String.{count, ◌++◌ as text_append}
use text.Mathlib.TextLemmas.{length-append, length-nil}
use distributed_workflow_sys.Prelude.{
  ℕ, zero, suc, ◌≤◌, ◌≡◌, ◌≢◌, refl, sym, ap, subst, String, Option, none, some, List, [], ◌∷◌, All,
  take, ltb, ◌==◌, if◌then◌else◌, arith,
}
use distributed_workflow_sys.Prelude.Act.{Result, ok, fail}
use distributed_workflow_sys.Domain.Task.{Task}
use distributed_workflow_sys.Task.Service.{Service}
use distributed_workflow_sys.Task.Service.Listing.{get, column}
use distributed_workflow_sys.Task.Cache.{
  Formats, Redis, get_uuidv7_score, set_column_cache, get_task_ids, version_score, score_of,
  serialize_task, deserialize_task,
}
use distributed_workflow_sys.Task.Cache.RoundTrip.{Readable, deserialize_task-serialize_task}
use distributed_workflow_sys.Task.Cache.SortedSets.{Members, NotBelow, run_all, scored}
use distributed_workflow_sys.Task.Cache.Pages.{Zsets, set_column_cache-column}
use distributed_workflow_sys.Tests.Database.{a_task, violation}
use distributed_workflow_sys.Tests.TaskService.{ws_cache, service_with}

abbrev pub strokes : ℕ → String
strokes zero = ""
strokes (suc n) = text_append "|" (strokes n)

strokes-count : (n : ℕ) → count (strokes n) ≡ n
strokes-count zero = refl
strokes-count (suc n) = omega (arith, length-append "|" (strokes n), strokes-count n)

abbrev pub less_one : ℕ → Option ℕ
less_one zero = none
less_one (suc n) = some n

-- An id is a UUID of version 7 at the millisecond that its length gives.
abbrev pub formats : Formats
formats = record {
  parse_uuid =
      λ s. ok (record { version = 7; b0 = 0; b1 = 0; b2 = 0; b3 = 0; b4 = 0; b5 = count s });
  format_nano = λ t. strokes (suc t);
  parse_nano = λ s. less_one (count s);
  parse_plain = λ s. none;
}

pub formats-Readable : Readable formats
formats-Readable = record {
  reads = λ t. ap less_one (strokes-count (suc t));
  visible = λ t e. absurd (omega (arith, strokes-count (suc t), ap count e, length-nil));
}

deserialize_task-serialize_task_example :
    deserialize_task formats (serialize_task formats (a_task "1" "LOW")) ≡ a_task "1" "LOW"
deserialize_task-serialize_task_example =
    deserialize_task-serialize_task formats (a_task "1" "LOW") formats-Readable (λ e.
      absurd
        (subst (λ o. elim o [ none ↦ Unit {0} | some n ↦ if n == "" then ⊥ else Unit {0} ]) e tt))

-- The sorted sets by their keys.
abbrev Sets : Type 0
Sets = String → Members

abbrev below : Option ℕ → Members → List String
below max [] = []
below none (e ∷ es) = e.0 ∷ below none es
below (some max) ((id, none) ∷ es) = id ∷ below (some max) es
below (some max) ((id, some s) ∷ es) =
    let rest = below (some max) es in if ltb s max then id ∷ rest else rest

abbrev count_sets : Members → ℕ
count_sets [] = 0
count_sets (e ∷ es) = 1

abbrev score_in : Option (Option ℕ) → Option ℕ
score_in none = none
score_in (some s) = s

abbrev redis : Redis Sets
redis = record {
  exec = λ cs w. (ok tt, λ key. run_all key cs (w key));
  exists = λ k w. (ok (count_sets (w k)), w);
  zscore = λ k m w. (ok (score_in (get m (w k))), w);
  zrev_range = λ k max n w. (ok (take n (below max (w k))), w);
  hget_alls = λ ks w. (fail violation, w);
}

members : Sets → String → Members
members w = w

held-count : (es : Members) (id : String) (s : Option ℕ) → get id es ≡ some s → count_sets es ≡ 1
held-count [] id s h = absurd (subst (λ o. elim o [ none ↦ Unit {0} | some v ↦ ⊥ ]) h tt)
held-count (e ∷ es) id s h = refl

below-none : (max : ℕ) (es : Members) → All (λ e. NotBelow max e.1) es → below (some max) es ≡ []
below-none max [] h = refl
below-none max ((id, none) ∷ es) h = absurd h.0
below-none max ((id, some s) ∷ es) h = ground (arith, h.0, below-none max es h.1)

take-nil : {A : Type 0} (n : ℕ) → take {A = A} n [] ≡ []
take-nil zero = refl
take-nil (suc n) = refl

redis-Zsets : Zsets redis members
unfolding members
redis-Zsets = record {
  exists = λ w k id s h. rw (held-count (w k) id s h) refl;
  zscore = λ w k id s h. rw h refl;
  none_below = λ w k max n h. rw (below-none max (w k) h, take-nil {A = String} n) refl;
  executed = λ w w' cs k h e. ap (λ (r : Result (Unit {0}) × Sets). r.1 k) (sym e);
}

abbrev no_sets : Sets
no_sets key = []

abbrev page : List Task
page = a_task "222" "LOW" ∷ a_task "11" "HIGH" ∷ []

abbrev board : Service (Sets)
board = service_with ws_cache (λ m w. (ok tt, w))

abbrev cached_board : Service (Sets)
cached_board = record board {
  task_cache = record board.task_cache { get_task_ids = get_task_ids formats redis };
}

abbrev after_page : Sets
after_page = (set_column_cache formats redis "p" "TODO" page no_sets).1

set_page : set_column_cache formats redis "p" "TODO" page no_sets ≡ (ok tt, after_page)
unfolding set_column_cache
set_page = refl

page_has : get "11" (scored formats page) ≡ some 2
unfolding scored get_uuidv7_score score_of version_score
page_has = refl

page_least : All (λ e. 2 ≤ e.1) (scored formats page)
unfolding scored get_uuidv7_score score_of version_score
page_least = (omega arith, (omega arith, tt))

eleven_named : ◌≢◌ {A = String} "11" ""
eleven_named e = subst (λ s. if s == "" then ⊥ else Unit {0}) e tt

set_column_cache-column_example :
    column cached_board "ws" "p" "TODO" 2 "11" after_page ≡ (ok ([], ""), after_page)
set_column_cache-column_example =
    set_column_cache-column formats redis members redis-Zsets cached_board "ws" "p" "TODO" page "11"
      2 2 no_sets after_page (λ n c v. refl) set_page page_has page_least eleven_named
