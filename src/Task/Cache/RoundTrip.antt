-- ===== src/Task/Cache/RoundTrip.antt =====
-- A task that is stored as a hash is read back.
use distributed_workflow_sys.Prelude.{ℕ, ◌≡◌, ◌≢◌, refl, ap, String, Option, none, some, ne-beq}
use distributed_workflow_sys.Domain.Task.{Task}
use distributed_workflow_sys.Task.Cache.{
  Formats, name_text, name_of_text, serialize_task, time_of_text, nano_or_plain, deserialize_task,
}

-- A formatted time is read back, and is not empty.
pub record Readable (f : Formats) : Type 0 where
  pub reads : (t : ℕ) → f.parse_nano (f.format_nano t) ≡ some t
  pub visible : (t : ℕ) → f.format_nano t ≢ ""

time-back : (f : Formats) → Readable f → (t : ℕ) → time_of_text f (f.format_nano t) ≡ t
unfolding time_of_text nano_or_plain
time-back f r t = rw (ne-beq (f.format_nano t) "" (r.visible t), r.reads t) refl

name-back : (name : Option String) → name ≢ some "" → name_of_text (name_text name) ≡ name
name-back none h = refl
name-back (some s) h = rw (ne-beq s "" (λ e. h (ap some e))) refl

-- Where times are read back as they were formatted, a task whose assignee has no empty name comes
-- back from its hash with all its fields.
pub deserialize_task-serialize_task :
    (f : Formats) (t : Task)
    → Readable f
    → t.assignee_name ≢ some ""
    → deserialize_task f (serialize_task f t) ≡ t
unfolding deserialize_task serialize_task
deserialize_task-serialize_task f t r h =
    rw (time-back f r t.deadline, time-back f r t.created_at, name-back t.assignee_name h) refl
