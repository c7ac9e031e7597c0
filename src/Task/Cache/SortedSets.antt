-- ===== src/Task/Cache/SortedSets.antt =====
-- What Redis does to a sorted set when a pipeline of the task cache (internal/task/cache.go) runs.
use distributed_workflow_sys.Prelude.{
  ℕ, ◌≤◌, ◌≡◌, refl, sym, ap, ◌∙◌, subst, String, Option, none, some, true, false, inl, inr,
  Bool-cases, List, [], ◌∷◌, ◌++◌, All, keep, not, ◌==◌, eq_iff, eq_refl, if◌then◌else◌,
}
use distributed_workflow_sys.Prelude.Act.{Result, ok, fail}
use distributed_workflow_sys.Domain.Task.{Task}
use distributed_workflow_sys.Task.Service.Listing.{get, put}
use distributed_workflow_sys.Task.Service.Listing.Columns.{put-All}
use distributed_workflow_sys.Task.Cache.{
  Formats, Command, hset, expire, del, zadd, zrem, keep_latest, get_uuidv7_score,
}

-- The members of a sorted set with their scores, of which `none` is -1.
abbrev pub Members : Type 0
Members = List (String × Option ℕ)

-- What a command does to the sorted set at a key. HSET writes another type of value, and EXPIRE
-- takes effect later; ZADD gives a member its score, the old one or not.
abbrev pub run_one : String → Command → Members → Members
run_one key (hset k fields) es = es
run_one key (expire k) es = es
run_one key (del k) es = if k == key then [] else es
run_one key (zadd k s m) es = if k == key then put m s es else es
run_one key (zrem k m) es = if k == key then keep (λ e. not (e.0 == m)) es else es
run_one key (keep_latest k n) es = es

abbrev pub run_all : String → List Command → Members → Members
run_all key [] es = es
run_all key (c ∷ cs) es = run_all key cs (run_one key c es)

-- All commands but the removal by rank.
abbrev pub Ordinary : Command → Type 0
Ordinary (hset k fields) = Unit {0}
Ordinary (expire k) = Unit {0}
Ordinary (del k) = Unit {0}
Ordinary (zadd k s m) = Unit {0}
Ordinary (zrem k m) = Unit {0}
Ordinary (keep_latest k n) = ⊥

-- The score is the given one or above.
abbrev pub NotBelow : ℕ → Option ℕ → Type 0
NotBelow max none = ⊥
NotBelow max (some s) = max ≤ s

pub run_all-append :
    (key : String) (cs ds : List Command) (es : Members)
    → run_all key (cs ++ ds) es ≡ run_all key ds (run_all key cs es)
run_all-append key [] ds es = refl
run_all-append key (c ∷ cs) ds es = run_all-append key cs ds (run_one key c es)

get-put : {A : Type 0} (k : String) (v : A) (m : List (String × A)) → get k (put k v m) ≡ some v
get-put k v [] = rw (eq_refl k) refl
get-put k v ((k', v') ∷ m) = elim (Bool-cases (k' == k)) [
  | inl same ↦ rw (same, eq_refl k) refl
  | inr apart ↦ rw (apart, apart) (get-put k v m)
]

get-put_other :
    {A : Type 0} (k k' : String) (v : A) (m : List (String × A))
    → (k' == k) ≡ false
    → get k (put k' v m) ≡ get k m
get-put_other k k' v [] h = rw h refl
get-put_other k k' v ((k'', v') ∷ m) h = elim (Bool-cases (k'' == k')) [
  | inl same ↦
      let other : (k'' == k) ≡ false = ap (λ s. s == k) ((eq_iff k'' k').0 same) ∙ h in
      rw (same, h, other) refl
  | inr apart ↦ elim (Bool-cases (k'' == k)) [
    | inl here ↦ rw (apart, here) refl
    | inr there ↦ rw (apart, there) (get-put_other k k' v m h)
  ]
]

abbrev pub score_entry : String → Result ℕ → List (String × ℕ)
score_entry id (ok s) = (id, s) ∷ []
score_entry id (fail e) = []

-- The members that a column has by its tasks, with their scores.
unfoldable pub scored : Formats → List Task → List (String × ℕ)
scored f [] = []
scored f (t ∷ tasks) = score_entry t.id (get_uuidv7_score f t.id) ++ scored f tasks

abbrev pub put_scored : List (String × ℕ) → Members → Members
put_scored [] es = es
put_scored ((id, s) ∷ rest) es = put_scored rest (put id (some s) es)

abbrev pub value_of : Option ℕ → ℕ
value_of none = 0
value_of (some s) = s

abbrev pub score_value : Result ℕ → ℕ
score_value (fail e) = 0
score_value (ok s) = s

pub none-some : (n : ℕ) → ◌≡◌ {A = Option ℕ} none (some n) → ⊥
none-some n h = subst (λ o. elim o [ none ↦ Unit {0} | some v ↦ ⊥ ]) h tt

module _ (last : String) (m : ℕ) where
  -- All entries of the given member have the given score.
  abbrev pub Own : List (String × ℕ) → Type 0
  Own = All (λ e. (e.0 == last) ≡ true → e.1 ≡ m)

  put-own :
      (id : String) (s : ℕ) (es : Members)
      → (id == last) ≡ true
      → s ≡ m
      → get last (put id (some s) es) ≡ some (some m)
  put-own id s es same h =
      subst (λ i. get last (put i (some s) es) ≡ some (some m)) (sym ((eq_iff id last).0 same))
        (get-put last (some s) es ∙ ap (λ n. some (some n)) h)

  put_scored-kept :
      (rest : List (String × ℕ)) (es : Members)
      → Own rest
      → get last es ≡ some (some m)
      → get last (put_scored rest es) ≡ some (some m)
  put_scored-kept [] es own h = h
  put_scored-kept ((id, s) ∷ rest) es own h = elim (Bool-cases (id == last)) [
    | inl same ↦ put_scored-kept rest (put id (some s) es) own.1 (put-own id s es same (own.0 same))
    | inr apart ↦
        put_scored-kept rest (put id (some s) es) own.1
          (get-put_other last id (some s) es apart ∙ h)
  ]

  pub put_scored-get :
      (rest : List (String × ℕ)) (es : Members)
      → Own rest
      → get last rest ≡ some m
      → get last (put_scored rest es) ≡ some (some m)
  put_scored-get [] es own h = absurd (none-some m h)
  put_scored-get ((id, s) ∷ rest) es own h = elim (Bool-cases (id == last)) [
    | inl same ↦ put_scored-kept rest (put id (some s) es) own.1 (put-own id s es same (own.0 same))
    | inr apart ↦ put_scored-get rest (put id (some s) es) own.1 (rw apart at h)
  ]

  pub put_scored-NotBelow :
      (rest : List (String × ℕ)) (es : Members)
      → All (λ e. m ≤ e.1) rest
      → All (λ e. NotBelow m e.1) es
      → All (λ e. NotBelow m e.1) (put_scored rest es)
  put_scored-NotBelow [] es h k = k
  put_scored-NotBelow ((id, s) ∷ rest) es h k =
      put_scored-NotBelow rest (put id (some s) es) h.1
        (put-All (λ e. NotBelow m e.1) id (some s) es h.0 k)
