-- ===== src/Task/Cache/ColumnCommands.antt =====
-- What a page of tasks leaves in the sorted set of a column that is written with it
-- (SetColumnCache of internal/task/cache.go).
use distributed_workflow_sys.Prelude.{
  ℕ, ◌≤◌, ◌≡◌, refl, sym, ap, ◌∙◌, subst, String, some, inl, inr, Bool-cases, List, [], ◌∷◌, ◌++◌,
  All, All-append, ◌==◌, eq_iff, eq_refl,
}
use distributed_workflow_sys.Prelude.Act.{Result, ok, fail}
use distributed_workflow_sys.Domain.Task.{Task}
use distributed_workflow_sys.Task.Service.Listing.{get, put}
use distributed_workflow_sys.Task.Cache.{
  Formats, Command, expire, del, zadd, Redis, get_uuidv7_score, store_hash, column_hashes,
  column_members, expire_if_any, column_commands,
}
use distributed_workflow_sys.Task.Cache.SortedSets.{
  Members, run_one, run_all, Ordinary, NotBelow, run_all-append, score_entry, scored, put_scored,
  value_of, score_value, none-some, Own, put_scored-get, put_scored-NotBelow,
}

module _ (f : Formats) where
  -- The score of a member is the one in its id.
  abbrev ByIds : List (String × ℕ) → Type 0
  ByIds = All (λ e. get_uuidv7_score f e.0 ≡ ok e.1)

  entry-ByIds :
      (id : String) (r : Result ℕ) (rest : List (String × ℕ))
      → get_uuidv7_score f id ≡ r
      → ByIds rest
      → ByIds (score_entry id r ++ rest)
  entry-ByIds id (ok s) rest e h = (e, h)
  entry-ByIds id (fail x) rest e h = h

  scored-ByIds : (tasks : List Task) → ByIds (scored f tasks)
  unfolding scored
  scored-ByIds [] = tt
  scored-ByIds (t ∷ tasks) = entry-ByIds t.id (get_uuidv7_score f t.id) _ refl (scored-ByIds tasks)

  score_of_last :
      (last : String) (m : ℕ) (es : List (String × ℕ))
      → ByIds es
      → get last es ≡ some m
      → get_uuidv7_score f last ≡ ok m
  score_of_last last m [] h k = absurd (none-some m k)
  score_of_last last m ((id, s) ∷ es) h k = elim (Bool-cases (id == last)) [
    | inl same ↦
        ap (get_uuidv7_score f) (sym ((eq_iff id last).0 same))
        ∙ h.0
        ∙ ap (λ o. ok (value_of o)) (rw same at k)
    | inr apart ↦ score_of_last last m es h.1 (rw apart at k)
  ]

  ByIds-Own :
      (last : String) (m : ℕ) (es : List (String × ℕ))
      → get_uuidv7_score f last ≡ ok m
      → ByIds es
      → Own last m es
  ByIds-Own last m [] q h = tt
  ByIds-Own last m ((id, s) ∷ es) q h = (
    λ same. ap score_value (sym h.0 ∙ ap (get_uuidv7_score f) ((eq_iff id last).0 same) ∙ q),
    ByIds-Own last m es q h.1,
  )

  module _ {W : Type 0} (rdb : Redis W) (key : String) where
    zadd-run :
        (id : String) (s : ℕ) (es : Members)
        → run_one key (zadd key (some s) id) es ≡ put id (some s) es
    zadd-run id s es = rw (eq_refl key) refl

    member-run :
        (id : String) (r : Result ℕ) (cs : List Command) (rest : List (String × ℕ)) (es : Members)
        → ((now : Members) → run_all key cs now ≡ put_scored rest now)
        → run_all key (elim r [ ok s ↦ zadd key (some s) id ∷ [] | fail e ↦ [] ] ++ cs) es
          ≡ put_scored (score_entry id r ++ rest) es
    member-run id (ok s) cs rest es h =
        ap (run_all key cs) (zadd-run id s es) ∙ h (put id (some s) es)
    member-run id (fail e) cs rest es h = h es

    column_members-run :
        (tasks : List Task) (es : Members)
        → run_all key (column_members f rdb key tasks) es ≡ put_scored (scored f tasks) es
    unfolding column_members scored
    column_members-run [] es = refl
    column_members-run (t ∷ tasks) es =
        member-run t.id (get_uuidv7_score f t.id) (column_members f rdb key tasks) (scored f tasks)
          es (column_members-run tasks)

    hash-run :
        (t : Task) (r : Result ℕ) (cs : List Command) (es : Members)
        → run_all key (elim r [ ok s ↦ store_hash f t | fail e ↦ [] ] ++ cs) es ≡ run_all key cs es
    unfolding store_hash
    hash-run t (ok s) cs es = refl
    hash-run t (fail e) cs es = refl

    column_hashes-run :
        (tasks : List Task) (es : Members) → run_all key (column_hashes f rdb tasks) es ≡ es
    unfolding column_hashes
    column_hashes-run [] es = refl
    column_hashes-run (t ∷ tasks) es =
        hash-run t (get_uuidv7_score f t.id) (column_hashes f rdb tasks) es
        ∙ column_hashes-run tasks es

    expire_if_any-run :
        (cs : List Command) (es : Members)
        → run_all key (expire_if_any f rdb key cs) es ≡ run_all key cs es
    unfolding expire_if_any
    expire_if_any-run [] es = refl
    expire_if_any-run (c ∷ cs) es = run_all-append key (c ∷ cs) (expire key ∷ []) es

    del-run : (es : Members) → run_one key (del key) es ≡ []
    del-run es = rw (eq_refl key) refl

    column-run :
        (t : Task) (tasks : List Task) (es : Members)
        → run_all key (del key ∷ column_commands f rdb key (t ∷ tasks)) es
          ≡ put_scored (scored f (t ∷ tasks)) []
    unfolding column_commands
    column-run t tasks es =
        let cs = column_members f rdb key (t ∷ tasks) in
        ap (run_all key (column_commands f rdb key (t ∷ tasks))) (del-run es)
        ∙ run_all-append key (column_hashes f rdb (t ∷ tasks)) (expire_if_any f rdb key cs) []
        ∙ ap (run_all key (expire_if_any f rdb key cs)) (column_hashes-run (t ∷ tasks) [])
        ∙ expire_if_any-run cs []
        ∙ column_members-run (t ∷ tasks) []

    -- After a page has been written as a column, a task of the page has its score, and none has a
    -- lower one than the least of the page.
    pub column-holds :
        (tasks : List Task) (last : String) (m : ℕ) (es : Members)
        → get last (scored f tasks) ≡ some m
        → All (λ e. m ≤ e.1) (scored f tasks)
        → (get last (run_all key (del key ∷ column_commands f rdb key tasks) es) ≡ some (some m))
          × All (λ e. NotBelow m e.1) (run_all key (del key ∷ column_commands f rdb key tasks) es)
    unfolding scored
    column-holds [] last m es found least = absurd (none-some m found)
    column-holds (t ∷ tasks) last m es found least =
        let entries = scored f (t ∷ tasks) in
        let ids = scored-ByIds (t ∷ tasks) in
        let own = ByIds-Own last m entries (score_of_last last m entries ids found) ids in
        subst (λ now. (get last now ≡ some (some m)) × All (λ e. NotBelow m e.1) now)
          (sym (column-run t tasks es))
          (
            put_scored-get last m entries [] own found,
            put_scored-NotBelow last m entries [] least tt,
          )

    member-Ordinary :
        (id : String) (r : Result ℕ) (cs : List Command)
        → All Ordinary cs
        → All Ordinary (elim r [ ok s ↦ zadd key (some s) id ∷ [] | fail e ↦ [] ] ++ cs)
    member-Ordinary id (ok s) cs h = (tt, h)
    member-Ordinary id (fail e) cs h = h

    column_members-Ordinary : (tasks : List Task) → All Ordinary (column_members f rdb key tasks)
    unfolding column_members
    column_members-Ordinary [] = tt
    column_members-Ordinary (t ∷ tasks) =
        member-Ordinary t.id (get_uuidv7_score f t.id) _ (column_members-Ordinary tasks)

    hash-Ordinary :
        (t : Task) (r : Result ℕ) (cs : List Command)
        → All Ordinary cs
        → All Ordinary (elim r [ ok s ↦ store_hash f t | fail e ↦ [] ] ++ cs)
    unfolding store_hash
    hash-Ordinary t (ok s) cs h = (tt, (tt, h))
    hash-Ordinary t (fail e) cs h = h

    column_hashes-Ordinary : (tasks : List Task) → All Ordinary (column_hashes f rdb tasks)
    unfolding column_hashes
    column_hashes-Ordinary [] = tt
    column_hashes-Ordinary (t ∷ tasks) =
        hash-Ordinary t (get_uuidv7_score f t.id) _ (column_hashes-Ordinary tasks)

    expire_if_any-Ordinary :
        (cs : List Command) → All Ordinary cs → All Ordinary (expire_if_any f rdb key cs)
    unfolding expire_if_any
    expire_if_any-Ordinary [] h = tt
    expire_if_any-Ordinary (c ∷ cs) h = (h.0, All-append Ordinary cs (expire key ∷ []) h.1 (tt, tt))

    pub column-Ordinary :
        (tasks : List Task) → All Ordinary (del key ∷ column_commands f rdb key tasks)
    unfolding column_commands
    column-Ordinary [] = (tt, (tt, (tt, tt)))
    column-Ordinary (t ∷ tasks) = (
      tt,
      All-append Ordinary (column_hashes f rdb (t ∷ tasks)) _ (column_hashes-Ordinary (t ∷ tasks))
          (expire_if_any-Ordinary _ (column_members-Ordinary (t ∷ tasks))),
    )
