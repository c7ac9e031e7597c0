-- ===== src/Workspace/MemberCache/Members.antt =====
-- The members of a workspace are read back from the cache.
use mathlib.Core.List.{append_assoc, append-nil, Perm}
use mathlib.Core.List.Perm
use distributed_workflow_sys.Prelude.{
  ◌≡◌, refl, sym, ap, ◌∙◌, subst, String, Option, none, some, false, List, [], ◌∷◌, ◌++◌, map, All,
  ◌==◌, eq_refl,
}
use distributed_workflow_sys.Prelude.Act.{Result, ok, fail, returned, pure, ◌>>=◌}
use distributed_workflow_sys.Redis.{Command, Redis, hset, del, expire}
use distributed_workflow_sys.Redis.Laws.{Keeping, hashes_after}
use distributed_workflow_sys.Task.Cache.{placeholder}
use distributed_workflow_sys.Task.Service.Listing.{put}
use distributed_workflow_sys.Workspace.Cache.{Json, workspace_members_key}
use distributed_workflow_sys.Workspace.MemberCache.{
  decode_members, member_fields, member_commands, get_members, set_members,
}
use distributed_workflow_sys.Workspace.MemberCache.Texts.{
  Member, Written, field_of, Alike, decode_members-cons, decode_members-texts, decode_members-Perm,
}

-- What Redis documents of HVALS: the values of a hash, in no order; a key with fields exists.
pub record Valued {W : Type 0} (rdb : Redis W) (hash : W → String → List (String × String))
    : Type 0 where
  pub a_hash :
      (w : W) (key : String) (field : String × String) (rest : List (String × String))
      → hash w key ≡ field ∷ rest
      → rdb.exists key w ≡ (ok 1, w)
  pub hvals :
      (w : W) (key : String)
      → (vals : List String) × (rdb.hvals key w ≡ (ok vals, w))
        × Perm vals (map (λ f. f.1) (hash w key))

-- No two members have one user id.
abbrev pub Apart : List Member → Type 0
Apart [] = Unit {0}
Apart (m ∷ ms) = All (λ m'. (m.user_id == m'.user_id) ≡ false) ms × Apart ms

-- The members, in any order.
abbrev pub Shown : List Member → Result (Option (List Member)) → Type 0
Shown ms (ok (some found)) = Perm found ms
Shown ms (ok none) = ⊥
Shown ms (fail e) = ⊥

put-fresh :
    (k v : String) (hash : List (String × String))
    → All (λ f. (f.0 == k) ≡ false) hash
    → put k v hash ≡ hash ++ (k, v) ∷ []
put-fresh k v [] h = refl
put-fresh k v ((k', v') ∷ hash) h = rw (h.0) (ap (◌∷◌ (k', v')) (put-fresh k v hash h.1))

hashes_after-del :
    (key : String) (cs : List Command) (hash : List (String × String))
    → hashes_after key (del key ∷ cs) hash ≡ hashes_after key cs []
hashes_after-del key cs hash = rw (eq_refl key) refl

-- The fields of a hash are of other users.
abbrev Fresh : List (String × String) → List Member → Type 0
Fresh hash ms = All (λ f. All (λ m. (f.0 == m.user_id) ≡ false) ms) hash

Fresh-first :
    (m : Member) (ms : List Member) (hash : List (String × String))
    → Fresh hash (m ∷ ms)
    → All (λ f. (f.0 == m.user_id) ≡ false) hash
Fresh-first m ms [] h = tt
Fresh-first m ms (f ∷ hash) h = (h.0.0, Fresh-first m ms hash h.1)

Fresh-next :
    (m : Member) (t : String) (ms : List Member) (hash : List (String × String))
    → Fresh hash (m ∷ ms)
    → All (λ m'. (m.user_id == m'.user_id) ≡ false) ms
    → Fresh (hash ++ (m.user_id, t) ∷ []) ms
Fresh-next m t ms [] h apart = (apart, tt)
Fresh-next m t ms (f ∷ hash) h apart = (h.0.1, Fresh-next m t ms hash h.1 apart)

module _ (json : Json) (text : Member → String) where
  member_fields-map :
      (key : String) (ms : List Member)
      → Written json text ms
      → member_fields json key ms ≡ ok (map (λ m. hset key (field_of text m ∷ [])) ms)
  unfolding member_fields
  member_fields-map key [] written = refl
  member_fields-map key (m ∷ ms) written =
      rw (member_fields, written.0.0)
        (ap
          (λ (r : Result (List Command)). elim r [
            | ok cs ↦ ok (hset key (field_of text m ∷ []) ∷ cs)
            | fail e ↦ fail e
          ])
          (member_fields-map key ms written.1))

  hashes_after-fields :
      (key : String) (ms : List Member) (hash : List (String × String))
      → Apart ms
      → Fresh hash ms
      → hashes_after key (map (λ m. hset key (field_of text m ∷ [])) ms ++ expire key ∷ []) hash
        ≡ hash ++ map (field_of text) ms
  hashes_after-fields key [] hash apart fresh = sym (append-nil hash)
  hashes_after-fields key (m ∷ ms) hash apart fresh =
      ap (hashes_after key (map (λ m'. hset key (field_of text m' ∷ [])) ms ++ expire key ∷ []))
        (rw (eq_refl key) (put-fresh m.user_id (text m) hash (Fresh-first m ms hash fresh)))
      ∙ (hashes_after-fields key ms (hash ++ field_of text m ∷ []) apart.1
            (Fresh-next m (text m) ms hash fresh apart.0)
          ∙ append_assoc hash (field_of text m ∷ []) (map (field_of text) ms))

  Alike-Shown :
      {W : Type 0} (ms : List Member) (r : Result (List Member)) (w : W)
      → Alike (ok ms) r
      → Shown ms ((returned r >>= λ members. pure (some members)) w).0
  Alike-Shown ms (ok ms') w h = Perm.symm h
  Alike-Shown ms (fail e) w h = h

  module _ {W : Type 0} (rdb : Redis W) (set : W → String → List String)
      (hash : W → String → List (String × String)) (keeping : Keeping rdb set hash)
      (valued : Valued rdb hash) (workspace_id : String) where
    get_members-Shown :
        (ms : List Member) (f : String × String) (fs : List (String × String)) (w : W)
        → hash w (workspace_members_key workspace_id) ≡ f ∷ fs
        → decode_members json (map (λ f. f.1) (f ∷ fs)) ≡ ok ms
        → Shown ms (get_members json rdb workspace_id w).0
    unfolding get_members
    get_members-Shown ms f fs w h read =
        let key = workspace_members_key workspace_id in
        let (vals, shown, p) = valued.hvals w key in
        let in_order : Perm (map (λ f. f.1) (f ∷ fs)) vals =
          Perm.symm (subst (λ l. Perm vals (map (λ f. f.1) l)) h p) in
        rw (valued.a_hash w key f fs h, shown)
          (Alike-Shown ms (decode_members json vals) w (
            subst (λ r. Alike r (decode_members json vals)) read
              (decode_members-Perm json (map (λ f. f.1) (f ∷ fs)) vals in_order)))

    -- In a Redis that keeps to its documentation, the members of a workspace that have been cached
    -- are read back, in some order, and an empty list is read back as empty and not as missing, if
    -- no two members have one user id and the JSON text of a member is read back and is not the
    -- placeholder.
    pub set_members-get :
        (ms : List Member) (w w' : W)
        → Apart ms
        → Written json text ms
        → set_members json rdb workspace_id ms w ≡ (ok tt, w')
        → Shown ms (get_members json rdb workspace_id w').0
    unfolding set_members member_commands
    set_members-get [] w w' apart written e =
        let key = workspace_members_key workspace_id in
        get_members-Shown [] (placeholder, placeholder) [] w'
          (keeping.hashes w w'
              (del key ∷ hset key ((placeholder, placeholder) ∷ []) ∷ expire key ∷ []) key e
            ∙ rw (eq_refl key) refl)
          (decode_members-cons json placeholder [] ∙ decode_members-texts json text [] tt)
    set_members-get (m ∷ ms) w w' apart written e =
        let key = workspace_members_key workspace_id in
        let fields = map (λ m'. hset key (field_of text m' ∷ [])) (m ∷ ms) in
        let run : rdb.exec (del key ∷ fields ++ expire key ∷ []) w ≡ (ok tt, w') =
          sym (rw (member_fields-map key (m ∷ ms) written) refl) ∙ e in
        get_members-Shown (m ∷ ms) (field_of text m) (map (field_of text) ms) w'
          (keeping.hashes w w' (del key ∷ fields ++ expire key ∷ []) key run
            ∙ hashes_after-del key (fields ++ expire key ∷ []) (hash w key)
            ∙ hashes_after-fields key (m ∷ ms) [] apart tt)
          (decode_members-texts json text (m ∷ ms) written)
