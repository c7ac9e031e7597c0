-- ===== src/Redis/Laws.antt =====
-- What Redis documents of hashes and sorted sets.
use distributed_workflow_sys.Prelude.{
  ℕ, ◌≡◌, ◌≢◌, refl, ap, ◌∙◌, String, some, false, inl, inr, Bool-cases, List, [], ◌∷◌, keep, take,
  map, not, ◌==◌, if◌then◌else◌, All, eq_iff, arith,
}
use distributed_workflow_sys.Prelude.Act.{ok}
use distributed_workflow_sys.Paging.{behind, sort_desc}
use distributed_workflow_sys.Paging.Order.{self}
use distributed_workflow_sys.Task.Service.Listing.{put, get}
use distributed_workflow_sys.Task.Cache.{text_at}
use distributed_workflow_sys.Redis.{Command, hset, hdel, zadd, zrem, del, expire, Redis, lex_max}

abbrev pub without : String → List String → List String
without m ms = keep (λ x. not (x == m)) ms

-- A set has each member once.
abbrev pub add_members : List String → List String → List String
add_members [] set = set
add_members (m ∷ ms) set = m ∷ without m (add_members ms set)

-- The members of the set at a key after a command, in no order.
abbrev pub set_after : String → Command → List String → List String
set_after key (zadd k ms) set = if k == key then add_members ms set else set
set_after key (zrem k m) set = if k == key then without m set else set
set_after key (del k) set = if k == key then [] else set
set_after key (hset k fields) set = set
set_after key (hdel k field) set = set
set_after key (expire k) set = set

abbrev pub sets_after : String → List Command → List String → List String
sets_after key [] set = set
sets_after key (c ∷ cs) set = sets_after key cs (set_after key c set)

abbrev pub put_all : List (String × String) → List (String × String) → List (String × String)
put_all [] hash = hash
put_all ((field, value) ∷ fields) hash = put_all fields (put field value hash)

abbrev pub remove_field : String → List (String × String) → List (String × String)
remove_field field [] = []
remove_field field ((f, v) ∷ hash) =
    let rest = remove_field field hash in if f == field then rest else (f, v) ∷ rest

-- The fields of the hash at a key after a command.
abbrev pub hash_after : String → Command → List (String × String) → List (String × String)
hash_after key (hset k fields) hash = if k == key then put_all fields hash else hash
hash_after key (hdel k field) hash = if k == key then remove_field field hash else hash
hash_after key (del k) hash = if k == key then [] else hash
hash_after key (zadd k ms) hash = hash
hash_after key (zrem k m) hash = hash
hash_after key (expire k) hash = hash

abbrev pub hashes_after : String → List Command → List (String × String) → List (String × String)
hashes_after key [] hash = hash
hashes_after key (c ∷ cs) hash = hashes_after key cs (hash_after key c hash)

-- `set` and `hash` are the contents of the keys. A read changes nothing; a key without members or
-- fields does not exist; a range gives the members below its bound, from the last on.
pub record Keeping {W : Type 0} (rdb : Redis W) (set : W → String → List String)
    (hash : W → String → List (String × String)) : Type 0 where
  pub sets :
      (w w' : W) (cs : List Command) (key : String)
      → rdb.exec cs w ≡ (ok tt, w')
      → set w' key ≡ sets_after key cs (set w key)
  pub hashes :
      (w w' : W) (cs : List Command) (key : String)
      → rdb.exec cs w ≡ (ok tt, w')
      → hash w' key ≡ hashes_after key cs (hash w key)
  pub no_set :
      (w : W) (key : String) → set w key ≡ [] → hash w key ≡ [] → rdb.exists key w ≡ (ok 0, w)
  pub a_set :
      (w : W) (key m : String) (ms : List String)
      → set w key ≡ m ∷ ms
      → rdb.exists key w ≡ (ok 1, w)
  pub range :
      (w : W) (key m : String) (ms : List String) (cursor : String) (limit : ℕ)
      → set w key ≡ m ∷ ms
      → rdb.zrev_range_by_lex key (lex_max cursor) limit w
        ≡ (ok (take limit (keep (behind self cursor) (sort_desc self (m ∷ ms)))), w)
  pub fields : (w : W) (key : String) → hash w key ≢ [] → rdb.hget_all key w ≡ (ok (hash w key), w)
  pub all_fields :
      (w : W) (keys : List String)
      → All (λ key. set w key ≡ []) keys
      → rdb.hget_alls keys w ≡ (ok (map (hash w) keys), w)

-- Each member stands once.
abbrev pub Distinct : List String → Type 0
Distinct [] = Unit {0}
Distinct (x ∷ xs) = All (λ y. (y == x) ≡ false) xs × Distinct xs

without-All : (m : String) (ms : List String) → All (λ y. (y == m) ≡ false) ms → without m ms ≡ ms
without-All m [] h = refl
without-All m (x ∷ ms) h = rw (h.0) (ap (◌∷◌ x) (without-All m ms h.1))

pub add_members-nil : (ms : List String) → Distinct ms → add_members ms [] ≡ ms
add_members-nil [] h = refl
add_members-nil (m ∷ ms) h =
    ap (λ l. m ∷ without m l) (add_members-nil ms h.1) ∙ ap (◌∷◌ m) (without-All m ms h.0)

pub get-put :
    (j k v : String) (m : List (String × String))
    → get j (put k v m) ≡ (if k == j then some v else get j m)
get-put j k v [] = refl
get-put j k v ((i, w) ∷ m) = ground (arith, eq_iff k j, eq_iff i k, eq_iff i j, get-put j k v m)

pub put-ne-nil : (k v : String) (m : List (String × String)) → put k v m ≢ []
put-ne-nil k v [] = cc
put-ne-nil k v ((k', v') ∷ m) = elim (Bool-cases (k' == k)) [
  | inl same ↦ rw same (cc)
  | inr apart ↦ rw apart (cc)
]

pub text_at-put :
    (j k v : String) (m : List (String × String))
    → text_at j (put k v m) ≡ (if k == j then v else text_at j m)
text_at-put j k v m =
    rw (text_at, get-put j k v m)
      (elim (Bool-cases (k == j)) [ inl same ↦ rw same refl | inr apart ↦ rw apart refl ])
