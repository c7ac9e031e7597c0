-- ===== src/Workspace/MemberCache/Texts.antt =====
-- The texts of members, which decode in any order.
use mathlib.Core.HLevel.{⊥_prop}
use mathlib.Core.List.{Perm, Perm-prop, Permᴰ}
use mathlib.Core.Logic.{∥∥₁_elim}
use mathlib.Core.List.Perm
use distributed_workflow_sys.Prelude.{
  ◌≡◌, refl, sym, subst, String, false, inl, inr, Bool-cases, List, [], ◌∷◌, map, All, ◌==◌,
  if◌then◌else◌,
}
use distributed_workflow_sys.Prelude.Act.{Result, ok, fail}
use distributed_workflow_sys.Domain.Workspace.{WorkspaceMemberResponse}
use distributed_workflow_sys.Task.Cache.{placeholder}
use distributed_workflow_sys.Workspace.Cache.{Json}
use distributed_workflow_sys.Workspace.MemberCache.{decode_members}

abbrev pub Member : Type 0
Member = WorkspaceMemberResponse

-- The members are read back from their texts, none of which is the placeholder.
abbrev pub Written : Json → (Member → String) → List Member → Type 0
Written json text ms =
    All
      (λ m.
        (json.marshal m ≡ ok (text m))
        × (json.unmarshal (text m) ≡ ok m)
        × (text m == placeholder) ≡ false)
      ms

abbrev pub field_of : (Member → String) → Member → String × String
field_of text m = (m.user_id, text m)

-- One more text that is read, before the reading of the others.
abbrev pub read_text : Result Member → Result (List Member) → Result (List Member)
read_text (fail e) rest = fail e
read_text (ok m) (ok ms) = ok (m ∷ ms)
read_text (ok m) (fail e) = fail e

-- Where the first reading succeeds, the second does, with the same members in some order.
abbrev pub Alike : Result (List Member) → Result (List Member) → Type 0
Alike (ok ms) (ok ms') = Perm ms ms'
Alike (ok ms) (fail e) = ⊥
Alike (fail e) r = Unit {0}

Alike-refl : (r : Result (List Member)) → Alike r r
Alike-refl (ok ms) = Perm.refl ms
Alike-refl (fail e) = tt

Alike-trans : (r r' r'' : Result (List Member)) → Alike r r' → Alike r' r'' → Alike r r''
Alike-trans (fail e) r' r'' h k = tt
Alike-trans (ok ms) (ok ms') (ok ms'') h k = Perm.trans h k
Alike-trans (ok ms) (ok ms') (fail e) h k = k
Alike-trans (ok ms) (fail e) r'' h k = absurd h

read_text-Alike :
    (t : Result Member) (r r' : Result (List Member))
    → Alike r r'
    → Alike (read_text t r) (read_text t r')
read_text-Alike (fail e) r r' h = tt
read_text-Alike (ok m) (fail e) r' h = tt
read_text-Alike (ok m) (ok ms) (ok ms') h = Perm.cons m h
read_text-Alike (ok m) (ok ms) (fail e) h = h

read_text_swap :
    (t u : Result Member) (r : Result (List Member))
    → Alike (read_text t (read_text u r)) (read_text u (read_text t r))
read_text_swap (fail e) u r = tt
read_text_swap (ok m) (fail e) r = tt
read_text_swap (ok m) (ok m') (fail e) = tt
read_text_swap (ok m) (ok m') (ok ms) = Perm.swap m' m ms

Alike-prop : (r r' : Result (List Member)) → IsProp (Alike r r')
Alike-prop (ok ms) (ok ms') = Perm-prop
Alike-prop (ok ms) (fail e) = ⊥_prop
Alike-prop (fail e) r' = λ x y. refl

module _ (json : Json) where
  abbrev pub read_first : String → Result (List Member) → Result (List Member)
  read_first val rest = if val == placeholder then rest else read_text (json.unmarshal val) rest

  pub decode_members-cons :
      (val : String) (vals : List String)
      → decode_members json (val ∷ vals) ≡ read_first val (decode_members json vals)
  unfolding decode_members
  decode_members-cons val vals = elim (Bool-cases (val == placeholder)) [
    | inl empty ↦ rw empty refl
    | inr real ↦ rw real (by_cases (json.unmarshal val) (decode_members json vals))
  ]
    where
      by_cases :
          (r : Result Member) (rest : Result (List Member))
          → (elim r [
            | ok m ↦ elim rest [ ok ms ↦ ok (m ∷ ms) | fail e ↦ fail e ]
            | fail e ↦ fail e
          ])
            ≡ read_text r rest
      by_cases (ok m) (ok ms) = refl
      by_cases (ok m) (fail e) = refl
      by_cases (fail e) rest = refl

  read_first-Alike :
      (val : String) (r r' : Result (List Member))
      → Alike r r'
      → Alike (read_first val r) (read_first val r')
  read_first-Alike val r r' h = elim (Bool-cases (val == placeholder)) [
    | inl empty ↦ rw empty h
    | inr real ↦ rw real (read_text-Alike (json.unmarshal val) r r' h)
  ]

  read_first_swap :
      (a b : String) (r : Result (List Member))
      → Alike (read_first a (read_first b r)) (read_first b (read_first a r))
  read_first_swap a b r = elim (Bool-cases (a == placeholder)) [
    | inl e ↦ rw e (Alike-refl (read_first b r))
    | inr e ↦ elim (Bool-cases (b == placeholder)) [
      | inl k ↦ rw (e, k) (Alike-refl (read_text (json.unmarshal a) r))
      | inr k ↦ rw (e, k) (read_text_swap (json.unmarshal a) (json.unmarshal b) r)
    ]
  ]

  decode_members-Alike :
      {vals vals' : List String}
      → Permᴰ vals vals'
      → Alike (decode_members json vals) (decode_members json vals')
  decode_members-Alike Permᴰ.nil = Alike-refl (decode_members json [])
  decode_members-Alike (Permᴰ.cons {a} {b} {l₁} {l₂} e p) =
      let same : Alike (decode_members json (b ∷ l₁)) (decode_members json (b ∷ l₂)) =
        rw (decode_members-cons b l₁, decode_members-cons b l₂)
          (read_first-Alike b (decode_members json l₁) (decode_members json l₂)
            (decode_members-Alike p)) in
      subst (λ v. Alike (decode_members json (v ∷ l₁)) (decode_members json (b ∷ l₂))) (sym e) same
  decode_members-Alike (Permᴰ.swap {a} {b} {a'} {b'} {l} e k) =
      let swapped : Alike (decode_members json (a ∷ b ∷ l)) (decode_members json (b ∷ a ∷ l)) =
        rw
          (
            decode_members-cons a (b ∷ l),
            decode_members-cons b l,
            decode_members-cons b (a ∷ l),
            decode_members-cons a l,
          )
          (read_first_swap a b (decode_members json l)) in
      subst (λ v. Alike (decode_members json (a ∷ b ∷ l)) (decode_members json (v ∷ b' ∷ l))) k
        (subst (λ v. Alike (decode_members json (a ∷ b ∷ l)) (decode_members json (b ∷ v ∷ l))) e
          swapped)
  decode_members-Alike (Permᴰ.trans {l₁} {l₂} {l₃} p q) =
      Alike-trans (decode_members json l₁) (decode_members json l₂) (decode_members json l₃)
        (decode_members-Alike p) (decode_members-Alike q)

  pub decode_members-Perm :
      (vals vals' : List String)
      → Perm vals vals'
      → Alike (decode_members json vals) (decode_members json vals')
  decode_members-Perm vals vals' p =
      ∥∥₁_elim p (Alike-prop (decode_members json vals) (decode_members json vals'))
        decode_members-Alike

  pub decode_members-texts :
      (text : Member → String) (ms : List Member)
      → Written json text ms
      → decode_members json (map (λ f. f.1) (map (field_of text) ms)) ≡ ok ms
  unfolding decode_members
  decode_members-texts text [] h = refl
  decode_members-texts text (m ∷ ms) h = rw (h.0.2, h.0.1, decode_members-texts text ms h.1) refl
