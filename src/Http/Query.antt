-- ===== src/Http/Query.antt =====
-- The page limit and the cursor of a request.
use distributed_workflow_sys.Prelude.{
  ℕ, zero, suc, ◌≤◌, ◌<◌, ◌≡◌, refl, sym, ap, String, Option, none, some, true, ◌⊎◌, inl, inr,
  Bool-cases, ◌==◌, ne-beq, eq_iff, ◌≢◌, arith,
}
use distributed_workflow_sys.Prelude.Act.{ok}
use distributed_workflow_sys.Http.{
  ℤ, pos, negsuc, atoi, clamp_limit, page_limit, Codec, cursor_of, encode_cursor,
}

clamp_limit_bounds : (o : Option ℤ) → (1 ≤ clamp_limit o) × (clamp_limit o ≤ 20)
unfolding clamp_limit
clamp_limit_bounds none = (omega arith, omega arith)
clamp_limit_bounds (some (pos l)) = ground arith
clamp_limit_bounds (some (negsuc l)) = (omega arith, omega arith)

clamp_limit-within : (l : ℕ) → 1 ≤ l → l ≤ 20 → clamp_limit (some (pos l)) ≡ l
unfolding clamp_limit
clamp_limit-within l h k = ground arith

-- The page limit is the number given, unless that is out of bounds.
abbrev pub Honoured : Option ℤ → ℕ → Type 0
Honoured none limit = limit ≡ 10
Honoured (some (pos zero)) limit = limit ≡ 10
Honoured (some (pos (suc l))) limit = (limit ≡ suc l) ⊎ ((20 < suc l) × (limit ≡ 20))
Honoured (some (negsuc l)) limit = limit ≡ 10

clamp_limit-Honoured : (o : Option ℤ) → Honoured o (clamp_limit o)
unfolding clamp_limit
clamp_limit-Honoured none = refl
clamp_limit-Honoured (some (pos zero)) = refl
clamp_limit-Honoured (some (pos (suc l))) = ground arith
clamp_limit-Honoured (some (negsuc l)) = refl

-- Whatever text a request gives as its limit, the page limit lies between 1 and 20; it is the
-- number that the text says if that lies within these bounds, 20 if it is more, and 10 if it is
-- less or the text says no number.
pub page_limit_bounds :
    (limit_str : String)
    → (1 ≤ page_limit limit_str)
      × (page_limit limit_str ≤ 20)
      × Honoured (atoi limit_str) (page_limit limit_str)
unfolding page_limit atoi
page_limit_bounds limit_str = elim (Bool-cases (limit_str == "")) [
  | inl missing ↦ rw (missing, (eq_iff limit_str "").0 missing) (omega arith, omega arith, refl)
  | inr given ↦ rw given (
    (clamp_limit_bounds (atoi limit_str)).0,
    (clamp_limit_bounds (atoi limit_str)).1,
    clamp_limit-Honoured (atoi limit_str),
  )
]

-- What base64 and UUIDs promise: an encoded text is read back, and is not empty.
pub record Faithful (codec : Codec) : Type 0 where
  pub reads : (s : String) → codec.url_decode (codec.url_encode s) ≡ some s
  pub visible : (s : String) → s ≢ "" → codec.url_encode s ≢ ""

-- Where base64 reads back what it encoded, the next cursor of an answer, sent with the next
-- request, is read as the id that was encoded if that is a UUID, and as the start if there was
-- none.
pub cursor_of-encode_cursor :
    (codec : Codec) (id : String)
    → Faithful codec
    → (id ≢ "" → codec.is_uuid id ≡ true)
    → cursor_of codec (encode_cursor codec id) ≡ ok id
unfolding cursor_of encode_cursor
cursor_of-encode_cursor codec id f uuid = elim (Bool-cases (id == "")) [
  | inl start ↦ rw start (ap ok (sym ((eq_iff id "").0 start)))
  | inr named ↦
      let there : id ≢ "" = λ e. ground (arith, eq_iff id "") in
      rw (named, ne-beq (codec.url_encode id) "" (f.visible id there), f.reads id, uuid there) refl
]
