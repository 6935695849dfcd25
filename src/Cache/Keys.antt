-- ===== src/Cache/Keys.antt =====
-- `Key.String` and `KeyFor` of internal/cache/cache.go. The text of a UUID is
-- github.com/google/uuid's: 36 bytes, and another text for another UUID.
use mathlib.Core.List.{tail, append-nil}
use financentury_backend.Prelude.{
  ◌≡◌, refl, sym, ap, ap₂, ◌∙◌, ◌≢◌, List, [], ◌∷◌, ◌++◌, Bytes, arith, All, length,
}

append_cancel {ℓ} :
    {A : Type ℓ} (xs ys us vs : List A)
    → length xs ≡ length ys
    → xs ++ us ≡ ys ++ vs
    → (xs ≡ ys) × (us ≡ vs)
append_cancel [] [] us vs h e = (refl, e)
append_cancel [] (y ∷ ys) us vs h e = absurd (omega arith)
append_cancel (x ∷ xs) [] us vs h e = absurd (omega arith)
append_cancel (x ∷ xs) (y ∷ ys) us vs h e =
    let (p, q) = append_cancel xs ys us vs (omega arith) (cc) in (cc, q)

pub record Key (Uuid : Type 0) : Type 0 where
  pub budget_id : Uuid
  pub user_id : Uuid
  pub tag : Bytes

-- The text of a UUID.
pub record UuidText (Uuid : Type 0) : Type 0 where
  pub text : Uuid → Bytes
  pub text-length : (u : Uuid) → length (text u) ≡ 36
  pub text-injective : (u w : Uuid) → text u ≡ text w → u ≡ w

module _ {Uuid : Type 0} (uuid : UuidText Uuid) where
  unfoldable pub key_string : Key Uuid → Bytes
  key_string k = uuid.text k.budget_id ++ (b'|' ∷ uuid.text k.user_id ++ (b'|' ∷ k.tag))

  -- The parts that `KeyFor` appends, each behind a bar.
  unfoldable pub bar_parts : List Bytes → Bytes
  bar_parts [] = []
  bar_parts (p ∷ ps) = b'|' ∷ p ++ bar_parts ps

  unfoldable pub key_for : Uuid → List Bytes → Bytes
  unfolding bar_parts
  key_for b ps = uuid.text b ++ bar_parts ps

  -- Two keys with one string are one key: users, budgets and endpoints never share a slot.
  pub key_string-injective : (k k' : Key Uuid) → key_string k ≡ key_string k' → k ≡ k'
  unfolding key_string
  key_string-injective k k' e =
      let (b, r) =
        append_cancel (uuid.text k.budget_id) (uuid.text k'.budget_id) _ _
          (uuid.text-length k.budget_id ∙ sym (uuid.text-length k'.budget_id)) e in
      let (u, t) =
        append_cancel (b'|' ∷ uuid.text k.user_id) (b'|' ∷ uuid.text k'.user_id) (b'|' ∷ k.tag)
          (b'|' ∷ k'.tag) (omega (arith, uuid.text-length k.user_id, uuid.text-length k'.user_id))
          r in
      let p = uuid.text-injective k.budget_id k'.budget_id b in
      let q = uuid.text-injective k.user_id k'.user_id (ap tail u) in
      let s = ap tail t in λ i. record { budget_id = p i; user_id = q i; tag = s i }

  -- No bar stands in a part.
  abbrev pub HasNoBar : Bytes → Type 0
  HasNoBar p = All (λ c. c ≢ b'|') p

  part-eq :
      (p q : Bytes) (ps qs : List Bytes)
      → HasNoBar p
      → HasNoBar q
      → p ++ bar_parts ps ≡ q ++ bar_parts qs
      → (p ≡ q) × (bar_parts ps ≡ bar_parts qs)
  unfolding bar_parts
  part-eq [] [] ps qs h k e = (refl, e)
  part-eq [] (d ∷ q) [] qs h k e = absurd (cc)
  part-eq [] (d ∷ q) (p ∷ ps) qs h k e = absurd (k.0 (sym (ground arith)))
  part-eq (c ∷ p) [] ps [] h k e = absurd (cc)
  part-eq (c ∷ p) [] ps (q ∷ qs) h k e = absurd (h.0 (ground arith))
  part-eq (c ∷ p) (d ∷ q) ps qs (a, h) (b, k) e =
      let (same, rest) = part-eq p q ps qs h k (ap tail e) in
      let first : c ≡ d = cc in (ap₂ ◌∷◌ first same, rest)

  bar_parts-injective :
      (ps qs : List Bytes)
      → All HasNoBar ps
      → All HasNoBar qs
      → bar_parts ps ≡ bar_parts qs
      → ps ≡ qs
  unfolding bar_parts
  bar_parts-injective [] [] h k e = refl
  bar_parts-injective [] (q ∷ qs) h k e = cc
  bar_parts-injective (p ∷ ps) [] h k e = cc
  bar_parts-injective (p ∷ ps) (q ∷ qs) (a, h) (b, k) e =
      let (same, rest) = part-eq p q ps qs a b (ap tail e) in
      ap₂ ◌∷◌ same (bar_parts-injective ps qs h k rest)

  -- `KeyFor` tells budgets apart, and the parts where no part holds a bar.
  pub key_for-injective :
      (b b' : Uuid) (ps qs : List Bytes)
      → All HasNoBar ps
      → All HasNoBar qs
      → key_for b ps ≡ key_for b' qs
      → (b ≡ b') × (ps ≡ qs)
  unfolding key_for
  key_for-injective b b' ps qs h k e =
      let (same, rest) =
        append_cancel (uuid.text b) (uuid.text b') (bar_parts ps) (bar_parts qs)
          (uuid.text-length b ∙ sym (uuid.text-length b')) e in
      (uuid.text-injective b b' same, bar_parts-injective ps qs h k rest)

  -- The two forms agree: a structured key is the key for a user id and a tag.
  pub key_string-eq-key_for :
      (k : Key Uuid) → key_string k ≡ key_for k.budget_id (uuid.text k.user_id ∷ k.tag ∷ [])
  unfolding key_string key_for
  key_string-eq-key_for k = rw append-nil
