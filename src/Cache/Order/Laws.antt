-- ===== src/Cache/Order/Laws.antt =====
-- The order list read by key: with distinct keys and addresses, the removal of an element by its
-- pointer is the removal of its key.
use financentury_backend.Prelude.{
  ◌+◌, ◌≤◌, ◌≡◌, refl, ◌≢◌, true, Option, none, some, List, [], ◌∷◌, Bytes, ite, bytes_discrete,
  arith, All, All-map, length, subst, sym, if_pos, if_neg,
}
use financentury_backend.Cache.Order.{Element, list_remove, holds}

-- The element with a key.
unfoldable pub find_key : Bytes → List Element → Option Element
find_key k [] = none
find_key k (e ∷ l) = ite (bytes_discrete e.value.key k) (some e) (find_key k l)

-- The list without the first element that has the key.
unfoldable pub drop_key : Bytes → List Element → List Element
drop_key k [] = []
drop_key k (e ∷ l) = ite (bytes_discrete e.value.key k) l (e ∷ drop_key k l)

abbrev pub Differ : Element → Element → Type 0
Differ e f = (f.addr ≢ e.addr) × (f.value.key ≢ e.value.key)

abbrev pub Distinct : List Element → Type 0
Distinct [] = Unit
Distinct (e ∷ l) = All (Differ e) l × Distinct l

pub find_key-key :
    (k : Bytes) (l : List Element) {e : Element} → find_key k l ≡ some e → e.value.key ≡ k
unfolding find_key
find_key-key k [] h = cc
find_key-key k (f ∷ l) {e} h = ground (arith, find_key-key k l {e = e})

pub find_key-All :
    (P : Element → Type 0) (k : Bytes) (l : List Element) {e : Element}
    → All P l
    → find_key k l ≡ some e
    → P e
unfolding find_key
find_key-All P k [] a h = cc
find_key-All P k (f ∷ l) {e} (p, a) h = elim (bytes_discrete f.value.key k) [
  | yes q ↦ subst P (ground arith) p
  | no q ↦ find_key-All P k l a (ground arith)
]

pub find_key-absent :
    (k : Bytes) (l : List Element) → All (λ f. f.value.key ≢ k) l → find_key k l ≡ none
unfolding find_key
find_key-absent k [] a = refl
find_key-absent k (f ∷ l) (p, a) = ground (arith, find_key-absent k l a)

pub All-key :
    (f : Element) (j : Bytes) (l : List Element)
    → All (Differ f) l
    → f.value.key ≡ j
    → All (λ e. e.value.key ≢ j) l
All-key f j l a q = All-map (Differ f) (λ e. e.value.key ≢ j) (λ e d. rw (← q) d.1) l a

pub list_remove_found :
    (k : Bytes) (l : List Element) {e : Element}
    → Distinct l
    → find_key k l ≡ some e
    → list_remove e.addr l ≡ drop_key k l
unfolding find_key drop_key list_remove
list_remove_found k [] d h = refl
list_remove_found k (f ∷ l) {e} (a, d) h =
    ground (arith, list_remove_found k l {e = e} d, find_key-All (Differ f) k l {e = e} a)

pub holds_found :
    (k : Bytes) (l : List Element) {e : Element} → find_key k l ≡ some e → holds e.addr l ≡ true
unfolding find_key holds
holds_found k [] h = cc
holds_found k (f ∷ l) {e} h = ground (arith, holds_found k l {e = e})

pub find_key-drop_key :
    (k j : Bytes) (l : List Element)
    → Distinct l
    → find_key j (drop_key k l) ≡ ite (bytes_discrete k j) none (find_key j l)
unfolding find_key drop_key
find_key-drop_key k j [] d = ground arith
find_key-drop_key k j (f ∷ l) (a, d) = ground (
  arith,
  find_key-drop_key k j l d,
  λ (q : f.value.key ≡ j). find_key-absent j l (All-key f j l a q),
)

pub All-drop_key :
    (P : Element → Type 0) (k : Bytes) (l : List Element) → All P l → All P (drop_key k l)
unfolding drop_key
All-drop_key P k [] a = tt
All-drop_key P k (f ∷ l) (p, a) = elim (bytes_discrete f.value.key k) [
  | yes q ↦ rw (if_pos _ q) a
  | no q ↦ rw (if_neg _ q) (p, All-drop_key P k l a)
]

pub Distinct-drop_key : (k : Bytes) (l : List Element) → Distinct l → Distinct (drop_key k l)
unfolding drop_key
Distinct-drop_key k [] d = tt
Distinct-drop_key k (f ∷ l) (a, d) = elim (bytes_discrete f.value.key k) [
  | yes q ↦ rw (if_pos _ q) d
  | no q ↦ rw (if_neg _ q) (All-drop_key (Differ f) k l a, Distinct-drop_key k l d)
]

pub length-drop_key : (k : Bytes) (l : List Element) → length (drop_key k l) ≤ length l
unfolding drop_key
length-drop_key k [] = omega arith
length-drop_key k (f ∷ l) = ground (arith, length-drop_key k l)

pub drop_key_absent : (k : Bytes) (l : List Element) → find_key k l ≡ none → drop_key k l ≡ l
unfolding find_key drop_key
drop_key_absent k [] h = refl
drop_key_absent k (f ∷ l) h = ground (arith, drop_key_absent k l)

pub All-ne_of_find_key-none :
    (k : Bytes) (l : List Element) → find_key k l ≡ none → All (λ f. f.value.key ≢ k) l
unfolding find_key
All-ne_of_find_key-none k [] h = tt
All-ne_of_find_key-none k (f ∷ l) h = (ground arith, All-ne_of_find_key-none k l (ground arith))

-- The other elements differ from the one that is found.
pub drop_key-Differ :
    (k : Bytes) (l : List Element) {e : Element}
    → Distinct l
    → find_key k l ≡ some e
    → All (Differ e) (drop_key k l)
unfolding find_key drop_key
drop_key-Differ k [] d h = tt
drop_key-Differ k (f ∷ l) {e} (a, d) h = elim (bytes_discrete f.value.key k) [
  | yes q ↦
      let same : f ≡ e = ground arith in rw (if_pos _ q) (subst (λ x. All (Differ x) l) same a)
  | no q ↦
      let found : find_key k l ≡ some e = ground arith in
      let differ = find_key-All (Differ f) k l {e = e} a found in
      rw (if_neg _ q)
        (((λ r. differ.0 (sym r)), (λ r. differ.1 (sym r))), drop_key-Differ k l {e = e} d found)
]

pub length-drop_key_found :
    (k : Bytes) (l : List Element) {e : Element}
    → find_key k l ≡ some e
    → length (drop_key k l) + 1 ≡ length l
unfolding find_key drop_key
length-drop_key_found k [] h = cc
length-drop_key_found k (f ∷ l) {e} h = ground (arith, length-drop_key_found k l {e = e})
