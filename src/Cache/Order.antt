-- ===== src/Cache/Order.antt =====
-- The entries of internal/cache/cache.go and what it uses of `container/list`: a list, front first,
-- of elements with an address each.
pub mod Laws
use financentury_backend.Prelude.{
  ℕ, Bool, true, false, Option, none, some, List, [], ◌∷◌, Bytes, ite, ℕ_discrete, if◌then◌else◌,
}

pub record EntryValue : Type 0 where
  pub key : Bytes
  pub data_bytes : Bytes
  pub expires_at : ℕ
  pub budget_id : Bytes

pub record Element : Type 0 where
  pub addr : ℕ
  pub value : EntryValue

-- `l.Remove(e)`: nothing happens to a list that does not hold the element.
unfoldable pub list_remove : ℕ → List Element → List Element
list_remove a [] = []
list_remove a (e ∷ l) = ite (ℕ_discrete e.addr a) l (e ∷ list_remove a l)

unfoldable pub holds : ℕ → List Element → Bool
holds a [] = false
holds a (e ∷ l) = ite (ℕ_discrete e.addr a) true (holds a l)

-- `l.MoveToFront(e)`
unfoldable pub move_to_front : Element → List Element → List Element
unfolding holds list_remove
move_to_front e l = if holds e.addr l then e ∷ list_remove e.addr l else l

-- `l.Back()`
unfoldable pub back : List Element → Option Element
back [] = none
back (e ∷ []) = some e
back (e ∷ f ∷ l) = back (f ∷ l)
