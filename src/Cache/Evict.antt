-- ===== src/Cache/Evict.antt =====
-- The eviction loop of `setLocked` in internal/cache/cache.go: it keeps the front of the order.
use financentury_backend.Prelude.{
  ℕ, zero, suc, ◌-◌, ◌≤◌, ◌<◌, ◌≡◌, refl, sym, ap, ◌∙◌, inl, inr, Bool-cases, Option-cases, none,
  some, List, [], ◌∷◌, arith, length, take, take_of_length-le, ltb, if_neg,
}
use financentury_backend.Cache.Order.{Element, back}
use financentury_backend.Cache.Order.Laws.{find_key, drop_key, Differ, Distinct, find_key-All}
use financentury_backend.Cache.Invariant.{
  IsConsistent, remove_element-order, remove_element-IsConsistent,
}
use financentury_backend.Cache.{Cache, max_entries, remove_element, evict_loop, evict}

drop_last : List Element → List Element
drop_last [] = []
drop_last (e ∷ []) = []
drop_last (e ∷ f ∷ l) = e ∷ drop_last (f ∷ l)

length-drop_last : (l : List Element) → length (drop_last l) ≡ length l - 1
unfolding drop_last
length-drop_last [] = refl
length-drop_last (e ∷ []) = refl
length-drop_last (e ∷ f ∷ l) = omega (arith, length-drop_last (f ∷ l))

take-drop_last : (n : ℕ) (l : List Element) → n < length l → take n (drop_last l) ≡ take n l
unfolding drop_last
take-drop_last zero l h = refl
take-drop_last (suc n) (e ∷ []) h = absurd (omega arith)
take-drop_last (suc n) (e ∷ f ∷ l) h = ap (◌∷◌ e) (take-drop_last n (f ∷ l) (omega arith))
take-drop_last (suc n) [] h = absurd (omega arith)

back_found :
    (l : List Element) {e : Element}
    → Distinct l
    → back l ≡ some e
    → find_key e.value.key l ≡ some e
unfolding back find_key
back_found [] d h = cc
back_found (x ∷ []) d h = ground arith
back_found (x ∷ y ∷ l) {e} (a, d) h =
    let found = back_found (y ∷ l) {e = e} d h in
    let differ = find_key-All (Differ x) e.value.key (y ∷ l) {e = e} a found in
    rw (if_neg _ (λ q. differ.1 (sym q))) found

drop_key-back :
    (l : List Element) {e : Element}
    → Distinct l
    → back l ≡ some e
    → drop_key e.value.key l ≡ drop_last l
unfolding back drop_key drop_last
drop_key-back [] d h = refl
drop_key-back (x ∷ []) d h = ground arith
drop_key-back (x ∷ y ∷ l) {e} (a, d) h =
    let differ = find_key-All (Differ x) e.value.key (y ∷ l) {e = e} a (back_found (y ∷ l) d h) in
    rw (if_neg _ (λ q. differ.1 (sym q))) (ap (◌∷◌ x) (drop_key-back (y ∷ l) {e = e} d h))

back-none : (l : List Element) → back l ≡ none → length l ≡ 0
unfolding back
back-none [] h = refl
back-none (x ∷ []) h = cc
back-none (x ∷ y ∷ l) h = absurd (omega (arith, back-none (y ∷ l) h))

-- With fuel for each element the loop ends under the cap, and drops from the back only.
evict_loop_lem :
    (fuel : ℕ) (c : Cache)
    → IsConsistent c
    → length c.order ≤ fuel
    → IsConsistent (evict_loop fuel c) × ((evict_loop fuel c).order ≡ take max_entries c.order)
unfolding evict_loop
evict_loop_lem zero c v h = (v, sym (take_of_length-le max_entries c.order (omega arith)))
evict_loop_lem (suc fuel) c v h = elim (Bool-cases (ltb max_entries (length c.order))) [
  | inr within ↦
      rw (within, evict_loop) (v, sym (take_of_length-le max_entries c.order (ground arith)))
  | inl over ↦ elim (Option-cases (back c.order)) [
    | inl empty ↦ absurd (ground (arith, back-none c.order empty))
    | inr (e, last) ↦
        let found = back_found c.order v.distinct last in
        let same =
          remove_element-order c e e.value.key v found ∙ drop_key-back c.order v.distinct last in
        let (v', o) =
          evict_loop_lem fuel (remove_element e c)
            (remove_element-IsConsistent c e e.value.key v found)
            (omega (arith, ap length same, length-drop_last c.order)) in
        rw (over, evict_loop)
          (rw (last, evict_loop)
            (
              v',
              o ∙ ap (take max_entries) same ∙ take-drop_last max_entries c.order (ground arith),
            ))
  ]
]

module _ (c : Cache) (v : IsConsistent c) where
  pub evict-IsConsistent : IsConsistent (evict c)
  unfolding evict
  evict-IsConsistent = (evict_loop_lem (length c.order) c v (omega arith)).0

  pub evict-order : (evict c).order ≡ take max_entries c.order
  unfolding evict
  evict-order = (evict_loop_lem (length c.order) c v (omega arith)).1
