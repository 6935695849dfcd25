-- ===== src/Cache/Tests.antt =====
-- The cache of internal/cache/cache.go at concrete inputs.
use financentury_backend.Prelude.{
  ◌≤◌, if◌then◌else◌, ◌≡◌, refl, ◌≢◌, ◌⊎◌, Bool, true, false, none, some, List, [], ◌∷◌, Bytes,
  bytes, length, All, arith,
}
use financentury_backend.Prelude.Int.{pos}
use financentury_backend.Cache.Order.{EntryValue}
use financentury_backend.Cache.Invariant.{IsValid}
use financentury_backend.Cache.Writes.{init-IsValid, set-IsValid}
use financentury_backend.Cache.Reference.{view, find_value, of_budget}
use financentury_backend.Cache.History.{Call, run, ref_run, reference, run-ref_run}
use financentury_backend.Cache.Reads.{get-set, get-set_ne, get-eq-some, get-invalidate_budget}
use financentury_backend.Cache.Keys.{
  Key, UuidText, key_string-injective, key_for-injective, HasNoBar,
}
use financentury_backend.Cache.Package
use financentury_backend.Cache
use financentury_backend.Cache.{Cache, init}

abbrev one_entry : Cache
one_entry = Cache.set (bytes "k") (bytes "b") (bytes "data") (pos 10) 5 5 init

one_entry-IsValid : IsValid one_entry
one_entry-IsValid =
    set-IsValid (bytes "k") (bytes "b") (bytes "data") (pos 10) 5 5 init init-IsValid

abbrev calls : List Call
calls =
    Call.set (bytes "k") (bytes "b") (bytes "data") (pos 10) 5 5
    ∷ Call.get (bytes "k") 6
    ∷ Call.get (bytes "k") 16
    ∷ Call.invalidate_budget (bytes "b")
    ∷ Call.set (bytes "k") (bytes "b") (bytes "new") (pos 0) 5 5
    ∷ Call.clear
    ∷ []

run-ref_run_example :
    IsValid (run calls init).0
    × ((reference (run calls init).0, (run calls init).1) ≡ ref_run calls (reference init))
run-ref_run_example = run-ref_run calls init init-IsValid

get-set_example :
    (Cache.get
      (bytes "k")
      15
      (Cache.set (bytes "k") (bytes "b") (bytes "data") (pos 10) 5 6 init)).1
    ≡ some (bytes "data")
get-set_example =
    get-set init (bytes "k") (bytes "b") (bytes "data") 9 5 6 15 init-IsValid (omega arith)
      (omega arith)

get-set_ne_example :
    ((Cache.get
        (bytes "j")
        6
        (Cache.set (bytes "k") (bytes "b") (bytes "new") (pos 10) 5 5 one_entry)).1
      ≡ none)
    ⊎ ((Cache.get
          (bytes "j")
          6
          (Cache.set (bytes "k") (bytes "b") (bytes "new") (pos 10) 5 5 one_entry)).1
        ≡ (Cache.get (bytes "j") 6 one_entry).1)
get-set_ne_example =
    get-set_ne one_entry (bytes "k") (bytes "b") (bytes "new") (bytes "j") 9 5 5 6 one_entry-IsValid
      (ground arith)

get-one_entry : (Cache.get (bytes "k") 15 one_entry).1 ≡ some (bytes "data")
get-one_entry =
    get-set init (bytes "k") (bytes "b") (bytes "data") 9 5 5 15 init-IsValid (omega arith)
      (omega arith)

get-eq-some_example :
    (ev : EntryValue) × (find_value (bytes "k") (view one_entry) ≡ some ev)
    × (ev.data_bytes ≡ bytes "data")
    × (15 ≤ ev.expires_at)
get-eq-some_example = get-eq-some one_entry (bytes "k") 15 one_entry-IsValid get-one_entry

get-invalidate_budget_example :
    (Cache.get (bytes "k") 6 (Cache.invalidate_budget (bytes "b") one_entry)).1
    ≡ elim (find_value (bytes "k") (view one_entry)) [
      | none ↦ none
      | some ev ↦ if of_budget (bytes "b") ev then none else (Cache.get (bytes "k") 6 one_entry).1
    ]
get-invalidate_budget_example =
    get-invalidate_budget one_entry (bytes "b") (bytes "k") 6 one_entry-IsValid

-- Two texts of the form that a UUID has.
abbrev text_of : Bool → Bytes
text_of true = bytes "6ba7b810-9dad-11d1-80b4-00c04fd430c8"
text_of false = bytes "6ba7b811-9dad-11d1-80b4-00c04fd430c8"

text_of-length : (u : Bool) → length (text_of u) ≡ 36
text_of-length true = refl
text_of-length false = refl

text_of-injective : (u w : Bool) → text_of u ≡ text_of w → u ≡ w
text_of-injective true true e = refl
text_of-injective false false e = refl
text_of-injective true false e = ground arith
text_of-injective false true e = ground arith

abbrev two_uuids : UuidText Bool
two_uuids = record {
  text = text_of;
  text-length = text_of-length;
  text-injective = text_of-injective;
}

abbrev summary_key : Key Bool
summary_key = record { budget_id = true; user_id = false; tag = bytes "summary" }

abbrev other_key : Key Bool
other_key = record { budget_id = true; user_id = true; tag = bytes "summary" }

key_string-injective_example : summary_key ≡ summary_key
key_string-injective_example = key_string-injective two_uuids summary_key summary_key refl

no_bars : All (HasNoBar two_uuids) (bytes "summary" ∷ bytes "v1" ∷ [])
no_bars = ground arith

key_for-injective_example :
    (true ≡ true) × (bytes "summary" ∷ bytes "v1" ∷ [] ≡ bytes "summary" ∷ bytes "v1" ∷ [])
key_for-injective_example =
    key_for-injective two_uuids true true (bytes "summary" ∷ bytes "v1" ∷ [])
      (bytes "summary" ∷ bytes "v1" ∷ []) no_bars no_bars refl

keys_differ : summary_key ≢ other_key
keys_differ e = cc

get-set_other_example :
    ((Package.get two_uuids other_key 6
        (Package.set two_uuids summary_key (bytes "data") (pos 10) 5 5 (some one_entry))).1
      ≡ none)
    ⊎ ((Package.get two_uuids other_key 6
          (Package.set two_uuids summary_key (bytes "data") (pos 10) 5 5 (some one_entry))).1
        ≡ (Package.get two_uuids other_key 6 (some one_entry)).1)
get-set_other_example =
    Package.get-set_other two_uuids one_entry summary_key other_key (bytes "data") 9 5 5 6
      one_entry-IsValid keys_differ
