-- ===== src/Value/Records.antt =====
-- `record_from_unsorted` of crates/core/src/core/types/value.rs.
use mizu_navigator.Prelude.{
  Bool, true, false, ◌&&◌, ◌||◌, List, [], ◌∷◌, ltb, ◌==◌, if◌then◌else◌, Bytes, bytes_eq,
}
use mizu_navigator.Value.{Value, record_of, Fields, no_field, field, hash_field}

-- The order of texts, by bytes
unfoldable pub key_before : Bytes → Bytes → Bool
key_before [] [] = false
key_before [] (d ∷ t) = true
key_before (c ∷ s) [] = false
key_before (c ∷ s) (d ∷ t) = ltb c d || (c == d && key_before s t)

-- A field before the first whose key is not smaller, so that the sort is stable
unfoldable pub insert_field : Bytes → Value → Fields → Fields
insert_field key v no_field = field (hash_field key) key v no_field
insert_field key v (field hash name w fields) =
    let rest = insert_field key v fields in
    if key_before name key
    then field hash name w rest
    else field (hash_field key) key v (field hash name w fields)

unfoldable pub sorted_fields : List (Bytes × Value) → Fields
sorted_fields [] = no_field
sorted_fields ((key, v) ∷ pairs) = insert_field key v (sorted_fields pairs)

-- `dedup_by` after a field that is kept
unfoldable pub dedup_after : Bytes → Fields → Fields
dedup_after key no_field = no_field
dedup_after key (field hash name v fields) =
    let same = dedup_after key fields in
    let other = field hash name v (dedup_after name fields) in
    if bytes_eq name key then same else other

abbrev pub dedup : Fields → Fields
dedup no_field = no_field
dedup (field hash name v fields) = field hash name v (dedup_after name fields)

unfoldable pub record_from_unsorted : List (Bytes × Value) → Value
record_from_unsorted pairs = record_of (dedup (sorted_fields pairs))
