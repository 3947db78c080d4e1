-- ===== src/Tests/Naming.antt =====
-- The entry names at concrete inputs.
use flx.Prelude.{◌≡◌, ◌<◌, ◌↔◌, refl, [], ◌∷◌, Bytes, codes, some, All, lookup, bytes_eq, arith}
use flx.Names.{NamedId, path_name, safe_path_name, assign_names, short_id}
use flx.Names.Escape.{
  unescape, IsEntryName, unescape-path_name, path_name-IsEntryName, safe_path_name-eq-path_name,
}
use flx.Names.Assign.{expected_name, assign_names-lookup, assign_names-collision}

abbrev value : Bytes
value = codes "a/b %"

value_bytes : All (λ b. b < 256) value
value_bytes = omega arith

unescape-path_name_example : unescape (path_name value) ≡ value
unescape-path_name_example = unescape-path_name value value_bytes (cc)

path_name-IsEntryName_example : IsEntryName (path_name value)
path_name-IsEntryName_example = path_name-IsEntryName value value_bytes

safe_path_name-eq-path_name_example : safe_path_name value ≡ path_name value
safe_path_name-eq-path_name_example = safe_path_name-eq-path_name value

-- Two identifiers that end alike.
abbrev one : NamedId
one = record { base = codes "ann"; id = codes "1000001" }

abbrev two : NamedId
two = record { base = codes "ann"; id = codes "10000010000001" }

assign_names-lookup_example :
    lookup (codes "1000001") (assign_names (one ∷ two ∷ []))
    ≡ some (expected_name (one ∷ two ∷ []) one)
assign_names-lookup_example = assign_names-lookup [] one (two ∷ []) ((cc), tt)

assign_names-collision_example :
    let names = assign_names (one ∷ two ∷ []) in
    (lookup (codes "1000001") names ≡ lookup (codes "10000010000001") names)
    ↔ (short_id (codes "1000001") ≡ short_id (codes "10000010000001"))
assign_names-collision_example = assign_names-collision [] one [] two [] refl ((cc), tt) tt
