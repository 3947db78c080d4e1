-- ===== src/Names.antt =====
-- internal/p9fs/tree.go: pathName, shortID and assignNames; internal/render/render.go: safePathName.
pub mod Escape
pub mod Assign
use flx.Prelude.{
  ℕ, zero, suc, ◌+◌, ◌-◌, ◌/◌, ◌%◌, Bool, true, false, ◌&&◌, ◌||◌, List, [], ◌∷◌, ◌++◌, Option,
  none, some, Bytes, codes, ltb, nat_beq, ◌==◌, bytes_eq, if◌then◌else◌, length, drop, Table,
  lookup, put,
}
use flx.Text.Utf8.{Chunk, chunks, concat, rune_error}

-- An upper-case hexadecimal digit.
unfoldable pub hex_digit : ℕ → ℕ
hex_digit n = if ltb n 10 then b'0' + n else b'A' + (n - 10)

-- fmt.Fprintf(&out, "%%%02X", b)
unfoldable pub hex_byte : ℕ → Bytes
unfolding hex_digit
hex_byte b = b'%' ∷ hex_digit (b / 16) ∷ hex_digit (b % 16) ∷ []

hex_bytes : Bytes → Bytes
unfolding hex_byte
hex_bytes [] = []
hex_bytes (b ∷ bs) = hex_byte b ++ hex_bytes bs

-- r == utf8.RuneError && size == 1
unfoldable pub is_undecoded : Chunk → Bool
is_undecoded c = nat_beq c.rune rune_error && nat_beq (length c.raw) 1

unfoldable pub is_reserved : ℕ → Bool
is_reserved r = nat_beq r b'/' || (nat_beq r b'%' || (ltb r 0x20 || nat_beq r 0x7f))

-- One round of the loop of pathName.
path_chunk : Chunk → Bytes
unfolding hex_bytes is_undecoded is_reserved
path_chunk c =
    if is_undecoded c
    then hex_bytes c.raw
    else if is_reserved c.rune
    then hex_bytes c.raw
    else c.raw

path_loop : List Chunk → Bytes → Bytes
unfolding path_chunk
path_loop [] out = out
path_loop (c ∷ cs) out = path_loop cs (out ++ path_chunk c)

finish_name : Bytes → Bytes
finish_name name =
    if name == codes "." then codes "%2E" else if name == codes ".." then codes "%2E%2E" else name

unfoldable pub path_name : Bytes → Bytes
unfolding path_loop finish_name
path_name [] = codes "_"
path_name (b ∷ value) = finish_name (path_loop (chunks (b ∷ value)) [])

-- One round of the loop of safePathName.
safe_chunk : Chunk → Bytes
unfolding hex_bytes is_undecoded is_reserved
safe_chunk c = if is_undecoded c || is_reserved c.rune then hex_bytes c.raw else c.raw

safe_loop : List Chunk → Bytes → Bytes
unfolding safe_chunk
safe_loop [] out = out
safe_loop (c ∷ cs) out = safe_loop cs (out ++ safe_chunk c)

unfoldable pub safe_path_name : Bytes → Bytes
unfolding safe_loop finish_name
safe_path_name [] = codes "_"
safe_path_name (b ∷ value) = finish_name (safe_loop (chunks (b ∷ value)) [])

-- The last six bytes of an identifier.
unfoldable pub short_id : Bytes → Bytes
short_id id = if ltb 6 (length id) then drop (length id - 6) id else id

pub record NamedId : Type 0 where
  pub base : Bytes
  pub id : Bytes

abbrev pub or_zero : Option ℕ → ℕ
or_zero none = 0
or_zero (some n) = n

-- A missing count is zero.
unfoldable pub count_of : Bytes → Table Bytes ℕ → ℕ
count_of base counts = or_zero (lookup base counts)

count_bases : List NamedId → Table Bytes ℕ → Table Bytes ℕ
unfolding count_of
count_bases [] counts = counts
count_bases (item ∷ items) counts =
    count_bases items (put item.base (count_of item.base counts + 1) counts)

name_of : Table Bytes ℕ → NamedId → Bytes
unfolding count_of short_id
name_of counts item =
    if ltb 1 (count_of item.base counts) then item.base ++ b'~' ∷ short_id item.id else item.base

name_items : Table Bytes ℕ → List NamedId → Table Bytes Bytes → Table Bytes Bytes
unfolding name_of
name_items counts [] result = result
name_items counts (item ∷ items) result =
    name_items counts items (put item.id (name_of counts item) result)

unfoldable pub assign_names : List NamedId → Table Bytes Bytes
unfolding count_bases name_items
assign_names items = name_items (count_bases items []) items []
