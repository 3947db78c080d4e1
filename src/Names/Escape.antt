-- ===== src/Names/Escape.antt =====
-- Names of path elements.
use flx.Prelude.{
  ℕ, ◌+◌, ◌-◌, ◌*◌, ◌/◌, ◌%◌, ◌<◌, ◌≤◌, ◌≡◌, ◌≢◌, refl, sym, ap, ◌∙◌, true, false, List, [], ◌∷◌,
  ◌++◌, Bytes, codes, ltb, nat_beq, ◌==◌, bytes_eq, bytes_beq_iff, if◌then◌else◌, All, All-append,
  All-map, All-split, arith, append_assoc, append-nil, Bool-cases, inl, inr,
}
use mathlib.Core.Path.{subst}
use flx.Text.Utf8.Separate.{IsSeparate, IsSeparate-chunks}
use flx.Text.Utf8.{Chunk, chunks, concat}
use flx.Text.Utf8.Decode.{concat-chunks}
use flx.Names.{
  hex_digit, hex_bytes, is_undecoded, is_reserved, path_chunk, path_loop, finish_name, path_name,
  safe_chunk, safe_loop, safe_path_name,
}

safe_chunk-eq : (c : Chunk) → safe_chunk c ≡ path_chunk c
unfolding safe_chunk path_chunk
safe_chunk-eq c = ground arith

safe_loop-eq : (cs : List Chunk) (out : Bytes) → safe_loop cs out ≡ path_loop cs out
unfolding safe_loop path_loop
safe_loop-eq [] out = refl
safe_loop-eq (c ∷ cs) out =
    safe_loop-eq cs (out ++ safe_chunk c) ∙ ap (λ p. path_loop cs (out ++ p)) (safe_chunk-eq c)

-- The two escapes of the program, for directory names and for attachment names, are one function.
pub safe_path_name-eq-path_name : (value : Bytes) → safe_path_name value ≡ path_name value
unfolding safe_path_name path_name
safe_path_name-eq-path_name [] = refl
safe_path_name-eq-path_name (b ∷ value) = ap finish_name (safe_loop-eq (chunks (b ∷ value)) [])

-- A byte that may stand in the name of a path element.
abbrev pub IsPlain : ℕ → Type 0
IsPlain b = (0x20 ≤ b) × (b ≢ b'/') × (b ≢ 0x7f)

IsPlain-hex : (n : ℕ) → n < 16 → (IsPlain (hex_digit n)) × (hex_digit n ≢ b'%')
unfolding hex_digit
IsPlain-hex n h = ground arith

abbrev AreBytes : Bytes → Type 0
AreBytes = All (λ b. b < 256)

IsPlain-hex_bytes : (bs : Bytes) → AreBytes bs → All IsPlain (hex_bytes bs)
unfolding hex_bytes
IsPlain-hex_bytes [] h = tt
IsPlain-hex_bytes (b ∷ bs) h = (
  (omega arith),
  (
    (IsPlain-hex (b / 16) (let lt = h.0 in omega arith)).0,
    ((IsPlain-hex (b % 16) (omega arith)).0, IsPlain-hex_bytes bs h.1),
  ),
)

reserved_ascii : (b : ℕ) → is_reserved b ≡ false → IsPlain b × (b ≢ b'%')
unfolding is_reserved
reserved_ascii b h = ground arith

-- Bytes that the escape copies.
abbrev IsCopied : ℕ → Type 0
IsCopied b = IsPlain b × (b ≢ b'%')

IsCopied-raw : (c : Chunk) → IsSeparate c → is_reserved c.rune ≡ false → All IsCopied c.raw
IsCopied-raw c (inl (b, lt, e)) r =
    subst (λ d. All IsCopied d.raw) (sym e)
      (reserved_ascii b (subst (λ d. is_reserved d.rune ≡ false) e r), tt)
IsCopied-raw c (inr high) r = All-map c.raw (λ b h. omega arith) high

IsPlain-path_chunk : (c : Chunk) → IsSeparate c → AreBytes c.raw → All IsPlain (path_chunk c)
unfolding path_chunk
IsPlain-path_chunk c s bytes = elim (Bool-cases (is_undecoded c)) [
  | inl u ↦ rw u (IsPlain-hex_bytes c.raw bytes)
  | inr u ↦ elim (Bool-cases (is_reserved c.rune)) [
    | inl r ↦ rw (u, r) (IsPlain-hex_bytes c.raw bytes)
    | inr r ↦ rw (u, r) (All-map c.raw (λ b h. h.0) (IsCopied-raw c s r))
  ]
]

IsPlain-path_loop :
    (cs : List Chunk) (out : Bytes)
    → All IsSeparate cs
    → AreBytes (concat cs)
    → All IsPlain out
    → All IsPlain (path_loop cs out)
unfolding path_loop concat
IsPlain-path_loop [] out s bytes h = h
IsPlain-path_loop (c ∷ cs) out (s, ss) bytes h =
    let (first, rest) = All-split (λ b. b < 256) c.raw (concat cs) bytes in
    IsPlain-path_loop cs (out ++ path_chunk c) ss rest
      (All-append IsPlain out (path_chunk c) h (IsPlain-path_chunk c s first))

-- A name that can be an entry of a directory.
pub record IsEntryName (name : Bytes) : Type 0 where
  pub nonempty : name ≢ []
  pub not_dot : name ≢ codes "."
  pub not_dot_dot : name ≢ codes ".."
  pub plain : All IsPlain name

finish_entry : (name : Bytes) → name ≢ [] → All IsPlain name → IsEntryName (finish_name name)
unfolding finish_name
finish_entry name ne plain = elim (Bool-cases (name == codes ".")) [
  | inl e ↦ rw e (record { nonempty = cc; not_dot = cc; not_dot_dot = cc; plain = omega arith })
  | inr e ↦ elim (Bool-cases (name == codes "..")) [
    | inl f ↦
        rw (e, f) (record { nonempty = cc; not_dot = cc; not_dot_dot = cc; plain = omega arith })
    | inr f ↦
        rw (e, f)
          (record {
            nonempty = ne;
            not_dot = ground (arith, bytes_beq_iff name (codes "."));
            not_dot_dot = ground (arith, bytes_beq_iff name (codes ".."));
            plain = plain;
          })
  ]
]

-- The value of a hexadecimal digit.
hex_value : ℕ → ℕ
hex_value d = if ltb d b'A' then d - b'0' else d - b'A' + 10

-- A decoder of percent escapes, to say that nothing is lost.
pub unescape : Bytes → Bytes
unfolding hex_value
unescape [] = []
unescape (c ∷ []) = c ∷ []
unescape (c ∷ d ∷ []) = c ∷ d ∷ []
unescape (c ∷ h ∷ l ∷ s) = elim (nat_beq c b'%') [
  | true ↦ (hex_value h * 16 + hex_value l) ∷ unescape s
  | false ↦ c ∷ unescape (h ∷ l ∷ s)
]

unescape-copied : (c : ℕ) (s : Bytes) → c ≢ b'%' → unescape (c ∷ s) ≡ c ∷ unescape s
unfolding unescape
unescape-copied c [] h = refl
unescape-copied c (d ∷ []) h = refl
unescape-copied c (d ∷ e ∷ s) h = ground arith

hex_value-hex_digit : (n : ℕ) → n < 16 → hex_value (hex_digit n) ≡ n
unfolding hex_value hex_digit
hex_value-hex_digit n h = ground arith

unescape-hex_byte :
    (b : ℕ) (s : Bytes)
    → b < 256
    → unescape (b'%' ∷ hex_digit (b / 16) ∷ hex_digit (b % 16) ∷ s) ≡ b ∷ unescape s
unfolding unescape
unescape-hex_byte b s h =
    ap (λ (v : ℕ). v ∷ unescape s)
      (let hi = hex_value-hex_digit (b / 16) (omega arith) in
        let lo = hex_value-hex_digit (b % 16) (omega arith) in omega arith)

unescape-hex_bytes : (bs s : Bytes) → AreBytes bs → unescape (hex_bytes bs ++ s) ≡ bs ++ unescape s
unfolding hex_bytes
unescape-hex_bytes [] s h = refl
unescape-hex_bytes (b ∷ bs) s (h, hs) =
    unescape-hex_byte b (hex_bytes bs ++ s) h ∙ ap (λ t. b ∷ t) (unescape-hex_bytes bs s hs)

unescape-All_copied : (bs s : Bytes) → All IsCopied bs → unescape (bs ++ s) ≡ bs ++ unescape s
unescape-All_copied [] s h = refl
unescape-All_copied (b ∷ bs) s (h, hs) =
    unescape-copied b (bs ++ s) h.1 ∙ ap (λ t. b ∷ t) (unescape-All_copied bs s hs)

unescape-path_chunk :
    (c : Chunk) (s : Bytes)
    → IsSeparate c
    → AreBytes c.raw
    → unescape (path_chunk c ++ s) ≡ c.raw ++ unescape s
unfolding path_chunk
unescape-path_chunk c s sep bytes = elim (Bool-cases (is_undecoded c)) [
  | inl u ↦ rw u (unescape-hex_bytes c.raw s bytes)
  | inr u ↦ elim (Bool-cases (is_reserved c.rune)) [
    | inl r ↦ rw (u, r) (unescape-hex_bytes c.raw s bytes)
    | inr r ↦ rw (u, r) (unescape-All_copied c.raw s (IsCopied-raw c sep r))
  ]
]

path_loop_append : (cs : List Chunk) (out : Bytes) → path_loop cs out ≡ out ++ path_loop cs []
unfolding path_loop
path_loop_append [] out = sym (append-nil out)
path_loop_append (c ∷ cs) out =
    path_loop_append cs (out ++ path_chunk c)
    ∙ (append_assoc out (path_chunk c) (path_loop cs [])
        ∙ ap (λ t. out ++ t) (sym (path_loop_append cs (path_chunk c))))

unescape-path_loop :
    (cs : List Chunk)
    → All IsSeparate cs
    → AreBytes (concat cs)
    → unescape (path_loop cs []) ≡ concat cs
unfolding path_loop concat
unescape-path_loop [] s bytes = unfold unescape in refl
unescape-path_loop (c ∷ cs) (s, ss) bytes =
    let (first, rest) = All-split (λ b. b < 256) c.raw (concat cs) bytes in
    ap unescape (path_loop_append cs (path_chunk c))
    ∙ (unescape-path_chunk c (path_loop cs []) s first
        ∙ ap (λ t. c.raw ++ t) (unescape-path_loop cs ss rest))

loop_text : (value : Bytes) → AreBytes value → unescape (path_loop (chunks value) []) ≡ value
loop_text value bytes =
    unescape-path_loop (chunks value) (IsSeparate-chunks value)
      (subst AreBytes (sym (concat-chunks value)) bytes)
    ∙ concat-chunks value

loop-ne-nil :
    (b : ℕ) (value : Bytes) → AreBytes (b ∷ value) → path_loop (chunks (b ∷ value)) [] ≢ []
loop-ne-nil b value bytes e =
    let back : unescape [] ≡ b ∷ value =
      subst (λ t. unescape t ≡ b ∷ value) e (loop_text (b ∷ value) bytes) in
    nil_text b value back
  where
    nil_text : (c : ℕ) (s : Bytes) → ¬ (unescape [] ≡ c ∷ s)
    nil_text c s h = unfold unescape in cc h

underscore_entry : IsEntryName (codes "_")
underscore_entry = record { nonempty = cc; not_dot = cc; not_dot_dot = cc; plain = omega arith }

cons_entry :
    (b : ℕ) (value : Bytes)
    → AreBytes (b ∷ value)
    → IsEntryName (finish_name (path_loop (chunks (b ∷ value)) []))
cons_entry b value bytes =
    finish_entry (path_loop (chunks (b ∷ value)) []) (loop-ne-nil b value bytes) (
      IsPlain-path_loop (chunks (b ∷ value)) [] (IsSeparate-chunks (b ∷ value))
        (subst AreBytes (sym (concat-chunks (b ∷ value))) bytes) tt)

-- For any bytes, the name is a usable directory entry: it is not empty, neither "." nor "..", and
-- holds no slash, no control character and no DEL.
pub path_name-IsEntryName :
    (value : Bytes) → All (λ b. b < 256) value → IsEntryName (path_name value)
unfolding path_name
path_name-IsEntryName [] bytes = underscore_entry
path_name-IsEntryName (b ∷ value) bytes = cons_entry b value bytes

unescape-finish_name : (name : Bytes) → unescape (finish_name name) ≡ unescape name
unfolding finish_name
unescape-finish_name name = elim (Bool-cases (name == codes ".")) [
  | inl e ↦ rw e (rw ((bytes_beq_iff name (codes ".")).0 e) (unfold unescape in refl))
  | inr e ↦ elim (Bool-cases (name == codes "..")) [
    | inl f ↦ rw (e, f) (rw ((bytes_beq_iff name (codes "..")).0 f) (unfold unescape in refl))
    | inr f ↦ rw (e, f)
  ]
]

-- Percent decoding the name of a non-empty value gives the value back, so different values have
-- different names.
pub unescape-path_name :
    (value : Bytes) → All (λ b. b < 256) value → value ≢ [] → unescape (path_name value) ≡ value
unfolding path_name
unescape-path_name [] bytes ne = absurd (ne refl)
unescape-path_name (b ∷ value) bytes ne =
    unescape-finish_name (path_loop (chunks (b ∷ value)) []) ∙ loop_text (b ∷ value) bytes
