-- ===== src/Render/Escape.antt =====
-- internal/render/render.go, escapeContent: the content of a message stays on one line and can be
-- read back.
use flx.Prelude.{
  ℕ, ◌≡◌, ◌≢◌, refl, ◌∙◌, ap, [], ◌∷◌, ◌++◌, Bytes, codes, nat_beq, if◌then◌else◌, All, All-append,
  arith, Bool-cases, inl, inr,
}
use flx.Text.Replace.{replace_byte, replace_byte-append}
use flx.Render.{escape_content}

-- What stands for one byte.
escape_byte : ℕ → Bytes
escape_byte b =
    if nat_beq b 0x5c
    then codes "\\\\"
    else if nat_beq b 0x0d
    then codes "\\r"
    else if nat_beq b 0x0a
    then codes "\\n"
    else if nat_beq b 0x09
    then codes "\\t"
    else b ∷ []

-- The byte that a letter behind a backslash stands for.
letter : ℕ → ℕ
letter c =
    if nat_beq c b'r'
    then 0x0d
    else if nat_beq c b'n'
    then 0x0a
    else if nat_beq c b't'
    then 0x09
    else c

-- The reader of an escaped text.
pub unescape_content : Bytes → Bytes
unfolding letter
unescape_content [] = []
unescape_content (b ∷ []) = b ∷ []
unescape_content (b ∷ c ∷ s) =
    let copied = unescape_content (c ∷ s) in
    let read = unescape_content s in if nat_beq b 0x5c then letter c ∷ read else b ∷ copied

escape_one : (b : ℕ) → escape_content (b ∷ []) ≡ escape_byte b
unfolding escape_content escape_byte replace_byte
escape_one b = ground arith

escape_content-append :
    (s t : Bytes) → escape_content (s ++ t) ≡ escape_content s ++ escape_content t
unfolding escape_content
escape_content-append s t =
    rw (replace_byte-append, replace_byte-append, replace_byte-append, replace_byte-append) refl

escape_content-cons :
    (b : ℕ) (s : Bytes) → escape_content (b ∷ s) ≡ escape_byte b ++ escape_content s
escape_content-cons b s =
    escape_content-append (b ∷ []) s ∙ ap (λ x. x ++ escape_content s) (escape_one b)

-- No byte of the result ends a line or is a tab.
abbrev pub IsInline : ℕ → Type 0
IsInline b = (b ≢ 0x0a) × (b ≢ 0x0d) × (b ≢ 0x09)

escape_byte-IsInline : (b : ℕ) → All IsInline (escape_byte b)
unfolding escape_byte
escape_byte-IsInline b = elim (Bool-cases (nat_beq b 0x5c)) [
  | inl e ↦ rw e (omega arith)
  | inr e ↦ elim (Bool-cases (nat_beq b 0x0d)) [
    | inl f ↦ rw (e, f) (omega arith)
    | inr f ↦ elim (Bool-cases (nat_beq b 0x0a)) [
      | inl g ↦ rw (e, f, g) (omega arith)
      | inr g ↦ elim (Bool-cases (nat_beq b 0x09)) [
        | inl h ↦ rw (e, f, g, h) (omega arith)
        | inr h ↦ rw (e, f, g, h) (ground arith)
      ]
    ]
  ]
]

-- Whatever a message contains, its escaped content holds no line feed, no carriage return and no
-- tab.
pub escape_content-IsInline : (s : Bytes) → All IsInline (escape_content s)
escape_content-IsInline [] = unfold escape_content replace_byte in tt
escape_content-IsInline (b ∷ s) = rw (escape_content-cons b s) (
    All-append IsInline (escape_byte b) (escape_content s) (escape_byte-IsInline b)
      (escape_content-IsInline s))

unescape_content-escape_byte :
    (b : ℕ) (s : Bytes) → unescape_content (escape_byte b ++ s) ≡ b ∷ unescape_content s
unfolding unescape_content escape_byte
unescape_content-escape_byte b [] = ground arith
unescape_content-escape_byte b (c ∷ s) = ground arith

-- Reading the escaped content back gives the content, so two contents are shown alike only if they
-- are the same.
pub unescape_content-escape_content : (s : Bytes) → unescape_content (escape_content s) ≡ s
unescape_content-escape_content [] = unfold escape_content replace_byte unescape_content in refl
unescape_content-escape_content (b ∷ s) = rw (escape_content-cons b s) (
    unescape_content-escape_byte b (escape_content s)
    ∙ ap (λ x. b ∷ x) (unescape_content-escape_content s))
