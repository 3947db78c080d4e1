-- ===== src/Text/Replace.antt =====
-- strings.ReplaceAll for a pattern of one byte.
use flx.Prelude.{
  ℕ, ◌≡◌, refl, [], ◌∷◌, ◌++◌, append_assoc, Bytes, nat_beq, if◌then◌else◌, Bool-cases, inl, inr,
}

unfoldable pub replace_byte : ℕ → Bytes → Bytes → Bytes
replace_byte old new [] = []
replace_byte old new (b ∷ s) =
    let rest = replace_byte old new s in if nat_beq b old then new ++ rest else b ∷ rest

pub replace_byte-append :
    (old : ℕ) (new s t : Bytes)
    → replace_byte old new (s ++ t) ≡ replace_byte old new s ++ replace_byte old new t
unfolding replace_byte
replace_byte-append old new [] t = refl
replace_byte-append old new (b ∷ s) t = elim (Bool-cases (nat_beq b old)) [
  | inl e ↦ rw (e, replace_byte-append old new s t, append_assoc)
  | inr e ↦ rw (e, replace_byte-append old new s t)
]
