-- ===== src/Text/Search.antt =====
-- strings.HasPrefix, bytes.IndexByte and bytes.Index.
use flx.Prelude.{
  ℕ, Bool, true, false, ◌&&◌, [], ◌∷◌, Option, none, some, Bytes, nat_beq, if◌then◌else◌,
}
use flx.Text.Space.{shift}

-- has_prefix prefix s
unfoldable pub has_prefix : Bytes → Bytes → Bool
has_prefix [] s = true
has_prefix (b ∷ p) [] = false
has_prefix (b ∷ p) (c ∷ s) = nat_beq b c && has_prefix p s

unfoldable pub index_byte : ℕ → Bytes → Option ℕ
index_byte b [] = none
index_byte b (c ∷ s) = let rest = index_byte b s in if nat_beq c b then some 0 else shift 1 rest

-- index separator s
unfoldable pub index : Bytes → Bytes → Option ℕ
unfolding has_prefix
index p [] = if has_prefix p [] then some 0 else none
index p (c ∷ s) = let rest = index p s in if has_prefix p (c ∷ s) then some 0 else shift 1 rest
