-- ===== src/Client/Avatar/Address.antt =====
-- internal/fluxer/client.go, AvatarURL: the addresses of avatars.
use flx.Prelude.{
  ℕ, ◌≤◌, ◌<◌, ◌≡◌, ◌≢◌, refl, true, false, [], ◌∷◌, ◌++◌, Option, none, some, Bytes, codes, ◌==◌,
  bytes_eq, ℤ, pos, negsuc, Result, ok, err, panic, arith, Bool-cases, Option-cases, inl, inr,
}
use flx.Prelude.Keys.{bytes_beq}
use flx.Text.Decimal.{decimal, decimal_ℤ}
use flx.Types.{User}
use flx.Client.Avatar.{
  Assets, AvatarError, mod_six, without_animation, avatar_size, size_allowed, default_avatar_url,
  hash_url, user_avatar_url, avatar_url,
}

-- One of the six default images below the static endpoint, or the image of the avatar's hash below
-- the media endpoint in a size between 16 and 4096.
pub data AvatarUrl (path_escape : Bytes → Bytes) (assets : Assets) (user : User)
    : Bytes → Type 0 where
  default_image :
      (index : ℕ)
      → index < 6
      → assets.static_base ≢ []
      → AvatarUrl path_escape assets user
          (assets.static_base ++ (codes "/avatars/" ++ (decimal index ++ codes ".png")))
  hash_image :
      (hash : Bytes) (size : ℕ)
      → hash ≢ []
      → assets.media_base ≢ []
      → 16 ≤ size
      → size ≤ 4096
      → AvatarUrl path_escape assets user (
          assets.media_base
          ++ (codes "/avatars/"
              ++ (path_escape user.id
                  ++ 0x2f ∷ (path_escape hash ++ (codes ".webp?size=" ++ decimal size)))))

-- An address that is returned is one of those above, and there is no panic.
pub Addresses : (Bytes → Bytes) → Assets → User → Result AvatarError Bytes → Type 0
Addresses path_escape assets user (ok url) = AvatarUrl path_escape assets user url
Addresses path_escape assets user (err e) = Unit
Addresses path_escape assets user panic = ⊥

mod_six_small : (z : ℤ) → mod_six z < 6
unfolding mod_six
mod_six_small (pos n) = omega arith
mod_six_small (negsuc n) = omega arith

size_bounds : (z : ℤ) → size_allowed z ≡ true → (n : ℕ) × (z ≡ pos n) × (16 ≤ n) × (n ≤ 4096)
unfolding size_allowed
size_bounds (pos n) h = (n, refl, ground arith, ground arith)
size_bounds (negsuc n) h = cc

nonempty : (s : Bytes) → (s == []) ≡ false → s ≢ []
unfolding bytes_beq
nonempty s h e = let h' = rw e at h in cc

module _ (path_escape : Bytes → Bytes) (parse_big : Bytes → Option ℤ) (assets : Assets)
    (user : User) where
  default-Addresses :
      Addresses path_escape assets user (default_avatar_url path_escape parse_big assets user)
  unfolding default_avatar_url Addresses
  default-Addresses = elim (Bool-cases (assets.static_base == [])) [
    | inl e ↦ rw e tt
    | inr e ↦ rw e (elim (Option-cases (parse_big user.id)) [
      | inl n ↦ rw n tt
      | inr (id, i) ↦
          rw i (default_image (mod_six id) (mod_six_small id) (nonempty assets.static_base e))
    ])
  ]

  hash-Addresses :
      (avatar : Bytes) (size : ℕ)
      → 16 ≤ size
      → size ≤ 4096
      → Addresses path_escape assets user
          (hash_url path_escape parse_big assets user avatar (pos size))
  unfolding hash_url Addresses
  hash-Addresses avatar size low high = elim (Bool-cases (assets.media_base == [])) [
    | inl e ↦ rw e tt
    | inr e ↦ rw e (elim (Bool-cases (without_animation avatar == [])) [
      | inl h ↦ rw h tt
      | inr h ↦ rw h (
          unfold decimal_ℤ in
          hash_image (without_animation avatar) size (nonempty _ h) (nonempty assets.media_base e)
            low high)
    ])
  ]

  user-Addresses :
      (size : ℕ) (o : Option Bytes)
      → 16 ≤ size
      → size ≤ 4096
      → Addresses path_escape assets user
          (user_avatar_url path_escape parse_big assets user (pos size) o)
  unfolding user_avatar_url
  user-Addresses size none low high = default-Addresses
  user-Addresses size (some avatar) low high = elim (Bool-cases (avatar == [])) [
    | inl h ↦ rw h default-Addresses
    | inr h ↦ rw h (hash-Addresses avatar size low high)
  ]

  -- For every user, size and state of the discovery: there is no panic, and an address that is
  -- returned is one of the six default images below a static endpoint that is not empty, or the image
  -- of a non-empty hash below a media endpoint that is not empty, in a size from 16 to 4096.
  pub avatar_url-Addresses :
      (size : ℤ)
      → Addresses path_escape assets user (avatar_url path_escape parse_big assets user size)
  unfolding avatar_url Addresses
  avatar_url-Addresses size = elim (Bool-cases (user.id == [])) [
    | inl e ↦ rw e tt
    | inr e ↦ rw e (elim (Bool-cases (size_allowed (avatar_size size))) [
      | inl h ↦
          let (n, same, low, high) = size_bounds (avatar_size size) h in
          rw h (rw same (user-Addresses n user.avatar low high))
      | inr h ↦ rw h tt
    ])
  ]
