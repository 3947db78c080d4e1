-- ===== src/Client/Avatar.antt =====
-- internal/fluxer/client.go: Discovery, AvatarURL and Avatar.
pub mod Address
use flx.Prelude.{
  ℕ, zero, suc, ◌+◌, ◌-◌, ◌%◌, ◌*◌, ◌^◌, Bool, true, false, ◌||◌, not, List, [], ◌∷◌, ◌++◌, Option,
  none, some, Bytes, codes, ◌==◌, bytes_eq, ℤ, pos, negsuc, ltb_ℤ, beq_ℤ, ltb, leb, nat_beq, length,
  Result, ok, err, panic, if◌then◌else◌,
}
use flx.Text.Decimal.{decimal, decimal_ℤ}
use flx.Types.{User}
use flx.Client.{Sent, not_sent, unreadable, replied}

-- The fields that Discovery sets.
pub record Assets : Type 0 where
  pub media_base : Bytes
  pub static_base : Bytes

-- strings.TrimRight(s, "/")
trim_slashes : Bytes → Bytes
trim_slashes [] = []
trim_slashes (b ∷ s) =
    let rest = trim_slashes s in
    if rest == [] then (if nat_beq b 0x2f then [] else b ∷ []) else b ∷ rest

-- The two endpoints of a successful Discovery.
unfoldable pub discovered : Bytes → Bytes → Assets
unfolding trim_slashes
discovered media static_cdn = record {
  media_base = trim_slashes media;
  static_base = trim_slashes static_cdn;
}

pub data AvatarError : Type 0 where
  no_id bad_size no_static_endpoint bad_id no_media_endpoint empty_hash : AvatarError
  not_fetched not_read too_large empty_response : AvatarError
  fetch_refused : ℕ → AvatarError

-- Mod of math/big by six, which is not negative.
unfoldable pub mod_six : ℤ → ℕ
mod_six (pos n) = n % 6
mod_six (negsuc n) = 5 - n % 6

-- strings.TrimPrefix(s, "a_")
unfoldable pub without_animation : Bytes → Bytes
without_animation (b ∷ c ∷ s) =
    if nat_beq b b'a' then (if nat_beq c b'_' then s else b ∷ c ∷ s) else b ∷ c ∷ s
without_animation s = s

-- if size == 0 { size = 160 }
unfoldable pub avatar_size : ℤ → ℤ
avatar_size size = if beq_ℤ size (pos 0) then pos 160 else size

unfoldable pub size_allowed : ℤ → Bool
size_allowed size = not (ltb_ℤ size (pos 16) || ltb_ℤ (pos 4096) size)

module _ (path_escape : Bytes → Bytes) (parse_big : Bytes → Option ℤ) where
  unfoldable pub default_avatar_url : Assets → User → Result AvatarError Bytes
  unfolding mod_six
  default_avatar_url assets user =
      if assets.static_base == [] then err no_static_endpoint else elim (parse_big user.id) [
        | none ↦ err bad_id
        | some id ↦
            ok (assets.static_base ++ (codes "/avatars/" ++ (decimal (mod_six id) ++ codes ".png")))
      ]

  unfoldable pub hash_url : Assets → User → Bytes → ℤ → Result AvatarError Bytes
  unfolding without_animation
  hash_url assets user avatar size =
      if assets.media_base == []
      then err no_media_endpoint
      else if without_animation avatar == []
      then err empty_hash
      else ok (
          assets.media_base
          ++ (codes "/avatars/"
              ++ (path_escape user.id
                  ++ 0x2f
                    ∷ (path_escape (without_animation avatar)
                        ++ (codes ".webp?size=" ++ decimal_ℤ size)))))

  -- The address for the avatar of the user.
  unfoldable pub user_avatar_url : Assets → User → ℤ → Option Bytes → Result AvatarError Bytes
  unfolding default_avatar_url hash_url
  user_avatar_url assets user size none = default_avatar_url assets user
  user_avatar_url assets user size (some avatar) =
      if avatar == [] then default_avatar_url assets user else hash_url assets user avatar size

  unfoldable pub avatar_url : Assets → User → ℤ → Result AvatarError Bytes
  unfolding user_avatar_url avatar_size size_allowed
  avatar_url assets user size =
      if user.id == []
      then err no_id
      else if size_allowed (avatar_size size)
      then user_avatar_url assets user (avatar_size size) user.avatar
      else err bad_size

-- The outcome of the fetch of an avatar; at most 16 MiB and one byte are read.
unfoldable pub avatar_outcome : Sent → Result AvatarError Bytes
avatar_outcome not_sent = err not_fetched
avatar_outcome unreadable = err not_read
avatar_outcome (replied r) =
    if ltb r.status 200 || leb 300 r.status
    then err (fetch_refused r.status)
    else if ltb (16 * 2 ^ 20) (length r.payload)
    then err too_large
    else if r.payload == []
    then err empty_response
    else ok r.payload
