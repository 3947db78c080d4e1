-- ===== src/Types.antt =====
-- internal/fluxer/types.go. A string or raw JSON is its bytes, a pointer an `Option`, an `int` a ℤ;
-- a slice is a list, with `none` for nil where the program tells nil from empty.
use flx.Prelude.{
  ℕ, Bool, ◌||◌, List, [], ◌∷◌, ◌++◌, Option, Bytes, codes, ℤ, pos, ◌==◌, bytes_eq, if◌then◌else◌,
}

pub record User : Type 0 where
  pub id : Bytes
  pub username : Bytes
  pub discriminator : Bytes
  pub global_name : Option Bytes
  pub avatar : Option Bytes
  pub bot : Bool
  pub system : Bool

abbrev pub PresenceStatus : Type 0
PresenceStatus = Bytes

abbrev pub presence_online : PresenceStatus
presence_online = codes "online"

abbrev pub presence_dnd : PresenceStatus
presence_dnd = codes "dnd"

abbrev pub presence_idle : PresenceStatus
presence_idle = codes "idle"

abbrev pub presence_invisible : PresenceStatus
presence_invisible = codes "invisible"

-- PresenceStatus.Valid
unfoldable pub valid_presence : PresenceStatus → Bool
valid_presence s =
    s == presence_online || (s == presence_dnd || (s == presence_idle || s == presence_invisible))

pub record CustomStatus : Type 0 where
  pub text : Option Bytes
  pub expires_at : Option Bytes
  pub emoji_id : Option Bytes
  pub emoji_name : Option Bytes
  pub emoji_animated : Bool

pub record UserSettings : Type 0 where
  pub status : PresenceStatus
  pub custom_status : Option CustomStatus

-- User.Tag
unfoldable pub tag : User → Bytes
tag u = if u.discriminator == [] then u.username else u.username ++ b'#' ∷ u.discriminator

pub record Relationship : Type 0 where
  pub id : Bytes
  pub kind : ℤ
  pub user : User
  pub since : Bytes
  pub nickname : Option Bytes

abbrev pub relationship_friend : ℤ
relationship_friend = pos 1

pub record Channel : Type 0 where
  pub id : Bytes
  pub guild_id : Bytes
  pub kind : ℤ
  pub name : Bytes
  pub topic : Option Bytes
  pub parent_id : Option Bytes
  pub owner_id : Option Bytes
  pub last_message_id : Option Bytes
  pub recipients : List User

abbrev pub channel_text : ℤ
channel_text = pos 0

abbrev pub channel_dm : ℤ
channel_dm = pos 1

pub record Guild : Type 0 where
  pub id : Bytes
  pub name : Bytes
  pub owner_id : Bytes
  pub channels : Option (List Channel)
  pub unavailable : Bool

pub record Attachment : Type 0 where
  pub id : Bytes
  pub filename : Bytes
  pub title : Option Bytes
  pub description : Option Bytes
  pub content_type : Option Bytes
  pub content_hash : Option Bytes
  pub size : ℤ
  pub url : Option Bytes
  pub proxy_url : Option Bytes
  pub width : Option ℤ
  pub height : Option ℤ
  pub placeholder : Option Bytes
  pub flags : ℤ
  pub nsfw : Option Bool
  pub duration : Option ℤ
  pub waveform : Option Bytes
  pub expires_at : Option Bytes
  pub expired : Option Bool

pub record Message : Type 0 where
  pub id : Bytes
  pub channel_id : Bytes
  pub guild_id : Bytes
  pub author : User
  pub content : Bytes
  pub timestamp : Bytes
  pub edited_timestamp : Option Bytes
  pub kind : ℤ
  pub pinned : Bool
  pub attachments : List Attachment
  pub raw : Bytes

pub record ReadyEvent : Type 0 where
  pub session_id : Bytes
  pub user : User
  pub users : List User
  pub guilds : List Guild
  pub private_channels : List Channel
  pub relationships : List Relationship

-- Event. The time of occurrence is a number of a clock.
pub record Event : Type 0 where
  pub kind : Bytes
  pub sequence : ℤ
  pub channel_id : Bytes
  pub message : Option Message
  pub message_id : Bytes
  pub occurred_at : ℕ
  pub payload : Bytes
  pub dropped : ℕ
  pub reason : Bytes

pub record GatewayPayload : Type 0 where
  pub op : ℤ
  pub d : Bytes
  pub s : Option ℤ
  pub t : Bytes
