-- ===== src/Store/Gateway.antt =====
-- internal/core/store.go: ApplyGateway, one function for each group of events. JSON decoding is a
-- parameter: `Codec` has the decoder of each payload type, with `none` for an error.
pub mod Keyed
pub mod Consistent
pub mod Channels
use flx.Prelude.{
  ℕ, Bool, true, false, not, ◌||◌, List, [], ◌∷◌, ◌++◌, Option, none, some, Bytes, codes, ℤ, pos,
  ◌==◌, bytes_eq, if◌then◌else◌, Table, lookup, put, remove, Result, ok, err, panic, ◌>>=◌,
}
use flx.Types.{User, Relationship, Channel, Guild, Message, Event, ReadyEvent}
use flx.Hub.{Hub, publish}
use flx.Store.{
  Store, zero_guild, observe, merge_guild, or_else, put_users, put_dms, put_relationships,
}

pub record Deleted : Type 0 where
  pub id : Bytes
  pub channel_id : Bytes

pub record Codec : Type 0 where
  pub ready : Bytes → Option ReadyEvent
  pub message : Bytes → Option Message
  pub deleted : Bytes → Option Deleted
  pub channel : Bytes → Option Channel
  pub relationship : Bytes → Option Relationship
  pub relationship_id : Bytes → Option Bytes
  pub guild : Bytes → Option Guild

pub data GatewayError : Type 0 where
  bad_payload : GatewayError

-- json.Unmarshal and the early return of its error
abbrev pub decoded : {A : Type 0} → Option A → Result GatewayError A
decoded none = err bad_payload
decoded (some a) = ok a

pub put_available : List Guild → Table Bytes Guild → Table Bytes Guild
put_available [] guilds = guilds
put_available (g ∷ gs) guilds = put_available gs (
    if g.unavailable
    then guilds
    else put g.id (merge_guild (or_else (lookup g.id guilds) zero_guild) g) guilds)

unfoldable pub apply_ready : ReadyEvent → Store → Store
unfolding put_available
apply_ready ready s = observe (record s {
  me = ready.user;
  users =
      put_users ready.users
        (if ready.user.id == [] then s.users else put ready.user.id ready.user s.users);
  relationships = put_relationships ready.relationships s.relationships;
  dms = put_dms ready.private_channels s.dms;
  guilds = put_available ready.guilds s.guilds;
})

unfoldable pub publish_result : Store → Option Hub → Result GatewayError Store
publish_result s none = panic
publish_result s (some hub) = ok (record s { hub = hub })

-- messageEvent
unfoldable pub message_event :
    ℕ → Bytes → ℤ → Bytes → Option Message → Bytes → Bytes → Store → Result GatewayError Store
message_event now event_type sequence payload message id channel_id s = publish_result s (
    publish
      (record {
        kind = event_type;
        sequence = sequence;
        channel_id = channel_id;
        message = message;
        message_id = id;
        occurred_at = now;
        payload = payload;
        dropped = 0;
        reason = [];
      })
      s.hub)

-- The loop that overwrites every channel with the identifier.
unfoldable pub replace_channel : Channel → List Channel → List Channel
replace_channel channel [] = []
replace_channel channel (c ∷ cs) =
    (if c.id == channel.id then channel else c) ∷ replace_channel channel cs

unfoldable pub has_channel : Bytes → List Channel → Bool
has_channel id [] = false
has_channel id (c ∷ cs) = c.id == id || has_channel id cs

unfoldable pub upsert_channel : Channel → List Channel → List Channel
unfolding replace_channel has_channel
upsert_channel channel cs =
    if has_channel channel.id cs then replace_channel channel cs else cs ++ channel ∷ []

upsert_in_guild : Channel → Option Guild → Table Bytes Guild → Table Bytes Guild
upsert_in_guild channel none guilds = guilds
upsert_in_guild channel (some guild) guilds =
    put guild.id
      (record guild { channels = some (upsert_channel channel (or_else guild.channels [])) }) guilds

unfoldable pub apply_channel : Channel → Store → Store
unfolding upsert_in_guild
apply_channel channel s =
    if channel.guild_id == []
    then observe (record s { dms = put channel.id channel s.dms })
    else observe
        (record s { guilds = upsert_in_guild channel (lookup channel.guild_id s.guilds) s.guilds })

unfoldable pub without_channel : Bytes → List Channel → List Channel
without_channel id [] = []
without_channel id (c ∷ cs) =
    let rest = without_channel id cs in if c.id == id then rest else c ∷ rest

filtered : Bytes → Option (List Channel) → Option (List Channel)
unfolding without_channel
filtered id none = none
filtered id (some cs) = some (without_channel id cs)

delete_in_guild : Channel → Option Guild → Table Bytes Guild → Table Bytes Guild
unfolding filtered
delete_in_guild channel none guilds = guilds
delete_in_guild channel (some guild) guilds =
    put guild.id (record guild { channels = filtered channel.id guild.channels }) guilds

unfoldable pub delete_channel : Channel → Store → Store
unfolding delete_in_guild
delete_channel channel s = observe (record s {
  dms = remove channel.id s.dms;
  guilds = delete_in_guild channel (lookup channel.guild_id s.guilds) s.guilds;
})

unfoldable pub apply_relationship : Relationship → Store → Store
apply_relationship rel s = observe (record s {
  relationships = put rel.id rel s.relationships;
  users = if rel.user.id == [] then s.users else put rel.user.id rel.user s.users;
})

unfoldable pub remove_relationship : Bytes → Store → Store
remove_relationship id s = observe (record s { relationships = remove id s.relationships })

unfoldable pub apply_guild : Guild → Store → Store
apply_guild guild s = observe (record s {
  guilds =
      put guild.id (merge_guild (or_else (lookup guild.id s.guilds) zero_guild) guild) s.guilds;
})

unfoldable pub delete_guild : Guild → Store → Store
delete_guild guild s = observe (record s { guilds = remove guild.id s.guilds })

-- ApplyGateway
module _ (codec : Codec) (now : ℕ) (event_type : Bytes) (sequence : ℤ) (payload : Bytes) where
  on_message : Message → Store → Result GatewayError Store
  on_message message s =
      message_event now event_type sequence payload (some (record message { raw = payload }))
        message.id message.channel_id s

  on_deleted : Deleted → Store → Result GatewayError Store
  on_deleted deleted s =
      message_event now event_type sequence payload none deleted.id deleted.channel_id s

  unfoldable pub apply_gateway : Store → Result GatewayError Store
  unfolding on_message on_deleted
  apply_gateway s =
      if event_type == codes "READY"
      then (do v ← decoded (codec.ready payload); ok (apply_ready v s))
      else if event_type == codes "MESSAGE_CREATE" || event_type == codes "MESSAGE_UPDATE"
      then (do v ← decoded (codec.message payload); on_message v s)
      else if event_type == codes "MESSAGE_DELETE"
      then (do v ← decoded (codec.deleted payload); on_deleted v s)
      else if event_type == codes "CHANNEL_CREATE" || event_type == codes "CHANNEL_UPDATE"
      then (do v ← decoded (codec.channel payload); ok (apply_channel v s))
      else if event_type == codes "CHANNEL_DELETE"
      then (do v ← decoded (codec.channel payload); ok (delete_channel v s))
      else if event_type == codes "RELATIONSHIP_ADD" || event_type == codes "RELATIONSHIP_UPDATE"
      then (do v ← decoded (codec.relationship payload); ok (apply_relationship v s))
      else if event_type == codes "RELATIONSHIP_REMOVE"
      then (do v ← decoded (codec.relationship_id payload); ok (remove_relationship v s))
      else if event_type == codes "GUILD_CREATE" || event_type == codes "GUILD_UPDATE"
      then (do v ← decoded (codec.guild payload); ok (apply_guild v s))
      else if event_type == codes "GUILD_DELETE"
      then (do v ← decoded (codec.guild payload); ok (delete_guild v s))
      else ok s
