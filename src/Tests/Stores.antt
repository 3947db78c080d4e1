-- ===== src/Tests/Stores.antt =====
-- The store at concrete inputs.
use flx.Prelude.{
  ◌≡◌, refl, true, false, [], ◌∷◌, codes, none, some, pos, ◌==◌, bytes_eq, if◌then◌else◌,
}
use flx.Prelude.Tables.{lookup}
use flx.Prelude.Keys.{bytes_beq}
use flx.Types.{Channel, Guild, channel_text}
use flx.Hub.{new_hub}
use flx.Hub.Safety.{new_hub-IsSound}
use flx.Store.{Store, new_store, zero_user}
use flx.Store.Gateway.{Codec, apply_gateway, apply_channel}
use flx.Store.Gateway.Keyed.{Kept, apply_gateway-Kept, new_store-IsConsistent}
use flx.Store.Gateway.Channels.{find_channel, channels_of, with_channels, find-apply_channel}

-- A guild whose identifier is the payload.
abbrev codec : Codec
codec = record {
  ready = λ d. none;
  message = λ d. none;
  deleted = λ d. none;
  channel = λ d. none;
  relationship = λ d. none;
  relationship_id = λ d. some d;
  guild = λ d. some (record {
    id = d;
    name = codes "guild";
    owner_id = [];
    channels = none;
    unavailable = false;
  });
}

apply_gateway-Kept_example :
    Kept
      (apply_gateway codec 5 (codes "GUILD_CREATE") (pos 1) (codes "42") (new_store (new_hub true)))
apply_gateway-Kept_example =
    apply_gateway-Kept codec 5 (codes "GUILD_CREATE") (pos 1) (codes "42")
      (new_store (new_hub true)) (new_store-IsConsistent (new_hub true) (new_hub-IsSound true))

abbrev channel : Channel
channel = record {
  id = codes "7";
  guild_id = codes "42";
  kind = channel_text;
  name = codes "general";
  topic = none;
  parent_id = none;
  owner_id = none;
  last_message_id = none;
  recipients = [];
}

abbrev guild : Guild
guild = record {
  id = codes "42";
  name = codes "guild";
  owner_id = [];
  channels = some (channel ∷ []);
  unavailable = false;
}

abbrev renamed : Guild
renamed = record guild { name = codes "renamed"; channels = none }

abbrev other_channel : Channel
other_channel = record channel { id = codes "8" }

abbrev store : Store
store = record {
  me = zero_user;
  users = [];
  relationships = [];
  dms = [];
  guilds = (codes "42", guild) ∷ [];
  hub = new_hub true;
  has_observer = true;
  refreshes = 0;
}

guild_known : lookup (codes "42") store.guilds ≡ some guild
unfolding lookup bytes_beq
guild_known = refl

find-apply_channel_example :
    let after = (apply_channel other_channel store).guilds in
    let cs = channels_of (codes "42") after in
    (lookup (codes "42") after ≡ (
      if codes "42" == codes "42"
      then some (with_channels guild cs)
      else lookup (codes "42") store.guilds))
    × (find_channel (codes "8") cs ≡ (
        if codes "8" == codes "8"
        then some other_channel
        else find_channel (codes "8") (channels_of (codes "42") store.guilds)))
find-apply_channel_example =
    find-apply_channel other_channel store guild (codes "8") (codes "42") (cc) guild_known refl
