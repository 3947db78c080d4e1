-- ===== src/Client/Endpoints.antt =====
-- internal/fluxer/client.go: the requests of the API calls. `path_escape` is url.PathEscape.
pub mod Routes
use flx.Prelude.{
  ℕ, Bool, true, false, List, [], ◌∷◌, ◌++◌, Option, none, some, Bytes, codes, ◌==◌, bytes_eq, ℤ,
  pos, negsuc, ltb, leb, Result, ok, err, if◌then◌else◌,
}
use flx.Text.Decimal.{decimal}
use flx.Text.Space.{trim_space}
use flx.Types.{PresenceStatus, valid_presence}
use flx.Json.{
  Json, json_null, json_bool, json_number, json_string, json_object, Members, no_members, member,
}
use flx.Client.{Request, ClientError, invalid_argument}

abbrev pub method_get : Bytes
method_get = codes "GET"

abbrev pub method_post : Bytes
method_post = codes "POST"

abbrev pub method_put : Bytes
method_put = codes "PUT"

abbrev pub method_patch : Bytes
method_patch = codes "PATCH"

abbrev pub method_delete : Bytes
method_delete = codes "DELETE"

-- An object with one member, and a value in a list of members.
abbrev pub object : Members → Option Json
object members = some (json_object members)

abbrev pub text_member : Bytes → Bytes → Members → Members
text_member name value rest = member name (json_string value) rest

unfoldable pub me_request : Request
me_request = record { method = method_get; path = codes "/users/@me"; body = none }

unfoldable pub set_avatar_request : Bytes → Request
set_avatar_request encoded = record {
  method = method_patch;
  path = codes "/users/@me";
  body = object (text_member (codes "avatar") encoded no_members);
}

unfoldable pub settings_request : Request
settings_request = record { method = method_get; path = codes "/users/@me/settings"; body = none }

unfoldable pub set_status_request : PresenceStatus → Result ClientError Request
set_status_request status =
    if valid_presence status
    then ok (record {
      method = method_patch;
      path = codes "/users/@me/settings";
      body = object (text_member (codes "status") status no_members);
    })
    else err invalid_argument

custom_status_body : Json → Request
custom_status_body status = record {
  method = method_patch;
  path = codes "/users/@me/settings";
  body = object (member (codes "custom_status") status no_members);
}

unfoldable pub set_custom_status_request : Option Bytes → Result ClientError Request
unfolding custom_status_body
set_custom_status_request none = ok (custom_status_body json_null)
set_custom_status_request (some text) =
    if trim_space text == []
    then err invalid_argument
    else ok (
        custom_status_body (
          json_object
            (text_member (codes "text") text (member (codes "expires_at") json_null no_members))))

unfoldable pub relationships_request : Request
relationships_request = record {
  method = method_get;
  path = codes "/users/@me/relationships";
  body = none;
}

unfoldable pub private_channels_request : Request
private_channels_request = record {
  method = method_get;
  path = codes "/users/@me/channels";
  body = none;
}

-- if limit < 1 { limit = 1 }; if limit > most { limit = most }
unfoldable pub clamp_limit : ℕ → ℤ → ℕ
clamp_limit most (pos n) = if ltb n 1 then 1 else if ltb most n then most else n
clamp_limit most (negsuc n) = 1

unfoldable pub create_dm_request : Bytes → Request
create_dm_request recipient_id = record {
  method = method_post;
  path = codes "/users/@me/channels";
  body = object (text_member (codes "recipient_id") recipient_id no_members);
}

module _ (path_escape : Bytes → Bytes) where
  channel_path : Bytes → Bytes → Bytes
  channel_path channel_id rest = codes "/channels/" ++ (path_escape channel_id ++ rest)

  message_path : Bytes → Bytes → Bytes → Bytes
  unfolding channel_path
  message_path channel_id message_id rest =
      channel_path channel_id (codes "/messages/" ++ (path_escape message_id ++ rest))

  unfoldable pub guild_channels_request : Bytes → Request
  guild_channels_request guild_id = record {
    method = method_get;
    path = codes "/guilds/" ++ (path_escape guild_id ++ codes "/channels");
    body = none;
  }

  unfoldable pub messages_request : Bytes → ℤ → Request
  unfolding channel_path clamp_limit
  messages_request channel_id limit = record {
    method = method_get;
    path = channel_path channel_id (codes "/messages?limit=" ++ decimal (clamp_limit 100 limit));
    body = none;
  }

  unfoldable pub message_request : Bytes → Bytes → Request
  unfolding message_path
  message_request channel_id message_id = record {
    method = method_get;
    path = message_path channel_id message_id [];
    body = none;
  }

  unfoldable pub pinned_messages_request : Bytes → ℤ → Request
  unfolding channel_path clamp_limit
  pinned_messages_request channel_id limit = record {
    method = method_get;
    path =
        channel_path channel_id (codes "/messages/pins?limit=" ++ decimal (clamp_limit 50 limit));
    body = none;
  }

  unfoldable pub typing_request : Bytes → Request
  unfolding channel_path
  typing_request channel_id = record {
    method = method_post;
    path = channel_path channel_id (codes "/typing");
    body = none;
  }

  unfoldable pub set_pinned_request : Bytes → Bytes → Bool → Request
  unfolding channel_path
  set_pinned_request channel_id message_id pinned = record {
    method = if pinned then method_put else method_delete;
    path = channel_path channel_id (codes "/pins/" ++ path_escape message_id);
    body = none;
  }

  unfoldable pub acknowledge_request : Bytes → Bytes → Request
  unfolding message_path
  acknowledge_request channel_id message_id = record {
    method = method_post;
    path = message_path channel_id message_id (codes "/ack");
    body = object (
        member (codes "mention_count") (json_number 0)
          (member (codes "manual") (json_bool true) no_members));
  }

  unfoldable pub send_request : Bytes → Bytes → Bytes → Request
  unfolding channel_path
  send_request channel_id content nonce = record {
    method = method_post;
    path = channel_path channel_id (codes "/messages");
    body = object (
        text_member (codes "content") content
          (text_member (codes "nonce") nonce (member (codes "tts") (json_bool false) no_members)));
  }

  unfoldable pub reply_request : Bytes → Bytes → Bytes → Bytes → Request
  unfolding channel_path
  reply_request channel_id message_id content nonce = record {
    method = method_post;
    path = channel_path channel_id (codes "/messages");
    body = object (
        text_member (codes "content") content (
          text_member (codes "nonce") nonce (
            member (codes "tts") (json_bool false) (
              member (codes "message_reference")
                (json_object (
                  text_member (codes "message_id") message_id (
                    text_member (codes "channel_id") channel_id
                      (member (codes "type") (json_number 0) no_members))))
                no_members))));
  }

  unfoldable pub edit_request : Bytes → Bytes → Bytes → Request
  unfolding message_path
  edit_request channel_id message_id content = record {
    method = method_patch;
    path = message_path channel_id message_id [];
    body = object (text_member (codes "content") content no_members);
  }

  unfoldable pub delete_request : Bytes → Bytes → Request
  unfolding message_path
  delete_request channel_id message_id = record {
    method = method_delete;
    path = message_path channel_id message_id [];
    body = none;
  }

  unfoldable pub add_reaction_request : Bytes → Bytes → Bytes → Request
  unfolding message_path
  add_reaction_request channel_id message_id emoji = record {
    method = method_put;
    path =
        message_path channel_id message_id
          (codes "/reactions/" ++ (path_escape emoji ++ codes "/@me"));
    body = none;
  }

  unfoldable pub remove_reaction_request : Bytes → Bytes → Bytes → Request
  unfolding message_path
  remove_reaction_request channel_id message_id emoji = record {
    method = method_delete;
    path =
        message_path channel_id message_id
          (codes "/reactions/" ++ (path_escape emoji ++ codes "/@me"));
    body = none;
  }
