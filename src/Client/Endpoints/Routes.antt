-- ===== src/Client/Endpoints/Routes.antt =====
-- internal/fluxer/client.go: the requests of the calls that change something, and an independent server
-- that reads them back.
pub mod Reads
use flx.Prelude.{
  ℕ, zero, suc, ◌≡◌, ◌≢◌, refl, sym, ap, ◌∙◌, Bool, true, false, ◌&&◌, List, [], ◌∷◌, ◌++◌,
  append-nil, Option, none, some, Bytes, codes, not, ◌==◌, bytes_eq, nat_beq, All, if◌then◌else◌,
  arith,
}
use flx.Prelude.Keys.{bytes_beq}
use flx.Json.{Json, json_object, json_string, json_number, json_bool, Members, no_members, member}
use flx.Client.{Request}
use flx.Client.Endpoints.{
  method_get, method_post, method_put, method_patch, method_delete, typing_request,
  set_pinned_request, acknowledge_request, send_request, reply_request, edit_request,
  delete_request, add_reaction_request, remove_reaction_request, create_dm_request, channel_path,
  message_path,
}

-- What a user asks for, with the identifiers and texts as they are.
pub data Call : Type 0 where
  create_dm_call : Bytes → Call
  typing_call : Bytes → Call
  pin_call unpin_call : Bytes → Bytes → Call
  acknowledge_call : Bytes → Bytes → Call
  send_call : Bytes → Bytes → Bytes → Call
  reply_call : Bytes → Bytes → Bytes → Bytes → Call
  edit_call : Bytes → Bytes → Bytes → Call
  delete_call : Bytes → Bytes → Call
  add_reaction_call remove_reaction_call : Bytes → Bytes → Bytes → Call

unfoldable pub call_request : (Bytes → Bytes) → Call → Request
call_request esc (create_dm_call recipient) = create_dm_request recipient
call_request esc (typing_call channel) = typing_request esc channel
call_request esc (pin_call channel message) = set_pinned_request esc channel message true
call_request esc (unpin_call channel message) = set_pinned_request esc channel message false
call_request esc (acknowledge_call channel message) = acknowledge_request esc channel message
call_request esc (send_call channel content nonce) = send_request esc channel content nonce
call_request esc (reply_call channel message content nonce) =
    reply_request esc channel message content nonce
call_request esc (edit_call channel message content) = edit_request esc channel message content
call_request esc (delete_call channel message) = delete_request esc channel message
call_request esc (add_reaction_call channel message emoji) =
    add_reaction_request esc channel message emoji
call_request esc (remove_reaction_call channel message emoji) =
    remove_reaction_request esc channel message emoji

-- The parts of a path between its slashes.
extend_first : ℕ → List Bytes → List Bytes
extend_first b [] = (b ∷ []) ∷ []
extend_first b (s ∷ ss) = (b ∷ s) ∷ ss

unfoldable pub segments : Bytes → List Bytes
unfolding extend_first
segments [] = [] ∷ []
segments (b ∷ path) =
    let rest = segments path in if nat_beq b 0x2f then [] ∷ rest else extend_first b rest

-- A member of a body.
find_member : Bytes → Members → Option Json
find_member name no_members = none
find_member name (member n v rest) =
    let others = find_member name rest in if n == name then some v else others

unfoldable pub body_member : Bytes → Option Json → Option Json
unfolding find_member
body_member name (some (json_object members)) = find_member name members
body_member name _ = none

unfoldable pub with_text : Option Json → (Bytes → Option Call) → Option Call
with_text (some (json_string text)) next = next text
with_text _ next = none

is_number : ℕ → Option Json → Bool
is_number n (some (json_number m)) = nat_beq n m
is_number n _ = false

is_flag : Bool → Option Json → Bool
is_flag true (some (json_bool b)) = b
is_flag false (some (json_bool b)) = not b
is_flag _ _ = false

-- A body of one text, and no body.
unfoldable pub with_sole_text : Bytes → Option Json → (Bytes → Option Call) → Option Call
with_sole_text name (some (json_object (member n (json_string text) no_members))) next =
    if n == name then next text else none
with_sole_text _ _ next = none

without_body : Option Json → Call → Option Call
without_body none call = some call
without_body (some _) call = none

-- A message that is posted is not spoken, and it is a reply when it refers to another one, which
-- must be of the same channel.
posted_reply : Bytes → Option Json → (Bytes → Call) → Option Call
unfolding with_text body_member is_number
posted_reply channel reference call =
    with_text (body_member (codes "message_id") reference) (λ message.
      with_text (body_member (codes "channel_id") reference) (λ its_channel.
        if its_channel == channel && is_number 0 (body_member (codes "type") reference)
        then some (call message)
        else none))

posted : Bytes → Option Json → Option Call
unfolding with_text body_member is_flag posted_reply
posted channel body = with_text (body_member (codes "content") body) (λ content.
    with_text (body_member (codes "nonce") body) (λ nonce.
      if is_flag false (body_member (codes "tts") body)
      then elim (body_member (codes "message_reference") body) [
        | none ↦ some (send_call channel content nonce)
        | some reference ↦
            posted_reply channel (some reference)
              (λ message. reply_call channel message content nonce)
      ]
      else none))

on_user : Bytes → Option Json → Bytes → Bytes → Option Call
unfolding with_sole_text
on_user method body who last =
    if method == method_post && (who == codes "@me" && last == codes "channels")
    then with_sole_text (codes "recipient_id") body (λ recipient. some (create_dm_call recipient))
    else none

on_channel : Bytes → Option Json → Bytes → Bytes → Option Call
unfolding posted without_body
on_channel method body channel last =
    if method == method_post && last == codes "typing"
    then without_body body (typing_call channel)
    else if method == method_post && last == codes "messages"
    then posted channel body
    else none

on_one_message : Bytes → Option Json → Bytes → Bytes → Option Call
unfolding with_sole_text without_body
on_one_message method body channel message =
    if method == method_patch
    then with_sole_text (codes "content") body (λ content. some (edit_call channel message content))
    else if method == method_delete
    then without_body body (delete_call channel message)
    else none

on_pin : Bytes → Option Json → Bytes → Bytes → Option Call
unfolding without_body
on_pin method body channel message =
    if method == method_put
    then without_body body (pin_call channel message)
    else if method == method_delete
    then without_body body (unpin_call channel message)
    else none

on_acknowledgement : Bytes → Option Json → Bytes → Bytes → Option Call
unfolding body_member is_number is_flag
on_acknowledgement method body channel message =
    if method == method_post
      && (is_number 0 (body_member (codes "mention_count") body)
          && is_flag true (body_member (codes "manual") body))
    then some (acknowledge_call channel message)
    else none

on_reaction : Bytes → Option Json → Bytes → Bytes → Bytes → Option Call
unfolding without_body
on_reaction method body channel message emoji =
    if method == method_put
    then without_body body (add_reaction_call channel message emoji)
    else if method == method_delete
    then without_body body (remove_reaction_call channel message emoji)
    else none

module _ (unescape : Bytes → Bytes) where
  -- The call of a method, a body and the parts of a path that starts with a slash.
  route_parts : Bytes → Option Json → List Bytes → Option Call
  unfolding on_user on_channel on_one_message on_pin on_acknowledgement on_reaction
  route_parts method body ([] ∷ top ∷ second ∷ third ∷ []) =
      if top == codes "users"
      then on_user method body second third
      else if top == codes "channels"
      then on_channel method body (unescape second) third
      else none
  route_parts method body ([] ∷ top ∷ second ∷ third ∷ fourth ∷ []) =
      if top == codes "channels" && third == codes "pins"
      then on_pin method body (unescape second) (unescape fourth)
      else if top == codes "channels" && third == codes "messages"
      then on_one_message method body (unescape second) (unescape fourth)
      else none
  route_parts method body ([] ∷ top ∷ second ∷ third ∷ fourth ∷ fifth ∷ []) =
      if top == codes "channels" && (third == codes "messages" && fifth == codes "ack")
      then on_acknowledgement method body (unescape second) (unescape fourth)
      else none
  route_parts method body ([] ∷ top ∷ second ∷ third ∷ fourth ∷ fifth ∷ sixth ∷ seventh ∷ []) =
      if (top == codes "channels" && third == codes "messages")
        && (fifth == codes "reactions" && seventh == codes "@me")
      then on_reaction method body (unescape second) (unescape fourth) (unescape sixth)
      else none
  route_parts method body _ = none

  unfoldable pub route : Request → Option Call
  unfolding route_parts segments
  route r = route_parts r.method r.body (segments r.path)

module _ (esc unescape : Bytes → Bytes) where
  -- What is escaped has no slash, and is read back.
  unfoldable pub Escapes : Type 0
  Escapes = ((s : Bytes) → All (λ b. b ≢ 0x2f) (esc s)) × ((s : Bytes) → unescape (esc s) ≡ s)
