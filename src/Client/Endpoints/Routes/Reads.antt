-- ===== src/Client/Endpoints/Routes/Reads.antt =====
-- The server reads every request of internal/fluxer/client.go back that changes something.
use flx.Prelude.{
  ℕ, ◌≡◌, ◌≢◌, refl, ap, ◌∙◌, Bool, true, false, ◌&&◌, List, [], ◌∷◌, ◌++◌, append-nil, some, Bytes,
  codes, not, bytes_eq, nat_beq, All, arith,
}
use flx.Prelude.Keys.{bytes_beq, beq_refl}
use flx.Client.{Request}
use flx.Client.Endpoints.{
  typing_request, set_pinned_request, acknowledge_request, send_request, reply_request,
  edit_request, delete_request, add_reaction_request, remove_reaction_request, create_dm_request,
  channel_path, message_path,
}
use flx.Client.Endpoints.Routes.{
  Call, create_dm_call, typing_call, pin_call, unpin_call, acknowledge_call, send_call, reply_call,
  edit_call, delete_call, add_reaction_call, remove_reaction_call, call_request, extend_first,
  segments, find_member, body_member, with_text, posted, on_user, on_channel, on_one_message,
  on_pin, on_reaction, on_acknowledgement, is_number, is_flag, with_sole_text, without_body,
  posted_reply, route_parts, route, Escapes,
}

segments_other : (b : ℕ) (s : Bytes) → b ≢ 0x2f → segments (b ∷ s) ≡ extend_first b (segments s)
unfolding segments
segments_other b s ne = let other : nat_beq b 0x2f ≡ false = ground arith in rw other refl

segments_between :
    (s rest : Bytes) → All (λ b. b ≢ 0x2f) s → segments (s ++ 0x2f ∷ rest) ≡ s ∷ segments rest
unfolding extend_first
segments_between [] rest free = unfold segments in refl
segments_between (b ∷ s) rest (ne, free) =
    rw (segments_other b (s ++ 0x2f ∷ rest) ne, segments_between s rest free) refl

segments_last : (s : Bytes) → All (λ b. b ≢ 0x2f) s → segments s ≡ s ∷ []
unfolding extend_first
segments_last [] free = unfold segments in refl
segments_last (b ∷ s) (ne, free) = rw (segments_other b s ne, segments_last s free) refl

-- A path of parts.
join_path : List Bytes → Bytes
join_path [] = []
join_path (s ∷ ss) = 0x2f ∷ (s ++ join_path ss)

slash_free : Bytes → Bool
slash_free [] = true
slash_free (b ∷ s) = not (nat_beq b 0x2f) && slash_free s

slash_free_sound : (s : Bytes) → slash_free s ≡ true → All (λ b. b ≢ 0x2f) s
unfolding slash_free
slash_free_sound [] h = tt
slash_free_sound (b ∷ s) h = (λ e. ground arith, slash_free_sound s (ground arith))

segments_join :
    (s : Bytes) (ss : List Bytes)
    → All (λ t. All (λ b. b ≢ 0x2f) t) (s ∷ ss)
    → segments (s ++ join_path ss) ≡ s ∷ ss
unfolding join_path
segments_join s [] (free, _) = rw (append-nil s) (segments_last s free)
segments_join s (t ∷ ts) (free, more) =
    segments_between s (t ++ join_path ts) free ∙ ap (λ x. s ∷ x) (segments_join t ts more)

module _ (esc unescape : Bytes → Bytes) where
  route_join :
      (r : Request) (s : Bytes) (ss : List Bytes)
      → r.path ≡ join_path (s ∷ ss)
      → All (λ t. All (λ b. b ≢ 0x2f) t) (s ∷ ss)
      → route unescape r ≡ route_parts unescape r.method r.body ([] ∷ s ∷ ss)
  unfolding route join_path
  route_join r s ss e free =
      ap (λ t. route_parts unescape r.method r.body (segments t)) e
      ∙ ap (λ t. route_parts unescape r.method r.body ([] ∷ t)) (segments_join s ss free)

  -- The paths of a channel, and of a message in it.
  route_channel :
      (r : Request) (channel last : Bytes)
      → Escapes esc unescape
      → slash_free last ≡ true
      → r.path ≡ join_path (codes "channels" ∷ esc channel ∷ last ∷ [])
      → route unescape r
        ≡ route_parts unescape r.method r.body ([] ∷ codes "channels" ∷ esc channel ∷ last ∷ [])
  unfolding Escapes slash_free
  route_channel r channel last (free, _) plain e =
      route_join r _ _ e (
        slash_free_sound (codes "channels") refl,
        (free channel, (slash_free_sound last plain, tt)),
      )

  route_message :
      (r : Request) (channel third message : Bytes) (more : List Bytes)
      → Escapes esc unescape
      → slash_free third ≡ true
      → All (λ t. All (λ b. b ≢ 0x2f) t) more
      → r.path ≡ join_path (codes "channels" ∷ esc channel ∷ third ∷ esc message ∷ more)
      → route unescape r
        ≡ route_parts unescape r.method r.body
            ([] ∷ codes "channels" ∷ esc channel ∷ third ∷ esc message ∷ more)
  unfolding Escapes slash_free
  route_message r channel third message more (free, _) plain rest e = route_join r _ _ e (
    slash_free_sound (codes "channels") refl,
    (free channel, (slash_free_sound third plain, (free message, rest))),
  )

  route_reaction :
      (r : Request) (channel message emoji : Bytes)
      → Escapes esc unescape
      → r.path
        ≡ join_path (
            codes "channels"
            ∷ esc channel
            ∷ codes "messages"
            ∷ esc message
            ∷ codes "reactions"
            ∷ esc emoji
            ∷ codes "@me"
            ∷ [])
      → route unescape r
        ≡ route_parts unescape r.method r.body (
            []
            ∷ codes "channels"
            ∷ esc channel
            ∷ codes "messages"
            ∷ esc message
            ∷ codes "reactions"
            ∷ esc emoji
            ∷ codes "@me"
            ∷ [])
  unfolding Escapes slash_free
  route_reaction r channel message emoji (free, reads) e =
      route_message r channel (codes "messages") message
        (codes "reactions" ∷ esc emoji ∷ codes "@me" ∷ []) (free, reads) refl
        (
          slash_free_sound (codes "reactions") refl,
          (free emoji, (slash_free_sound (codes "@me") refl, tt)),
        )
        e

  -- The server that splits the path at its slashes and unescapes the parts, that takes a request only
  -- with the method, the literal parts of the path and the shape of the body which its endpoint has,
  -- gets the call back that the request was made for, for these eleven calls: the creation of a
  -- direct message, typing, pin, unpin, acknowledge, send, reply, edit, delete, and the addition and
  -- removal of a reaction. The identifiers, the emoji and the texts come back as they are, whatever
  -- bytes they have, if what is escaped has no slash and is read back. The message with an attachment
  -- is not one of these calls.
  pub route-call_request :
      (call : Call) → Escapes esc unescape → route unescape (call_request esc call) ≡ some call
  unfolding call_request edit_request delete_request send_request reply_request acknowledge_request
      typing_request set_pinned_request add_reaction_request remove_reaction_request
      create_dm_request message_path channel_path join_path slash_free Escapes route_parts
      on_one_message on_channel on_pin on_reaction on_acknowledgement on_user posted posted_reply
      is_number is_flag with_sole_text without_body bytes_beq body_member find_member with_text
  route-call_request (create_dm_call recipient) (free, reads) =
      route_join _ (codes "users") (codes "@me" ∷ codes "channels" ∷ []) refl (
        slash_free_sound (codes "users") refl,
        (slash_free_sound (codes "@me") refl, (slash_free_sound (codes "channels") refl, tt)),
      )
  route-call_request (typing_call channel) (free, reads) =
      route_channel _ channel (codes "typing") (free, reads) refl refl ∙ rw (reads channel) refl
  route-call_request (send_call channel content nonce) (free, reads) =
      route_channel _ channel (codes "messages") (free, reads) refl refl ∙ rw (reads channel) refl
  route-call_request (reply_call channel message content nonce) (free, reads) =
      let same : bytes_beq channel channel ≡ true = beq_refl channel in
      route_channel _ channel (codes "messages") (free, reads) refl refl
      ∙ rw (reads channel, same) refl
  route-call_request (pin_call channel message) (free, reads) =
      route_message _ channel (codes "pins") message [] (free, reads) refl tt
        (rw (append-nil (esc message)) refl)
      ∙ rw (reads channel, reads message) refl
  route-call_request (unpin_call channel message) (free, reads) =
      route_message _ channel (codes "pins") message [] (free, reads) refl tt
        (rw (append-nil (esc message)) refl)
      ∙ rw (reads channel, reads message) refl
  route-call_request (acknowledge_call channel message) (free, reads) =
      route_message _ channel (codes "messages") message (codes "ack" ∷ []) (free, reads) refl
        (slash_free_sound (codes "ack") refl, tt) refl
      ∙ rw (reads channel, reads message) refl
  route-call_request (edit_call channel message content) (free, reads) =
      route_message _ channel (codes "messages") message [] (free, reads) refl tt refl
      ∙ rw (reads channel, reads message) refl
  route-call_request (delete_call channel message) (free, reads) =
      route_message _ channel (codes "messages") message [] (free, reads) refl tt refl
      ∙ rw (reads channel, reads message) refl
  route-call_request (add_reaction_call channel message emoji) (free, reads) =
      route_reaction _ channel message emoji (free, reads) refl
      ∙ rw (reads channel, reads message, reads emoji) refl
  route-call_request (remove_reaction_call channel message emoji) (free, reads) =
      route_reaction _ channel message emoji (free, reads) refl
      ∙ rw (reads channel, reads message, reads emoji) refl
