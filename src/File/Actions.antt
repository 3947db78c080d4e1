-- ===== src/File/Actions.antt =====
-- internal/p9fs/files.go: newEditFile, newReplyFile, newDeleteFile, newReactionFile, newTypingFile,
-- newPinFile, newAcknowledgeFile, and the Close of sendFile. Each parses what was written, resolves its
-- channel and makes one call of the API client.
pub mod Calls
pub mod Sending
use flx.Prelude.{Bytes, Bool, Option, none, some, Result, ok, err, panic, if◌then◌else◌}
use flx.File.Send.{SendPayload, SendAttachment, SendError, parse_send}
use flx.Command.{CommandError, parse_message_command, parse_reaction_command, parse_id_command}

-- The channel of the file, the nonce of messageNonce and the calls of the API client, over a state
-- of the world.
pub record Client (E W : Type 0) : Type 0 where
  pub resolve : W → Result E Bytes × W
  pub message_nonce : W → Result E Bytes × W
  pub edit_message : Bytes → Bytes → Bytes → W → Result E (Unit {0}) × W
  pub reply_message : Bytes → Bytes → Bytes → Bytes → W → Result E (Unit {0}) × W
  pub send_message : Bytes → Bytes → Bytes → W → Result E (Unit {0}) × W
  pub send_attachment_message : Bytes → Bytes → SendAttachment → Bytes → W → Result E (Unit {0}) × W
  pub delete_message : Bytes → Bytes → W → Result E (Unit {0}) × W
  pub add_reaction : Bytes → Bytes → Bytes → W → Result E (Unit {0}) × W
  pub remove_reaction : Bytes → Bytes → Bytes → W → Result E (Unit {0}) × W
  pub indicate_typing : Bytes → W → Result E (Unit {0}) × W
  pub set_pinned : Bytes → Bytes → Bool → W → Result E (Unit {0}) × W
  pub acknowledge_message : Bytes → Bytes → W → Result E (Unit {0}) × W

-- The error of a parser, with the prefix that some files add, or the error of a call.
pub data ActionError (E : Type 0) : Type 0 where
  edit_refused reply_refused delete_refused refused : CommandError → ActionError E
  send_refused : SendError → ActionError E
  call_failed : E → ActionError E

module _ {E W : Type 0} where
  -- if err != nil { return err }
  abbrev pub called : {A : Type 0} → Result E A × W → Result (ActionError E) A × W
  called (ok a, w) = (ok a, w)
  called (err e, w) = (err (call_failed e), w)
  called (panic, w) = (panic, w)

  abbrev pub then_call :
      {A B : Type 0}
      → Result (ActionError E) A × W
      → (A → W → Result (ActionError E) B × W)
      → Result (ActionError E) B × W
  then_call (ok a, w) next = next a w
  then_call (err e, w) next = (err e, w)
  then_call (panic, w) next = (panic, w)

  abbrev pub parsed :
      {A : Type 0}
      → (CommandError → ActionError E)
      → Result CommandError A
      → W
      → Result (ActionError E) A × W
  parsed prefix (ok a) w = (ok a, w)
  parsed prefix (err e) w = (err (prefix e), w)
  parsed prefix panic w = (panic, w)

  unfoldable pub edit : Client E W → Bytes → W → Result (ActionError E) (Unit {0}) × W
  edit api input w =
      then_call (parsed edit_refused (parse_message_command input) w) (λ (message_id, content) w1.
        then_call (called (api.resolve w1))
          (λ channel_id w2. called (api.edit_message channel_id message_id content w2)))

  unfoldable pub reply : Client E W → Bytes → W → Result (ActionError E) (Unit {0}) × W
  reply api input w =
      then_call (parsed reply_refused (parse_message_command input) w) (λ (message_id, content) w1.
        then_call (called (api.resolve w1)) (λ channel_id w2.
          then_call (called (api.message_nonce w2))
            (λ nonce w3. called (api.reply_message channel_id message_id content nonce w3))))

  unfoldable pub delete : Client E W → Bytes → W → Result (ActionError E) (Unit {0}) × W
  delete api input w =
      then_call (parsed delete_refused (parse_id_command input) w) (λ message_id w1.
        then_call (called (api.resolve w1))
          (λ channel_id w2. called (api.delete_message channel_id message_id w2)))

  unfoldable pub react : Bool → Client E W → Bytes → W → Result (ActionError E) (Unit {0}) × W
  react add api input w =
      then_call (parsed refused (parse_reaction_command input) w) (λ (message_id, emoji) w1.
        then_call (called (api.resolve w1)) (λ channel_id w2.
          if add
          then called (api.add_reaction channel_id message_id emoji w2)
          else called (api.remove_reaction channel_id message_id emoji w2)))

  unfoldable pub typing : Client E W → Bytes → W → Result (ActionError E) (Unit {0}) × W
  typing api input w =
      then_call (called (api.resolve w))
        (λ channel_id w1. called (api.indicate_typing channel_id w1))

  unfoldable pub pin : Bool → Client E W → Bytes → W → Result (ActionError E) (Unit {0}) × W
  pin pinned api input w = then_call (parsed refused (parse_id_command input) w) (λ message_id w1.
      then_call (called (api.resolve w1))
        (λ channel_id w2. called (api.set_pinned channel_id message_id pinned w2)))

  unfoldable pub acknowledge : Client E W → Bytes → W → Result (ActionError E) (Unit {0}) × W
  acknowledge api input w = then_call (parsed refused (parse_id_command input) w) (λ message_id w1.
      then_call (called (api.resolve w1))
        (λ channel_id w2. called (api.acknowledge_message channel_id message_id w2)))

  -- What sendFile.Close does with a buffer.
  message_parsed : Result SendError SendPayload → W → Result (ActionError E) SendPayload × W
  message_parsed (ok p) w = (ok p, w)
  message_parsed (err e) w = (err (send_refused e), w)
  message_parsed panic w = (panic, w)

  unfoldable pub send_payload :
      Client E W
      → Bytes
      → Bytes
      → Bytes
      → Option SendAttachment
      → W
      → Result (ActionError E) (Unit {0}) × W
  send_payload api channel_id nonce content none w =
      called (api.send_message channel_id content nonce w)
  send_payload api channel_id nonce content (some a) w =
      called (api.send_attachment_message channel_id content a nonce w)

  unfoldable pub send :
      (Bytes → Bytes) → Client E W → Bytes → W → Result (ActionError E) (Unit {0}) × W
  unfolding message_parsed send_payload
  send detect_content_type api input w =
      then_call (message_parsed (parse_send detect_content_type input) w) (λ p w1.
        then_call (called (api.resolve w1)) (λ channel_id w2.
          then_call (called (api.message_nonce w2))
            (λ nonce w3. send_payload api channel_id nonce p.content p.attachment w3)))
