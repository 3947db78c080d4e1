-- ===== src/Client/Actions/Served.antt =====
-- internal/p9fs/files.go and internal/fluxer/client.go: from the line that is written into the edit file
-- to the server.
use flx.Prelude.{
  ℕ, suc, ◌≤◌, ◌≡◌, ◌≢◌, refl, ap, ◌∙◌, true, ◌||◌, List, [], ◌∷◌, ◌++◌, Option, none, some, Bytes,
  Result, ok, err, panic, nat_beq, nat_eq, length, join, All, ◌==◌, bytes_eq, Bool-cases, inl, inr,
}
use flx.Text.Utf8.{valid, chunks, rune_count}
use flx.Text.Space.{NoLead}
use flx.Types.{Message}
use flx.Command.Sound.{IsDigit}
use flx.Command.RoundTrip.{echo, NoReturn}
use flx.File.Modes.{Modes, access}
use flx.File.Input.{InputFile, open_input, close_input, command_limit}
use flx.File.Input.Session.{write_pieces}
use flx.File.Actions.{ActionError, called, edit}
use flx.File.Actions.Calls.{close_edit-echo}
use flx.Client.{
  Http, Request, Response, Sent, replied, ClientError, do_request, do_loop, answer, handle_sent,
  observed,
}
use flx.Client.Upload.{UploadPlan}
use flx.Client.Endpoints.{edit_request}
use flx.Client.Endpoints.Routes.{Call, edit_call, call_request, route, Escapes}
use flx.Client.Endpoints.Routes.Reads.{route-call_request}
use flx.Client.Actions.{api_client, message_call, without_value}

module _ {W : Type 0} (http : Http W) (unescape : Bytes → Bytes)
    (decode_message : Bytes → Option Message) (received : W → List (Option Call)) where
  -- The server answers a request with a message, and keeps what it reads of each request; the request
  -- observer changes nothing that the server keeps.
  pub record IsServing : Type 0 where
    pub reply : Request → W → Response
    pub replies : (r : Request) (w : W) → (http.send r w).0 ≡ replied (reply r w)
    pub succeeds : (r : Request) (w : W) → (reply r w).status ≡ 200
    pub decodes :
        (r : Request) (w : W) → (m : Message) × (decode_message (reply r w).payload ≡ some m)
    pub keeps :
        (r : Request) (w : W) → received (http.send r w).1 ≡ received w ++ route unescape r ∷ []
    pub observes : (e : Option ClientError) (w : W) → received (http.observe e w) ≡ received w

  answer_ok :
      (r : Response) (m : Message)
      → decode_message r.payload ≡ some m
      → (o : Option Message) × (answer http (some decode_message) r ≡ ok o)
  unfolding answer
  answer_ok r m e = elim (Bool-cases (nat_beq r.status 204 || r.payload == [])) [
    | inl b ↦ (none, rw b refl)
    | inr b ↦ (some m, rw (b, e) refl)
  ]

  sent_answer :
      (r : Response) (w : W) (again : W → Result ClientError (Option Message) × W)
      → r.status ≡ 200
      → handle_sent http (some decode_message) (replied r, w) again
        ≡ (answer http (some decode_message) r, w)
  unfolding handle_sent
  sent_answer r w again e = rw e refl

  request_done :
      (rounds : ℕ) (r : Request) (w : W) (serving : IsServing)
      → (o : Option Message) × (do_request http (suc rounds) (some decode_message) r w
          ≡ (ok o, http.observe none (http.send r w).1))
  unfolding do_request do_loop observed
  request_done rounds r w serving =
      let (m, decoded) = serving.decodes r w in
      let (o, answered) = answer_ok (serving.reply r w) m decoded in
      let loop : do_loop http (suc rounds) (some decode_message) r w ≡ (ok o, (http.send r w).1) =
        ap
          (λ s.
            handle_sent http (some decode_message) (s, (http.send r w).1)
              (λ w'. do_loop http rounds (some decode_message) r w'))
          (serving.replies r w)
        ∙ (sent_answer (serving.reply r w) (http.send r w).1 _ (serving.succeeds r w)
            ∙ ap (λ a. (a, (http.send r w).1)) answered) in
      (o, ap (λ x. observed http x) loop)

  -- A call that the server reads back is what it receives, once.
  message_call-received :
      (path_escape : Bytes → Bytes) (rounds : ℕ) (r : Request) (c : Call) (w : W)
      → IsServing
      → route unescape r ≡ some c
      → ((message_call http path_escape decode_message (suc rounds) r w).0 ≡ ok tt)
        × (received (message_call http path_escape decode_message (suc rounds) r w).1
            ≡ received w ++ some c ∷ [])
  unfolding message_call without_value
  message_call-received path_escape rounds r c w serving read =
      let (o, done) = request_done rounds r w serving in
      (
        ap (λ x. (without_value x).0) done,
        ap (λ x. received (without_value x).1) done
            ∙ (serving.observes none (http.send r w).1
                ∙ (serving.keeps r w ∙ ap (λ t. received w ++ t ∷ []) read)),
      )

  called_ok :
      (r : Result ClientError (Unit {0}) × W)
      → r.0 ≡ ok tt
      → ((called r).0 ≡ ok tt) × ((called r).1 ≡ r.1)
  called_ok (ok tt, w) e = (refl, refl)
  called_ok (err x, w) e = cc
  called_ok (panic, w) e = cc

  -- `echo ID CONTENT > edit`, down to the server. Let `id` be one or more decimal digits, and `content`
  -- a non-empty text of at most 4000 runes that starts with no space, where `id`, a space and
  -- `content` do not end in a carriage return and the line is valid UTF-8. A client opens the edit
  -- file for writing, writes the line in whatever pieces and closes the file; the line fits the limit
  -- of the buffer, the channel is resolved, path escapes are slash-free and read back, and the server
  -- answers each request with a message. Then the close succeeds, and what the server has received
  -- since the resolution is the one edit of that message in that channel to that content.
  pub close_edit-received :
      (modes : Modes) (path_escape : Bytes → Bytes) (rounds : ℕ)
      (put : Bytes → Bytes → Bytes → W → Sent × W) (decode_plans : Bytes → Option (List UploadPlan))
      (resolve message_nonce : W → Result ClientError Bytes × W) (f : InputFile) (fid mode : ℕ)
      (w w' : W) (pieces : List Bytes) (id content channel_id : Bytes)
      → IsServing
      → Escapes path_escape unescape
      → access mode ≡ modes.owrite
      → join pieces ≡ echo id content
      → length (echo id content) ≤ command_limit
      → id ≢ []
      → All IsDigit id
      → content ≢ []
      → rune_count content ≤ 4000
      → NoLead (chunks content)
      → NoReturn (id ++ 0x20 ∷ content)
      → valid (echo id content) ≡ true
      → resolve w ≡ (ok channel_id, w')
      → let api =
          api_client http path_escape decode_message
            (suc rounds)
            put
            decode_plans
            resolve
            message_nonce in
        let opened = (open_input {E = ActionError ClientError} modes f fid mode).1 in
        let closed =
          close_input (edit api) (write_pieces command_limit opened fid 0 pieces) fid w in
        (closed.0 ≡ ok tt)
        × (received closed.1.1 ≡ received w' ++ some (edit_call channel_id id content) ∷ [])
  unfolding api_client call_request
  close_edit-received modes path_escape rounds put decode_plans resolve message_nonce f fid mode w
        w' pieces id content channel_id serving escapes opens line fits id_ne digits content_ne
        short lead return utf8 resolves =
      let api =
        api_client http path_escape decode_message (suc rounds) put decode_plans resolve
          message_nonce in
      let (r, s) =
        close_edit-echo modes api f fid mode w w' pieces id content channel_id opens line fits id_ne
          digits content_ne short lead return utf8 resolves in
      let read =
        route-call_request path_escape unescape (edit_call channel_id id content) escapes in
      let (fine, kept) =
        message_call-received path_escape rounds (edit_request path_escape channel_id id content)
          (edit_call channel_id id content) w' serving read in
      let (fine', same) = called_ok (api.edit_message channel_id id content w') fine in
      (r ∙ fine', ap received s ∙ (ap received same ∙ kept))
