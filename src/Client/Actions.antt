-- ===== src/Client/Actions.antt =====
-- internal/fluxer/client.go: the API client as the command files of internal/p9fs/files.go use it.
pub mod Served
use flx.Prelude.{
  ℕ, zero, suc, ◌≤◌, ◌≡◌, ◌≢◌, refl, sym, ap, ◌∙◌, Bool, true, false, List, [], ◌∷◌, ◌++◌, Option,
  none, some, Bytes, Result, ok, err, panic, ltb, leb, nat_beq, length, join, All, arith,
  if◌then◌else◌, ◌==◌, bytes_eq, Bool-cases, inl, inr,
}
use flx.Types.{Message}
use flx.File.Send.{SendAttachment}
use flx.File.Actions.{Client}
use flx.Client.{
  Http, Request, Response, Sent, replied, ClientError, do_request, do_loop, answer, handle_sent,
  observed,
}
use flx.Client.Upload.{UploadPlan}
use flx.Client.Upload.Message.{send_attachment_message}
use flx.Client.Endpoints.{
  typing_request, set_pinned_request, acknowledge_request, send_request, reply_request,
  edit_request, delete_request, add_reaction_request, remove_reaction_request,
}

-- The callers drop the message that a call returns.
unfoldable pub without_value :
    {A W : Type 0} → Result ClientError A × W → Result ClientError (Unit {0}) × W
without_value (ok a, w) = (ok tt, w)
without_value (err e, w) = (err e, w)
without_value (panic, w) = (panic, w)

module _ {W : Type 0} (http : Http W) (path_escape : Bytes → Bytes)
    (decode_message : Bytes → Option Message) (rounds : ℕ) where
  call : Request → W → Result ClientError (Unit {0}) × W
  unfolding without_value
  call r w = without_value (do_request http {A = Unit {0}} rounds none r w)

  unfoldable pub message_call : Request → W → Result ClientError (Unit {0}) × W
  unfolding without_value
  message_call r w = without_value (do_request http rounds (some decode_message) r w)

  module _ (put : Bytes → Bytes → Bytes → W → Sent × W)
      (decode_plans : Bytes → Option (List UploadPlan))
      (resolve message_nonce : W → Result ClientError Bytes × W) where
    unfoldable pub api_client : Client ClientError W
    unfolding call message_call without_value
    api_client = record {
      resolve = resolve;
      message_nonce = message_nonce;
      edit_message = λ channel message content w.
          message_call (edit_request path_escape channel message content) w;
      reply_message = λ channel message content nonce w.
          message_call (reply_request path_escape channel message content nonce) w;
      send_message = λ channel content nonce w.
          message_call (send_request path_escape channel content nonce) w;
      send_attachment_message = λ channel content attachment nonce w. without_value (
          send_attachment_message http put path_escape decode_plans decode_message rounds channel
            content attachment nonce w);
      delete_message = λ channel message w. call (delete_request path_escape channel message) w;
      add_reaction = λ channel message emoji w.
          call (add_reaction_request path_escape channel message emoji) w;
      remove_reaction = λ channel message emoji w.
          call (remove_reaction_request path_escape channel message emoji) w;
      indicate_typing = λ channel w. call (typing_request path_escape channel) w;
      set_pinned = λ channel message pinned w.
          call (set_pinned_request path_escape channel message pinned) w;
      acknowledge_message =
          λ channel message w. call (acknowledge_request path_escape channel message) w;
    }
