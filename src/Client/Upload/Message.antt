-- ===== src/Client/Upload/Message.antt =====
-- internal/fluxer/client.go, SendAttachmentMessage: a plan, the upload, its completion when it has
-- parts, and the message.
use flx.Prelude.{
  ℕ, false, List, [], ◌∷◌, ◌++◌, Option, none, some, Bytes, codes, ◌==◌, bytes_eq, length, Result,
  ok, err, panic, if◌then◌else◌,
}
use flx.Json.{
  Json, json_bool, json_number, json_list, json_object, no_items, item, Members, no_members, member,
}
use flx.Types.{Message}
use flx.File.Send.{SendAttachment}
use flx.Client.{Request, Http, Sent, ClientError, bad_plan, do_request}
use flx.Client.Upload.{UploadPlan, upload_attachment}
use flx.Client.Endpoints.{method_post, object, text_member}

-- []map[string]any{{…}}
abbrev one_object : Members → Json
one_object members = json_list (item (json_object members) no_items)

attachments_path : (Bytes → Bytes) → Bytes → Bytes
attachments_path path_escape channel_id =
    codes "/channels/" ++ (path_escape channel_id ++ codes "/attachments")

unfoldable pub plan_request : (Bytes → Bytes) → Bytes → SendAttachment → Request
unfolding attachments_path
plan_request path_escape channel_id attachment = record {
  method = method_post;
  path = attachments_path path_escape channel_id;
  body = object (
      member (codes "attachments")
        (one_object (
          member (codes "id") (json_number 0) (
            text_member (codes "filename") attachment.filename (
              member (codes "file_size") (json_number (length attachment.payload))
                (text_member (codes "content_type") attachment.content_type no_members)))))
        no_members);
}

unfoldable pub complete_request : (Bytes → Bytes) → Bytes → UploadPlan → Request
unfolding attachments_path
complete_request path_escape channel_id plan = record {
  method = method_post;
  path = attachments_path path_escape channel_id ++ codes "/complete";
  body = object (
      member (codes "uploads")
        (one_object (
          text_member (codes "upload_filename") plan.upload_filename
            (text_member (codes "upload_id") plan.upload_id no_members)))
        no_members);
}

with_content : Bytes → Members
with_content content =
    if content == [] then no_members else text_member (codes "content") content no_members

unfoldable pub attachment_message_request :
    (Bytes → Bytes) → Bytes → Bytes → SendAttachment → UploadPlan → Bytes → Request
unfolding with_content
attachment_message_request path_escape channel_id content attachment plan nonce = record {
  method = method_post;
  path = codes "/channels/" ++ (path_escape channel_id ++ codes "/messages");
  body = object (
      text_member (codes "nonce") nonce (
        member (codes "tts") (json_bool false) (
          member (codes "attachments")
            (one_object (
              member (codes "id") (json_number 0) (
                text_member (codes "filename") attachment.filename (
                  text_member (codes "upload_filename") plan.upload_filename (
                    member (codes "file_size") (json_number (length attachment.payload))
                      (text_member (codes "content_type") attachment.content_type no_members))))))
            (with_content content))));
}

-- if err := …; err != nil { return Message{}, err }
then_send :
    {A B W : Type 0}
    → Result ClientError A × W
    → (A → W → Result ClientError B × W)
    → Result ClientError B × W
then_send (ok a, w) next = next a w
then_send (err e, w) next = (err e, w)
then_send (panic, w) next = (panic, w)

-- The plan, if there is exactly one.
one_plan : Option (List UploadPlan) → Result ClientError UploadPlan
one_plan (some (plan ∷ [])) = ok plan
one_plan _ = err bad_plan

module _ {W : Type 0} (http : Http W) (put : Bytes → Bytes → Bytes → W → Sent × W)
    (path_escape : Bytes → Bytes) (decode_plans : Bytes → Option (List UploadPlan))
    (decode_message : Bytes → Option Message) where
  complete : ℕ → Bytes → UploadPlan → W → Result ClientError (Unit {0}) × W
  unfolding then_send
  complete rounds channel_id plan w =
      if plan.upload_mode == codes "multipart"
      then then_send
          (do_request http {A = Unit {0}} rounds none (complete_request path_escape channel_id plan)
            w)
          (λ _ w'. (ok tt, w'))
      else (ok tt, w)

  unfoldable pub send_attachment_message :
      ℕ → Bytes → Bytes → SendAttachment → Bytes → W → Result ClientError (Option Message) × W
  unfolding then_send one_plan complete
  send_attachment_message rounds channel_id content attachment nonce w =
      then_send
        (do_request http rounds (some decode_plans) (plan_request path_escape channel_id attachment)
          w)
        (λ planned w1.
          then_send (one_plan planned, w1)
            (λ plan w2.
              then_send
                (upload_attachment (put attachment.content_type) http.observe attachment.payload
                  plan w2)
                (λ _ w3. then_send (complete rounds channel_id plan w3) (λ _ w4.
                  do_request http rounds (some decode_message)
                    (attachment_message_request path_escape channel_id content attachment plan
                      nonce)
                    w4))))
