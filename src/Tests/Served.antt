-- ===== src/Tests/Served.antt =====
-- The way from a file to the server at concrete inputs.
use flx.Prelude.{
  ◌+◌, ◌-◌, ◌≤◌, ◌≡◌, ◌≢◌, refl, true, false, List, [], ◌∷◌, ◌++◌, map, Option, none, some, Bytes,
  codes, pos, ok, All, nat_eq, arith,
}
use flx.Text.Utf8.{valid, chunks, chunk_at, rune_count}
use flx.Text.Space.{is_space, NoLead, trim_suffix}
use flx.Command.RoundTrip.{echo, NoReturn}
use flx.Types.{Message}
use flx.File.Modes.{protocol_modes}
use flx.File.Input.{new_input_file, open_input, close_input, command_limit}
use flx.File.Input.Session.{write_pieces}
use flx.File.Actions.{ActionError, edit}
use flx.Client.{Http, Sent, not_sent, replied, ClientError}
use flx.Client.Endpoints.Routes.{Call, edit_call, add_reaction_call, call_request, route, Escapes}
use flx.Client.Endpoints.Routes.Reads.{route-call_request}
use flx.Client.Actions.{api_client}
use flx.Client.Actions.Served.{IsServing, close_edit-received}

-- Path escapes that move every byte out of the way of the slash.
abbrev esc : Bytes → Bytes
esc s = map (λ b. b + 100) s

abbrev unescape : Bytes → Bytes
unescape s = map (λ b. b - 100) s

esc-free : (s : Bytes) → All (λ b. b ≢ 0x2f) (esc s)
esc-free [] = tt
esc-free (b ∷ s) = (omega arith, esc-free s)

unescape-esc : (s : Bytes) → unescape (esc s) ≡ s
unescape-esc [] = refl
unescape-esc (b ∷ s) = let same : b + 100 - 100 ≡ b = omega arith in rw (same, unescape-esc s) refl

escapes : Escapes esc unescape
unfolding Escapes
escapes = (esc-free, unescape-esc)

route-call_request_example :
    route unescape (call_request esc (add_reaction_call (codes "9") (codes "../7") (codes "a/b")))
    ≡ some (add_reaction_call (codes "9") (codes "../7") (codes "a/b"))
route-call_request_example =
    route-call_request esc unescape (add_reaction_call (codes "9") (codes "../7") (codes "a/b"))
      escapes

abbrev message : Message
message = record {
  id = codes "1";
  channel_id = codes "900";
  guild_id = [];
  author = record {
    id = codes "17";
    username = codes "ann";
    discriminator = codes "0001";
    global_name = none;
    avatar = none;
    bot = false;
    system = false;
  };
  content = codes "hello";
  timestamp = [];
  edited_timestamp = none;
  kind = pos 0;
  pinned = false;
  attachments = [];
  raw = [];
}

abbrev decode : Bytes → Option Message
decode s = some message

-- The world of the server is what it received.
abbrev http : Http (List (Option Call))
http = record {
  send = λ r w. (
    replied (record {
      status = 200;
      status_text = codes "200 OK";
      payload = codes "{}";
      retry_after = [];
    }),
    w ++ route unescape r ∷ [],
  );
  wait = λ n w. (false, w);
  observe = λ e w. w;
  error_body = λ s. none;
  parse_seconds = λ s. none;
  max_rate_wait = 30;
}

serving : IsServing http unescape decode (λ w. w)
serving = record {
  reply = λ r w. record {
    status = 200;
    status_text = codes "200 OK";
    payload = codes "{}";
    retry_after = [];
  };
  replies = λ r w. refl;
  succeeds = λ r w. refl;
  decodes = λ r w. (message, refl);
  keeps = λ r w. refl;
  observes = λ e w. refl;
}

abbrev no_put : Bytes → Bytes → Bytes → List (Option Call) → Sent × List (Option Call)
no_put content_type url content w = (not_sent, w)

abbrev pieces : List Bytes
pieces = codes "123 he" ∷ codes "llo\n" ∷ []

short : rune_count (codes "hello") ≤ 4000
unfolding rune_count chunks chunk_at
short = omega arith

starts : NoLead (chunks (codes "hello"))
unfolding chunks chunk_at is_space
starts = refl

ends : NoReturn (codes "123" ++ 0x20 ∷ codes "hello")
unfolding trim_suffix
ends = refl

utf8 : valid (echo (codes "123") (codes "hello")) ≡ true
unfolding valid chunks chunk_at
utf8 = refl

close_edit-received_example :
    let api =
      api_client http esc decode 1 no_put
        (λ s. none)
        (λ w. (ok (codes "900"), w))
        (λ w. (ok (codes "00"), w)) in
    let opened = (open_input {E = ActionError ClientError} protocol_modes new_input_file 3 1).1 in
    let closed = close_input (edit api) (write_pieces command_limit opened 3 0 pieces) 3 [] in
    (closed.0 ≡ ok tt)
    × (closed.1.1 ≡ some (edit_call (codes "900") (codes "123") (codes "hello")) ∷ [])
close_edit-received_example =
    close_edit-received http unescape decode (λ w. w) protocol_modes esc 0 no_put (λ s. none)
      (λ w. (ok (codes "900"), w)) (λ w. (ok (codes "00"), w)) new_input_file 3 1 [] [] pieces
      (codes "123") (codes "hello") (codes "900") serving escapes (omega arith) refl (omega arith)
      (cc) (omega arith) (cc) short starts ends utf8 refl
