-- ===== src/Tests/Trees.antt =====
-- The directories of conversations at concrete inputs.
use flx.Prelude.{
  ◌⊎◌, ℕ, ◌≡◌, refl, sym, ap, ◌∙◌, true, false, [], ◌∷◌, none, some, Bytes, codes, pos, Result, ok,
  length, Table, lookup, bytes_eq,
}
use flx.Prelude.Keys.{bytes_beq}
use flx.Types.{User, Channel}
use flx.Hub.{new_hub}
use flx.Store.{new_store, is_dm_with, has_recipient, find_dm, find_dm_for_user}
use flx.Tree.{
  ConversationSpec, Conversation, channel_peer, channel_info, reconcile_conversations, spec_names,
  spec_name,
}
use flx.Tree.Reconcile.{Placed, IsShadowed, reconcile_conversations-Placed}
use flx.Tree.Friend.{friend_send, found_or_created, created, friend_send-once}

abbrev user : User
user = record {
  id = codes "17";
  username = codes "ann";
  discriminator = codes "0001";
  global_name = none;
  avatar = none;
  bot = false;
  system = false;
}

abbrev channel : Bytes → Channel
channel id = record {
  id = id;
  guild_id = [];
  kind = pos 1;
  name = codes "general";
  topic = none;
  parent_id = none;
  owner_id = none;
  last_message_id = none;
  recipients = user ∷ [];
}

abbrev spec : Bytes → ConversationSpec
spec id = record {
  base = codes "general";
  id = id;
  info = channel_info (channel id);
  avatar = none;
  peer = channel_peer id;
}

-- The second of two conversations with one base was there before.
abbrev cache : Table Bytes Conversation
cache =
    (
      codes "12",
      record {
        node = 5;
        name = codes "old";
        version = 0;
        info = channel_info (channel (codes "12"));
        avatar = none;
        peer = channel_peer (codes "12");
      },
    )
    ∷ []

reconcile_conversations-Placed_example :
    let specs = spec (codes "7") ∷ spec (codes "12") ∷ [] in
    let r = reconcile_conversations specs 9 cache in
    (c : Conversation) × (lookup (codes "12") r.cache ≡ some c)
    × Placed (spec_names specs) (spec (codes "12")) (lookup (codes "12") cache) c
    × ((lookup (spec_name (spec_names specs) (spec (codes "12"))) r.children ≡ some c.node)
        ⊎ IsShadowed (spec_names specs) (spec_name (spec_names specs) (spec (codes "12"))) [])
reconcile_conversations-Placed_example =
    reconcile_conversations-Placed (spec (codes "7") ∷ []) (spec (codes "12")) [] 9 cache
      ((λ e. let sizes = ap (λ t. length t) e in cc), tt) tt

-- The world counts the calls.
abbrev create_dm : Bytes → ℕ → Result (Unit {0}) Channel × ℕ
create_dm user_id calls = (ok (channel (codes "7")), 1)

with_user : is_dm_with (codes "17") (channel (codes "7")) ≡ true
unfolding is_dm_with has_recipient bytes_beq
with_user = refl

sent : (friend_send create_dm (codes "17") (new_store (new_hub true)) 0).0 ≡ ok (codes "7")
unfolding friend_send found_or_created created find_dm_for_user find_dm new_store
sent = refl

friend_send-once_example :
    let s' = (friend_send create_dm (codes "17") (new_store (new_hub true)) 0).1.0 in
    (again : Bytes) × (friend_send create_dm (codes "17") s' 1 ≡ (ok again, (s', 1)))
friend_send-once_example =
    friend_send-once create_dm (codes "17") (new_store (new_hub true)) 0 1 (codes "7")
      (λ dm e.
        let same : channel (codes "7") ≡ dm = cc in
        sym (ap (λ d. is_dm_with (codes "17") d) same) ∙ with_user)
      sent
