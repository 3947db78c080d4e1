-- ===== src/Tree.antt =====
-- internal/p9fs/tree.go: the directories of conversations and communities, and their refresh from the
-- store. A directory is the number of its allocation, by which clients that have it open go on.
pub mod Reconcile
pub mod Refresh
pub mod Friend
use flx.Prelude.{
  ℕ, zero, suc, ◌+◌, ◌%◌, ◌^◌, Bool, true, false, ◌&&◌, ◌||◌, not, List, [], ◌∷◌, map, Option, none,
  some, Bytes, codes, ◌==◌, bytes_eq, beq_ℤ, if◌then◌else◌, Table, lookup, put,
}
use flx.Types.{
  User, Relationship, relationship_friend, Channel, channel_text, channel_dm, Guild, tag,
}
use flx.Names.{NamedId, assign_names, path_name}

-- What info.json shows.
pub data Info : Type 0 where
  relationship_info : Relationship → Info
  channel_info : Channel → Info

-- conversationSpec. The functions for the channel follow from `peer`: a friend's conversation looks its
-- channel up by the user, the others have theirs.
pub data Peer : Type 0 where
  friend_peer channel_peer : Bytes → Peer

pub record ConversationSpec : Type 0 where
  pub base : Bytes
  pub id : Bytes
  pub info : Info
  pub avatar : Option User
  pub peer : Peer

-- cachedConversation, with the name and the version of its directory. The files of the avatar are
-- there if the conversation was made with one; `some none` stands for the value that was taken back.
pub record Conversation : Type 0 where
  pub node : ℕ
  pub name : Bytes
  pub version : ℕ
  pub info : Info
  pub avatar : Option (Option User)
  pub peer : Peer

unfoldable pub new_conversation : ℕ → Bytes → ConversationSpec → Conversation
new_conversation node name spec = record {
  node = node;
  name = name;
  version = 0;
  info = spec.info;
  avatar = elim spec.avatar [ none ↦ none | some user ↦ some (some user) ];
  peer = spec.peer;
}

-- dynamicDir.SetName
unfoldable pub renamed_version : Bytes → Bytes → ℕ → ℕ
renamed_version old new version = if old == new then version else (version + 1) % 2 ^ 32

set_avatar : Option (Option User) → Option User → Option (Option User)
set_avatar none user = none
set_avatar (some shown) user = some user

unfoldable pub update_conversation : Bytes → ConversationSpec → Conversation → Conversation
unfolding renamed_version set_avatar
update_conversation name spec c = record c {
  name = name;
  version = renamed_version c.name name c.version;
  info = spec.info;
  avatar = set_avatar c.avatar spec.avatar;
}

-- The next allocation, the cache, and the children of the directory.
pub record Reconciliation : Type 0 where
  pub next : ℕ
  pub cache : Table Bytes Conversation
  pub children : Table Bytes ℕ

or_empty : Option Bytes → Bytes
or_empty none = []
or_empty (some name) = name

unfoldable pub spec_name : Table Bytes Bytes → ConversationSpec → Bytes
unfolding or_empty
spec_name names spec = or_empty (lookup spec.id names)

place : ConversationSpec → Conversation → ℕ → Reconciliation → Reconciliation
place spec c next r = record {
  next = next;
  cache = put spec.id c r.cache;
  children = put c.name c.node r.children;
}

-- One round: a conversation of the cache is brought up to date, another one is made.
add_found : Bytes → ConversationSpec → Option Conversation → Reconciliation → Reconciliation
unfolding place new_conversation update_conversation
add_found name spec none r = place spec (new_conversation r.next name spec) (suc r.next) r
add_found name spec (some c) r = place spec (update_conversation name spec c) r.next r

unfoldable pub add_specs :
    Table Bytes Bytes → List ConversationSpec → Reconciliation → Reconciliation
unfolding add_found spec_name
add_specs names [] r = r
add_specs names (spec ∷ specs) r =
    add_specs names specs (add_found (spec_name names spec) spec (lookup spec.id r.cache) r)

unfoldable pub is_active : Bytes → List ConversationSpec → Bool
is_active id [] = false
is_active id (spec ∷ specs) = spec.id == id || is_active id specs

-- The conversations that are not active are deleted.
unfoldable pub keep_active :
    List ConversationSpec → Table Bytes Conversation → Table Bytes Conversation
unfolding is_active
keep_active specs [] = []
keep_active specs ((id, c) ∷ cache) =
    let rest = keep_active specs cache in if is_active id specs then (id, c) ∷ rest else rest

named : ConversationSpec → NamedId
named spec = record { base = spec.base; id = spec.id }

unfoldable pub spec_names : List ConversationSpec → Table Bytes Bytes
unfolding named
spec_names specs = assign_names (map named specs)

unfoldable pub reconcile_conversations :
    List ConversationSpec → ℕ → Table Bytes Conversation → Reconciliation
unfolding add_specs keep_active spec_names
reconcile_conversations specs next cache =
    let r =
      add_specs (spec_names specs) specs (record { next = next; cache = cache; children = [] }) in
    record r { cache = keep_active specs r.cache }
