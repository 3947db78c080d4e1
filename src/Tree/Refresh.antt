-- ===== src/Tree/Refresh.antt =====
-- internal/p9fs/tree.go: Refresh, newCommunity and reconcileCommunity.
use flx.Prelude.{
  ℕ, suc, ◌+◌, Bool, false, ◌&&◌, ◌||◌, not, List, [], ◌∷◌, map, Option, none, some, Bytes, codes,
  ◌==◌, bytes_eq, beq_ℤ, if◌then◌else◌, Table, lookup, put,
}
use flx.Types.{
  User, Relationship, relationship_friend, Channel, channel_text, channel_dm, Guild, tag,
}
use flx.Names.{NamedId, assign_names, path_name}
use flx.Store.{Snapshot}
use flx.Tree.{
  ConversationSpec, Conversation, friend_peer, channel_peer, relationship_info, channel_info,
  reconcile_conversations, renamed_version,
}

-- The friends that have a user.
is_friend : Relationship → Bool
is_friend rel = beq_ℤ rel.kind relationship_friend && not (rel.user.id == [])

unfoldable pub friend_spec : Relationship → ConversationSpec
friend_spec rel = record {
  base = path_name (tag rel.user);
  id = rel.user.id;
  info = relationship_info rel;
  avatar = some rel.user;
  peer = friend_peer rel.user.id;
}

unfoldable pub friend_specs : List Relationship → List ConversationSpec
unfolding is_friend friend_spec
friend_specs [] = []
friend_specs (rel ∷ rels) =
    let rest = friend_specs rels in if is_friend rel then friend_spec rel ∷ rest else rest

-- The other user of a direct message.
first_recipient : List User → Option User
first_recipient [] = none
first_recipient (user ∷ users) = some user

dm_user : Channel → Option User
unfolding first_recipient
dm_user ch = if beq_ℤ ch.kind channel_dm then first_recipient ch.recipients else none

dm_base : Channel → Option User → Bytes
dm_base ch none = ch.name
dm_base ch (some user) = tag user

unfoldable pub dm_spec : Channel → ConversationSpec
unfolding dm_user dm_base
dm_spec ch =
    let base = dm_base ch (dm_user ch) in
    record {
      base = path_name (if base == [] then codes "dm" else base);
      id = ch.id;
      info = channel_info ch;
      avatar = dm_user ch;
      peer = channel_peer ch.id;
    }

unfoldable pub channel_spec : Channel → ConversationSpec
channel_spec ch = record {
  base = path_name ch.name;
  id = ch.id;
  info = channel_info ch;
  avatar = none;
  peer = channel_peer ch.id;
}

unfoldable pub text_specs : List Channel → List ConversationSpec
unfolding channel_spec
text_specs [] = []
text_specs (ch ∷ channels) =
    let rest = text_specs channels in
    if beq_ℤ ch.kind channel_text then channel_spec ch ∷ rest else rest

-- cachedCommunity, with the name and the version of its directory and the children of `channels`. The
-- information is nil until the first reconciliation.
pub record Community : Type 0 where
  pub node : ℕ
  pub channels_node : ℕ
  pub name : Bytes
  pub version : ℕ
  pub info : Option Guild
  pub channel_nodes : Table Bytes Conversation
  pub channel_children : Table Bytes ℕ

unfoldable pub new_community : ℕ → Bytes → Community
new_community next name = record {
  node = next;
  channels_node = suc next;
  name = name;
  version = 0;
  info = none;
  channel_nodes = [];
  channel_children = [];
}

or_none : Option (List Channel) → List Channel
or_none none = []
or_none (some channels) = channels

unfoldable pub reconcile_community : ℕ → Bytes → Guild → Community → ℕ × Community
unfolding renamed_version text_specs or_none
reconcile_community next name guild community =
    let r =
      reconcile_conversations (text_specs (or_none guild.channels)) next community.channel_nodes in
    (
      r.next,
      record community {
        name = name;
        version = renamed_version community.name name community.version;
        info = some (record guild { channels = none });
        channel_nodes = r.cache;
        channel_children = r.children;
      },
    )

-- The tree: the next allocation, the caches, and the children of its three directories.
pub record Tree : Type 0 where
  pub next : ℕ
  pub friend_nodes : Table Bytes Conversation
  pub dm_nodes : Table Bytes Conversation
  pub community_nodes : Table Bytes Community
  pub friends : Table Bytes ℕ
  pub dms : Table Bytes ℕ
  pub communities : Table Bytes ℕ

refresh_friends : Snapshot → Tree → Tree
unfolding friend_specs
refresh_friends s t =
    let r = reconcile_conversations (friend_specs s.relationships) t.next t.friend_nodes in
    record t { next = r.next; friend_nodes = r.cache; friends = r.children }

refresh_dms : Snapshot → Tree → Tree
unfolding dm_spec
refresh_dms s t =
    let r = reconcile_conversations (map dm_spec s.dms) t.next t.dm_nodes in
    record t { next = r.next; dm_nodes = r.cache; dms = r.children }

guild_name : Guild → NamedId
guild_name guild = record { base = path_name guild.name; id = guild.id }

community_name : Table Bytes Bytes → Guild → Bytes
community_name names guild = elim (lookup guild.id names) [ none ↦ [] | some name ↦ name ]

place_community : Guild → ℕ × Community → Tree → Tree
place_community guild (next, community) t = record t {
  next = next;
  community_nodes = put guild.id community t.community_nodes;
  communities = put community.name community.node t.communities;
}

-- One round: a community that is not in the cache is made first, with two directories.
add_community : Bytes → Guild → Option Community → Tree → Tree
unfolding new_community reconcile_community place_community
add_community name guild none t =
    place_community guild (reconcile_community (t.next + 2) name guild (new_community t.next name))
      t
add_community name guild (some community) t =
    place_community guild (reconcile_community t.next name guild community) t

add_communities : Table Bytes Bytes → List Guild → Tree → Tree
unfolding add_community community_name
add_communities names [] t = t
add_communities names (guild ∷ guilds) t =
    add_communities names guilds
      (add_community (community_name names guild) guild (lookup guild.id t.community_nodes) t)

has_guild : Bytes → List Guild → Bool
has_guild id [] = false
has_guild id (guild ∷ guilds) = guild.id == id || has_guild id guilds

keep_communities : List Guild → Table Bytes Community → Table Bytes Community
unfolding has_guild
keep_communities guilds [] = []
keep_communities guilds ((id, c) ∷ cache) =
    let rest = keep_communities guilds cache in if has_guild id guilds then (id, c) ∷ rest else rest

refresh_communities : Snapshot → Tree → Tree
unfolding add_communities keep_communities guild_name
refresh_communities s t =
    let t' =
      add_communities (assign_names (map guild_name s.guilds)) s.guilds
        (record t { communities = [] }) in
    record t' { community_nodes = keep_communities s.guilds t'.community_nodes }

-- Refresh
unfoldable pub refresh : Snapshot → Tree → Tree
unfolding refresh_friends refresh_dms refresh_communities
refresh s t = refresh_communities s (refresh_dms s (refresh_friends s t))
