-- ===== src/Store/Gateway/Keyed.antt =====
-- Every operation of ApplyGateway (internal/core/store.go) keeps the store consistent.
use flx.Prelude.{
  ℕ, ◌≡◌, refl, Bool, true, false, ◌||◌, [], Option, none, some, Bytes, codes, ℤ, ◌==◌, bytes_eq,
  if◌then◌else◌, Table, lookup-nil, Result, ok, err, panic, ◌>>=◌,
}
use flx.Types.{Relationship, Channel, Guild, Message, Event, ReadyEvent}
use flx.Hub.{Hub, publish}
use flx.Hub.Invariant.{IsSound, IsSound-Keeps, publish_sound}
use flx.Store.{Store, new_store}
use flx.Store.Gateway.{
  Codec, GatewayError, decoded, apply_ready, message_event, publish_result, apply_channel,
  upsert_in_guild, delete_channel, delete_in_guild, apply_relationship, remove_relationship,
  apply_guild, delete_guild, apply_gateway,
}
use flx.Store.Gateway.Consistent.{
  Holds, Keyed, Keyed-put, Keyed-remove, IsConsistent, IsConsistent-if, IsConsistent-observe,
  Keyed-put_users, Keyed-put_dms, Keyed-put_relationships, Keyed-merge, Keyed-put_available,
  put_named,
}

apply_ready-IsConsistent :
    (ready : ReadyEvent) (s : Store) → IsConsistent s → IsConsistent (apply_ready ready s)
unfolding apply_ready
apply_ready-IsConsistent ready s k = IsConsistent-observe _ (record {
  users = Keyed-put_users ready.users _ (put_named ready.user s.users k.users);
  relationships = Keyed-put_relationships ready.relationships _ k.relationships;
  dms = Keyed-put_dms ready.private_channels _ k.dms;
  guilds = Keyed-put_available ready.guilds _ k.guilds;
  hub = k.hub;
})

upsert_in_guild-Keyed :
    (channel : Channel) (k : Bytes) (o : Option Guild) (m : Table Bytes Guild)
    → Holds (λ g. g.id ≡ k) o
    → Keyed (λ g. g.id) m
    → Keyed (λ g. g.id) (upsert_in_guild channel o m)
unfolding upsert_in_guild
upsert_in_guild-Keyed channel k none m e h = h
upsert_in_guild-Keyed channel k (some g) m e h = Keyed-put (λ g. g.id) g.id _ m refl h

delete_in_guild-Keyed :
    (channel : Channel) (k : Bytes) (o : Option Guild) (m : Table Bytes Guild)
    → Holds (λ g. g.id ≡ k) o
    → Keyed (λ g. g.id) m
    → Keyed (λ g. g.id) (delete_in_guild channel o m)
unfolding delete_in_guild
delete_in_guild-Keyed channel k none m e h = h
delete_in_guild-Keyed channel k (some g) m e h = Keyed-put (λ g. g.id) g.id _ m refl h

apply_channel-IsConsistent :
    (channel : Channel) (s : Store) → IsConsistent s → IsConsistent (apply_channel channel s)
unfolding apply_channel
apply_channel-IsConsistent channel s k =
    IsConsistent-if (channel.guild_id == []) _ _
      (IsConsistent-observe _ (record {
        users = k.users;
        relationships = k.relationships;
        dms = Keyed-put (λ c. c.id) channel.id channel s.dms refl k.dms;
        guilds = k.guilds;
        hub = k.hub;
      }))
      (IsConsistent-observe _ (record {
        users = k.users;
        relationships = k.relationships;
        dms = k.dms;
        guilds =
            upsert_in_guild-Keyed channel channel.guild_id _ s.guilds (k.guilds channel.guild_id)
              k.guilds;
        hub = k.hub;
      }))

delete_channel-IsConsistent :
    (channel : Channel) (s : Store) → IsConsistent s → IsConsistent (delete_channel channel s)
unfolding delete_channel
delete_channel-IsConsistent channel s k = IsConsistent-observe _ (record {
  users = k.users;
  relationships = k.relationships;
  dms = Keyed-remove (λ c. c.id) channel.id s.dms k.dms;
  guilds =
      delete_in_guild-Keyed channel channel.guild_id _ s.guilds (k.guilds channel.guild_id)
        k.guilds;
  hub = k.hub;
})

apply_relationship-IsConsistent :
    (rel : Relationship) (s : Store) → IsConsistent s → IsConsistent (apply_relationship rel s)
unfolding apply_relationship
apply_relationship-IsConsistent rel s k = IsConsistent-observe _ (record {
  users = put_named rel.user s.users k.users;
  relationships = Keyed-put (λ r. r.id) rel.id rel s.relationships refl k.relationships;
  dms = k.dms;
  guilds = k.guilds;
  hub = k.hub;
})

remove_relationship-IsConsistent :
    (id : Bytes) (s : Store) → IsConsistent s → IsConsistent (remove_relationship id s)
unfolding remove_relationship
remove_relationship-IsConsistent id s k = IsConsistent-observe _ (record {
  users = k.users;
  relationships = Keyed-remove (λ r. r.id) id s.relationships k.relationships;
  dms = k.dms;
  guilds = k.guilds;
  hub = k.hub;
})

apply_guild-IsConsistent :
    (guild : Guild) (s : Store) → IsConsistent s → IsConsistent (apply_guild guild s)
unfolding apply_guild
apply_guild-IsConsistent guild s k = IsConsistent-observe _ (record {
  users = k.users;
  relationships = k.relationships;
  dms = k.dms;
  guilds = Keyed-merge guild s.guilds k.guilds;
  hub = k.hub;
})

delete_guild-IsConsistent :
    (guild : Guild) (s : Store) → IsConsistent s → IsConsistent (delete_guild guild s)
unfolding delete_guild
delete_guild-IsConsistent guild s k = IsConsistent-observe _ (record {
  users = k.users;
  relationships = k.relationships;
  dms = k.dms;
  guilds = Keyed-remove (λ g. g.id) guild.id s.guilds k.guilds;
  hub = k.hub;
})

-- The call returned: a consistent store, or an error, in which case the store is as it was.
abbrev pub Kept : Result GatewayError Store → Type 0
Kept (ok s) = IsConsistent s
Kept (err e) = Unit
Kept panic = ⊥

Kept-if : (b : Bool) (r t : Result GatewayError Store) → Kept r → Kept t → Kept (if b then r else t)
Kept-if true r t kr kt = kr
Kept-if false r t kr kt = kt

Kept-decoded :
    {A : Type 0} (o : Option A) (f : A → Result GatewayError Store)
    → ((a : A) → Kept (f a))
    → Kept (decoded o >>= f)
Kept-decoded none f h = tt
Kept-decoded (some a) f h = h a

publish_result-Kept :
    (s : Store) (event : Event) → IsConsistent s → Kept (publish_result s (publish event s.hub))
unfolding publish_result
publish_result-Kept s event k =
    let (hub, published, keeps) = publish_sound event s.hub k.hub in
    rw published (record {
      users = k.users;
      relationships = k.relationships;
      dms = k.dms;
      guilds = k.guilds;
      hub = IsSound-Keeps s.hub hub keeps k.hub;
    })

message_event-Kept :
    (now : ℕ) (event_type : Bytes) (sequence : ℤ) (payload : Bytes) (message : Option Message)
    (id channel_id : Bytes) (s : Store)
    → IsConsistent s
    → Kept (message_event now event_type sequence payload message id channel_id s)
unfolding message_event
message_event-Kept now event_type sequence payload message id channel_id s k =
    publish_result-Kept s _ k

module _ (codec : Codec) (now : ℕ) (event_type : Bytes) (sequence : ℤ) (payload : Bytes)
    (s : Store) where
  -- Whatever event arrives with whatever payload, a consistent store stays consistent: every
  -- relationship, private channel, community and user stands under its own identifier and the hub
  -- keeps its invariant. The event is applied or refused for its payload; it never panics.
  pub apply_gateway-Kept :
      IsConsistent s → Kept (apply_gateway codec now event_type sequence payload s)
  unfolding apply_gateway
  apply_gateway-Kept k =
      Kept-if (event_type == codes "READY") _ _
        (Kept-decoded (codec.ready payload) _ (λ v. apply_ready-IsConsistent v s k))
        (Kept-if (event_type == codes "MESSAGE_CREATE" || event_type == codes "MESSAGE_UPDATE") _ _
          (Kept-decoded (codec.message payload) _
            (λ v. message_event-Kept now event_type sequence payload _ v.id v.channel_id s k))
          (Kept-if (event_type == codes "MESSAGE_DELETE") _ _
            (Kept-decoded (codec.deleted payload) _
              (λ v. message_event-Kept now event_type sequence payload none v.id v.channel_id s k))
            (Kept-if (event_type == codes "CHANNEL_CREATE" || event_type == codes "CHANNEL_UPDATE")
              _ _ (Kept-decoded (codec.channel payload) _ (λ v. apply_channel-IsConsistent v s k))
              (Kept-if (event_type == codes "CHANNEL_DELETE") _ _
                (Kept-decoded (codec.channel payload) _ (λ v. delete_channel-IsConsistent v s k))
                (Kept-if
                  (event_type == codes "RELATIONSHIP_ADD"
                    || event_type == codes "RELATIONSHIP_UPDATE")
                  _ _
                  (Kept-decoded (codec.relationship payload) _
                    (λ v. apply_relationship-IsConsistent v s k))
                  (Kept-if (event_type == codes "RELATIONSHIP_REMOVE") _ _
                    (Kept-decoded (codec.relationship_id payload) _
                      (λ v. remove_relationship-IsConsistent v s k))
                    (Kept-if
                      (event_type == codes "GUILD_CREATE" || event_type == codes "GUILD_UPDATE") _ _
                      (Kept-decoded (codec.guild payload) _ (λ v. apply_guild-IsConsistent v s k))
                      (Kept-if (event_type == codes "GUILD_DELETE") _ _
                        (Kept-decoded (codec.guild payload) _
                          (λ v. delete_guild-IsConsistent v s k))
                        k))))))))

-- The store of a program that starts is consistent.
pub new_store-IsConsistent : (h : Hub) → IsSound h → IsConsistent (new_store h)
unfolding new_store
new_store-IsConsistent h sound = record {
  users = λ k. rw (lookup-nil k) tt;
  relationships = λ k. rw (lookup-nil k) tt;
  dms = λ k. rw (lookup-nil k) tt;
  guilds = λ k. rw (lookup-nil k) tt;
  hub = sound;
}
