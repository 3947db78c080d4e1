-- ===== src/Store/Gateway/Channels.antt =====
-- What the channel events do to the channel list of a community, and the merge of communities.
use flx.Prelude.{
  ◌≡◌, ◌≢◌, refl, true, false, List, [], ◌∷◌, ◌++◌, Option, none, some, Bytes, ◌==◌, bytes_eq,
  bytes_beq_iff, if◌then◌else◌, Table, lookup, arith, Bool-cases, inl, inr, lookup-put, beq_ne,
  beq_refl, put, ◌∙◌,
}
use mathlib.Core.Path.{subst}
use flx.Types.{Channel, Guild}
use flx.Store.{Store, zero_guild, merge_guild, or_else, observe}
use flx.Store.Gateway.{
  replace_channel, has_channel, upsert_channel, without_channel, apply_channel, upsert_in_guild,
}

-- The first channel with the identifier.
pub find_channel : Bytes → List Channel → Option Channel
find_channel id [] = none
find_channel id (c ∷ cs) = if c.id == id then some c else find_channel id cs

find-append :
    (id : Bytes) (channel : Channel) (cs : List Channel)
    → has_channel channel.id cs ≡ false
    → find_channel id (cs ++ channel ∷ [])
      ≡ (if channel.id == id then some channel else find_channel id cs)
unfolding find_channel has_channel
find-append id channel [] h = refl
find-append id channel (c ∷ cs) h = ground (
  arith,
  find-append id channel cs,
  bytes_beq_iff c.id id,
  bytes_beq_iff channel.id id,
  bytes_beq_iff c.id channel.id,
)

find-replace_other :
    (id : Bytes) (channel : Channel) (cs : List Channel)
    → (channel.id == id) ≡ false
    → find_channel id (replace_channel channel cs) ≡ find_channel id cs
unfolding find_channel replace_channel
find-replace_other id channel [] h = refl
find-replace_other id channel (c ∷ cs) h = ground (
  arith,
  find-replace_other id channel cs,
  bytes_beq_iff c.id id,
  bytes_beq_iff channel.id id,
  bytes_beq_iff c.id channel.id,
)

find-replace_self :
    (channel : Channel) (cs : List Channel)
    → has_channel channel.id cs ≡ true
    → find_channel channel.id (replace_channel channel cs) ≡ some channel
unfolding find_channel replace_channel has_channel
find-replace_self channel [] h = cc
find-replace_self channel (c ∷ cs) h = ground (
  arith,
  find-replace_self channel cs,
  bytes_beq_iff c.id channel.id,
  bytes_beq_iff channel.id channel.id,
)

-- A created or updated channel is found afterwards under its identifier; every other channel of the
-- community is found as before.
pub find-upsert_channel :
    (id : Bytes) (channel : Channel) (cs : List Channel)
    → find_channel id (upsert_channel channel cs)
      ≡ (if channel.id == id then some channel else find_channel id cs)
unfolding upsert_channel
find-upsert_channel id channel cs = elim (Bool-cases (has_channel channel.id cs)) [
  | inr fresh ↦ rw fresh (find-append id channel cs fresh)
  | inl old ↦ elim (Bool-cases (channel.id == id)) [
    | inl e ↦
        rw (old, e) (rw (← (bytes_beq_iff channel.id id).0 e) (find-replace_self channel cs old))
    | inr e ↦ rw (old, e) (find-replace_other id channel cs e)
  ]
]

-- A deleted channel is not found any more, not even a second copy of it; every other channel of the
-- community is found as before.
pub find-without_channel :
    (id j : Bytes) (cs : List Channel)
    → find_channel j (without_channel id cs) ≡ (if id == j then none else find_channel j cs)
unfolding find_channel without_channel
find-without_channel id j [] = ground arith
find-without_channel id j (c ∷ cs) = ground (
  arith,
  find-without_channel id j cs,
  bytes_beq_iff c.id id,
  bytes_beq_iff c.id j,
  bytes_beq_iff id j,
)

-- The channels of a community of the store.
pub channels_of : Bytes → Table Bytes Guild → List Channel
channels_of id guilds = or_else (or_else (lookup id guilds) zero_guild).channels []

-- Merging the same update once more changes nothing.
pub merge_guild_idem :
    (current update : Guild)
    → merge_guild (merge_guild current update) update ≡ merge_guild current update
unfolding merge_guild
merge_guild_idem current update = ground arith

guilds-observe : (s : Store) → (observe s).guilds ≡ s.guilds
unfolding observe
guilds-observe s = ground arith

-- The community with other channels.
abbrev pub with_channels : Guild → List Channel → Guild
with_channels g cs = record g { channels = some cs }

-- The communities after a channel event.
apply_channel-guilds :
    (channel : Channel) (s : Store) (g : Guild) (k : Bytes)
    → channel.guild_id ≢ []
    → lookup channel.guild_id s.guilds ≡ some g
    → g.id ≡ channel.guild_id
    → lookup k (apply_channel channel s).guilds ≡ (
        if channel.guild_id == k
        then some (with_channels g (upsert_channel channel (or_else g.channels [])))
        else lookup k s.guilds)
unfolding apply_channel upsert_in_guild
apply_channel-guilds channel s g k named found keyed =
    let e : (channel.guild_id == []) ≡ false = beq_ne channel.guild_id [] named in
    let updated = with_channels g (upsert_channel channel (or_else g.channels [])) in
    rw e (
      rw
        (guilds-observe (record s {
          guilds = upsert_in_guild channel (lookup channel.guild_id s.guilds) s.guilds;
        }))
        (rw found (
          subst
            (λ x.
              lookup k (put g.id updated s.guilds)
              ≡ (if x == k then some updated else lookup k s.guilds))
            keyed (lookup-put g.id k updated s.guilds))))

-- A channel event for a known community of a store whose communities stand under their identifiers:
-- that community is there afterwards, with its identifier, its name, its owner and all else but its
-- channels as they were; among its channels the channel is found under its identifier, and every
-- other channel as before; and every other community is the one that it was.
pub find-apply_channel :
    (channel : Channel) (s : Store) (g : Guild) (j k : Bytes)
    → channel.guild_id ≢ []
    → lookup channel.guild_id s.guilds ≡ some g
    → g.id ≡ channel.guild_id
    → let after = (apply_channel channel s).guilds in
      let cs = channels_of channel.guild_id after in
      (lookup k after
        ≡ (if channel.guild_id == k then some (with_channels g cs) else lookup k s.guilds))
      × (find_channel j cs ≡ (
          if channel.id == j
          then some channel
          else find_channel j (channels_of channel.guild_id s.guilds)))
unfolding channels_of
find-apply_channel channel s g j k named found keyed =
    let here : lookup channel.guild_id (apply_channel channel s).guilds
        ≡ some (with_channels g (upsert_channel channel (or_else g.channels []))) =
      apply_channel-guilds channel s g channel.guild_id named found keyed
      ∙ rw (beq_refl channel.guild_id) refl in
    (
      rw here (apply_channel-guilds channel s g k named found keyed),
      rw (here, found) (find-upsert_channel j channel (or_else g.channels [])),
    )
