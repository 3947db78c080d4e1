-- ===== src/Store.antt =====
-- internal/core/store.go. The maps are tables, the mutex is left out since each operation holds it
-- while it works on them, and a call of the topology observer is counted in `refreshes`.
-- JSON decoding is a parameter: `Codec` has the decoder of each payload, `none` an error.
pub mod Bootstrap
pub mod Gateway
use flx.Prelude.{
  ℕ, ◌+◌, Bool, true, false, not, ◌||◌, List, [], ◌∷◌, ◌++◌, Option, none, some, Bytes, codes, ◌==◌,
  bytes_eq, if◌then◌else◌, Table, lookup, put, remove, Result, ok, err, panic, ◌>>=◌, beq_ℤ,
}
use flx.Types.{User, Relationship, Channel, channel_dm, Guild}
use flx.Hub.{Hub}

abbrev pub zero_user : User
zero_user = record {
  id = [];
  username = [];
  discriminator = [];
  global_name = none;
  avatar = none;
  bot = false;
  system = false;
}

abbrev pub zero_guild : Guild
zero_guild = record { id = []; name = []; owner_id = []; channels = none; unavailable = false }

pub record Store : Type 0 where
  pub me : User
  pub users : Table Bytes User
  pub relationships : Table Bytes Relationship
  pub dms : Table Bytes Channel
  pub guilds : Table Bytes Guild
  pub hub : Hub
  pub has_observer : Bool
  pub refreshes : ℕ

unfoldable pub new_store : Hub → Store
new_store hub = record {
  me = zero_user;
  users = [];
  relationships = [];
  dms = [];
  guilds = [];
  hub = hub;
  has_observer = false;
  refreshes = 0;
}

unfoldable pub set_topology_observer : Bool → Store → Store
set_topology_observer present s = record s { has_observer = present }

-- if observer != nil { observer() }
unfoldable pub observe : Store → Store
observe s = if s.has_observer then record s { refreshes = s.refreshes + 1 } else s

-- A missing key reads as the zero value.
abbrev pub or_else {ℓ} : {A : Type ℓ} → Option A → A → A
or_else none d = d
or_else (some a) d = a

unfoldable pub merge_guild : Guild → Guild → Guild
merge_guild current update = record update {
  id = if update.id == [] then current.id else update.id;
  name = if update.name == [] then current.name else update.name;
  owner_id = if update.owner_id == [] then current.owner_id else update.owner_id;
  channels = elim update.channels [ none ↦ current.channels | some cs ↦ some cs ];
}

unfoldable pub put_users : List User → Table Bytes User → Table Bytes User
put_users [] users = users
put_users (u ∷ us) users = put_users us (put u.id u users)

unfoldable pub put_dms : List Channel → Table Bytes Channel → Table Bytes Channel
put_dms [] dms = dms
put_dms (d ∷ ds) dms = put_dms ds (put d.id d dms)

unfoldable pub put_relationships :
    List Relationship → Table Bytes Relationship → Table Bytes Relationship
put_relationships [] rels = rels
put_relationships (r ∷ rs) rels = put_relationships rs (put r.id r rels)

unfoldable pub put_guilds : List Guild → Table Bytes Guild → Table Bytes Guild
put_guilds [] guilds = guilds
put_guilds (g ∷ gs) guilds = put_guilds gs (put g.id g guilds)

pub record Snapshot : Type 0 where
  pub me : User
  pub relationships : List Relationship
  pub dms : List Channel
  pub guilds : List Guild

fill_users : Table Bytes User → Table Bytes Relationship → List Relationship
fill_users users [] = []
fill_users users ((k, r) ∷ rels) =
    (if r.user.id == [] then record r { user = or_else (lookup r.id users) zero_user } else r)
    ∷ fill_users users rels

unfoldable pub values {ℓ} : {K V : Type ℓ} → Table K V → List V
values [] = []
values ((k, v) ∷ m) = v ∷ values m

unfoldable pub snapshot : Store → Snapshot
unfolding fill_users values
snapshot s = record {
  me = s.me;
  relationships = fill_users s.users s.relationships;
  dms = values s.dms;
  guilds = values s.guilds;
}

unfoldable pub has_recipient : Bytes → List User → Bool
has_recipient user_id [] = false
has_recipient user_id (u ∷ us) = u.id == user_id || has_recipient user_id us

unfoldable pub is_dm_with : Bytes → Channel → Bool
unfolding has_recipient
is_dm_with user_id dm =
    if beq_ℤ dm.kind channel_dm then has_recipient user_id dm.recipients else false

unfoldable pub find_dm : Bytes → Table Bytes Channel → Option Channel
find_dm user_id [] = none
find_dm user_id ((k, dm) ∷ dms) = if is_dm_with user_id dm then some dm else find_dm user_id dms

-- FindDMForUser, with the map in the order of its entries.
unfoldable pub find_dm_for_user : Bytes → Store → Option Channel
unfolding find_dm is_dm_with
find_dm_for_user user_id s = find_dm user_id s.dms

unfoldable pub upsert_dm : Channel → Store → Store
upsert_dm dm s = observe (record s { dms = put dm.id dm s.dms })

unfoldable pub set_me : User → Store → Store
set_me me s = record s { me = me; users = put me.id me s.users }
