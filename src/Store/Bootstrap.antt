-- ===== src/Store/Bootstrap.antt =====
-- internal/core/store.go: Bootstrap, over an interface to the API client. The client's own requests
-- are not part of this module.
use flx.Prelude.{
  List, [], ◌∷◌, Option, Bytes, ◌==◌, bytes_eq, if◌then◌else◌, Table, put, Result, ok, err, panic,
}
use flx.Types.{User, Relationship, Channel, Guild}
use flx.Store.{Store, observe, put_users, put_dms, put_relationships, put_guilds}

-- The users of relationships that name one, and the recipients of private channels.
users_of_relationships : List Relationship → Table Bytes User → Table Bytes User
users_of_relationships [] users = users
users_of_relationships (r ∷ rs) users =
    users_of_relationships rs (if r.user.id == [] then users else put r.user.id r.user users)

users_of_dms : List Channel → Table Bytes User → Table Bytes User
users_of_dms [] users = users
users_of_dms (d ∷ ds) users = users_of_dms ds (put_users d.recipients users)

-- The store after everything was loaded, its observer called.
unfoldable pub bootstrapped : User → List Relationship → List Channel → List Guild → Store → Store
unfolding users_of_relationships users_of_dms put_relationships put_dms put_guilds
bootstrapped me rels dms guilds s = observe (record s {
  me = me;
  users = users_of_dms dms (users_of_relationships rels (put me.id me s.users));
  relationships = put_relationships rels s.relationships;
  dms = put_dms dms s.dms;
  guilds = put_guilds guilds s.guilds;
})

-- The calls of the API client that Bootstrap makes, over a state of the world.
pub record Api (E W : Type 0) : Type 0 where
  pub get_me : W → Result E User × W
  pub get_relationships : W → Result E (List Relationship) × W
  pub get_private_channels : W → Result E (List Channel) × W
  pub get_guilds : W → Result E (List Guild) × W
  pub get_guild_channels : Bytes → W → Result E (Option (List Channel)) × W

pub data BootstrapError (E : Type 0) : Type 0 where
  load_me load_relationships load_private_channels load_communities : E → BootstrapError E
  load_channels : Bytes → E → BootstrapError E

module _ {E W : Type 0} where
  -- The next step of a call sequence, or the wrapped error of the last one.
  abbrev pub next :
      {A B : Type 0}
      → (E → BootstrapError E)
      → Result E A × W
      → (A → W → Result (BootstrapError E) B × W)
      → Result (BootstrapError E) B × W
  next wrap (ok a, w) f = f a w
  next wrap (err e, w) f = (err (wrap e), w)
  next wrap (panic, w) f = (panic, w)

  abbrev pub add_guild :
      Guild
      → Result (BootstrapError E) (List Guild) × W
      → Result (BootstrapError E) (List Guild) × W
  add_guild g (ok gs, w) = (ok (g ∷ gs), w)
  add_guild g (err e, w) = (err e, w)
  add_guild g (panic, w) = (panic, w)

  load_guilds : Api E W → List Guild → W → Result (BootstrapError E) (List Guild) × W
  load_guilds api [] w = (ok [], w)
  load_guilds api (g ∷ gs) w =
      next (load_channels g.id) (api.get_guild_channels g.id w)
        (λ channels w'. add_guild (record g { channels = channels }) (load_guilds api gs w'))

  abbrev pub finish_bootstrap :
      (List Guild → Store)
      → Result (BootstrapError E) (List Guild) × W
      → Result (BootstrapError E) Store × W
  finish_bootstrap f (ok gs, w) = (ok (f gs), w)
  finish_bootstrap f (err e, w) = (err e, w)
  finish_bootstrap f (panic, w) = (panic, w)

  unfoldable pub bootstrap : Api E W → Store → W → Result (BootstrapError E) Store × W
  unfolding load_guilds
  bootstrap api s w = next load_me (api.get_me w) (λ me w1.
      next load_relationships (api.get_relationships w1) (λ rels w2.
        next load_private_channels (api.get_private_channels w2) (λ dms w3.
          next load_communities (api.get_guilds w3) (λ guilds w4.
            finish_bootstrap (λ gs. bootstrapped me rels dms gs s) (load_guilds api guilds w4)))))
