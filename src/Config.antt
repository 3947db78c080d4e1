-- ===== src/Config.antt =====
-- internal/config/config.go. The flag parser, the environment and the file system are parameters.
pub mod Valid
use flx.Prelude.{
  ℕ, ◌%◌, Bool, true, false, not, ◌||◌, ◌&&◌, List, [], ◌∷◌, Option, none, some, Bytes, codes, ◌==◌,
  bytes_eq, ℤ, pos, ltb_ℤ, nat_beq, Result, ok, err, panic, if◌then◌else◌,
}
use flx.Text.Space.{trim_space}

pub record Config : Type 0 where
  pub api_base : Bytes
  pub listen : Bytes
  pub token : Bytes
  pub token_file : Bytes
  pub auth_user : Bytes
  pub auth_file : Bytes
  pub auth_password : Bytes
  pub history_limit : ℤ

-- The values of the flags, and the arguments behind them.
pub record Flags : Type 0 where
  pub api_base : Bytes
  pub listen : Bytes
  pub token_file : Bytes
  pub auth_user : Bytes
  pub auth_file : Bytes
  pub history_limit : ℤ
  pub arguments : List Bytes

-- What os.Stat tells of a file: whether it is regular, and its permission bits.
pub record FileInfo : Type 0 where
  pub regular : Bool
  pub permissions : ℕ

-- `parse_flags` gets the default of --api-base and the arguments.
pub record System : Type 0 where
  pub getenv : Bytes → Bytes
  pub parse_flags : Bytes → List Bytes → Option Flags
  pub stat : Bytes → Option FileInfo
  pub read_file : Bytes → Option Bytes

pub data ConfigError : Type 0 where
  bad_flags unexpected_argument bad_limit no_token auth_incomplete empty_password : ConfigError
  no_file not_regular not_private unreadable : ConfigError

-- (a == "") != (b == "")
one_empty : Bool → Bool → Bool
one_empty true b = not b
one_empty false b = b

module _ (system : System) where
  env_or : Bytes → Bytes → Bytes
  env_or name fallback =
      let value = trim_space (system.getenv name) in if value == [] then fallback else value

  -- perm & 0077
  stat_checked : Bytes → Option FileInfo → Result ConfigError Bytes
  stat_checked path none = err no_file
  stat_checked path (some info) =
      if not info.regular
      then err not_regular
      else if not (nat_beq (info.permissions % 64) 0)
      then err not_private
      else elim (system.read_file path) [ none ↦ err unreadable | some content ↦ ok content ]

  read_secret_file : Bytes → Result ConfigError Bytes
  unfolding stat_checked
  read_secret_file path = stat_checked path (system.stat path)

  -- The value without the spaces around it.
  trimmed : Result ConfigError Bytes → Result ConfigError Bytes
  trimmed (ok content) = ok (trim_space content)
  trimmed (err e) = err e
  trimmed panic = panic

  token_of : Bytes → Result ConfigError Bytes
  unfolding trimmed
  token_of token_file =
      if token_file == []
      then ok (trim_space (system.getenv (codes "FLUXER_TOKEN")))
      else trimmed (read_secret_file token_file)

  not_empty : Result ConfigError Bytes → Result ConfigError Bytes
  not_empty (ok password) = if password == [] then err empty_password else ok password
  not_empty (err e) = err e
  not_empty panic = panic

  password_of : Bytes → Result ConfigError Bytes
  unfolding trimmed not_empty
  password_of auth_file =
      if auth_file == [] then ok [] else not_empty (trimmed (read_secret_file auth_file))

  configured : Flags → Bytes → Result ConfigError Bytes → Result ConfigError Config
  configured f token (ok password) = ok (record {
    api_base = f.api_base;
    listen = f.listen;
    token = token;
    token_file = f.token_file;
    auth_user = f.auth_user;
    auth_file = f.auth_file;
    auth_password = password;
    history_limit = f.history_limit;
  })
  configured f token (err e) = err e
  configured f token panic = panic

  -- What follows the token.
  with_token : Flags → Result ConfigError Bytes → Result ConfigError Config
  unfolding configured password_of
  with_token f (ok token) =
      if token == []
      then err no_token
      else if one_empty (f.auth_user == []) (f.auth_file == [])
      then err auth_incomplete
      else configured f token (password_of f.auth_file)
  with_token f (err e) = err e
  with_token f panic = panic

  limit_allowed : ℤ → Bool
  limit_allowed limit = not (ltb_ℤ limit (pos 1) || ltb_ℤ (pos 100) limit)

  with_arguments : Flags → List Bytes → Result ConfigError Config
  unfolding with_token limit_allowed token_of
  with_arguments f (argument ∷ arguments) = err unexpected_argument
  with_arguments f [] =
      if limit_allowed f.history_limit then with_token f (token_of f.token_file) else err bad_limit

  with_flags : Option Flags → Result ConfigError Config
  unfolding with_arguments
  with_flags none = err bad_flags
  with_flags (some f) = with_arguments f f.arguments

  pub parse : List Bytes → Result ConfigError Config
  unfolding with_flags env_or
  parse arguments = with_flags (
      system.parse_flags (env_or (codes "FLUXER_API_BASE") (codes "https://api.fluxer.app/v1"))
        arguments)
