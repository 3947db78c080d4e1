-- ===== src/Tests/Configs.antt =====
-- The configuration at a concrete input.
use flx.Prelude.{[], ◌∷◌, some, codes, pos, true}
use flx.Config.{System, parse}
use flx.Config.Valid.{Accepts, IsValid, parse-Accepts}

-- A password file that only its owner can read, and the token in the environment.
abbrev system : System
system = record {
  getenv = λ name. codes " token\n";
  parse_flags = λ api_base arguments. some (record {
    api_base = api_base;
    listen = codes "127.0.0.1:5640";
    token_file = [];
    auth_user = codes "glenda";
    auth_file = codes "secret";
    history_limit = pos 100;
    arguments = [];
  });
  stat = λ path. some (record { regular = true; permissions = 384 });
  read_file = λ path. some (codes "password\n");
}

parse-Accepts_example : Accepts system (IsValid system) (parse system (codes "--auth-user" ∷ []))
parse-Accepts_example = parse-Accepts system (codes "--auth-user" ∷ [])
