-- ===== src/Config/Valid.antt =====
-- internal/config/config.go, Parse: the configurations that are accepted.
use flx.Prelude.{
  ℕ, ◌%◌, ◌≤◌, ◌≡◌, ◌≢◌, ◌↔◌, ◌⊎◌, refl, true, false, List, [], ◌∷◌, Option, none, some, Bytes,
  codes, ◌==◌, bytes_eq, bytes_beq_iff, ℤ, pos, negsuc, nat_beq, Result, ok, err, panic, Bool-cases,
  Option-cases, inl, inr, arith,
}
use flx.Text.Space.{trim_space}
use flx.Config.{
  Config, Flags, FileInfo, System, ConfigError, one_empty, stat_checked, read_secret_file, trimmed,
  token_of, not_empty, password_of, configured, with_token, limit_allowed, with_arguments,
  with_flags, parse, env_or,
}

module _ (system : System) where
  -- The value is the text of a regular file that neither the group nor others can read or write.
  pub IsSecret : Bytes → Bytes → Type 0
  IsSecret path value =
      (info : FileInfo) × (content : Bytes) × (system.stat path ≡ some info)
      × (info.regular ≡ true)
      × (info.permissions % 64 ≡ 0)
      × (system.read_file path ≡ some content)
      × (value ≡ trim_space content)

  pub IsToken : Bytes → Bytes → Type 0
  IsToken token_file token =
      ((token_file ≡ []) × (token ≡ trim_space (system.getenv (codes "FLUXER_TOKEN"))))
      ⊎ ((token_file ≢ []) × IsSecret token_file token)

  pub IsPassword : Bytes → Bytes → Type 0
  IsPassword auth_file password =
      (auth_file ≡ []) ⊎ ((auth_file ≢ []) × (password ≢ []) × IsSecret auth_file password)

  pub IsValid : Config → Type 0
  IsValid c =
      ((limit : ℕ) × (c.history_limit ≡ pos limit) × (1 ≤ limit) × (limit ≤ 100))
      × (c.token ≢ [])
      × IsToken c.token_file c.token
      × ((c.auth_user ≡ []) ↔ (c.auth_file ≡ []))
      × IsPassword c.auth_file c.auth_password

  -- A result that is accepted has the property, and there is no panic.
  pub Accepts : {A : Type 0} → (A → Type 0) → Result ConfigError A → Type 0
  Accepts P (ok a) = P a
  Accepts P (err e) = Unit
  Accepts P panic = ⊥

  trimmed-Accepts :
      (path : Bytes) (o : Option FileInfo)
      → system.stat path ≡ o
      → Accepts (IsSecret path) (trimmed system (stat_checked system path o))
  unfolding trimmed stat_checked Accepts IsSecret
  trimmed-Accepts path none e = tt
  trimmed-Accepts path (some info) e = elim (Bool-cases info.regular) [
    | inr r ↦ rw r tt
    | inl r ↦ rw r (elim (Bool-cases (nat_beq (info.permissions % 64) 0)) [
      | inr p ↦ rw p tt
      | inl p ↦ rw p (elim (Option-cases (system.read_file path)) [
        | inl n ↦ rw n tt
        | inr (content, c) ↦ rw c (info, content, e, r, (ground arith), c, refl)
      ])
    ])
  ]

  limit_bounds :
      (z : ℤ)
      → limit_allowed system z ≡ true
      → (limit : ℕ) × (z ≡ pos limit) × (1 ≤ limit) × (limit ≤ 100)
  unfolding limit_allowed
  limit_bounds (pos n) h = (n, refl, ground arith, ground arith)
  limit_bounds (negsuc n) h = cc

  accept_map :
      {A : Type 0} (P Q : A → Type 0) (r : Result ConfigError A)
      → ((a : A) → P a → Q a)
      → Accepts P r
      → Accepts Q r
  unfolding Accepts
  accept_map P Q (ok a) f h = f a h
  accept_map P Q (err e) f h = h
  accept_map P Q panic f h = h

  empty_iff : (s : Bytes) → ((s == []) ≡ true) ↔ (s ≡ [])
  empty_iff s = bytes_beq_iff s []

  nonempty : (s : Bytes) → (s == []) ≡ false → s ≢ []
  nonempty s e h = let t = (empty_iff s).1 h in cc

  token_of-Accepts :
      (token_file : Bytes) → Accepts (IsToken token_file) (token_of system token_file)
  unfolding token_of read_secret_file Accepts IsToken
  token_of-Accepts token_file = elim (Bool-cases (token_file == [])) [
    | inl e ↦ rw e (inl ((empty_iff token_file).0 e, refl))
    | inr e ↦ rw e (
        accept_map (IsSecret token_file) (IsToken token_file) _
          (λ token secret. inr (nonempty token_file e, secret))
          (trimmed-Accepts token_file (system.stat token_file) refl))
  ]

  not_empty-Accepts :
      (P : Bytes → Type 0) (r : Result ConfigError Bytes)
      → Accepts P r
      → Accepts (λ v. (v ≢ []) × P v) (not_empty system r)
  unfolding not_empty Accepts
  not_empty-Accepts P (ok v) h = elim (Bool-cases (v == [])) [
    | inl e ↦ rw e tt
    | inr e ↦ rw e (nonempty v e, h)
  ]
  not_empty-Accepts P (err e) h = tt
  not_empty-Accepts P panic h = h

  password_of-Accepts :
      (auth_file : Bytes) → Accepts (IsPassword auth_file) (password_of system auth_file)
  unfolding password_of read_secret_file Accepts IsPassword
  password_of-Accepts auth_file = elim (Bool-cases (auth_file == [])) [
    | inl e ↦ rw e (inl ((empty_iff auth_file).0 e))
    | inr e ↦ rw e (
        accept_map (λ v. (v ≢ []) × IsSecret auth_file v) (IsPassword auth_file) _
          (λ v (ne, secret). inr (nonempty auth_file e, ne, secret))
          (not_empty-Accepts (IsSecret auth_file) _
            (trimmed-Accepts auth_file (system.stat auth_file) refl)))
  ]

  both_empty : (a b : Bytes) → one_empty (a == []) (b == []) ≡ false → (a ≡ []) ↔ (b ≡ [])
  unfolding one_empty
  both_empty a b e = elim (Bool-cases (a == [])) [
    | inl x ↦ elim (Bool-cases (b == [])) [
      | inl y ↦ ((λ h. (empty_iff b).0 y), λ h. (empty_iff a).0 x)
      | inr y ↦ absurd (let t = rw (x, y) at e in cc)
    ]
    | inr x ↦ elim (Bool-cases (b == [])) [
      | inl y ↦ absurd (let t = rw (x, y) at e in cc)
      | inr y ↦ ((λ h. absurd (nonempty a x h)), λ h. absurd (nonempty b y h))
    ]
  ]

  configured-Accepts :
      (f : Flags) (token : Bytes) (r : Result ConfigError Bytes)
      → ((limit : ℕ) × (f.history_limit ≡ pos limit) × (1 ≤ limit) × (limit ≤ 100))
      → token ≢ []
      → IsToken f.token_file token
      → ((f.auth_user ≡ []) ↔ (f.auth_file ≡ []))
      → Accepts (IsPassword f.auth_file) r
      → Accepts IsValid (configured system f token r)
  unfolding configured Accepts IsValid
  configured-Accepts f token (ok password) limit ne source both h = (limit, ne, source, both, h)
  configured-Accepts f token (err e) limit ne source both h = tt
  configured-Accepts f token panic limit ne source both h = h

  with_token-Accepts :
      (f : Flags) (r : Result ConfigError Bytes)
      → ((limit : ℕ) × (f.history_limit ≡ pos limit) × (1 ≤ limit) × (limit ≤ 100))
      → Accepts (IsToken f.token_file) r
      → Accepts IsValid (with_token system f r)
  unfolding with_token Accepts
  with_token-Accepts f (ok token) limit source = elim (Bool-cases (token == [])) [
    | inl e ↦ rw e tt
    | inr e ↦ rw e (elim (Bool-cases (one_empty (f.auth_user == []) (f.auth_file == []))) [
      | inl o ↦ rw o tt
      | inr o ↦ rw o (
          configured-Accepts f token (password_of system f.auth_file) limit (nonempty token e)
            source (both_empty f.auth_user f.auth_file o) (password_of-Accepts f.auth_file))
    ])
  ]
  with_token-Accepts f (err e) limit source = tt
  with_token-Accepts f panic limit source = source

  arguments-Accepts :
      (f : Flags) (arguments : List Bytes) → Accepts IsValid (with_arguments system f arguments)
  unfolding with_arguments Accepts
  arguments-Accepts f (argument ∷ arguments) = tt
  arguments-Accepts f [] = elim (Bool-cases (limit_allowed system f.history_limit)) [
    | inl e ↦ rw e (
        with_token-Accepts f (token_of system f.token_file) (limit_bounds f.history_limit e)
          (token_of-Accepts f.token_file))
    | inr e ↦ rw e tt
  ]

  flags-Accepts : (o : Option Flags) → Accepts IsValid (with_flags system o)
  unfolding with_flags Accepts
  flags-Accepts none = tt
  flags-Accepts (some f) = arguments-Accepts f f.arguments

  -- Whatever the arguments, the environment and the files are, there is no panic, and a configuration
  -- that is accepted has a history limit from 1 to 100; a token that is not empty, from the variable
  -- if no file is named, and else from a regular file that only its owner can read or write; a user
  -- exactly if it has a password file; and if it has one, a password that is not empty, from a file
  -- of that kind.
  pub parse-Accepts : (arguments : List Bytes) → Accepts IsValid (parse system arguments)
  unfolding parse
  parse-Accepts arguments = flags-Accepts (
      system.parse_flags
        (env_or system (codes "FLUXER_API_BASE") (codes "https://api.fluxer.app/v1")) arguments)
