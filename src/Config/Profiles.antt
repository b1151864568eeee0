-- ===== src/Config/Profiles.antt =====
-- LoadJSON and ForProfile of config.go. The decoding of the JSON text is a
-- parameter: the raw profiles, or nothing where the text or what follows it is refused.
pub mod Lookup
use vaultsmith.Base.{
  ℕ, ◌≡◌, ◌≢◌, ◌⊎◌, inl, inr, refl, sym, ap, subst, ◌∙◌, Bool, true, false, not, ◌||◌, ◌&&◌, ◌==◌,
  within, arith, List, [], ◌∷◌, any, In, here, there, codes, Bytes, bytes_eq, bytes_eq_iff,
  bytes_eq_refl, is_empty, if◌then◌else◌, Option, none, some, Bool-cases, Result, ok, err, ◌>>=◌,
  ◌>>◌, guard, guard_then, or_err, or_err_then, bind-eq-ok,
}
use vaultsmith.Text.Space.{trim_space}
use vaultsmith.Config.{is_valid_profile_id}
use vaultsmith.Vault.Envelope.{VaultError}
use vaultsmith.Vault.Cipher.{Crypto, encrypt, decrypt}

pub record RawProfile : Type 0 where
  pub id : Bytes
  pub label : Bytes
  pub password_env : Bytes

pub record Profile : Type 0 where
  pub id : Bytes
  pub label : Bytes
  pub password : Bytes

pub data ConfigError : Type 0 where
  invalid_json no_profiles invalid_id duplicate_id empty_label : ConfigError
  invalid_password_env reserved_password_env duplicate_password_env missing_password : ConfigError

env_start : ℕ → Bool
env_start c = within b'A' b'Z' c || c == b'_'

env_parts : Bytes → Bool
unfolding env_start
env_parts [] = true
env_parts (c ∷ s) = (env_start c || within b'0' b'9' c) && env_parts s

-- `^[A-Z_][A-Z0-9_]*$`
is_password_env : Bytes → Bool
unfolding env_parts
is_password_env [] = false
is_password_env (c ∷ s) = env_start c && env_parts s

abbrev reserved_env_names : List Bytes
reserved_env_names =
    codes "VAULT_PROFILES_JSON"
    ∷ codes "HTTP_ADDR"
    ∷ codes "MCP_ENABLED"
    ∷ codes "MCPGODEBUG"
    ∷ codes "PROOFS_ENABLED"
    ∷ codes "PROOFS_KEYRING_FILE"
    ∷ []

-- `_, exists := seen[name]`
abbrev seen : Bytes → List Bytes → Bool
seen name names = any (λ n. bytes_eq n name) names

-- One round of the loop, up to the password.
unfoldable pub resolve_profile :
    (Bytes → Option Bytes) → List Bytes → List Bytes → RawProfile → Result ConfigError Profile
unfolding is_password_env
resolve_profile lookup ids envs raw = do
  guard (is_valid_profile_id raw.id) invalid_id
  guard (not (seen raw.id ids)) duplicate_id
  guard (not (is_empty (trim_space raw.label))) empty_label
  guard (is_password_env raw.password_env) invalid_password_env
  guard (not (seen raw.password_env reserved_env_names)) reserved_password_env
  guard (not (seen raw.password_env envs)) duplicate_password_env
  password ← or_err (lookup raw.password_env) missing_password
  guard (not (is_empty password)) missing_password
  ok (record { id = raw.id; label = trim_space raw.label; password = password })

unfoldable pub resolve_profiles :
    (Bytes → Option Bytes)
    → List Bytes
    → List Bytes
    → List RawProfile
    → Result ConfigError (List Profile)
resolve_profiles lookup ids envs [] = ok []
resolve_profiles lookup ids envs (raw ∷ raws) =
    let rest = resolve_profiles lookup (raw.id ∷ ids) (raw.password_env ∷ envs) raws in
    do profile ← resolve_profile lookup ids envs raw; profiles ← rest; ok (profile ∷ profiles)

unfoldable pub load_json :
    Option (List RawProfile) → (Bytes → Option Bytes) → Result ConfigError (List Profile)
load_json decoded lookup = do
  raws ← or_err decoded invalid_json
  guard (not (is_empty raws)) no_profiles
  resolve_profiles lookup [] [] raws

-- ForProfile: in the map by ID a later profile replaces an earlier one of the same ID.
unfoldable pub for_profile : List Profile → Bytes → Option Profile
for_profile [] id = none
for_profile (p ∷ ps) id = elim (for_profile ps id) [
  | some later ↦ some later
  | none ↦ if bytes_eq p.id id then some p else none
]

-- A profile of a loaded configuration: its ID is valid and none of these, and it has a password.
pub record Loaded (lookup : Bytes → Option Bytes) (ids : List Bytes) (p : Profile) : Type 0 where
  pub valid : is_valid_profile_id p.id ≡ true
  pub fresh : seen p.id ids ≡ false
  pub has_label : is_empty p.label ≡ false
  pub env : Bytes
  pub from_env : lookup env ≡ some p.password
  pub has_password : is_empty p.password ≡ false

pub resolve_profile-Loaded :
    (lookup : Bytes → Option Bytes) (ids envs : List Bytes) (raw : RawProfile) {p : Profile}
    → resolve_profile lookup ids envs raw ≡ ok p
    → Loaded lookup ids p × (p.id ≡ raw.id)
unfolding resolve_profile
resolve_profile-Loaded lookup ids envs raw h =
    let (valid, h₁) = guard_then (is_valid_profile_id raw.id) invalid_id _ h in
    let (fresh, h₂) = guard_then (not (seen raw.id ids)) duplicate_id _ h₁ in
    let (labelled, h₃) = guard_then (not (is_empty (trim_space raw.label))) empty_label _ h₂ in
    let (_, h₄) = guard_then (is_password_env raw.password_env) invalid_password_env _ h₃ in
    let (_, h₅) =
      guard_then (not (seen raw.password_env reserved_env_names)) reserved_password_env _ h₄ in
    let (_, h₆) = guard_then (not (seen raw.password_env envs)) duplicate_password_env _ h₅ in
    let (password, found, h₇) = or_err_then (lookup raw.password_env) missing_password _ h₆ in
    let (has, h₈) = guard_then (not (is_empty password)) missing_password _ h₇ in
    resolved_as (record { id = raw.id; label = trim_space raw.label; password = password }) h₈
      (record {
        valid = valid;
        fresh = not_true _ fresh;
        has_label = not_true _ labelled;
        env = raw.password_env;
        from_env = found;
        has_password = not_true _ has;
      })
  where
    not_true : (b : Bool) → not b ≡ true → b ≡ false
    not_true b k = ground arith

    resolved_as :
        (q : Profile) {p : Profile}
        → ◌≡◌ {A = Result ConfigError Profile} (ok q) (ok p)
        → Loaded lookup ids q
        → Loaded lookup ids p × (p.id ≡ q.id)
    resolved_as q {p} e l =
        let same : q ≡ p = cc in (subst (Loaded lookup ids) same l, ap (λ x. x.id) (sym same))
