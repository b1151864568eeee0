-- ===== src/Config/Examples.antt =====
-- Tests of the profiles, and their theorem at a concrete configuration.
use vaultsmith.Base.{
  ◌≡◌, refl, List, [], ◌∷◌, here, there, Bytes, codes, bytes_eq, Option, some, ok, err,
}
use vaultsmith.Text.Space.{trim_space}
use vaultsmith.Config.{is_valid_profile_id}
use vaultsmith.Config.Profiles.{
  RawProfile, Profile, duplicate_password_env, resolve_profile, resolve_profiles, load_json,
  for_profile, Loaded,
}
use vaultsmith.Config.Profiles.Lookup.{load_json-Loaded}

abbrev dev : RawProfile
dev = record { id = codes "dev"; label = codes " Development "; password_env = codes "DEV_PW" }

abbrev prod : RawProfile
prod = record { id = codes "prod"; label = codes "Production"; password_env = codes "PROD_PW" }

abbrev environment : Bytes → Option Bytes
environment name = some (codes "secret")

abbrev profiles : List Profile
profiles =
    record { id = codes "dev"; label = codes "Development"; password = codes "secret" }
    ∷ record { id = codes "prod"; label = codes "Production"; password = codes "secret" }
    ∷ []

-- Opens the configuration for the tests below.
configuration : Unit {0}
unfolding trim_space is_valid_profile_id resolve_profile resolve_profiles load_json for_profile
    bytes_eq
configuration = tt

loads : load_json (some (dev ∷ prod ∷ [])) environment ≡ ok profiles
unfolding configuration
loads = refl

shared_refused :
    load_json (some (dev ∷ record prod { password_env = codes "DEV_PW" } ∷ [])) environment
    ≡ err duplicate_password_env
unfolding configuration
shared_refused = refl

abbrev production : Profile
production = record { id = codes "prod"; label = codes "Production"; password = codes "secret" }

load_json-Loaded_example :
    Loaded environment [] production × (for_profile profiles (codes "prod") ≡ some production)
load_json-Loaded_example = load_json-Loaded environment (some (dev ∷ prod ∷ [])) loads (there here)
