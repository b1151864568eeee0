-- ===== src/Attestation/Claims/RoundTrip.antt =====
-- parseClaims on the values that claims are written as.
use vaultsmith.Base.{
  pos, ◌≡◌, refl, sym, ap, ◌∙◌, subst, true, false, not, ◌||◌, [], ◌∷◌, any, if◌then◌else◌,
  bytes_eq, codes, Bytes, List, Option, none, some, Result, ok, err, ◌>>=◌, with_error, bind-eq-ok,
  guard_then,
}
use vaultsmith.Config.{is_valid_profile_id}
use vaultsmith.Attestation.Json.{
  JsonValue, object, array, string, number, boolean, null, Members, no_members, find_member, member,
  all_allowed, has_only_members,
}
use vaultsmith.Attestation.Errors.{AttestationError, malformed}
use vaultsmith.Attestation.Claims.{
  Digest, Binding, RotationClaims, External, omit_empty, binding_value, validate_digest,
  validate_binding, safe_integer, valid_issuer, valid_timestamp, validate_optional, validate_claims,
}
use vaultsmith.Attestation.Claims.Parse.{
  binding_members, claims_members, valid_version_number, parse_int, required_string_member,
  version_member, optional_string_member, parse_digest, digest_member, parse_binding,
  binding_member, claims_of,
}
use vaultsmith.Attestation.Claims.Values.{format_int, digest_value, binding_part, claims_value}

parse_digest-digest_value :
    (d : Digest) → validate_digest d ≡ ok tt → parse_digest (digest_value d) ≡ ok d
unfolding parse_digest digest_value required_string_member has_only_members all_allowed member
    find_member bytes_eq
parse_digest-digest_value d h = rw h

-- What an optional member is read as, from what the look-up gives.
text_of : Option JsonValue → Result AttestationError Bytes
text_of none = ok []
text_of (some (string text)) = ok text
text_of _ = err malformed

optional-text_of :
    (name : Bytes) (ms : Members)
    → optional_string_member (object ms) name ≡ text_of (find_member name ms)
unfolding optional_string_member member text_of
optional-text_of name ms = split (find_member name ms)
  where
    split :
        (o : Option JsonValue)
        → elim o [ none ↦ ok [] | some (string text) ↦ ok text | _ ↦ err malformed ] ≡ text_of o
    split none = refl
    split (some (string text)) = refl
    split (some (object ms)) = refl
    split (some (array xs)) = refl
    split (some (number text)) = refl
    split (some (boolean b)) = refl
    split (some null) = refl

-- An optional member among others.
text_of-omit_empty :
    (name text : Bytes) (rest : Members)
    → bytes_eq name name ≡ true
    → find_member name rest ≡ none
    → text_of (find_member name (omit_empty name text rest)) ≡ ok text
unfolding find_member text_of
text_of-omit_empty name [] rest h k = ap text_of k
text_of-omit_empty name (c ∷ text) rest h k =
    ap (λ b. text_of (if b then some (string (c ∷ text)) else find_member name rest)) h

find_member-omit_empty :
    (name other text : Bytes) (rest : Members)
    → bytes_eq other name ≡ false
    → find_member name (omit_empty other text rest) ≡ find_member name rest
unfolding find_member
find_member-omit_empty name other [] rest h = refl
find_member-omit_empty name other (c ∷ text) rest h = rw h

all_allowed-omit_empty :
    (allowed : List Bytes) (name text : Bytes) (rest : Members)
    → any (λ a. bytes_eq a name) allowed ≡ true
    → all_allowed allowed (omit_empty name text rest) ≡ all_allowed allowed rest
unfolding all_allowed
all_allowed-omit_empty allowed name [] rest h = refl
all_allowed-omit_empty allowed name (c ∷ text) rest h = rw h

module _ (b : Binding) where
  abbrev last_member : Members
  last_member = omit_empty (codes "selector") b.selector no_members

  abbrev last_members : Members
  last_members = omit_empty (codes "path") b.path last_member

  abbrev later_members : Members
  later_members = omit_empty (codes "revision") b.revision last_members

  repository-read : optional_string_member (binding_value b) (codes "repository") ≡ ok b.repository
  unfolding binding_value bytes_eq find_member
  repository-read =
      optional-text_of _ _
      ∙ text_of-omit_empty _ b.repository later_members refl (
          find_member-omit_empty _ _ b.revision last_members refl
          ∙ find_member-omit_empty _ _ b.path last_member refl
          ∙ find_member-omit_empty _ _ b.selector no_members refl)

  revision-read : optional_string_member (binding_value b) (codes "revision") ≡ ok b.revision
  unfolding binding_value bytes_eq find_member
  revision-read =
      optional-text_of _ _
      ∙ ap text_of (find_member-omit_empty _ _ b.repository later_members refl)
      ∙ text_of-omit_empty _ b.revision last_members refl (
          find_member-omit_empty _ _ b.path last_member refl
          ∙ find_member-omit_empty _ _ b.selector no_members refl)

  path-read : optional_string_member (binding_value b) (codes "path") ≡ ok b.path
  unfolding binding_value bytes_eq find_member
  path-read =
      optional-text_of _ _
      ∙ ap text_of (
          find_member-omit_empty _ _ b.repository later_members refl
          ∙ find_member-omit_empty _ _ b.revision last_members refl)
      ∙ text_of-omit_empty _ b.path last_member refl
          (find_member-omit_empty _ _ b.selector no_members refl)

  selector-read : optional_string_member (binding_value b) (codes "selector") ≡ ok b.selector
  unfolding binding_value bytes_eq find_member
  selector-read =
      optional-text_of _ _
      ∙ ap text_of (
          find_member-omit_empty _ _ b.repository later_members refl
          ∙ find_member-omit_empty _ _ b.revision last_members refl
          ∙ find_member-omit_empty _ _ b.path last_member refl)
      ∙ text_of-omit_empty _ b.selector no_members refl refl

  binding-allowed : has_only_members (binding_value b) binding_members ≡ true
  unfolding binding_value bytes_eq has_only_members all_allowed
  binding-allowed =
      all_allowed-omit_empty binding_members _ b.repository later_members refl
      ∙ all_allowed-omit_empty binding_members _ b.revision last_members refl
      ∙ all_allowed-omit_empty binding_members _ b.path last_member refl
      ∙ all_allowed-omit_empty binding_members _ b.selector no_members refl

module _ (e : External) where
  parse_binding-binding_value :
      (b : Binding) → validate_binding e b ≡ ok tt → parse_binding e (binding_value b) ≡ ok b
  unfolding parse_binding
  parse_binding-binding_value b h =
      rw (binding-allowed b, repository-read b, revision-read b, path-read b, selector-read b, h)

  binding_part-read :
      (b : Option Binding)
      → validate_optional e b ≡ ok tt
      → (elim (find_member (codes "binding") (binding_part b)) [
        | none ↦ ok none
        | some w ↦ with_error malformed (parse_binding e w) >>= λ c. ok (some c)
      ])
        ≡ ok b
  unfolding find_member bytes_eq
  binding_part-read none h = refl
  binding_part-read (some b) h =
      ap (λ r. with_error malformed r >>= λ c. ok (some c)) (parse_binding-binding_value b h)

  binding_part-allowed : (b : Option Binding) → all_allowed claims_members (binding_part b) ≡ true
  unfolding all_allowed bytes_eq
  binding_part-allowed none = refl
  binding_part-allowed (some b) = refl

  version-read : (c : RotationClaims) → c.version ≡ pos 1 → version_member (claims_value c) ≡ ok 1
  unfolding claims_value format_int member find_member bytes_eq valid_version_number parse_int
  version-read c h = rw h

  allowed-read : (c : RotationClaims) → has_only_members (claims_value c) claims_members ≡ true
  unfolding claims_value has_only_members all_allowed bytes_eq
  allowed-read c = binding_part-allowed c.binding

  binding-read :
      (c : RotationClaims)
      → validate_optional e c.binding ≡ ok tt
      → binding_member e (claims_value c) ≡ ok c.binding
  unfolding claims_value member find_member bytes_eq
  binding-read c h = binding_part-read c.binding h

  input-read :
      (c : RotationClaims)
      → validate_digest c.input ≡ ok tt
      → digest_member (claims_value c) (codes "input") ≡ ok c.input
  unfolding claims_value member find_member bytes_eq
  input-read c h = parse_digest-digest_value c.input h

  output-read :
      (c : RotationClaims)
      → validate_digest c.output ≡ ok tt
      → digest_member (claims_value c) (codes "output") ≡ ok c.output
  unfolding claims_value member find_member bytes_eq
  output-read c h = parse_digest-digest_value c.output h

  -- The checks of the parts of valid claims.
  validate_claims-parts :
      (c : RotationClaims)
      → validate_claims e c ≡ ok tt
      → (validate_digest c.input ≡ ok tt)
        × (validate_digest c.output ≡ ok tt)
        × (validate_optional e c.binding ≡ ok tt)
  unfolding validate_claims
  validate_claims-parts c h =
      let (s₁, h₁) = guard_then (safe_integer c.version) malformed _ h in
      let (s₂, h₂) =
        guard_then (not (not (valid_issuer e c.issuer) || not (valid_timestamp e c.issued_at)))
          malformed _ h₁ in
      let (s₃, h₃) = guard_then (bytes_eq c.operation (codes "rotate")) malformed _ h₂ in
      let (s₄, h₄) =
        guard_then
          (not (
            not (is_valid_profile_id c.source_profile_id)
            || not (is_valid_profile_id c.destination_profile_id)))
          malformed _ h₃ in
      let (u₅, input, h₅) = bind-eq-ok _ _ h₄ in
      let (u₆, output, binding) = bind-eq-ok _ _ h₅ in (input, output, binding)

  abbrev of_version_one : RotationClaims → RotationClaims
  of_version_one c = record c { version = pos 1 }

  -- Valid claims of the version 1 are read from the value that they are written as.
  pub claims_of-claims_value :
      (c : RotationClaims)
      → c.version ≡ pos 1
      → validate_claims e c ≡ ok tt
      → claims_of e (claims_value c) ≡ ok c
  unfolding claims_of claims_value required_string_member member find_member bytes_eq
  claims_of-claims_value c v h =
      let (input, output, binding) = validate_claims-parts c h in
      let one : of_version_one c ≡ c = ap (λ z. record c { version = z }) (sym v) in
      let checked : validate_claims e (of_version_one c) ≡ ok tt =
        subst (λ d. validate_claims e d ≡ ok tt) (sym one) h in
      rw
        (
          allowed-read c,
          version-read c v,
          input-read c input,
          output-read c output,
          binding-read c binding,
          checked,
        )
        (ap ok one)
