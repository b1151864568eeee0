-- ===== src/Config/Profiles/Lookup.antt =====
-- The executor of a loaded profile.
use vaultsmith.Base.{
  ◌≡◌, ◌≢◌, inl, inr, refl, sym, subst, false, not, arith, List, [], ◌∷◌, In, here, there, Bytes,
  bytes_eq, bytes_eq_iff, bytes_eq_refl, is_empty, Option, none, some, Bool-cases, Option-cases,
  Result, ok, guard_then, or_err_then, bind-eq-ok,
}
use vaultsmith.Config.Profiles.{
  RawProfile, Profile, ConfigError, invalid_json, no_profiles, resolve_profile, resolve_profiles,
  load_json, for_profile, Loaded, resolve_profile-Loaded,
}

-- What is found has the ID and is one of the profiles.
for_profile-In :
    (ps : List Profile) (id : Bytes) {q : Profile}
    → for_profile ps id ≡ some q
    → In q ps × (q.id ≡ id)
unfolding for_profile
for_profile-In [] id h = cc
for_profile-In (p ∷ ps) id {q} h = elim (Option-cases (for_profile ps id)) [
  | inr (later, e) ↦
      let same : later ≡ q = cc (rw e at h) in
      let (i, k) = for_profile-In ps id e in
      subst (λ x. In x (p ∷ ps) × (x.id ≡ id)) same (there i, k)
  | inl e ↦ elim (Bool-cases (bytes_eq p.id id)) [
    | inr other ↦ cc (rw (e, other) at h)
    | inl found ↦
        let same : p ≡ q = cc (rw (e, found) at h) in
        subst (λ x. In x (p ∷ ps) × (x.id ≡ id)) same (here, (bytes_eq_iff p.id id).0 found)
  ]
]

Loaded-fewer :
    (lookup : Bytes → Option Bytes) (id : Bytes) (ids : List Bytes) (p : Profile)
    → Loaded lookup (id ∷ ids) p
    → Loaded lookup ids p × (bytes_eq id p.id ≡ false)
Loaded-fewer lookup id ids p l = (
  record {
    valid = l.valid;
    fresh = ground (arith, l.fresh);
    has_label = l.has_label;
    env = l.env;
    from_env = l.from_env;
    has_password = l.has_password;
  },
  ground (arith, l.fresh),
)

for_profile_found :
    (p : Profile) (ps : List Profile)
    → for_profile ps p.id ≡ none
    → for_profile (p ∷ ps) p.id ≡ some p
unfolding for_profile
for_profile_found p ps e = rw (e, bytes_eq_refl p.id) refl

for_profile_later :
    (p q : Profile) (ps : List Profile)
    → for_profile ps q.id ≡ some q
    → for_profile (p ∷ ps) q.id ≡ some q
unfolding for_profile
for_profile_later p q ps e = rw e refl

In-ne-nil : {q : Profile} {ps : List Profile} → In q ps → ps ≢ []
In-ne-nil here e = cc
In-ne-nil (there i) e = cc

-- A profile of a list that loads, and the executor that is found under its ID.
abbrev Served : (Bytes → Option Bytes) → List Bytes → List Profile → Profile → Type 0
Served lookup ids ps p = Loaded lookup ids p × (for_profile ps p.id ≡ some p)

module _ (lookup : Bytes → Option Bytes) where
  Served-here :
      (ids : List Bytes) (p : Profile) (ps : List Profile)
      → Loaded lookup ids p
      → ((q : Profile) → In q ps → Loaded lookup (p.id ∷ ids) q)
      → Served lookup ids (p ∷ ps) p
  Served-here ids p ps l others = elim (Option-cases (for_profile ps p.id)) [
    | inl e ↦ (l, for_profile_found p ps e)
    | inr (q, e) ↦
        let (i, same) = for_profile-In ps p.id e in
        let (_, apart) = Loaded-fewer lookup p.id ids q (others q i) in
        cc (apart, (bytes_eq_iff p.id q.id).1 (sym same))
  ]

  Served-resolve_profiles :
      (ids envs : List Bytes) (raws : List RawProfile) {ps : List Profile} {p : Profile}
      → resolve_profiles lookup ids envs raws ≡ ok ps
      → In p ps
      → Served lookup ids ps p
  unfolding resolve_profiles
  Served-resolve_profiles ids envs [] h i = absurd (In-ne-nil i (ok-eq h))
    where
      ok-eq :
          {xs ys : List Profile}
          → ◌≡◌ {A = Result ConfigError (List Profile)} (ok xs) (ok ys)
          → ys ≡ xs
      ok-eq k = cc
  Served-resolve_profiles ids envs (raw ∷ raws) {ps} {p} h i =
      let (first, e, h₁) = bind-eq-ok (resolve_profile lookup ids envs raw) _ h in
      let (rest, e₂, h₂) =
        bind-eq-ok (resolve_profiles lookup (raw.id ∷ ids) (raw.password_env ∷ envs) raws) _ h₁ in
      let (loaded, same_id) = resolve_profile-Loaded lookup ids envs raw e in
      let same : first ∷ rest ≡ ps = cc h₂ in
      subst (λ xs. Served lookup ids xs p) same
        (served first rest loaded same_id
          (λ q j. Served-resolve_profiles (raw.id ∷ ids) (raw.password_env ∷ envs) raws e₂ j) p
          (subst (In p) (sym same) i))
    where
      served :
          (first : Profile) (rest : List Profile)
          → Loaded lookup ids first
          → first.id ≡ raw.id
          → ((q : Profile) → In q rest → Served lookup (raw.id ∷ ids) rest q)
          → (q : Profile) → In q (first ∷ rest)
          → Served lookup ids (first ∷ rest) q
      served first rest loaded same_id later q here =
          Served-here ids first rest loaded
            (λ q j. subst (λ x. Loaded lookup (x ∷ ids) q) (sym same_id) (later q j).0)
      served first rest loaded same_id later q (there j) =
          let (l, found) = later q j in
          ((Loaded-fewer lookup raw.id ids q l).0, for_profile_later first q rest found)

  -- Every profile of a loaded configuration has a valid ID, a label and a password that is in the
  -- environment, and ForProfile finds it, and no other, under its ID.
  pub load_json-Loaded :
      (decoded : Option (List RawProfile)) {ps : List Profile} {p : Profile}
      → load_json decoded lookup ≡ ok ps
      → In p ps
      → Loaded lookup [] p × (for_profile ps p.id ≡ some p)
  unfolding load_json
  load_json-Loaded decoded h i =
      let (raws, _, h₁) = or_err_then decoded invalid_json _ h in
      let (_, h₂) = guard_then (not (is_empty raws)) no_profiles _ h₁ in
      Served-resolve_profiles [] [] raws h₂ i
