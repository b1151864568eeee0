-- ===== src/Authz/Validate/Rotation.antt =====
-- A validated rule for rotation names one pair of profiles.
use vaultsmith.Base.{
  ℕ, ◌≡◌, ◌≢◌, ◌↔◌, refl, ap, sym, ◌∙◌, true, ◌==◌, List, [], ◌∷◌, ◌++◌, arith, inl, inr, In, here,
  there, Bool-cases, &&-eq-true, Bytes, All-append, codes, bytes_eq, bytes_eq_iff, Option, none,
  some, drop,
}
use vaultsmith.Text.Cut.{Free, split, cut, cut-append, onto_first}
use vaultsmith.Config.{is_valid_profile_id, id-Free_colon, id-Free_star}
use vaultsmith.Authz.Policy.{
  Rule, Policy, member, trim_star, matches_policy_object, rotation_resource,
}
use vaultsmith.Authz.Enforce.{action_rotate}
use vaultsmith.Authz.Validate.{
  valid_rule, valid_rules, validate_object, rule_key, rotation_endpoints, known_profile,
  validate_policy,
}

join : ℕ → List Bytes → Bytes
join b [] = []
join b (p ∷ []) = p
join b (p ∷ q ∷ ps) = p ++ (b ∷ join b (q ∷ ps))

join-onto_first : (b c : ℕ) (ps : List Bytes) → ps ≢ [] → join b (onto_first c ps) ≡ c ∷ join b ps
unfolding join
join-onto_first b c [] ne = absurd (ne refl)
join-onto_first b c (p ∷ []) ne = refl
join-onto_first b c (p ∷ q ∷ ps) ne = refl

split-ne-nil : (b : ℕ) (s : Bytes) → split b s ≢ []
unfolding split
split-ne-nil b [] e = cc
split-ne-nil b (c ∷ s) e = elim (Bool-cases (c == b)) [
  | inl h ↦ cc (rw h at e)
  | inr h ↦ onto_first-ne (split b s) (rw h at e)
]
  where
    onto_first-ne : (ps : List Bytes) → onto_first c ps ≢ []
    onto_first-ne [] z = cc
    onto_first-ne (p ∷ ps) z = cc

join_cons : (b : ℕ) (ps : List Bytes) → ps ≢ [] → join b ([] ∷ ps) ≡ b ∷ join b ps
unfolding join
join_cons b [] ne = absurd (ne refl)
join_cons b (p ∷ ps) ne = refl

-- Splitting loses nothing.
join-split : (b : ℕ) (s : Bytes) → join b (split b s) ≡ s
unfolding split
join-split b [] = unfold join in refl
join-split b (c ∷ s) = elim (Bool-cases (c == b)) [
  | inl h ↦ rw h (join_cons b (split b s) (split-ne-nil b s) ∙ ground (arith, join-split b s))
  | inr h ↦ rw h (join-onto_first b c (split b s) (split-ne-nil b s) ∙ ap (◌∷◌ c) (join-split b s))
]

trim_star-Free : (s : Bytes) → Free b'*' s → trim_star s ≡ none
unfolding trim_star bytes_eq
trim_star-Free [] h = refl
trim_star-Free (c ∷ []) h = ground arith
trim_star-Free (c ∷ d ∷ s) h = rw (trim_star-Free (d ∷ s) h.1)

rotation_resource-Free :
    (s d : Bytes)
    → is_valid_profile_id s ≡ true
    → is_valid_profile_id d ≡ true
    → Free b'*' (rotation_resource s d)
unfolding rotation_resource
rotation_resource-Free s d hs hd =
    All-append (λ c. c ≢ b'*') (codes "rotation:") (s ++ (codes ":" ++ d)) (omega arith)
      (All-append (λ c. c ≢ b'*') s (codes ":" ++ d) (id-Free_star s hs)
        (omega arith, id-Free_star d hd))

cut-rotation :
    (s d : Bytes)
    → is_valid_profile_id s ≡ true
    → cut b':' (drop 9 (rotation_resource s d)) ≡ some (s, d)
unfolding rotation_resource
cut-rotation s d h = cut-append b':' s d (id-Free_colon s h)

-- Only the same pair gives the same resource.
pub rotation_resource-injective :
    (s d s' d' : Bytes)
    → is_valid_profile_id s ≡ true
    → is_valid_profile_id s' ≡ true
    → rotation_resource s d ≡ rotation_resource s' d'
    → (s ≡ s') × (d ≡ d')
rotation_resource-injective s d s' d' h h' e =
    let both : ◌≡◌ {A = Option (Bytes × Bytes)} (some (s, d)) (some (s', d')) =
      sym (cut-rotation s d h) ∙ ap (λ t. cut b':' (drop 9 t)) e ∙ cut-rotation s' d' h' in
    ground arith

-- The pair of profiles that a rule for rotation names.
pub record NamesPair (profiles : List Bytes) (object : Bytes) : Type 0 where
  pub source : Bytes
  pub destination : Bytes
  pub source_known : member source profiles ≡ true
  pub destination_known : member destination profiles ≡ true
  pub source_valid : is_valid_profile_id source ≡ true
  pub destination_valid : is_valid_profile_id destination ≡ true
  pub object_is : object ≡ rotation_resource source destination

endpoints-NamesPair :
    (profiles parts : List Bytes) (object : Bytes)
    → join b':' parts ≡ object
    → rotation_endpoints profiles parts ≡ true
    → NamesPair profiles object
unfolding rotation_endpoints join rotation_resource known_profile
endpoints-NamesPair profiles (kind ∷ s ∷ d ∷ []) object e h = record {
  source = s;
  destination = d;
  source_known = ground arith;
  destination_known = ground arith;
  source_valid = ground arith;
  destination_valid = ground arith;
  object_is = ground (arith, bytes_eq_iff kind (codes "rotation"));
}
endpoints-NamesPair profiles [] object e h = cc
endpoints-NamesPair profiles (a ∷ []) object e h = cc
endpoints-NamesPair profiles (a ∷ b ∷ []) object e h = cc
endpoints-NamesPair profiles (a ∷ b ∷ c ∷ d ∷ r) object e h = cc

valid_rules-In :
    (profiles : List Bytes) {rule : Rule} {rules : List Rule}
    → In rule rules
    → (seen : List Bytes) → valid_rules profiles seen rules ≡ true
    → valid_rule profiles rule ≡ true
unfolding valid_rules
valid_rules-In profiles here seen h = ground arith
valid_rules-In profiles (there {x} i) seen h =
    valid_rules-In profiles i (rule_key x ∷ seen) (&&-eq-true _ _ h).1

rule-NamesPair :
    (profiles : List Bytes) (rule : Rule)
    → valid_rule profiles rule ≡ true
    → rule.action ≡ action_rotate
    → NamesPair profiles rule.object
unfolding valid_rule validate_object
rule-NamesPair profiles rule h e =
    endpoints-NamesPair profiles (split b':' rule.object) rule.object (join-split b':' rule.object)
      (ground (arith, (bytes_eq_iff rule.action action_rotate).1 e))

matches_whole :
    (resource selector : Bytes)
    → trim_star selector ≡ none
    → matches_policy_object resource selector ≡ bytes_eq resource selector
unfolding matches_policy_object
matches_whole resource selector e = rw (e, matches_policy_object)

matches-NamesPair :
    (profiles : List Bytes) (object s d : Bytes) (n : NamesPair profiles object)
    → matches_policy_object (rotation_resource s d) object
      ≡ bytes_eq (rotation_resource s d) (rotation_resource n.source n.destination)
matches-NamesPair profiles object s d n =
    let free = rotation_resource-Free n.source n.destination n.source_valid n.destination_valid in
    ap (matches_policy_object (rotation_resource s d)) n.object_is
    ∙ matches_whole (rotation_resource s d) _ (trim_star-Free _ free)

-- In a validated policy every rule for rotation names one pair of configured profiles, and it
-- matches the resource of a pair of profiles exactly when that is the pair.
pub rotation_rule_iff :
    (policy : Policy) (profile_ids : List Bytes) (rule : Rule)
    → validate_policy policy profile_ids ≡ true
    → In rule policy.rules
    → rule.action ≡ action_rotate
    → (n : NamesPair profile_ids rule.object) × ((s d : Bytes)
        → is_valid_profile_id s ≡ true
        → (matches_policy_object (rotation_resource s d) rule.object ≡ true)
          ↔ ((s ≡ n.source) × (d ≡ n.destination)))
unfolding validate_policy
rotation_rule_iff policy ids rule h i e =
    let n = rule-NamesPair ids rule (valid_rules-In ids i [] (ground arith)) e in
    (
      n,
      λ s d valid_s. (
        λ matched.
            rotation_resource-injective s d n.source n.destination valid_s n.source_valid
              ((bytes_eq_iff _ _).0 (sym (matches-NamesPair ids rule.object s d n) ∙ matched)),
        λ (same_source, same_destination).
            matches-NamesPair ids rule.object s d n
            ∙ (bytes_eq_iff _ _).1 (
                ap (λ x. rotation_resource x d) same_source
                ∙ ap (rotation_resource n.source) same_destination),
      ),
    )
