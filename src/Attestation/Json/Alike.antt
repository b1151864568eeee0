-- ===== src/Attestation/Json/Alike.antt =====
-- Values that differ in the order of members at most.
use vaultsmith.Base.{◌≡◌, refl, List, Bytes, Option, none, some, Result, ◌>>=◌, or_err}
use vaultsmith.Attestation.Json.{JsonValue, object, Members, find_member, member, has_only_members}

mutual
  pub data Alike : JsonValue → JsonValue → Type 0 where
    same : {v : JsonValue} → Alike v v
    objects :
        {ms ns : Members}
        → ((name : Bytes) → AlikeMember (find_member name ms) (find_member name ns))
        → ((allowed : List Bytes)
            → has_only_members (object ms) allowed ≡ has_only_members (object ns) allowed)
        → Alike (object ms) (object ns)

  pub data AlikeMember : Option JsonValue → Option JsonValue → Type 0 where
    neither : AlikeMember none none
    both : {v w : JsonValue} → Alike v w → AlikeMember (some v) (some w)

AlikeMember-refl : (o : Option JsonValue) → AlikeMember o o
AlikeMember-refl none = neither
AlikeMember-refl (some v) = both same

pub member-Alike :
    {v w : JsonValue} → Alike v w → (name : Bytes) → AlikeMember (member v name) (member w name)
unfolding member
member-Alike (same {v}) name = AlikeMember-refl (member v name)
member-Alike (objects h k) name = h name

pub has_only_members-Alike :
    {v w : JsonValue}
    → Alike v w
    → (allowed : List Bytes) → has_only_members v allowed ≡ has_only_members w allowed
has_only_members-Alike same allowed = refl
has_only_members-Alike (objects h k) allowed = k allowed

-- A step that takes alike values to the same result takes alike members to the same result.
pub or_err-Alike :
    {E A : Type 0} {o p : Option JsonValue} (e : E) (f : JsonValue → Result E A)
    → ((v w : JsonValue) → Alike v w → f v ≡ f w)
    → AlikeMember o p
    → (or_err o e >>= f) ≡ (or_err p e >>= f)
or_err-Alike e f h neither = refl
or_err-Alike e f h (both {v} {w} a) = h v w a
