-- ===== src/Attestation/Json.antt =====
-- json.go: the strict parser of JSON texts. A position in the data is what is left of it.
pub mod Text
pub mod Parse
pub mod Alike
use vaultsmith.Base.{
  Bool, false, ◌||◌, ◌&&◌, List, [], ◌∷◌, any, bytes_eq, Bytes, Option, none, some, if◌then◌else◌,
}

-- errMalformedJSON; and that a loop of the model has no fuel left, which never comes of a text.
pub data JsonError : Type 0 where
  invalid_json : JsonError
  out_of_fuel : JsonError

-- jsonValue; the zero value of the type, of the kind jsonInvalid, never stands for a text.
mutual
  pub data JsonValue : Type 0 where
    object : Members → JsonValue
    array : Items → JsonValue
    string number : Bytes → JsonValue
    boolean : Bool → JsonValue
    null : JsonValue

  pub data Members : Type 0 where
    no_members : Members
    with_member : Bytes → JsonValue → Members → Members

  pub data Items : Type 0 where
    no_items : Items
    with_item : JsonValue → Items → Items

-- The first member of the name.
unfoldable pub find_member : Bytes → Members → Option JsonValue
find_member name no_members = none
find_member name (with_member n v rest) = if bytes_eq n name then some v else find_member name rest

unfoldable pub member : JsonValue → Bytes → Option JsonValue
unfolding find_member
member (object members) name = find_member name members
member _ name = none

unfoldable pub names : Members → List Bytes
names no_members = []
names (with_member n v rest) = n ∷ names rest

-- Every member is an allowed one.
unfoldable pub all_allowed : List Bytes → Members → Bool
all_allowed allowed no_members = Bool.true
all_allowed allowed (with_member n v rest) =
    any (λ a. bytes_eq a n) allowed && all_allowed allowed rest

unfoldable pub has_only_members : JsonValue → List Bytes → Bool
unfolding all_allowed
has_only_members (object members) allowed = all_allowed allowed members
has_only_members _ allowed = false
