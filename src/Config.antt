-- ===== src/Config.antt =====
-- backend/internal/config: the syntax of profile IDs.
pub mod Profiles
mod Examples
use vaultsmith.Base.{
  ℕ, refl, ◌≡◌, Bool, true, false, ◌||◌, ◌&&◌, [], ◌∷◌, arith, ◌==◌, leb, within, Bytes, length,
}
use vaultsmith.Text.Cut.{Free}

id_start : ℕ → Bool
id_start c = within b'a' b'z' c || within b'0' b'9' c

id_part : ℕ → Bool
unfolding id_start
id_part c = id_start c || c == b'.' || c == b'_' || c == b'-'

id_parts : Bytes → Bool
unfolding id_part
id_parts [] = true
id_parts (c ∷ s) = id_part c && id_parts s

-- IsValidProfileID: `^[a-z0-9][a-z0-9._-]{0,63}$`.
unfoldable pub is_valid_profile_id : Bytes → Bool
unfolding id_parts
is_valid_profile_id [] = false
is_valid_profile_id (c ∷ s) = id_start c && id_parts s && leb (length s) 63

-- A byte that no profile ID holds.
abbrev IsForeign : ℕ → Type 0
IsForeign b = id_part b ≡ false

id_parts-Free : (b : ℕ) (s : Bytes) → IsForeign b → id_parts s ≡ true → Free b s
unfolding id_parts
id_parts-Free b [] foreign h = tt
id_parts-Free b (c ∷ s) foreign h = (ground arith, id_parts-Free b s foreign (ground arith))

id-Free : (b : ℕ) (s : Bytes) → IsForeign b → is_valid_profile_id s ≡ true → Free b s
unfolding is_valid_profile_id
id-Free b [] foreign h = tt
id-Free b (c ∷ s) foreign h = (ground arith, id_parts-Free b s foreign (ground arith))

-- A profile ID holds no colon and no star.
pub id-Free_colon : (s : Bytes) → is_valid_profile_id s ≡ true → Free b':' s
unfolding id_part
id-Free_colon s h = id-Free b':' s refl h

pub id-Free_star : (s : Bytes) → is_valid_profile_id s ≡ true → Free b'*' s
unfolding id_part
id-Free_star s h = id-Free b'*' s refl h
