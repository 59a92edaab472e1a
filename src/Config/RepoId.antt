-- ===== src/Config/RepoId.antt =====
-- src/config/state/repo.rs: mesh-wide repo identifiers, and the record of a registered repo.
use jj_mesh.Prelude.{ℕ, Bool, ◌&&◌, ◌||◌, leb, ◌==◌, all, if◌then◌else◌, Result, ok, err}
use jj_mesh.Config.Error.{Error, bad_repo_id}
use jj_mesh.Config.Name.{Text, len}

-- A `RepoId` is the text that it wraps, ordered as text.
abbrev pub RepoId : Type 0
RepoId = Text

abbrev pub repo_id_len : ℕ
repo_id_len = 32

abbrev pub is_lower_hex : ℕ → Bool
is_lower_hex b = (leb b'0' b && leb b b'9') || (leb b'a' b && leb b b'f')

-- `TryFrom<String>`. The bytes of a text outside ASCII are all at least 0x80, so a code point is
-- rejected exactly when one of its bytes is.
unfoldable pub try_from : Text → Result Error RepoId
try_from value =
    if (len value == repo_id_len) && all is_lower_hex value then ok value else err bad_repo_id

-- A repo registered on this machine; paths are compared as text.
pub record Repo : Type 0 where
  pub id : RepoId
  pub path : Text
