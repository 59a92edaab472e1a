-- ===== src/Config/Error.antt =====
-- The failures of src/config: each constructor is one `bail!` or `ensure!`, its message left out.

-- What a name belongs to, the `kind` argument of `validate_name`
pub data Kind : Type 0 where
  peer repo machine workspace : Kind

pub data Error : Type 0 where
  empty_name name_too_long confusable_name : Kind → Error
  bad_repo_id : Error
  corrupted_record : Error
  invalid_claims : Error
  already_paired : Error
  repo_name_exists path_already_added repo_id_registered : Error
  name_taken_in_mesh : Error
  mesh_has_max_peers mesh_has_max_repos : Error
  ambiguous_peer no_such_peer endpoint_not_paired : Error
  no_such_repo repo_already_removed repo_not_registered : Error
