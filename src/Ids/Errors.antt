-- ===== src/Ids/Errors.antt =====
-- id-types/src/errors.rs: the errors of the allocator and their messages.
use Prim.Native.String.{String}

pub data AllocatorError : Type 0 where
  invalid_uuid_string : AllocatorError
  invalid_version_or_variant : AllocatorError
  invalid_cluster_capacity : AllocatorError
  range_finalized_out_of_order : AllocatorError
  malformed_id_range : AllocatorError
  cluster_collision : AllocatorError
  invalid_stable_id : AllocatorError
  invalid_session_space_id : AllocatorError
  invalid_op_space_id : AllocatorError
  no_token_for_session : AllocatorError

pub to_error_string : AllocatorError → String
to_error_string invalid_uuid_string = "String is not a valid UUID."
to_error_string invalid_version_or_variant = "String is not a V4 variant 1 UUID."
to_error_string invalid_cluster_capacity = "Cluster size must be a non-zero integer."
to_error_string range_finalized_out_of_order = "Ranges finalized out of order."
to_error_string malformed_id_range = "Malformed ID Range."
to_error_string cluster_collision = "Cluster collision detected."
to_error_string invalid_stable_id = "Unknown stable ID."
to_error_string invalid_session_space_id = "Unknown session space ID."
to_error_string invalid_op_space_id = "Unknown op space ID."
to_error_string no_token_for_session = "No IDs have ever been finalized by the supplied session."
