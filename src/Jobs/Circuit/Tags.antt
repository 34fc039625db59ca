-- ===== src/Jobs/Circuit/Tags.antt =====
-- `update_tags` of qiskit_ibm_provider/job/ibm_circuit_job.py. A set of tags is a list without
-- repetitions; the order in which `list` enumerates it is not modelled. The tags are a list of
-- texts, so that `validate_job_tags` accepts them.
use qiskit_ibm_provider.Common.{
  String, Bool, false, ◌||◌, List, [], ◌∷◌, str_eq, filter, or_else, ◌==◌, if◌then◌else◌,
}
use qiskit_ibm_provider.Common.Exec.{pure, throw, ◌>>=◌, ◌>>◌}
use qiskit_ibm_provider.Jobs.Tags.{starts_with, tag_prefix}
use qiskit_ibm_provider.Jobs.Circuit.{Server, Method, api_error, ask, modify, api_to_job_error}

-- `x.startswith((IBM_MANAGED_JOB_ID_PREFIX, IBM_COMPOSITE_JOB_TAG_PREFIX))`
unfoldable pub is_reserved : String → Bool
unfolding starts_with
is_reserved tag = starts_with tag "ibmq_jobset_" || starts_with tag tag_prefix

unfoldable pub has_tag : String → List String → Bool
has_tag tag [] = false
has_tag tag (x ∷ xs) = str_eq x tag || has_tag tag xs

unfoldable pub add_tag : String → List String → List String
unfolding has_tag
add_tag tag xs = if has_tag tag xs then xs else tag ∷ xs

-- `set(new).union(tags)`
unfoldable pub union : List String → List String → List String
unfolding add_tag
union [] [] = []
union [] (tag ∷ tags) = add_tag tag (union [] tags)
union (tag ∷ new) tags = add_tag tag (union new tags)

-- The tags that are sent to the server.
unfoldable pub tags_to_update : List String → List String → List String
unfolding union is_reserved
tags_to_update old new = union new (filter is_reserved old)

module _ {R : Type 0} (server : Server R) where
  -- `job_get` and `self._tags = api_response.pop("tags", [])`
  abbrev fetch_tags : Method R (List String)
  fetch_tags = do
    response ← ask server (λ n. api_to_job_error (server.job_get n))
    modify (λ s. record s { tags = or_else response.tags [] })
    pure (or_else response.tags [])

  unfoldable pub update_tags : List String → Method R (List String)
  unfolding tags_to_update
  update_tags new_tags s =
      (do
        status_code ←
            ask server
              (λ n. api_to_job_error (server.update_tags (tags_to_update s.tags new_tags) n))
        if status_code == 204 then fetch_tags else throw api_error)
        s
