-- ===== src/Jobs/Circuit/Answers.antt =====
-- What the methods of qiskit_ibm_provider/job/ibm_circuit_job.py read from the server: the result,
-- the error message, the parameters of the job, and `refresh` with what it serves.
use qiskit_ibm_provider.Common.{
  ℕ, String, Bool, true, false, not, ◌||◌, ◌&&◌, Option, none, some, List, [], ◌∷◌, str_eq,
  if◌then◌else◌, is_some, or_else, Result, ok, raise,
}
use Prim.Native.Char.{Char, code}
use qiskit_ibm_provider.Common.{◌==◌}
use qiskit_ibm_provider.Common.Dict.{Dict, lookup}
use qiskit_ibm_provider.Common.Exec.{pure, lift, gets, ◌>>=◌, ◌>>◌}
use qiskit_ibm_provider.Jobs.Status.{JobStatus, done, api_status_to_job_status}
use qiskit_ibm_provider.Jobs.Circuit.{
  Server, Method, JobError, api_error, invalid_state, key_error, value_error, connection_error,
  RawData, plain, bytes, Decoded, decoded, unsupported, undecodable, Param, one, many, JobResponse,
  Metadata, ask, modify, api_to_job_error, unhandled, or_raise, is_settled,
}

abbrev onto_first : Char → String × Option String → String × Option String
onto_first c (w, rest) = (String.◌∷◌ c w, rest)

-- The part before the first comma, and what follows the comma.
unfoldable pub split_comma : String → String × Option String
split_comma String.[] = (String.[], none)
split_comma (String.◌∷◌ c s) =
    let later = split_comma s in if code c == b',' then (String.[], some s) else onto_first c later

abbrev two_versions : String → String → Option String → Dict String
two_versions whole w none = ("qiskit", whole) ∷ []
two_versions whole w (some rest) =
    ("qiskit-ibm-provider", w) ∷ ("qiskit-terra", (split_comma rest).0) ∷ []

-- `_extract_client_version`
unfoldable pub extract_client_version : Option String → Dict String
unfolding split_comma
extract_client_version none = []
extract_client_version (some text) = two_versions text (split_comma text).0 (split_comma text).1

abbrev pub empty {ℓ} : {A : Type ℓ} → List A → Bool
empty [] = true
empty (x ∷ xs) = false

-- `not d`, for a dictionary that may be None.
abbrev pub is_missing {ℓ} : {V : Type ℓ} → Option (Dict V) → Bool
is_missing none = true
is_missing (some d) = empty d

abbrev pub unsupported_error : Bool → JobError
unsupported_error true = api_error
unsupported_error false = invalid_state

abbrev pub decoded_or_raise : {R : Type 0} → Bool → Decoded R → Result JobError R
decoded_or_raise kind (decoded r) = ok r
decoded_or_raise kind unsupported = raise (unsupported_error kind)
decoded_or_raise kind undecodable = raise value_error

module _ {R : Type 0} (server : Server R) where
  abbrev download_from : Option String → String → Method R RawData
  download_from none response = pure (plain response)
  download_from (some url) response = do
    body ← ask server (λ n. or_raise (server.download url n) connection_error)
    pure (bytes body)

  -- `_download_external_result`
  unfoldable pub download_external_result : String → Method R RawData
  download_external_result response = download_from (server.external_url response) response

  -- `_set_result` of data that is not None.
  unfoldable pub set_result : RawData → Method R (Unit {0})
  set_result raw s =
      (do
        r ← lift (decoded_or_raise s.has_kind (server.decode raw))
        modify (λ t. record t { result = some r }))
        s

  -- `self._download_external_result(self._runtime_client.job_results(self.job_id()))`
  unfoldable pub job_results : Method R RawData
  unfolding download_external_result
  job_results = do
    response ← ask server (λ n. unhandled (server.job_results n))
    download_external_result response

  abbrev result_if_done : JobStatus → Method R (Unit {0})
  result_if_done done = do raw ← job_results; set_result raw
  result_if_done _ = pure tt

  -- The end of `refresh`: the status and what comes with it.
  unfoldable pub store_status : JobResponse → Metadata → String → Method R (Unit {0})
  unfolding job_results set_result extract_client_version
  store_status response metadata named = do
    modify λ s. record s {
      api_status = some named;
      time_per_step = metadata.timestamps;
      tags = or_else response.tags [];
    }
    st ← lift (or_raise (api_status_to_job_status server.upper named) value_error)
    modify λ s. record s {
      status = some st;
      params = some (or_else response.params []);
      client_version = extract_client_version metadata.qiskit_version;
    }
    result_if_done st
    modify (λ s. record s { refreshed = true })

  -- What `refresh` does with the two answers.
  unfoldable pub store_response : JobResponse → Metadata → Method R (Unit {0})
  store_response response metadata = do
    lift (or_raise response.id api_error)
    created ← lift (or_raise response.created api_error)
    date ← lift (or_raise (server.isoparse created) value_error)
    modify (λ s. record s { creation_date = some date })
    state ← lift (or_raise response.state api_error)
    named ← lift (or_raise state.status api_error)
    store_status response metadata named

  unfoldable pub refresh : Method R (Unit {0})
  unfolding store_status store_response
  refresh = do
    response ← ask server (λ n. api_to_job_error (server.job_get n))
    metadata ← ask server (λ n. api_to_job_error (server.job_metadata n))
    store_response response metadata

  unfoldable pub creation_date : Method R (Option ℕ)
  unfolding refresh
  creation_date s =
      (do if is_some s.creation_date then pure tt else refresh; gets (λ t. t.creation_date)) s

  -- `None` for a dictionary that is empty or None.
  abbrev nonempty : Option (Dict (Option ℕ)) → Option (Dict (Option ℕ))
  nonempty d = if is_missing d then none else d

  -- The dates stay in UTC.
  unfoldable pub time_per_step : Method R (Option (Dict (Option ℕ)))
  unfolding refresh
  time_per_step s =
      (do
        if is_missing s.time_per_step || not (is_settled s.status) then refresh else pure tt
        gets (λ t. nonempty t.time_per_step))
        s

  unfoldable pub client_version : Method R (Dict String)
  unfolding refresh
  client_version s =
      (do
        if empty s.client_version && not s.refreshed then refresh else pure tt
        gets (λ t. t.client_version))
        s

  unfoldable pub get_params : Method R (Unit {0})
  get_params s =
      (if is_missing s.params
          then (do
            response ← ask server (λ n. api_to_job_error (server.job_get n))
            modify (λ t. record t { params = some (or_else response.params []) }))
          else pure tt)
        s

  abbrev without_circuits : Dict Param → Dict Param
  without_circuits [] = []
  without_circuits ((k, v) ∷ d) =
      let rest = without_circuits d in
      if str_eq k "header" || str_eq k "circuits" then rest else (k, v) ∷ rest

  unfoldable pub backend_options : Method R (Dict Param)
  unfolding get_params
  backend_options = do get_params; gets (λ s. without_circuits (or_else s.params []))

  -- `none` is both the empty dictionary without parameters and the None of a missing header.
  unfoldable pub header : Method R (Option Param)
  unfolding get_params
  header = do get_params; gets (λ s. lookup "header" (or_else s.params []))

  abbrev as_list : Param → List String
  as_list (one c) = c ∷ []
  as_list (many cs) = cs

  abbrev circuits_of : Dict Param → Result JobError (List String)
  circuits_of [] = ok []
  circuits_of (p ∷ ps) = elim (lookup "circuits" (p ∷ ps)) [
    | none ↦ raise key_error
    | some c ↦ ok (as_list c)
  ]

  unfoldable pub circuits : Method R (List String)
  unfolding get_params
  circuits = do get_params; params ← gets (λ s. or_else s.params []); lift (circuits_of params)
