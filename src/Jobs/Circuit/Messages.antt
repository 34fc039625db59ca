-- ===== src/Jobs/Circuit/Messages.antt =====
-- The texts in which `error_message` of qiskit_ibm_provider/job/ibm_circuit_job.py looks for a reason:
-- the regular expression and the `rfind` of `_parse_result_for_errors`.
use Prim.Native.Char.{Char, code}
use Prim.Native.String.{◌++◌}
use qiskit_ibm_provider.Common.{
  String, Bool, Option, none, some, if◌then◌else◌, ◌==◌, Result, ok, raise,
}
use qiskit_ibm_provider.Jobs.Tags.{starts_with, strip_prefix}
use qiskit_ibm_provider.Jobs.Circuit.{RawData, plain, bytes, JobError, type_error}

abbrev is_newline : Char → Bool
is_newline c = code c == 10

abbrev is_quote : Char → Bool
is_quote c = code c == 39

-- What `(.*)'` matches: up to the last quote of the line.
up_to_last_quote : String → Option String
up_to_last_quote String.[] = none
up_to_last_quote (String.◌∷◌ c s) =
    let later = up_to_last_quote s in
    if is_newline c then none else elim later [
      | some w ↦ some (String.◌∷◌ c w)
      | none ↦ if is_quote c then some String.[] else none
    ]

abbrev match_job_error : Option String → Option String
match_job_error none = none
match_job_error (some s) = up_to_last_quote s

-- The group of `re.search("JobError: '(.*)'", raw_data)`.
unfoldable pub search_job_error : String → Option String
unfolding up_to_last_quote strip_prefix
search_job_error String.[] = none
search_job_error (String.◌∷◌ c s) =
    let later = search_job_error s in
    elim (match_job_error (strip_prefix "JobError: '" (String.◌∷◌ c s))) [
      | some w ↦ some w
      | none ↦ later
    ]

-- `raw_data[raw_data.rfind(word):]`, if the word is found.
unfoldable pub from_last : String → String → Option String
unfolding starts_with
from_last word String.[] = none
from_last word (String.◌∷◌ c s) =
    let later = from_last word s in
    elim later [
      | some w ↦ some w
      | none ↦ if starts_with (String.◌∷◌ c s) word then some (String.◌∷◌ c s) else none
    ]

abbrev unknown_error : Option String → Option String
unknown_error none = none
unknown_error (some traceback) = some ("Unknown error; " ++ traceback)

abbrev or_traceback : Option String → String → Option String
or_traceback (some w) raw = some w
or_traceback none raw = unknown_error (from_last "Traceback" raw)

-- `_parse_result_for_errors`: a text is searched, bytes raise TypeError.
unfoldable pub parse_result_for_errors : RawData → Result JobError (Option String)
unfolding search_job_error from_last
parse_result_for_errors (plain raw) = ok (or_traceback (search_job_error raw) raw)
parse_result_for_errors (bytes raw) = raise type_error
