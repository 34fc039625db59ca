-- ===== src/Service/Tests.antt =====
-- The theorems on pages and hubs, applied to a concrete server and account.
use qiskit_ibm_provider.Common.{
  zero, suc, Bool, false, ℕ, String, ◌≡◌, refl, min, Option, none, some, List, [], ◌∷◌, ok, take,
  drop, arith, if◌then◌else◌, str_eq,
}
use qiskit_ibm_provider.Common.Dict.{Dict, lookup}
use qiskit_ibm_provider.Service.Pages.{get_jobs, get_jobs_pages}
use qiskit_ibm_provider.Jobs.Status.{ApiJobStatus, completed, done}
use qiskit_ibm_provider.Service.Listing.{JobInfo, one, EndsAt, IsListing, jobs, jobs-IsListing}
use qiskit_ibm_provider.Service.Hubs.{HubInfo, initialize_hgps}
use qiskit_ibm_provider.Service.Hubs.Lookup.{last_built, initialize_hgps-lookup}

abbrev five_jobs : List ℕ
five_jobs = 11 ∷ 12 ∷ 13 ∷ 14 ∷ 15 ∷ []

nothing_left : (limit skip : ℕ) → take {A = JobInfo} limit (drop {A = JobInfo} skip []) ≡ []
nothing_left zero zero = refl
nothing_left zero (suc skip) = refl
nothing_left (suc limit) zero = refl
nothing_left (suc limit) (suc skip) = refl

-- A server that answers with at most two jobs.
abbrev two_at_a_time : ℕ → ℕ → List ℕ
two_at_a_time limit skip = take (min limit 2) (drop skip five_jobs)

get_jobs_pages_example : get_jobs two_at_a_time 6 (some 3) 0 ≡ some (11 ∷ 12 ∷ 13 ∷ [])
get_jobs_pages_example =
    get_jobs_pages two_at_a_time five_jobs 2 (some 3) (omega arith) (λ limit skip. refl)

abbrev open_hub : HubInfo
open_hub = record { hub = "ibm-q"; group = "open"; project = "main" }

abbrev own_hub : HubInfo
own_hub = record { hub = "h"; group = "g"; project = "p" }

abbrev build_any : HubInfo → Option ℕ
build_any h = some (if str_eq h.hub "h" then 1 else 0)

initialize_hgps-lookup_example :
    (e : Dict ℕ) × (initialize_hgps build_any (open_hub ∷ own_hub ∷ []) none ≡ ok e)
    × ((name : String) → lookup name e ≡ last_built build_any name (open_hub ∷ own_hub ∷ []))
initialize_hgps-lookup_example =
    initialize_hgps-lookup build_any (open_hub ∷ own_hub ∷ []) none refl

-- A server with two jobs, of which one is done, and which answers with one job at a time.
abbrev two_infos : List JobInfo
two_infos =
    record { program_id = some "circuit-runner"; status = ApiJobStatus.running }
    ∷ record { program_id = some "circuit-runner"; status = completed }
    ∷ []

abbrev one_at_a_time : Option Bool → ℕ → ℕ → List JobInfo
one_at_a_time pending limit skip = take (min limit 1) (drop skip two_infos)

one_at_a_time-EndsAt : EndsAt 2 one_at_a_time
one_at_a_time-EndsAt pending limit zero h = absurd (omega arith)
one_at_a_time-EndsAt pending limit (suc zero) h = absurd (omega arith)
one_at_a_time-EndsAt pending limit (suc (suc skip)) h = nothing_left (min limit 1) skip

-- Restoring a job gives the number 7.
abbrev restore_any : JobInfo → Option ℕ
restore_any j = some 7

jobs-IsListing_example :
    IsListing restore_any false
      (one done)
      one_at_a_time
      5
      (jobs restore_any false (one done) one_at_a_time 4 5 0)
jobs-IsListing_example =
    jobs-IsListing restore_any false (one done) one_at_a_time 2 5 0 one_at_a_time-EndsAt
      (omega arith)
