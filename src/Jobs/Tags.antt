-- ===== src/Jobs/Tags.antt =====
-- The tags by which a composite job finds its sub-jobs: qiskit_ibm_provider/job/constants.py,
-- `_index_tag`, `_index_pattern`, `_find_circuit_indexes` and the tag filters of
-- qiskit_ibm_provider/job/ibm_composite_job.py, `SubJob.format_tag` of
-- qiskit_ibm_provider/job/sub_job.py.
use Prim.Native.Char.{code}
use Prim.Native.String.{◌++◌}
use mathlib.Core.List.{◌++◌ as ◌++l◌}
use text.Mathlib.TextLemmas.{nil-append, cons-append}
use qiskit_ibm_provider.Common.{
  ℕ, String, ◌≡◌, refl, Bool, true, false, Option, none, some, List, [], ◌∷◌, if◌then◌else◌,
  is_some, ◌==◌, ==_iff, arith,
}
use qiskit_ibm_provider.Common.Decimal.{
  decimal, number_prefix, number_prefix-decimal, number_prefix-decimal_end, NoDigit-colon,
}

abbrev pub tag_prefix : String
tag_prefix = "ibm_composite_job_"

abbrev pub index_prefix : String
index_prefix = "ibm_composite_job_indexes:"

-- The text behind a prefix, if the text starts with it.
unfoldable pub strip_prefix : String → String → Option String
strip_prefix String.[] s = some s
strip_prefix (String.◌∷◌ c p) String.[] = none
strip_prefix (String.◌∷◌ c p) (String.◌∷◌ d s) =
    let rest = strip_prefix p s in if code c == code d then rest else none

strip_prefix-append : (p s : String) → strip_prefix p (p ++ s) ≡ some s
unfolding strip_prefix
strip_prefix-append String.[] s = rw nil-append
strip_prefix-append (String.◌∷◌ c p) s =
    rw cons-append (rw ((==_iff (code c) (code c)).1 refl, strip_prefix) (strip_prefix-append p s))

-- s.startswith(p)
unfoldable pub starts_with : String → String → Bool
unfolding strip_prefix
starts_with s p = is_some (strip_prefix p s)

-- What `_find_circuit_indexes` returns.
pub record Indexes : Type 0 where
  pub job_index : ℕ
  pub total_jobs : ℕ
  pub start_index : ℕ
  pub end_index : ℕ

-- sub_job.format_tag(_index_tag)
unfoldable pub format_tag : Indexes → String
format_tag i =
    index_prefix
    ++ (decimal i.job_index
        ++ (":"
            ++ (decimal i.total_jobs
                ++ (":" ++ (decimal i.start_index ++ (":" ++ decimal i.end_index))))))

infixl 5 ◌>>=◌
abbrev ◌>>=◌ : {A B : Type 0} → Option A → (A → Option B) → Option B
none >>= f = none
some a >>= f = f a

-- `re.match(_index_pattern, tag)`, with the four groups as numbers. What follows the last
-- group is not looked at.
unfoldable pub match_index_pattern : String → Option Indexes
unfolding strip_prefix
match_index_pattern tag = do
  s0 ← strip_prefix index_prefix tag
  (job_index, s1) ← number_prefix s0
  s2 ← strip_prefix ":" s1
  (total_jobs, s3) ← number_prefix s2
  s4 ← strip_prefix ":" s3
  (start_index, s5) ← number_prefix s4
  s6 ← strip_prefix ":" s5
  (end_index, s7) ← number_prefix s6
  some (record {
    job_index = job_index;
    total_jobs = total_jobs;
    start_index = start_index;
    end_index = end_index;
  })

-- The first tag that starts with the prefix of the index tags.
first_index_tag : List String → Option String
first_index_tag [] = none
first_index_tag (tag ∷ tags) =
    let rest = first_index_tag tags in if starts_with tag index_prefix then some tag else rest

-- `none` is IBMJobInvalidStateError: the job is missing proper tags.
unfoldable pub find_circuit_indexes : List String → Option Indexes
unfolding first_index_tag
find_circuit_indexes tags = do tag ← first_index_tag tags; match_index_pattern tag

-- `[tag for tag in tags if not tag.startswith(IBM_COMPOSITE_JOB_TAG_PREFIX)]`
unfoldable pub user_tags : List String → List String
user_tags [] = []
user_tags (tag ∷ tags) =
    let rest = user_tags tags in if starts_with tag tag_prefix then rest else tag ∷ rest

-- The tags that `_async_submit` gives to a sub-job.
unfoldable pub submit_tags : List String → Indexes → String → List String
submit_tags tags i job_id = tags ++l (format_tag i ∷ job_id ∷ [])

strip_prefix-longer :
    (p q s : String) → strip_prefix (p ++ q) s ≡ (strip_prefix p s >>= strip_prefix q)
unfolding strip_prefix
strip_prefix-longer String.[] q s = rw nil-append
strip_prefix-longer (String.◌∷◌ c p) q String.[] = rw cons-append
strip_prefix-longer (String.◌∷◌ c p) q (String.◌∷◌ d s) =
    rw cons-append (ground (arith, strip_prefix-longer p q s))

-- A text with the prefix of the index tags has the prefix of the reserved tags.
index_prefix_reserved :
    (tag : String) → starts_with tag tag_prefix ≡ false → starts_with tag index_prefix ≡ false
unfolding starts_with
index_prefix_reserved tag h = ground (arith, strip_prefix-longer tag_prefix "indexes:" tag)

-- What follows each number of a tag.
abbrev after_start : Indexes → String
after_start i = ":" ++ decimal i.end_index

abbrev after_total : Indexes → String
after_total i = ":" ++ (decimal i.start_index ++ after_start i)

abbrev after_job : Indexes → String
after_job i = ":" ++ (decimal i.total_jobs ++ after_total i)

-- The tag of a sub-job gives its four numbers back.
match_index_pattern-format_tag : (i : Indexes) → match_index_pattern (format_tag i) ≡ some i
unfolding match_index_pattern format_tag
match_index_pattern-format_tag i = rw strip_prefix-append (
    rw
      (number_prefix-decimal i.job_index (after_job i)
        (NoDigit-colon (decimal i.total_jobs ++ after_total i)))
      (rw strip_prefix-append (
        rw
          (number_prefix-decimal i.total_jobs (after_total i)
            (NoDigit-colon (decimal i.start_index ++ after_start i)))
          (rw strip_prefix-append (
            rw
              (number_prefix-decimal i.start_index (after_start i)
                (NoDigit-colon (decimal i.end_index)))
              (rw strip_prefix-append (rw (number_prefix-decimal_end i.end_index))))))))

first_index_tag-append :
    (tags : List String) (tag : String) (others : List String)
    → starts_with tag index_prefix ≡ true
    → first_index_tag (user_tags tags ++l (tag ∷ others)) ≡ some tag
unfolding first_index_tag user_tags
first_index_tag-append [] tag others h = rw h
first_index_tag-append (t ∷ tags) tag others h =
    ground (arith, first_index_tag-append tags tag others, index_prefix_reserved t)

format_tag_prefix : (i : Indexes) → starts_with (format_tag i) index_prefix ≡ true
unfolding starts_with format_tag
format_tag_prefix i = rw strip_prefix-append

-- A sub-job that was submitted with its index tag, behind the user's tags, gives its indexes back
-- when it is restored. The user's tags are those that do not start with the reserved prefix.
pub find_circuit_indexes-submit_tags :
    (tags : List String) (i : Indexes) (job_id : String)
    → find_circuit_indexes (submit_tags (user_tags tags) i job_id) ≡ some i
unfolding find_circuit_indexes submit_tags
find_circuit_indexes-submit_tags tags i job_id =
    rw (first_index_tag-append tags (format_tag i) (job_id ∷ []) (format_tag_prefix i))
      (match_index_pattern-format_tag i)
