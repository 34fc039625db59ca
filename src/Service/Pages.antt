-- ===== src/Service/Pages.antt =====
-- The pagination of `IBMBackendService._get_jobs` of qiskit_ibm_provider/ibm_backend_service.py. The
-- server is an argument: what it answers for a limit and a skip, with the filters fixed.
use qiskit_ibm_provider.Common.{
  ℕ, zero, suc, ◌+◌, ◌-◌, ◌≤◌, ◌<◌, min, ◌≡◌, refl, sym, ap, ◌∙◌, Bool, false, Option, none, some,
  List, [], ◌∷◌, ◌++◌, if◌then◌else◌, leb, leb→le, leb→lt, length, take, drop, length-append,
  append_assoc, append_nil, length-drop, arith, Bool-cases, inl, inr,
}

abbrev first_page_limit : Option ℕ → ℕ
first_page_limit none = 50
first_page_limit (some limit) = if leb limit 50 then limit else 50

-- `limit` is true, and that many jobs have come.
abbrev limit_reached : Option ℕ → ℕ → Bool
limit_reached none count = false
limit_reached (some zero) count = false
limit_reached (some (suc n)) count = leb (suc n) count

abbrev next_page_limit : Option ℕ → ℕ → ℕ
next_page_limit none count = 50
next_page_limit (some zero) count = 50
next_page_limit (some (suc n)) count = suc n - count

module _ {Job : Type 0} (server : ℕ → ℕ → List Job) where
  -- The loop; without fuel it still runs.
  unfoldable pub pages_from : ℕ → Option ℕ → List Job → ℕ → ℕ → Option (List Job)
  pages_from zero limit job_responses current_page_limit skip = none
  pages_from (suc fuel) limit job_responses current_page_limit skip =
      let job_page = server current_page_limit skip in
      let responses = job_responses ++ job_page in
      let count = length responses in
      let later = pages_from fuel limit responses (next_page_limit limit count) count in
      elim job_page [
        | [] ↦ some job_responses
        | _ ∷ _ ↦ if limit_reached limit count then some responses else later
      ]

  unfoldable pub get_jobs : ℕ → Option ℕ → ℕ → Option (List Job)
  unfolding pages_from
  get_jobs fuel limit skip = pages_from fuel limit [] (first_page_limit limit) skip

-- The server has these jobs in order, and answers with at most `most` of them.
abbrev pub IsPaged : {Job : Type 0} → (ℕ → ℕ → List Job) → List Job → ℕ → Type 0
IsPaged server jobs most =
    (limit skip : ℕ) → server limit skip ≡ take (min limit most) (drop skip jobs)

module _ {A : Type 0} where
  drop-append_length : (xs ys : List A) → drop (length xs) (xs ++ ys) ≡ ys
  drop-append_length [] ys = refl
  drop-append_length (x ∷ xs) ys = drop-append_length xs ys

  take-append-drop : (n : ℕ) (xs : List A) → take n xs ++ drop n xs ≡ xs
  take-append-drop zero xs = refl
  take-append-drop (suc n) [] = refl
  take-append-drop (suc n) (x ∷ xs) = ap (λ l. x ∷ l) (take-append-drop n xs)

  take-nil : (n : ℕ) → take {A = A} n [] ≡ []
  take-nil zero = refl
  take-nil (suc n) = refl

  -- Taking `q` elements first, and the rest of `n` afterwards.
  take-split :
      (q n : ℕ) (xs : List A)
      → q ≤ n
      → take q xs ++ take (n - length (take q xs)) (drop q xs) ≡ take n xs
  take-split zero n xs h = ap (λ k. take k xs) (omega arith)
  take-split (suc q) zero xs h = absurd (omega arith)
  take-split (suc q) (suc n) [] h = take-nil (suc n - 0)
  take-split (suc q) (suc n) (x ∷ xs) h =
      ap (λ l. x ∷ l)
        (ap (λ k. take q xs ++ take k (drop q xs)) (omega arith) ∙ take-split q n xs (omega arith))

  -- The last page holds what is still asked for.
  last_part : (q n : ℕ) (xs : List A) → q ≤ n → n ≤ length (take q xs) → take q xs ≡ take n xs
  last_part q n xs h k =
      sym (append_nil (take q xs))
      ∙ ap (λ j. take q xs ++ take j (drop q xs)) {x = 0} {y = n - length (take q xs)} (omega arith)
      ∙ take-split q n xs h

  joined_part :
      (seen : List A) (q n : ℕ) (xs : List A)
      → q ≤ n - length seen
      → (seen ++ take q xs) ++ take (n - length (seen ++ take q xs)) (drop q xs)
        ≡ seen ++ take (n - length seen) xs
  joined_part seen q n xs h =
      append_assoc seen (take q xs) (take (n - length (seen ++ take q xs)) (drop q xs))
      ∙ ap (λ l. seen ++ l)
          (ap (λ j. take q xs ++ take j (drop q xs)) (omega (arith, length-append seen (take q xs)))
            ∙ take-split q (n - length seen) xs h)

  take-nonempty : (q : ℕ) (x : A) (xs : List A) → 1 ≤ q → (ys : List A) × (take q (x ∷ xs) ≡ x ∷ ys)
  take-nonempty zero x xs h = absurd (omega arith)
  take-nonempty (suc q) x xs h = (take q xs, refl)

module _ {Job : Type 0} (server : ℕ → ℕ → List Job) (jobs : List Job) (most : ℕ) where
  skip_empty :
      {B : Type 0} (page : List Job) (y : Job) (ys : List Job)
      → page ≡ y ∷ ys
      → (a b : B) → elim page [ [] ↦ a | _ ∷ _ ↦ b ] ≡ b
  skip_empty [] y ys f a b = absurd cc
  skip_empty (z ∷ zs) y ys f a b = refl

  no_page :
      (fuel : ℕ) (limit : Option ℕ) (seen : List Job) (current skip : ℕ)
      → server current skip ≡ []
      → pages_from server (suc fuel) limit seen current skip ≡ some seen
  unfolding pages_from
  no_page fuel limit seen current skip e = rw (e, pages_from) refl

  some_page :
      (fuel : ℕ) (limit : Option ℕ) (seen : List Job) (current skip : ℕ) (y : Job)
      (ys page : List Job)
      → server current skip ≡ page
      → page ≡ y ∷ ys
      → pages_from server (suc fuel) limit seen current skip ≡ (
          let count = length (seen ++ page) in
          if limit_reached limit count
          then some (seen ++ page)
          else pages_from server fuel limit (seen ++ page) (next_page_limit limit count) count)
  unfolding pages_from
  some_page fuel limit seen current skip y ys page e f =
      rw (← e) (skip_empty (server current skip) y ys (e ∙ f) _ _)

  -- The page after the jobs seen so far.
  page_after :
      (seen rest : List Job) (current : ℕ)
      → IsPaged server jobs most
      → jobs ≡ seen ++ rest
      → server current (length seen) ≡ take (min current most) rest
  page_after seen rest current paged e =
      paged current (length seen)
      ∙ ap (take (min current most)) (ap (drop (length seen)) e ∙ drop-append_length seen rest)

  -- The jobs seen and the rest, after a page.
  after_page :
      (seen rest : List Job) (q : ℕ)
      → jobs ≡ seen ++ rest
      → jobs ≡ (seen ++ take q rest) ++ drop q rest
  after_page seen rest q e =
      e
      ∙ ap (λ l. seen ++ l) (sym (take-append-drop q rest))
      ∙ sym (append_assoc seen (take q rest) (drop q rest))

  all_pages :
      (fuel : ℕ) (seen rest : List Job)
      → 1 ≤ most
      → IsPaged server jobs most
      → jobs ≡ seen ++ rest
      → length rest < fuel
      → pages_from server fuel none seen 50 (length seen) ≡ some jobs
  all_pages zero seen rest c paged e h = absurd (omega arith)
  all_pages (suc fuel) seen [] c paged e h =
      no_page fuel none seen 50 (length seen)
        (page_after seen [] 50 paged e ∙ take-nil (min 50 most))
      ∙ ap some (sym (e ∙ append_nil seen))
  all_pages (suc fuel) seen (x ∷ rest) c paged e h =
      let q = min 50 most in
      let (ys, page) = take-nonempty q x rest (omega arith) in
      some_page fuel none seen 50 (length seen) x ys (take q (x ∷ rest))
        (page_after seen (x ∷ rest) 50 paged e) page
      ∙ all_pages fuel (seen ++ take q (x ∷ rest)) (drop q (x ∷ rest)) c paged
          (after_page seen (x ∷ rest) q e) (omega (arith, length-drop q (x ∷ rest)))

  some_pages :
      (n fuel : ℕ) (seen rest : List Job) (current : ℕ)
      → 1 ≤ most
      → IsPaged server jobs most
      → jobs ≡ seen ++ rest
      → 1 ≤ current
      → current + length seen ≤ suc n
      → length rest < fuel
      → pages_from server fuel (some (suc n)) seen current (length seen)
        ≡ some (seen ++ take (suc n - length seen) rest)
  some_pages n zero seen rest current c paged e lo hi h = absurd (omega arith)
  some_pages n (suc fuel) seen [] current c paged e lo hi h =
      no_page fuel (some (suc n)) seen current (length seen)
        (page_after seen [] current paged e ∙ take-nil (min current most))
      ∙ ap some (sym (ap (λ l. seen ++ l) (take-nil (suc n - length seen)) ∙ append_nil seen))
  some_pages n (suc fuel) seen (x ∷ rest) current c paged e lo hi h =
      let q = min current most in
      let page = take q (x ∷ rest) in
      let (ys, nonempty) = take-nonempty q x rest (omega arith) in
      some_page fuel (some (suc n)) seen current (length seen) x ys page
        (page_after seen (x ∷ rest) current paged e) nonempty
      ∙ elim (Bool-cases (leb (suc n) (length (seen ++ page)))) [
        | inl r ↦ rw r (
            ap (λ l. some (seen ++ l))
              (last_part q (suc n - length seen) (x ∷ rest) (omega arith)
                (omega (arith, leb→le _ _ r, length-append seen page))))
        | inr r ↦ rw r (
            some_pages n fuel (seen ++ page) (drop q (x ∷ rest)) (suc n - length (seen ++ page)) c
              paged (after_page seen (x ∷ rest) q e) (omega (arith, leb→lt _ _ r))
              (omega (arith, leb→lt _ _ r)) (omega (arith, length-drop q (x ∷ rest)))
            ∙ ap some (joined_part seen q (suc n) (x ∷ rest) (omega arith)))
      ]

-- What is asked for.
abbrev pub up_to : {Job : Type 0} → Option ℕ → List Job → List Job
up_to none jobs = jobs
up_to (some limit) jobs = take limit jobs

-- Without a skip, and from a server that answers with at most `most` jobs at a time, at least one,
-- `_get_jobs` returns the jobs up to the limit, in order and each of them once; without a limit it
-- returns all of them. The loop ends: one round more than there are jobs is enough.
pub get_jobs_pages :
    {Job : Type 0} (server : ℕ → ℕ → List Job) (jobs : List Job) (most : ℕ) (limit : Option ℕ)
    → 1 ≤ most
    → IsPaged server jobs most
    → get_jobs server (suc (length jobs)) limit 0 ≡ some (up_to limit jobs)
unfolding get_jobs
get_jobs_pages server jobs most none c paged =
    all_pages server jobs most (suc (length jobs)) [] jobs c paged refl (omega arith)
get_jobs_pages server jobs most (some zero) c paged =
    no_page server jobs most (length jobs) (some 0) [] 0 0
      (paged 0 0 ∙ ap (λ k. take k jobs) {x = min 0 most} {y = 0} (omega arith))
get_jobs_pages server jobs most (some (suc n)) c paged =
    some_pages server jobs most n (suc (length jobs)) [] jobs (first_page_limit (some (suc n))) c
      paged refl (ground arith) (ground arith) (omega arith)
    ∙ ap (λ k. some (take k jobs)) {x = suc n - 0} {y = suc n} (omega arith)
