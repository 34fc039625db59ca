-- ===== src/Utils.antt =====
-- `RefreshQueue` of qiskit_ibm_provider/utils/utils.py, over the bounded FIFO queue of Python's
-- library: a list, the oldest item first.
mod Tests
use qiskit_ibm_provider.Common.{
  ℕ, zero, suc, ◌+◌, ◌-◌, ◌≤◌, ◌<◌, ◌≡◌, refl, sym, ap, ◌∙◌, Bool, true, false, Option, none, some,
  List, [], ◌∷◌, ◌++◌, if◌then◌else◌, ltb, leb, leb→le, leb→lt, ◌&&◌, length, drop, length-append,
  append_assoc, append_nil, length-drop, arith, Bool-cases, inl, inr,
}

module _ {A : Type 0} where
  -- `Queue.full`: a maximum of 0 stands for none.
  abbrev pub is_full : ℕ → List A → Bool
  is_full maxsize items = ltb 0 maxsize && leb maxsize (length items)

  -- RefreshQueue.put
  unfoldable pub put : ℕ → List A → A → List A
  put maxsize items item =
      if is_full maxsize items then drop 1 items ++ (item ∷ []) else items ++ (item ∷ [])

  -- RefreshQueue.get, when it does not wait or waits in vain for an item: `none` is queue.Empty.
  unfoldable pub get : List A → Option (A × List A)
  get [] = none
  get (x ∷ items) = some (x, items)

  unfoldable pub put_all : ℕ → List A → List A → List A
  unfolding put
  put_all maxsize items [] = items
  put_all maxsize items (x ∷ xs) = put_all maxsize (put maxsize items x) xs

  drop-append_short : (n : ℕ) (xs ys : List A) → n ≤ length xs → drop n (xs ++ ys) ≡ drop n xs ++ ys
  drop-append_short zero xs ys h = refl
  drop-append_short (suc n) [] ys h = absurd (omega arith)
  drop-append_short (suc n) (x ∷ xs) ys h = drop-append_short n xs ys (omega arith)

  drop-drop : (n : ℕ) (xs : List A) → drop 1 (drop n xs) ≡ drop (suc n) xs
  drop-drop zero xs = refl
  drop-drop (suc n) [] = refl
  drop-drop (suc n) (x ∷ xs) = drop-drop n xs

  -- The last `m` items.
  abbrev pub newest : ℕ → List A → List A
  newest m xs = drop (length xs - m) xs

  put_full :
      (m : ℕ) (q : List A) (x : A) → suc m ≤ length q → put (suc m) q x ≡ drop 1 q ++ (x ∷ [])
  unfolding put
  put_full m q x h = ground arith

  put_room : (m : ℕ) (q : List A) (x : A) → length q < suc m → put (suc m) q x ≡ q ++ (x ∷ [])
  unfolding put
  put_room m q x h = ground arith

  drop_nil : (n : ℕ) → drop {A = A} n [] ≡ []
  drop_nil zero = refl
  drop_nil (suc n) = refl

  put-newest :
      (m : ℕ) (xs : List A) (x : A)
      → put (suc m) (newest (suc m) xs) x ≡ newest (suc m) (xs ++ (x ∷ []))
  put-newest m xs x =
      let k = length xs - suc m in
      elim (Bool-cases (leb (suc m) (length xs))) [
        | inl e ↦
            put_full m (drop k xs) x (omega (arith, leb→le _ _ e, length-drop k xs))
            ∙ ap (λ l. l ++ (x ∷ [])) (drop-drop k xs)
            ∙ sym (drop-append_short (suc k) xs (x ∷ []) (omega (arith, leb→le _ _ e)))
            ∙ ap (λ j. drop j (xs ++ (x ∷ []))) {x = suc k} {y = length (xs ++ (x ∷ [])) - suc m}
                (omega (arith, leb→le _ _ e, length-append xs (x ∷ [])))
        | inr e ↦
            put_room m (drop k xs) x (omega (arith, leb→lt _ _ e, length-drop k xs))
            ∙ sym (drop-append_short k xs (x ∷ []) (omega arith))
            ∙ ap (λ j. drop j (xs ++ (x ∷ []))) {x = k} {y = length (xs ++ (x ∷ [])) - suc m}
                (omega (arith, leb→lt _ _ e, length-append xs (x ∷ [])))
      ]

  put_all-newest_after :
      (m : ℕ) (seen xs : List A)
      → put_all (suc m) (newest (suc m) seen) xs ≡ newest (suc m) (seen ++ xs)
  unfolding put_all
  put_all-newest_after m seen [] = ap (newest (suc m)) (sym (append_nil seen))
  put_all-newest_after m seen (x ∷ xs) =
      ap (λ q. put_all (suc m) q xs) (put-newest m seen x)
      ∙ put_all-newest_after m (seen ++ (x ∷ [])) xs
      ∙ ap (newest (suc m)) (append_assoc seen (x ∷ []) xs)

  -- A queue with a maximum of at least one item, new at first, holds the newest items that were
  -- put into it, in their order, and never more than the maximum.
  pub put_all-newest :
      (m : ℕ) (xs : List A)
      → (put_all (suc m) [] xs ≡ newest (suc m) xs) × (length (put_all (suc m) [] xs) ≤ suc m)
  put_all-newest m xs =
      let kept =
        ap (λ q. put_all (suc m) q xs) (sym (drop_nil (0 - suc m)))
        ∙ put_all-newest_after m [] xs in
      (kept, rw kept (omega (arith, length-drop (length xs - suc m) xs)))
