-- ===== src/Service/Hubs/Lookup.antt =====
-- What the names find in the hubs/groups/projects that `_initialize_hgps` of
-- qiskit_ibm_provider/ibm_provider.py orders.
use qiskit_ibm_provider.Common.{
  ◌⊎◌, any, ◌≡◌, ◌≢◌, is_some, refl, sym, ap, ◌∙◌, String, Bool, true, false, Option, none, some,
  List, [], ◌∷◌, ◌++◌, if◌then◌else◌, str_eq, eq_iff, ok, arith, Bool-cases, Option-cases, inl, inr,
}
use qiskit_ibm_provider.Common.Dict.{
  Dict, lookup, contains, insert, remove, UniqueKeys, insert-UniqueKeys, lookup-insert,
  lookup-remove, contains-eq-is_some,
}
use qiskit_ibm_provider.Instance.{to_instance_format}
use qiskit_ibm_provider.Service.Hubs.{
  HubInfo, instance_of, open_to_end, to_front, select, build_hgps, ordered, initialize_hgps,
}

module _ {Hgp : Type 0} where
  lookup-append :
      (k : String) (d : Dict Hgp) (e : Dict Hgp)
      → lookup k (d ++ e) ≡ elim (lookup k d) [ none ↦ lookup k e | some v ↦ some v ]
  unfolding lookup
  lookup-append k [] e = refl
  lookup-append k ((j, w) ∷ d) e = ground (arith, lookup-append k d e)

  lookup_missing : (k : String) (d : Dict Hgp) → contains k d ≡ false → lookup k d ≡ none
  unfolding lookup contains
  lookup_missing k [] h = refl
  lookup_missing k ((j, w) ∷ d) h = ground (arith, lookup_missing k d)

  lookup_here :
      (k j : String) (w : Hgp) (d : Dict Hgp) → str_eq j k ≡ true → lookup k ((j, w) ∷ d) ≡ some w
  unfolding lookup
  lookup_here k j w d e = rw e refl

  lookup_there :
      (k j : String) (w : Hgp) (d : Dict Hgp)
      → str_eq j k ≡ false
      → lookup k ((j, w) ∷ d) ≡ lookup k d
  unfolding lookup
  lookup_there k j w d e = rw e refl

  lookup-none : (k : String) → lookup {V = Hgp} k [] ≡ none
  unfolding lookup
  lookup-none k = refl

  last_missing : (o p : Option Hgp) → p ≡ none → elim o [ none ↦ p | some v ↦ some v ] ≡ o
  last_missing none p h = h
  last_missing (some v) p h = refl

  lookup-open_to_end :
      (k : String) (d : Dict Hgp) → UniqueKeys d → lookup k (open_to_end d) ≡ lookup k d
  unfolding open_to_end
  lookup-open_to_end k [] u = refl
  lookup-open_to_end k (x ∷ []) u = refl
  lookup-open_to_end k ((j, w) ∷ y ∷ d) u =
      lookup-append k (y ∷ d) ((j, w) ∷ []) ∙ elim (Bool-cases (str_eq j k)) [
        | inl e ↦
            rw (lookup_missing k (y ∷ d) (rw ((eq_iff j k).0 e) at u.0))
              (lookup_here k j w [] e ∙ sym (lookup_here k j w (y ∷ d) e))
        | inr e ↦
            last_missing (lookup k (y ∷ d)) _ (lookup_there k j w [] e ∙ lookup-none k)
            ∙ sym (lookup_there k j w (y ∷ d) e)
      ]

  lookup-to_front : (k name : String) (d : Dict Hgp) → lookup k (to_front name d) ≡ lookup k d
  unfolding to_front
  lookup-to_front k name d = elim (Option-cases (lookup name d)) [
    | inl e ↦ rw (e, to_front) refl
    | inr (v, e) ↦
        rw (e, to_front)
          (elim (Bool-cases (str_eq name k)) [
            | inl f ↦ lookup_here k name v (remove name d) f ∙ sym (rw ((eq_iff name k).0 f) at e)
            | inr f ↦ lookup_there k name v (remove name d) f ∙ lookup-remove name k d ∙ rw f refl
          ])
  ]

  lookup-select :
      (k : String) (default_hgp : Option String) (d : Dict Hgp)
      → lookup k (select default_hgp d) ≡ lookup k d
  unfolding select
  lookup-select k none d = refl
  lookup-select k (some name) d = ground (arith, lookup-to_front k name d)

  UniqueKeys-build_hgps :
      (build : HubInfo → Option Hgp) (hubs : List HubInfo) (d : Dict Hgp)
      → UniqueKeys d
      → UniqueKeys (build_hgps build hubs d)
  unfolding build_hgps
  UniqueKeys-build_hgps build [] d u = u
  UniqueKeys-build_hgps build (h ∷ hs) d u = elim (Option-cases (build h)) [
    | inl e ↦ rw (e, build_hgps) (UniqueKeys-build_hgps build hs d u)
    | inr (v, e) ↦
        rw (e, build_hgps)
          (UniqueKeys-build_hgps build hs (insert (instance_of h) v d)
            (insert-UniqueKeys (instance_of h) v d u))
  ]

  -- The first name of a dictionary.
  abbrev pub first_name : Dict Hgp → Option String
  first_name [] = none
  first_name ((k, v) ∷ d) = some k

  first_name-select :
      (name : String) (d : Dict Hgp)
      → str_eq name "" ≡ false
      → contains name d ≡ true
      → first_name (select (some name) d) ≡ some name
  unfolding select
  first_name-select name d n h = elim (Option-cases (lookup name d)) [
    | inl e ↦
        absurd
          (let missing : contains name d ≡ false = contains-eq-is_some name d ∙ ap is_some e in cc)
    | inr (v, e) ↦ rw (n, h) (rw (e, to_front) refl)
  ]

  ordered-lookup :
      (default_hgp : Option String) (d : Dict Hgp)
      → UniqueKeys d
      → (d ≢ [])
      → (e : Dict Hgp) × (ordered default_hgp d ≡ ok e) × ((k : String) → lookup k e ≡ lookup k d)
  ordered-lookup default_hgp [] u n = absurd (n refl)
  ordered-lookup default_hgp (x ∷ d) u n = (
    select default_hgp (open_to_end (x ∷ d)),
    refl,
    λ k. lookup-select k default_hgp (open_to_end (x ∷ d)) ∙ lookup-open_to_end k (x ∷ d) u,
  )

  abbrev pub can_build : (HubInfo → Option Hgp) → HubInfo → Bool
  can_build build h = is_some (build h)

  abbrev pub or_else_first : Option Hgp → Option Hgp → Option Hgp
  or_else_first (some v) o = some v
  or_else_first none o = o

  -- What was built for the last of the hubs with the name that could be built.
  abbrev pub last_built : (HubInfo → Option Hgp) → String → List HubInfo → Option Hgp
  last_built build name [] = none
  last_built build name (h ∷ hs) =
      or_else_first (last_built build name hs)
        (if str_eq (to_instance_format h.hub h.group h.project) name then build h else none)

  first_assoc :
      (o : Option Hgp) (test : Bool) (v : Hgp) (p : Option Hgp)
      → or_else_first o (if test then some v else p)
        ≡ or_else_first (or_else_first o (if test then some v else none)) p
  first_assoc o test v p = ground arith

  first-none : (o : Option Hgp) → or_else_first o none ≡ o
  first-none o = ground arith

  lookup-build_hgps :
      (build : HubInfo → Option Hgp) (name : String) (hubs : List HubInfo) (d : Dict Hgp)
      → lookup name (build_hgps build hubs d)
        ≡ or_else_first (last_built build name hubs) (lookup name d)
  unfolding build_hgps
  lookup-build_hgps build name [] d = refl
  lookup-build_hgps build name (h ∷ hs) d = elim (Option-cases (build h)) [
    | inl e ↦
        rw (e, build_hgps)
          (lookup-build_hgps build name hs d
            ∙ ap (λ o. or_else_first o (lookup name d))
                (sym (same_without (last_built build name hs) (str_eq (instance_of h) name))))
    | inr (v, e) ↦
        rw (e, build_hgps)
          (lookup-build_hgps build name hs (insert (instance_of h) v d)
            ∙ ap (or_else_first (last_built build name hs)) (lookup-insert (instance_of h) name v d)
            ∙ first_assoc (last_built build name hs) (str_eq (instance_of h) name) v
                (lookup name d))
  ]
    where
      same_without :
          (o : Option Hgp) (test : Bool) → or_else_first o (if test then none else none) ≡ o
      same_without o test = ground arith

  insert_not_empty : (k : String) (v : Hgp) (d : Dict Hgp) → insert k v d ≢ []
  unfolding insert
  insert_not_empty k v [] e = cc
  insert_not_empty k v ((j, w) ∷ d) e = ground arith

  not_empty-build_hgps :
      (build : HubInfo → Option Hgp) (hubs : List HubInfo) (d : Dict Hgp)
      → (d ≢ []) ⊎ (any (can_build build) hubs ≡ true)
      → build_hgps build hubs d ≢ []
  unfolding build_hgps
  not_empty-build_hgps build [] d (inl h) = h
  not_empty-build_hgps build [] d (inr h) = absurd cc
  not_empty-build_hgps build (h ∷ hs) d k = elim (Option-cases (build h)) [
    | inl e ↦
        rw (e, build_hgps)
          (not_empty-build_hgps build hs d (elim k [ inl n ↦ inl n | inr m ↦ inr (rw e at m) ]))
    | inr (v, e) ↦
        rw (e, build_hgps)
          (not_empty-build_hgps build hs (insert (instance_of h) v d)
            (inl (insert_not_empty (instance_of h) v d)))
  ]

  no_more : (name : String) (o : Option Hgp) → or_else_first o (lookup {V = Hgp} name []) ≡ o
  no_more name o = ap (or_else_first o) (lookup-none name) ∙ first-none o

  -- If at least one hub can be built, then each name finds in the result what was built for the last
  -- hub with the name hub/group/project that could be built, and nothing if there is none.
  pub initialize_hgps-lookup :
      (build : HubInfo → Option Hgp) (hubs : List HubInfo) (default_hgp : Option String)
      → any (can_build build) hubs ≡ true
      → (e : Dict Hgp) × (initialize_hgps build hubs default_hgp ≡ ok e)
        × ((name : String) → lookup name e ≡ last_built build name hubs)
  unfolding initialize_hgps
  initialize_hgps-lookup build hubs default_hgp some_built =
      let (e, result, same) =
        ordered-lookup default_hgp (build_hgps build hubs [])
          (UniqueKeys-build_hgps build hubs [] tt)
          (not_empty-build_hgps build hubs [] (inr some_built)) in
      (
        e,
        result,
        λ name.
            same name
            ∙ lookup-build_hgps build name hubs []
            ∙ no_more name (last_built build name hubs),
      )

  ordered-first_name :
      (name : String) (d : Dict Hgp)
      → UniqueKeys d
      → str_eq name "" ≡ false
      → contains name d ≡ true
      → (e : Dict Hgp) × (ordered (some name) d ≡ ok e) × (first_name e ≡ some name)
  ordered-first_name name [] u n h =
      absurd
        (let missing = contains-eq-is_some {V = Hgp} name [] ∙ ap is_some (lookup-none name) in cc)
  ordered-first_name name (x ∷ d) u n h = (
    select (some name) (open_to_end (x ∷ d)),
    refl,
    first_name-select name (open_to_end (x ∷ d)) n (
        contains-eq-is_some name (open_to_end (x ∷ d))
        ∙ ap is_some (lookup-open_to_end name (x ∷ d) u)
        ∙ sym (contains-eq-is_some name (x ∷ d))
        ∙ h),
  )

  -- The hub/group/project that the account selects comes first, if it could be built.
  initialize_hgps-first_name :
      (build : HubInfo → Option Hgp) (hubs : List HubInfo) (name : String)
      → str_eq name "" ≡ false
      → contains name (build_hgps build hubs []) ≡ true
      → (e : Dict Hgp) × (initialize_hgps build hubs (some name) ≡ ok e)
        × (first_name e ≡ some name)
  unfolding initialize_hgps
  initialize_hgps-first_name build hubs name n h =
      ordered-first_name name (build_hgps build hubs []) (UniqueKeys-build_hgps build hubs [] tt) n
        h
