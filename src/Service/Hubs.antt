-- ===== src/Service/Hubs.antt =====
-- The hubs/groups/projects of an account and their order: `_initialize_hgps` of
-- qiskit_ibm_provider/ibm_provider.py. Building one is an argument, with no value for an exception.
pub mod Lookup
use qiskit_ibm_provider.Common.{
  ◌⊎◌, any, ◌≡◌, ◌≢◌, is_some, refl, sym, ap, ◌∙◌, String, Bool, true, false, Option, none, some,
  List, [], ◌∷◌, ◌++◌, if◌then◌else◌, str_eq, eq_iff, Result, ok, raise, arith, Bool-cases,
  Option-cases, inl, inr,
}
use qiskit_ibm_provider.Common.Dict.{
  Dict, lookup, contains, insert, remove, UniqueKeys, insert-UniqueKeys, lookup-insert,
  lookup-remove, contains-eq-is_some,
}
use qiskit_ibm_provider.Instance.{to_instance_format}

pub record HubInfo : Type 0 where
  pub hub : String
  pub group : String
  pub project : String

pub data ProviderError : Type 0 where
  account_error : ProviderError  -- IBMAccountError

abbrev pub instance_of : HubInfo → String
instance_of h = to_instance_format h.hub h.group h.project

abbrev is_given : Option String → Bool
is_given none = false
is_given (some t) = if str_eq t "" then false else true

module _ {Hgp : Type 0} where
  -- The first item goes to the end, if there are two or more.
  unfoldable pub open_to_end : Dict Hgp → Dict Hgp
  open_to_end [] = []
  open_to_end (x ∷ []) = x ∷ []
  open_to_end (x ∷ y ∷ d) = (y ∷ d) ++ (x ∷ [])

  -- `move_to_end(name, last=False)`, for a name that is there.
  unfoldable pub to_front : String → Dict Hgp → Dict Hgp
  to_front name d = elim (lookup name d) [ none ↦ d | some v ↦ (name, v) ∷ remove name d ]

  -- The user's selection goes to the front; a name that is not found is ignored with a warning.
  unfoldable pub select : Option String → Dict Hgp → Dict Hgp
  unfolding to_front
  select none d = d
  select (some name) d =
      if is_given (some name) then (if contains name d then to_front name d else d) else d

  -- The loop over the hubs that the server names.
  unfoldable pub build_hgps : (HubInfo → Option Hgp) → List HubInfo → Dict Hgp → Dict Hgp
  build_hgps build [] hgps = hgps
  build_hgps build (h ∷ hs) hgps = elim (build h) [
    | none ↦ build_hgps build hs hgps
    | some v ↦ build_hgps build hs (insert (instance_of h) v hgps)
  ]

  abbrev pub ordered : Option String → Dict Hgp → Result ProviderError (Dict Hgp)
  ordered default_hgp [] = raise account_error
  ordered default_hgp (x ∷ d) = ok (select default_hgp (open_to_end (x ∷ d)))

  unfoldable pub initialize_hgps :
      (HubInfo → Option Hgp) → List HubInfo → Option String → Result ProviderError (Dict Hgp)
  unfolding build_hgps open_to_end select
  initialize_hgps build hubs default_hgp = ordered default_hgp (build_hgps build hubs [])
