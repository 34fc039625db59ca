-- ===== src/Instance.antt =====
-- The hub/group/project names of a service instance (qiskit_ibm_provider/utils/hgp.py).
-- A text is walked by its characters; `str.split("/")` is `split_slash`.
mod Tests
use Prim.Native.Char.{Char, code}
use Prim.Native.String.{◌++◌}
use Prim.Native.String.append
use text.Mathlib.TextLemmas.{nil-append, cons-append}
use text.Mathlib.TextEquality.{Char-path}
use qiskit_ibm_provider.Common.{
  String, ◌≡◌, refl, ◌∙◌, ap, Bool, true, false, List, [], ◌∷◌, arith, ◌==◌, if◌then◌else◌,
  Bool-cases, inl, inr, ==_iff,
}
use qiskit_ibm_provider.Common.{Result, ok, raise}

abbrev is_slash : Char → Bool
is_slash c = code c == b'/'

-- Put a character in front of the first part.
abbrev onto_first : Char → List String → List String
onto_first c [] = (String.◌∷◌ c String.[]) ∷ []
onto_first c (w ∷ ws) = (String.◌∷◌ c w) ∷ ws

-- s.split("/")
split_slash : String → List String
split_slash String.[] = String.[] ∷ []
split_slash (String.◌∷◌ c s) =
    let rest = split_slash s in if is_slash c then String.[] ∷ rest else onto_first c rest

pub data InstanceError : Type 0 where
  input_value : InstanceError

abbrev parts_of : List String → Result InstanceError (String × String × String)
parts_of (hub ∷ group ∷ project ∷ []) = ok (hub, group, project)
parts_of _ = raise input_value

unfoldable pub from_instance_format : String → Result InstanceError (String × String × String)
unfolding split_slash
from_instance_format instance_name = parts_of (split_slash instance_name)

unfoldable pub to_instance_format : String → String → String → String
to_instance_format hub group project = hub ++ "/" ++ group ++ "/" ++ project

-- No character of the text is a slash.
abbrev pub NoSlash : String → Type 0
NoSlash String.[] = Unit
NoSlash (String.◌∷◌ c s) = (is_slash c ≡ false) × NoSlash s

split_slash-append : (w s : String) → NoSlash w → split_slash (w ++ "/" ++ s) ≡ w ∷ split_slash s
unfolding split_slash
split_slash-append String.[] s h = rw nil-append (rw cons-append (rw nil-append))
split_slash-append (String.◌∷◌ c w) s h =
    rw cons-append (rw (h.0, split_slash) (rw (split_slash-append w s h.1)))

split_slash-NoSlash : (w : String) → NoSlash w → split_slash w ≡ w ∷ []
unfolding split_slash
split_slash-NoSlash String.[] h = refl
split_slash-NoSlash (String.◌∷◌ c w) h = rw (h.0, split_slash) (rw (split_slash-NoSlash w h.1))

-- Three names without a slash come back from the instance name that is made of them.
pub from_instance_format-to_instance_format :
    (hub group project : String)
    → NoSlash hub
    → NoSlash group
    → NoSlash project
    → from_instance_format (to_instance_format hub group project) ≡ ok (hub, group, project)
unfolding from_instance_format to_instance_format
from_instance_format-to_instance_format hub group project h g p =
    rw (split_slash-append hub (group ++ "/" ++ project) h)
      (rw (split_slash-append group project g) (rw (split_slash-NoSlash project p)))

-- "/".join(parts)
abbrev join_slash : List String → String
join_slash [] = String.[]
join_slash (w ∷ []) = w
join_slash (w ∷ ws) = w ++ "/" ++ join_slash ws

join_slash-onto_first :
    (c : Char) (ws : List String) → join_slash (onto_first c ws) ≡ String.◌∷◌ c (join_slash ws)
join_slash-onto_first c [] = refl
join_slash-onto_first c (w ∷ []) = refl
join_slash-onto_first c (w ∷ v ∷ ws) = cons-append c w ("/" ++ join_slash (v ∷ ws))

onto_first-cons :
    (c : Char) (ws : List String) → (w : String) × (vs : List String) × (onto_first c ws ≡ w ∷ vs)
onto_first-cons c [] = (String.◌∷◌ c String.[], [], refl)
onto_first-cons c (w ∷ ws) = (String.◌∷◌ c w, ws, refl)

-- A split has at least one part.
split_slash-cons : (s : String) → (w : String) × (ws : List String) × (split_slash s ≡ w ∷ ws)
unfolding split_slash
split_slash-cons String.[] = (String.[], [], refl)
split_slash-cons (String.◌∷◌ c s) = elim (Bool-cases (is_slash c)) [
  | inl e ↦ (String.[], split_slash s, rw (e, split_slash))
  | inr e ↦ rw (e, split_slash) (onto_first-cons c (split_slash s))
]

is_slash_eq : (c : Char) → is_slash c ≡ true → c ≡ "/"
is_slash_eq c h = Char-path c "/" ((==_iff (code c) b'/').0 h)

join_slash-nil_cons :
    (c : Char) (ws : List String) (w : String) (vs : List String)
    → is_slash c ≡ true
    → ws ≡ w ∷ vs
    → join_slash (String.[] ∷ ws) ≡ String.◌∷◌ c (join_slash ws)
join_slash-nil_cons c ws w vs h e =
    rw e (rw (is_slash_eq c h) (rw nil-append (rw cons-append (rw nil-append))))

join_slash-split_slash : (s : String) → join_slash (split_slash s) ≡ s
unfolding split_slash
join_slash-split_slash String.[] = refl
join_slash-split_slash (String.◌∷◌ c s) = elim (Bool-cases (is_slash c)) [
  | inl e ↦
      let (w, ws, parts) = split_slash-cons s in
      rw (e, split_slash)
        (join_slash-nil_cons c (split_slash s) w ws e parts
          ∙ ap (String.◌∷◌ c) (join_slash-split_slash s))
  | inr e ↦
      rw (e, split_slash)
        (join_slash-onto_first c (split_slash s) ∙ ap (String.◌∷◌ c) (join_slash-split_slash s))
]

parts_of-join_slash :
    (ws : List String) (hub group project : String)
    → parts_of ws ≡ ok (hub, group, project)
    → to_instance_format hub group project ≡ join_slash ws
unfolding to_instance_format
parts_of-join_slash (h ∷ g ∷ p ∷ []) hub group project e = cc
parts_of-join_slash ws hub group project e = cc

-- An accepted instance name is the one that its three parts make.
to_instance_format-from_instance_format :
    (instance_name hub group project : String)
    → from_instance_format instance_name ≡ ok (hub, group, project)
    → to_instance_format hub group project ≡ instance_name
unfolding from_instance_format
to_instance_format-from_instance_format instance_name hub group project e =
    parts_of-join_slash (split_slash instance_name) hub group project e
    ∙ join_slash-split_slash instance_name
