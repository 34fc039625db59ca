-- ===== src/Accounts/Account.antt =====
-- qiskit_ibm_provider/accounts/account.py and qiskit_ibm_provider/proxies/configuration.py.
-- A saved configuration is a JSON object; it is modelled by the keys that the code reads and writes,
-- at the types that the code writes there. A key that is absent is `none`; `null` values, which
-- `to_saved_format` never writes, are not modelled.
use mathlib.Core.Option
use qiskit_ibm_provider.Common.{
  String, Bool, true, false, ◌&&◌, not, Option, none, some, str_eq, is_some, if◌then◌else◌, Result,
  ok, raise, ◌>>◌, guard, or_else,
}
use qiskit_ibm_provider.Common.Dict.{Dict}
use qiskit_ibm_provider.Instance.{InstanceError, from_instance_format}

pub record ProxyConfiguration : Type 0 where
  pub urls : Option (Dict String)
  pub username_ntlm : Option String
  pub password_ntlm : Option String

-- The dictionary of a proxy configuration: the fields that are not None.
pub record SavedProxies : Type 0 where
  pub urls : Option (Dict String)
  pub username_ntlm : Option String
  pub password_ntlm : Option String

-- An object read from the file, by its keys.
pub record SavedAccount : Type 0 where
  pub channel : Option String
  pub token : Option String
  pub url : Option String
  pub instance_name : Option String
  pub proxies : Option SavedProxies
  pub verify : Option Bool
  pub auth : Option String

pub record Account : Type 0 where
  pub channel : Option String
  pub token : Option String
  pub url : String
  pub instance_name : Option String
  pub proxies : Option ProxyConfiguration
  pub verify : Option Bool

abbrev pub ibm_quantum_api_url : String
ibm_quantum_api_url = "https://auth.quantum-computing.ibm.com/api"

-- `url or IBM_QUANTUM_API_URL`: an empty text is false.
abbrev pub resolved_url : Option String → String
resolved_url none = ibm_quantum_api_url
resolved_url (some u) = if str_eq u "" then ibm_quantum_api_url else u

-- Account.__init__
unfoldable pub account :
    Option String
    → Option String
    → Option String
    → Option String
    → Option ProxyConfiguration
    → Option Bool
    → Account
account channel token url instance_name proxies verify = record {
  channel = channel;
  token = token;
  url = resolved_url url;
  instance_name = instance_name;
  proxies = proxies;
  verify = verify;
}

-- ProxyConfiguration.to_dict
unfoldable pub to_dict : ProxyConfiguration → SavedProxies
to_dict p = record {
  urls = p.urls;
  username_ntlm = p.username_ntlm;
  password_ntlm = p.password_ntlm;
}

unfoldable pub to_saved_format : Account → SavedAccount
unfolding to_dict
to_saved_format a = record {
  channel = a.channel;
  token = a.token;
  url = some a.url;
  instance_name = a.instance_name;
  proxies = Option.map to_dict a.proxies;
  verify = a.verify;
  auth = none;
}

-- `{}` is false.
unfoldable pub has_keys : SavedProxies → Bool
has_keys p =
    not (not (is_some p.urls) && (not (is_some p.username_ntlm) && not (is_some p.password_ntlm)))

-- `ProxyConfiguration(**proxies) if proxies else None`
unfoldable pub proxies_from_saved : Option SavedProxies → Option ProxyConfiguration
unfolding has_keys
proxies_from_saved none = none
proxies_from_saved (some p) =
    if has_keys p
    then some
        (record { urls = p.urls; username_ntlm = p.username_ntlm; password_ntlm = p.password_ntlm })
    else none

unfoldable pub from_saved_format : SavedAccount → Account
unfolding account proxies_from_saved
from_saved_format d =
    account d.channel d.token d.url d.instance_name (proxies_from_saved d.proxies)
      (some (or_else d.verify true))

pub data AccountError : Type 0 where
  invalid_account invalid_proxies already_exists not_found : AccountError

-- ProxyConfiguration.validate: the types of the fields hold by construction.
unfoldable pub validate_proxies : ProxyConfiguration → Bool
validate_proxies p =
    if is_some p.username_ntlm && is_some p.password_ntlm
    then true
    else not (is_some p.username_ntlm) && not (is_some p.password_ntlm)

abbrev is_ok : Result InstanceError (String × String × String) → Bool
is_ok (ok x) = true
is_ok (raise e) = false

abbrev valid_token : Option String → Bool
valid_token none = false
valid_token (some t) = not (str_eq t "")

abbrev valid_channel : Option String → Bool
valid_channel none = false
valid_channel (some c) = str_eq c "ibm_quantum"

abbrev valid_instance : Option String → Bool
valid_instance none = true
valid_instance (some i) = is_ok (from_instance_format i)

abbrev valid_proxies : Option ProxyConfiguration → Bool
valid_proxies none = true
valid_proxies (some p) = validate_proxies p

-- `url_parses u`: urllib's `urlparse` raises nothing at `u`.
unfoldable pub validate : (String → Bool) → Account → Result AccountError Account
unfolding validate_proxies from_instance_format
validate url_parses a = do
  guard (valid_channel a.channel) invalid_account
  guard (valid_token a.token) invalid_account
  guard (url_parses a.url) invalid_account
  guard (valid_instance a.instance_name) invalid_account
  guard (valid_proxies a.proxies) invalid_proxies
  ok a
