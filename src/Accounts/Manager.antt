-- ===== src/Accounts/Manager.antt =====
-- qiskit_ibm_provider/accounts/management.py: the class methods of `AccountManager`, as actions on
-- the file of configurations. The environment variables and `urlparse` are arguments.
use qiskit_ibm_provider.Common.{
  String, Bool, true, false, not, ◌&&◌, ◌||◌, Option, none, some, List, [], ◌∷◌, str_eq,
  if◌then◌else◌, or_else,
}
use qiskit_ibm_provider.Common.Dict.{Dict, lookup}
use qiskit_ibm_provider.Common.Exec.{Exec, pure, throw, lift, ◌>>=◌, ◌>>◌}
use qiskit_ibm_provider.Accounts.Account.{
  Account, SavedAccount, ProxyConfiguration, AccountError, not_found, account, to_saved_format,
  from_saved_format, validate,
}
use qiskit_ibm_provider.Accounts.Storage.{
  ConfigFile, save_config, read_all, read_config, delete_config, is_taken,
}

abbrev pub default_account_name_legacy : String
default_account_name_legacy = "default-legacy"

abbrev pub default_account_name_ibm_quantum : String
default_account_name_ibm_quantum = "default-ibm-quantum"

abbrev pub Manager : Type 0 → Type 0
Manager A = Exec ConfigFile AccountError A

-- `value.pop("auth", None); value.update(channel="ibm_quantum")`
abbrev pub upgraded : SavedAccount → SavedAccount
upgraded c = record c { channel = some "ibm_quantum"; auth = none }

-- `hasattr(value, "auth")`: the value is a dictionary, and no dictionary has that attribute.
abbrev pub hasattr_auth : SavedAccount → Bool
hasattr_auth c = false

abbrev pub is_legacy_auth : Option String → Bool
is_legacy_auth none = false
is_legacy_auth (some a) = str_eq a "legacy"

unfoldable pub migrate_legacy : SavedAccount → Manager (Unit {0})
unfolding save_config delete_config
migrate_legacy value = do
  delete_config default_account_name_legacy
  save_config default_account_name_ibm_quantum (upgraded value) false

unfoldable pub migrate_other : String → SavedAccount → Manager (Unit {0})
unfolding save_config
migrate_other key value =
    if hasattr_auth value
    then save_config key
        (if is_legacy_auth value.auth then upgraded value else record value { auth = none }) true
    else pure tt

-- The body of the loop of `migrate`.
unfoldable pub migrate_entry : String → SavedAccount → Manager (Unit {0})
migrate_entry key value =
    if str_eq key default_account_name_legacy then migrate_legacy value else migrate_other key value

unfoldable pub migrate_entries : List (String × SavedAccount) → Manager (Unit {0})
migrate_entries [] = pure tt
migrate_entries ((key, value) ∷ entries) = do migrate_entry key value; migrate_entries entries

unfoldable pub migrate : Manager (Unit {0})
unfolding read_all
migrate = do data' ← read_all; migrate_entries data'

-- `name or default`: an empty text is false.
abbrev pub name_or_default : Option String → String
name_or_default none = default_account_name_ibm_quantum
name_or_default (some n) = if str_eq n "" then default_account_name_ibm_quantum else n

-- AccountManager.save
unfoldable pub save :
    (String → Bool)
    → Option String
    → Option String
    → Option String
    → Option String
    → Option String
    → Option ProxyConfiguration
    → Option Bool
    → Bool
    → Manager (Unit {0})
save url_parses token url instance_name channel name proxies verify overwrite = do
  migrate
  valid ← lift (validate url_parses (account channel token url instance_name proxies verify))
  save_config (name_or_default name) (to_saved_format valid) overwrite

-- AccountManager.delete
unfoldable pub delete : Option String → Manager Bool
delete name = do migrate; delete_config (name_or_default name)

abbrev matches_text : Option String → String → Bool
matches_text none t = true
matches_text (some w) t = str_eq w t

abbrev matches_channel : Option String → Option String → Bool
matches_channel none c = true
matches_channel (some w) none = false
matches_channel (some w) (some c) = str_eq c w

abbrev is_default_name : String → Bool
is_default_name n = str_eq n "default" || str_eq n default_account_name_ibm_quantum

abbrev matches_default : Option Bool → String → Bool
matches_default none n = true
matches_default (some false) n = not (is_default_name n)
matches_default (some true) n = is_default_name n

abbrev pub is_listed : Option Bool → Option String → Option String → String → Account → Bool
is_listed default channel name n a =
    matches_channel channel a.channel && (matches_default default n && matches_text name n)

-- The accounts of the file, filtered.
unfoldable pub listed :
    Option Bool → Option String → Option String → Dict SavedAccount → Dict Account
listed default channel name [] = []
listed default channel name ((n, saved) ∷ d) =
    let rest = listed default channel name d in
    if is_listed default channel name n (from_saved_format saved)
    then (n, from_saved_format saved) ∷ rest
    else rest

-- AccountManager.list
unfoldable pub list : Option Bool → Option String → Option String → Manager (Dict Account)
unfolding read_all listed
list default channel name = do
  migrate
  all_config ← read_all
  pure (listed default channel name all_config)

-- The account variables of the environment.
pub record Environment : Type 0 where
  pub token : Option String
  pub url : Option String
  pub instance_name : Option String

abbrev nonempty : Option String → Bool
nonempty none = false
nonempty (some t) = not (str_eq t "")

unfoldable pub from_env_variables : Environment → Option String → Option Account
unfolding account
from_env_variables env channel =
    if nonempty env.token && nonempty env.url
    then some (account channel env.token env.url env.instance_name none (some true))
    else none

abbrev account_or_missing : Option SavedAccount → Manager Account
account_or_missing none = throw not_found
account_or_missing (some saved) = pure (from_saved_format saved)

-- `if not saved_account`: an empty dictionary is missing too.
abbrev named_account : Option SavedAccount → Manager Account
named_account found = if is_taken found then account_or_missing found else throw not_found

abbrev channel_or_default : Option String → String
channel_or_default channel =
    if nonempty channel then or_else channel "ibm_quantum" else "ibm_quantum"

-- The end of `get`, where no name is given and the environment has no account.
unfoldable pub default_account : Option String → Manager Account
unfolding read_config read_all
default_account channel =
    if nonempty channel
    then (do saved ← read_config default_account_name_ibm_quantum; account_or_missing saved)
    else (do
      all_config ← read_all
      account_or_missing (lookup default_account_name_ibm_quantum all_config))

abbrev env_or_default : Option Account → Option String → Manager Account
env_or_default none channel = default_account channel
env_or_default (some a) channel = pure a

-- AccountManager.get
unfoldable pub get : Environment → Option String → Option String → Manager Account
unfolding from_env_variables default_account
get env name channel = do
  migrate
  if nonempty name
      then (do saved ← read_config (or_else name ""); named_account saved)
      else env_or_default (from_env_variables env (some (channel_or_default channel))) channel
