-- ===== src/Accounts/Storage.antt =====
-- qiskit_ibm_provider/accounts/storage.py. The state is the file of configurations, which may be
-- missing. `sort_keys=True` orders the printed keys only, and no key order is modelled.
use qiskit_ibm_provider.Common.{
  String, Bool, true, false, not, ◌&&◌, Option, none, some, [], is_some, if◌then◌else◌, ok, raise,
}
use qiskit_ibm_provider.Common.Dict.{Dict, lookup, contains, insert, remove}
use qiskit_ibm_provider.Common.Exec.{Exec}
use qiskit_ibm_provider.Accounts.Account.{SavedAccount, AccountError, already_exists}

abbrev pub ConfigFile : Type 0
ConfigFile = Option (Dict SavedAccount)

-- What `json.load` reads after `_ensure_file_exists`: a missing file is created as `{}`.
abbrev pub contents : ConfigFile → Dict SavedAccount
contents none = []
contents (some d) = d

-- A stored object is true if it has a key.
abbrev pub is_nonempty : SavedAccount → Bool
is_nonempty c = not (
    not (is_some c.channel)
    && (not (is_some c.token)
        && (not (is_some c.url)
            && (not (is_some c.instance_name)
                && (not (is_some c.proxies) && (not (is_some c.verify) && not (is_some c.auth)))))))

abbrev pub is_taken : Option SavedAccount → Bool
is_taken none = false
is_taken (some c) = is_nonempty c

unfoldable pub save_config : String → SavedAccount → Bool → Exec ConfigFile AccountError (Unit {0})
save_config name config overwrite file =
    let data' = contents file in
    if is_taken (lookup name data') && not overwrite
    then (raise already_exists, some data')
    else (ok tt, some (insert name config data'))

-- read_config(filename): the whole dictionary.
unfoldable pub read_all : Exec ConfigFile AccountError (Dict SavedAccount)
read_all file = (ok (contents file), some (contents file))

-- read_config(filename, name)
unfoldable pub read_config : String → Exec ConfigFile AccountError (Option SavedAccount)
read_config name file = (ok (lookup name (contents file)), some (contents file))

unfoldable pub delete_config : String → Exec ConfigFile AccountError Bool
delete_config name file =
    if contains name (contents file)
    then (ok true, some (remove name (contents file)))
    else (ok false, some (contents file))
