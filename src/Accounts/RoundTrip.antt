-- ===== src/Accounts/RoundTrip.antt =====
-- What `AccountManager.get` reads is what `AccountManager.save` wrote.
use mathlib.Core.Option
use qiskit_ibm_provider.Common.{
  String, ◌≡◌, ◌∙◌, refl, ap, Bool, true, false, Option, none, some, arith, str_eq, ok, Bool-cases,
  inl, inr, eq_refl,
}
use qiskit_ibm_provider.Common.Dict.{
  Dict, lookup, contains, insert, lookup-insert, contains-insert, UniqueKeys,
}
use qiskit_ibm_provider.Common.Exec.{bind-eq-ok, lift}
use qiskit_ibm_provider.Accounts.Account.{
  Account, SavedAccount, ProxyConfiguration, account, resolved_url, to_dict, has_keys,
  to_saved_format, from_saved_format, validate, proxies_from_saved,
}
use qiskit_ibm_provider.Accounts.Storage.{ConfigFile, contents, is_nonempty, save_config}
use qiskit_ibm_provider.Accounts.Manager.{
  default_account_name_legacy, Environment, migrate, save, get,
}
use qiskit_ibm_provider.Accounts.Migrate.{migrate_no_legacy, migrate-clean}

-- The configuration is written with at least one key, or there is none.
abbrev pub HasKeys : Option ProxyConfiguration → Type 0
HasKeys none = Unit
HasKeys (some p) = has_keys (to_dict p) ≡ true

url_kept : (url : Option String) → resolved_url (some (resolved_url url)) ≡ resolved_url url
url_kept none = refl
url_kept (some u) = elim (Bool-cases (str_eq u "")) [ inl e ↦ rw e | inr e ↦ rw e (rw e) ]

proxies_kept :
    (proxies : Option ProxyConfiguration)
    → HasKeys proxies
    → proxies_from_saved (Option.map to_dict proxies) ≡ proxies
unfolding proxies_from_saved to_dict has_keys
proxies_kept none h = refl
proxies_kept (some p) h = rw h

-- Reading back the format on disk gives the account, if its proxies have a key to write and
-- `verify` is set.
pub from_saved_format-to_saved_format :
    (channel token url instance_name : Option String) (proxies : Option ProxyConfiguration)
    (verify : Bool)
    → HasKeys proxies
    → let a = account channel token url instance_name proxies (some verify) in
      from_saved_format (to_saved_format a) ≡ a
unfolding from_saved_format to_saved_format account
from_saved_format-to_saved_format channel token url instance_name proxies verify h =
    cc (url_kept url, proxies_kept proxies h)

validate-ok : (url_parses : String → Bool) (a b : Account) → validate url_parses a ≡ ok b → b ≡ a
unfolding validate
validate-ok url_parses a b h = ground arith

save_config-ok :
    (name : String) (config : SavedAccount) (overwrite : Bool) (file file' : ConfigFile)
    → save_config name config overwrite file ≡ (ok tt, file')
    → file' ≡ some (insert name config (contents file))
unfolding save_config
save_config-ok name config overwrite file file' h = ground arith

get_named :
    (env : Environment) (name : String) (channel : Option String) (d : Dict SavedAccount)
    (saved : SavedAccount)
    → str_eq name "" ≡ false
    → contains default_account_name_legacy d ≡ false
    → lookup name d ≡ some saved
    → is_nonempty saved ≡ true
    → get env (some name) channel (some d) ≡ (ok (from_saved_format saved), some d)
unfolding get
get_named env name channel d saved named clean present nonempty =
    rw (migrate_no_legacy (some d) clean) (rw named (rw present (rw nonempty)))

saved_is_nonempty : (a : Account) → is_nonempty (to_saved_format a) ≡ true
unfolding to_saved_format
saved_is_nonempty a = ground arith

get_written :
    (env : Environment) (name : String) (channel : Option String) (d : Dict SavedAccount)
    (a : Account)
    → str_eq name "" ≡ false
    → str_eq name default_account_name_legacy ≡ false
    → contains default_account_name_legacy d ≡ false
    → from_saved_format (to_saved_format a) ≡ a
    → get env (some name) channel (some (insert name (to_saved_format a) d))
      ≡ (ok a, some (insert name (to_saved_format a) d))
get_written env name channel d a named not_legacy clean kept =
    get_named env name channel (insert name (to_saved_format a) d) (to_saved_format a) named
      (contains-insert _ _ _ d ∙ rw not_legacy clean) (lookup-insert _ _ _ d ∙ rw eq_refl)
      (saved_is_nonempty a)
    ∙ rw kept

-- A named account that was saved is what `get` returns for that name, whatever the environment and
-- the channel, and the file stays as it is. The name is neither empty nor the legacy default
-- name, `verify` was set and the proxies have a key; the keys of the file are unique.
pub get-save :
    (url_parses : String → Bool) (token url instance_name channel : Option String) (name : String)
    (proxies : Option ProxyConfiguration) (verify overwrite : Bool) (file file' : ConfigFile)
    (env : Environment) (wanted : Option String)
    → UniqueKeys (contents file)
    → str_eq name "" ≡ false
    → str_eq name default_account_name_legacy ≡ false
    → HasKeys proxies
    → save url_parses token url instance_name channel
        (some name)
        proxies
        (some verify)
        overwrite
        file
      ≡ (ok tt, file')
    → get env (some name) wanted file'
      ≡ (ok (account channel token url instance_name proxies (some verify)), file')
unfolding save
get-save url_parses token url instance_name channel name proxies verify overwrite file file' env
      wanted unique named not_legacy keys saved =
    let (_, file1, migrated, rest) = bind-eq-ok migrate _ file saved in
    let a = account channel token url instance_name proxies (some verify) in
    let (valid, file2, validated, written) =
      bind-eq-ok (lift (validate url_parses a)) _ file1 rest in
    let same = validate-ok url_parses a valid (ap (λ r. r.0) validated) in
    let kept =
      from_saved_format-to_saved_format channel token url instance_name proxies verify keys in
    let clean = (migrate-clean file unique).0 in
    let wrote =
      save_config-ok name (to_saved_format valid) overwrite file2 file' (rw named at written) in
    rw wrote (
      rw same (
        get_written env name wanted (contents file2) a named not_legacy
          (rw (← ap (λ r. r.1) validated) (rw migrated at clean)) kept))
