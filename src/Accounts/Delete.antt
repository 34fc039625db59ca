-- ===== src/Accounts/Delete.antt =====
-- What `AccountManager.get` answers after `AccountManager.delete`.
use qiskit_ibm_provider.Common.{
  String, arith, eq_iff, ◌≡◌, ◌∙◌, refl, ap, Bool, false, Option, none, some, str_eq, ok, raise,
  if◌then◌else◌, eq_refl, is_some,
}
use qiskit_ibm_provider.Common.Dict.{
  lookup, contains, lookup-remove, contains-remove, UniqueKeys, contains-eq-is_some,
}
use qiskit_ibm_provider.Common.Exec.{bind-eq-ok}
use qiskit_ibm_provider.Accounts.Account.{SavedAccount, not_found}
use qiskit_ibm_provider.Accounts.Storage.{ConfigFile, contents, delete_config}
use qiskit_ibm_provider.Accounts.Manager.{
  default_account_name_legacy, Environment, migrate, get, delete,
}
use qiskit_ibm_provider.Accounts.Migrate.{migrate_no_legacy, migrate-clean}

absent : (o : Option SavedAccount) → is_some o ≡ false → o ≡ none
absent none h = refl
absent (some c) h = cc

-- `delete_config` removes the entry of the name alone.
lookup-delete_config :
    (name : String) (file : ConfigFile) (j : String)
    → lookup j (contents (delete_config name file).1)
      ≡ (if str_eq name j then none else lookup j (contents file))
unfolding delete_config
lookup-delete_config name file j = ground (
  arith,
  lookup-remove name j (contents file),
  contains-eq-is_some name (contents file),
  eq_iff name j,
)

contains-delete_config :
    (name : String) (file : ConfigFile) (j : String)
    → contains j (contents file) ≡ false
    → contains j (contents (delete_config name file).1) ≡ false
unfolding delete_config
contains-delete_config name file j h = ground (arith, contains-remove name j (contents file))

reported :
    (name : String) (file file' : ConfigFile) (removed : Bool)
    → delete_config name file ≡ (ok removed, file')
    → removed ≡ contains name (contents file)
unfolding delete_config
reported name file file' removed h = ground arith

get_missing :
    (env : Environment) (name : String) (channel : Option String) (file : ConfigFile)
    → str_eq name "" ≡ false
    → contains default_account_name_legacy (contents file) ≡ false
    → lookup name (contents file) ≡ none
    → get env (some name) channel file ≡ (raise not_found, some (contents file))
unfolding get
get_missing env name channel file named clean missing =
    rw (migrate_no_legacy file clean) (rw named (rw missing))

-- `delete` of a named account reports whether the migrated file had it; afterwards `get` of that
-- name raises AccountNotFoundError, and every other name is found as before. The keys of the file
-- are unique and the name is not empty.
pub get-delete :
    (name : String) (file file' : ConfigFile) (removed : Bool) (env : Environment)
    (channel : Option String)
    → UniqueKeys (contents file)
    → str_eq name "" ≡ false
    → delete (some name) file ≡ (ok removed, file')
    → (removed ≡ contains name (contents (migrate file).1))
      × ((get env (some name) channel file').0 ≡ raise not_found)
      × ((j : String)
          → str_eq name j ≡ false
          → lookup j (contents file') ≡ lookup j (contents (migrate file).1))
unfolding delete
get-delete name file file' removed env channel unique named deleted =
    let (_, file1, migrated, rest) = bind-eq-ok migrate _ file deleted in
    let gone = rw named at rest in
    let there = ap (λ r. r.1) gone in
    let clean : contains default_account_name_legacy (contents file1) ≡ false =
      rw migrated at ((migrate-clean file unique).0) in
    rw migrated (
      reported name file1 file' removed gone,
      ap (λ r. r.0)
          (get_missing env name channel file' named
            (rw (← there) (contains-delete_config name file1 default_account_name_legacy clean))
            (rw (← there) (lookup-delete_config name file1 name ∙ rw eq_refl))),
      λ j other. rw (← there) (lookup-delete_config name file1 j ∙ rw other),
    )
