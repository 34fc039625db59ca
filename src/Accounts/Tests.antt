-- ===== src/Accounts/Tests.antt =====
-- Concrete files of accounts, and the theorems applied to them.
use qiskit_ibm_provider.Common.{
  String, ◌≡◌, refl, Bool, true, false, none, some, [], ◌∷◌, ok, raise, str_eq,
}
use qiskit_ibm_provider.Common.Dict.{Dict, lookup, contains, insert, remove}
use qiskit_ibm_provider.Accounts.Account.{
  SavedAccount, account, not_found, to_saved_format, validate,
}
use qiskit_ibm_provider.Accounts.Storage.{ConfigFile, contents, save_config, delete_config}
use qiskit_ibm_provider.Accounts.Manager.{
  Environment, migrate, migrate_entries, migrate_entry, migrate_other, save, get, delete,
}
use qiskit_ibm_provider.Accounts.RoundTrip.{get-save}
use qiskit_ibm_provider.Accounts.Delete.{get-delete}

abbrev token_only : String → SavedAccount
token_only t = record {
  channel = none;
  token = some t;
  url = none;
  instance_name = none;
  proxies = none;
  verify = none;
  auth = some "legacy";
}

abbrev both_defaults : Dict SavedAccount
both_defaults =
    ("default-legacy", token_only "old") ∷ ("default-ibm-quantum", token_only "new") ∷ []

abbrev one_named : Dict SavedAccount
one_named = ("mine", token_only "t") ∷ []

abbrev no_environment : Environment
no_environment = record { token = none; url = none; instance_name = none }

abbrev any_url : String → Bool
any_url u = true

abbrev saved_file : ConfigFile
saved_file = some (
    insert "mine"
      (to_saved_format
        (account (some "ibm_quantum") (some "abc") none (some "h/g/p") none (some true)))
      [])

saved_once :
    save any_url
      (some "abc")
      none
      (some "h/g/p")
      (some "ibm_quantum")
      (some "mine")
      none
      (some true)
      false
      none
    ≡ (ok tt, saved_file)
unfolding save migrate migrate_entries validate account to_saved_format insert lookup save_config
saved_once = refl

get-save_example : get no_environment (some "mine") none saved_file ≡ (
  ok (account (some "ibm_quantum") (some "abc") none (some "h/g/p") none (some true)),
  saved_file,
)
get-save_example =
    get-save any_url (some "abc") none (some "h/g/p") (some "ibm_quantum") "mine" none true false
      none saved_file no_environment none tt refl refl tt saved_once

deleted_once : delete (some "mine") (some one_named) ≡ (ok true, some [])
unfolding delete migrate migrate_entries migrate_entry migrate_other contains remove delete_config
deleted_once = refl

get-delete_example :
    (true ≡ contains "mine" (contents (migrate (some one_named)).1))
    × ((get no_environment (some "mine") none (some [])).0 ≡ raise not_found)
    × ((j : String)
        → str_eq "mine" j ≡ false
        → lookup j (contents (some [])) ≡ lookup j (contents (migrate (some one_named)).1))
unfolding contains
get-delete_example =
    get-delete "mine" (some one_named) (some []) true no_environment none (refl, tt) refl
      deleted_once
