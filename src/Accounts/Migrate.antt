-- ===== src/Accounts/Migrate.antt =====
-- What `AccountManager.migrate` does to the file.
use qiskit_ibm_provider.Common.{
  ◌≡◌, ◌∙◌, refl, Bool, true, false, none, some, [], ◌∷◌, arith, str_eq, eq_iff, ok, raise,
  if◌then◌else◌, Bool-cases, inl, inr, Option-cases, Result,
}
use qiskit_ibm_provider.Common.Dict.{
  Dict, lookup, contains, insert, remove, lookup-remove, contains-eq-is_some, UniqueKeys,
  contains-insert, contains-remove, insert-UniqueKeys, remove-UniqueKeys,
}
use qiskit_ibm_provider.Accounts.Account.{SavedAccount, AccountError, already_exists}
use qiskit_ibm_provider.Accounts.Storage.{ConfigFile, contents, is_taken}
use qiskit_ibm_provider.Accounts.Manager.{
  default_account_name_legacy, default_account_name_ibm_quantum, upgraded, migrate_legacy,
  migrate_other, migrate_entry, migrate_entries, migrate,
}

migrate_entries_no_legacy :
    (d : Dict SavedAccount) (file : ConfigFile)
    → contains default_account_name_legacy d ≡ false
    → migrate_entries d file ≡ (ok tt, file)
unfolding migrate_entries migrate_entry migrate_other contains
migrate_entries_no_legacy [] file h = refl
migrate_entries_no_legacy ((k, v) ∷ d) file h = ground (arith, migrate_entries_no_legacy d file)

-- With no legacy account nothing changes, whatever `auth` keys the other accounts have.
pub migrate_no_legacy :
    (file : ConfigFile)
    → contains default_account_name_legacy (contents file) ≡ false
    → migrate file ≡ (ok tt, some (contents file))
unfolding migrate
migrate_no_legacy file h = migrate_entries_no_legacy (contents file) (some (contents file)) h

migrate_entries_legacy :
    (d : Dict SavedAccount) (file : ConfigFile) (value : SavedAccount)
    → UniqueKeys d
    → lookup default_account_name_legacy d ≡ some value
    → migrate_entries d file ≡ migrate_legacy value file
unfolding migrate_entries migrate_entry migrate_other contains lookup
migrate_entries_legacy [] file value u h = cc
migrate_entries_legacy ((k, v) ∷ d) file value u h =
    elim (Bool-cases (str_eq k default_account_name_legacy)) [
      | inl e ↦ ground (
        arith,
        eq_iff k default_account_name_legacy,
        migrate_entries_no_legacy d (migrate_legacy v file).1,
      )
      | inr e ↦ ground (arith, migrate_entries_legacy d file value u.1)
    ]

-- The legacy account moves to the new default name, unless that name is taken: then the
-- exception leaves a file from which the legacy account is gone.
migrate_legacy_account :
    (d : Dict SavedAccount) (value : SavedAccount)
    → UniqueKeys d
    → lookup default_account_name_legacy d ≡ some value
    → migrate (some d) ≡ (
        let rest = remove default_account_name_legacy d in
        if is_taken (lookup default_account_name_ibm_quantum d)
        then (raise already_exists, some rest)
        else (ok tt, some (insert default_account_name_ibm_quantum (upgraded value) rest)))
unfolding migrate migrate_legacy
migrate_legacy_account d value u h =
    migrate_entries_legacy d (some d) value u h
    ∙ rw contains-eq-is_some (rw h (rw lookup-remove (ground arith)))

-- A missing file is read as an empty one.
migrate-contents : (file : ConfigFile) → migrate file ≡ migrate (some (contents file))
unfolding migrate
migrate-contents none = refl
migrate-contents (some d) = refl

legacy_gone :
    (d : Dict SavedAccount)
    → contains default_account_name_legacy (remove default_account_name_legacy d) ≡ false
legacy_gone d = rw contains-remove

legacy_gone_insert :
    (v : SavedAccount) (d : Dict SavedAccount)
    → contains default_account_name_legacy d ≡ false
    → contains default_account_name_legacy (insert default_account_name_ibm_quantum v d) ≡ false
legacy_gone_insert v d h = rw contains-insert h

-- Whether it raises or not, `migrate` leaves no account under the legacy name, and keys unique.
pub migrate-clean :
    (file : ConfigFile)
    → UniqueKeys (contents file)
    → (contains default_account_name_legacy (contents (migrate file).1) ≡ false)
      × UniqueKeys (contents (migrate file).1)
migrate-clean file u = elim (Option-cases (lookup default_account_name_legacy (contents file))) [
  | inl missing ↦
      rw (migrate_no_legacy file (contains-eq-is_some _ _ ∙ rw missing refl))
        (contains-eq-is_some _ _ ∙ rw missing refl, u)
  | inr (value, present) ↦ rw migrate-contents (
      rw (migrate_legacy_account (contents file) value u present)
        (by_test (is_taken (lookup default_account_name_ibm_quantum (contents file))) value))
]
  where
    by_test :
        (b : Bool) (value : SavedAccount)
        → let rest = remove default_account_name_legacy (contents file) in
          let outcome : Result AccountError (Unit {0}) × ConfigFile =
            if b
            then (raise already_exists, some rest)
            else (ok tt, some (insert default_account_name_ibm_quantum (upgraded value) rest)) in
          (contains default_account_name_legacy (contents outcome.1) ≡ false)
          × UniqueKeys (contents outcome.1)
    by_test true value = (legacy_gone (contents file), remove-UniqueKeys _ _ u)
    by_test false value = (
      legacy_gone_insert (upgraded value) _ (legacy_gone (contents file)),
      insert-UniqueKeys _ _ _ (remove-UniqueKeys _ _ u),
    )
