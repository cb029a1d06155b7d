-- ===== src/Config/Ensure.antt =====
-- What `EnsureConfigExists` does to the file.
use siger_api_gateway.Common.{◌≡◌, refl, ◌⊎◌, inl, inr, String, Option, none, some, concat}
use siger_api_gateway.Config.{
  FileSystem, Stat, present, missing, stat_failed, template, ensure_config_exists, check_file,
  write_template,
}

-- The outcome for a file that was there or not: an error and nothing written; nothing to do; or the
-- template written.
abbrev pub IsEnsured : FileSystem → Stat → FileSystem × Option String → Type 0
IsEnsured fs st r =
    ((e : String) × (r ≡ (fs, some e)))
    ⊎ ((st ≡ present) × (r ≡ (fs, none)))
    ⊎ ((st ≡ missing) × (r ≡ (record fs { config_file = some template; stat = present }, none)))

write_template-IsEnsured :
    (o : Option String) (fs : FileSystem) → IsEnsured fs missing (write_template o fs)
unfolding write_template
write_template-IsEnsured (some e) fs = inl (concat "writing default config: " e, refl)
write_template-IsEnsured none fs = inr (inr (refl, refl))

check_file-IsEnsured : (st : Stat) (fs : FileSystem) → IsEnsured fs st (check_file st fs)
unfolding check_file
check_file-IsEnsured missing fs = write_template-IsEnsured fs.write_file fs
check_file-IsEnsured (stat_failed e) fs = inl (concat "checking config file: " e, refl)
check_file-IsEnsured present fs = inr (inl (refl, refl))

-- A file that is there is never written; a missing one becomes the template, unless an error is
-- returned, and then nothing is written.
pub ensure_config_exists-IsEnsured :
    (fs : FileSystem) → IsEnsured fs fs.stat (ensure_config_exists fs)
unfolding ensure_config_exists
ensure_config_exists-IsEnsured fs = go fs.mkdir_all
  where
    go :
        (o : Option String)
        → IsEnsured fs fs.stat (elim o as (λ x. FileSystem × Option String) [
          | some e ↦ (fs, some (concat "creating config directory: " e))
          | none ↦ check_file fs.stat fs
        ])
    go (some e) = inl (concat "creating config directory: " e, refl)
    go none = check_file-IsEnsured fs.stat fs
