-- ===== src/Installer/PluginRoot.antt =====
-- The directories of a plugin root, and what `std::fs` does to them. A directory is known by its name
-- in the root; a file system call that fails is the part of `Faults`.
use stanchion.Prelude.{
  ℕ, Bool, Option, none, some, List, [], if◌then◌else◌, is_some, is_empty, Outcome, ok, err, Text,
  text_eq, codes,
}
use stanchion.Signature.{Bytes}
use stanchion.Package.{WriteFault}

pub record Directory : Type 0 where
  pub mode : ℕ
  pub files : List (Text × Bytes)

abbrev pub Disk : Type 0
Disk = Text → Option Directory

abbrev pub put : Text → Option Directory → Disk → Disk
put name dir disk other = if text_eq other name then dir else disk other

-- why a call fails, where it does; a removal that fails leaves something behind
pub record Faults : Type 0 where
  pub create_root : Disk → Option Text
  pub create : Disk → Text → Option Text
  pub protect : Disk → Text → Option Text
  pub list : Disk → Text → Option Text
  pub remove : Disk → Text → Option (Text × Option Directory)
  pub move : Disk → Text → Text → Option Text
  pub write : Disk → List (Text × Bytes) → Text → Option WriteFault
  -- the mode of a new directory
  pub default_mode : ℕ

abbrev pub not_found : Text
not_found = codes "not found"

abbrev pub already_exists : Text
already_exists = codes "already exists"

module _ (faults : Faults) where
  unfoldable pub create_dir_all : Disk → Outcome Text (Unit {0}) × Disk
  create_dir_all disk = elim (faults.create_root disk) [
    | some reason ↦ (err reason, disk)
    | none ↦ (ok tt, disk)
  ]

  unfoldable pub create_dir : Text → Disk → Outcome Text (Unit {0}) × Disk
  create_dir name disk = elim (faults.create disk name) [
    | some reason ↦ (err reason, disk)
    | none ↦
        if is_some (disk name)
        then (err already_exists, disk)
        else (ok tt, put name (some (record { mode = faults.default_mode; files = [] })) disk)
  ]

  unfoldable pub set_permissions : Text → ℕ → Disk → Outcome Text (Unit {0}) × Disk
  set_permissions name mode disk = elim (faults.protect disk name) [
    | some reason ↦ (err reason, disk)
    | none ↦ elim (disk name) [
      | none ↦ (err not_found, disk)
      | some dir ↦ (ok tt, put name (some (record dir { mode = mode })) disk)
    ]
  ]

  -- whether `read_dir` yields a first entry
  unfoldable pub read_dir : Text → Disk → Outcome Text Bool
  read_dir name disk = elim (faults.list disk name) [
    | some reason ↦ err reason
    | none ↦ elim (disk name) [ none ↦ err not_found | some dir ↦ ok (is_empty dir.files) ]
  ]

  unfoldable pub remove_dir_all : Text → Disk → Outcome Text (Unit {0}) × Disk
  remove_dir_all name disk = elim (faults.remove disk name) [
    | some (reason, left) ↦ (err reason, put name left disk)
    | none ↦ elim (disk name) [
      | none ↦ (err not_found, disk)
      | some dir ↦ (ok tt, put name none disk)
    ]
  ]

  -- a directory takes the place of another one only where that is empty
  unfoldable pub rename : Text → Text → Disk → Outcome Text (Unit {0}) × Disk
  rename from to disk = elim (faults.move disk from to) [
    | some reason ↦ (err reason, disk)
    | none ↦ elim (disk from) [
      | none ↦ (err not_found, disk)
      | some dir ↦ elim (disk to) [
        | none ↦ (ok tt, put to (some dir) (put from none disk))
        | some old ↦
            if is_empty old.files
            then (ok tt, put to (some dir) (put from none disk))
            else (err already_exists, disk)
      ]
    ]
  ]
