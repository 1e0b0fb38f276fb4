-- ===== src/Artifact.antt =====
-- `Bundle` of src/artifact.rs: the native package that is bound to a certificate. What `locate` and
-- `list_files` answer is an argument.
use codex_autoapprover.Prelude.{
  ◌&&◌, ◌==◌, ◌>>◌, ◌>>=◌, Bool, Bytes, Eq, List, Option, Result, [], err, guard, none, ok, ok_or,
  some, ◌∷◌, nat_eq, bytes_eq, option_eq,
}
use codex_autoapprover.Identity.{
  BoundFile, Executable, FilePath, Files, IdentityError, path_beq, path_beq_iff, recheck_executable,
  recheck_file,
}

pub record Bundle : Type 0 where
  pub executable : Executable
  pub bundle_sha256 : Bytes
  pub launch_kind : Bytes
  pub launch_sha256 : Bytes
  pub launch_package_sha256 : Bytes
  pub package_root : FilePath
  pub requested : FilePath
  pub launch_file : Option BoundFile
  pub launch_package_file : Option BoundFile
  pub files : List BoundFile
  pub file_names : List Bytes

pub record Location : Type 0 where
  pub root : FilePath
  pub executable : FilePath
  pub kind : Bytes
  pub shim : Option FilePath
  pub npm_package_json : Option FilePath

pub data BundleError : Type 0 where
  package_changed : BundleError
  unlocated : BundleError
  identity_error : IdentityError → BundleError
  no_package_root : BundleError

-- `.as_ref().map(BoundFile::path)`
abbrev pub path_of_file : Option BoundFile → Option FilePath
path_of_file none = none
path_of_file (some f) = some f.path

instance abbrev pub path_eq : Eq FilePath
path_eq = record { beq = path_beq; beq_iff = path_beq_iff }

unfoldable pub is_same_place : Bundle → Location → Bool
is_same_place b l =
    l.root == b.package_root
    && l.executable == b.executable.path
    && l.kind == b.launch_kind
    && l.shim == path_of_file b.launch_file
    && l.npm_package_json == path_of_file b.launch_package_file

abbrev pub bundle_result : Result IdentityError (Unit {0}) → Result BundleError (Unit {0})
bundle_result (ok u) = ok u
bundle_result (err e) = err (identity_error e)

unfoldable pub recheck_files : Files → List BoundFile → Result IdentityError (Unit {0})
recheck_files files [] = ok tt
recheck_files files (f ∷ fs) = do recheck_file files f; recheck_files files fs

unfoldable pub recheck_optional : Files → Option BoundFile → Result IdentityError (Unit {0})
recheck_optional files none = ok tt
recheck_optional files (some f) = recheck_file files f

-- `Bundle::recheck`
unfoldable pub recheck_bundle :
    Option Location → Option (List Bytes) → Files → Bundle → Result BundleError (Unit {0})
unfolding is_same_place recheck_files recheck_optional
recheck_bundle located listed files b = do
  l ← ok_or located unlocated
  guard (is_same_place b l) package_changed
  names ← ok_or listed unlocated
  guard (names == b.file_names) package_changed
  bundle_result (recheck_executable files b.executable)
  bundle_result (recheck_optional files b.launch_file)
  bundle_result (recheck_optional files b.launch_package_file)
  bundle_result (recheck_files files b.files)
