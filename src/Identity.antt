-- ===== src/Identity.antt =====
-- src/identity.rs on Linux: what identifies an executable and the files beside it. The file system
-- is an argument: its answers to the questions of one operation, by path or by held file.
pub mod Opening
use Prim.Native.Nat.{bit_and}
use codex_autoapprover.Prelude.{
  ◌||◌, ◌&&◌, ◌>>◌, ◌>>=◌, Bool, Bytes, List, Option, Result, [], bytes_beq, bytes_eq, codes, guard,
  list_beq, list_beq_iff, nat_eqb, none, not, ok, ok_or, some, true, ℕ, ◌↔◌, ◌∷◌, ◌≡◌,
}
use codex_autoapprover.Prelude.Decimal.{to_decimal}

-- The components of an absolute path, the last one first; the root is [].
abbrev pub FilePath : Type 0
FilePath = List Bytes

-- `Path::parent`
abbrev pub parent : FilePath → Option FilePath
parent [] = none
parent (name ∷ path) = some path

-- `Path::join` with a relative path, its components in order.
abbrev pub join : FilePath → List Bytes → FilePath
join path [] = path
join path (name ∷ names) = join (name ∷ path) names

-- What `fs::FileMetadata` answers.
pub record FileMetadata : Type 0 where
  pub is_file : Bool
  pub is_dir : Bool
  pub is_symlink : Bool
  pub nlink : ℕ
  pub mode : ℕ
  pub uid : ℕ
  pub dev : ℕ
  pub ino : ℕ
  pub len : ℕ
  pub mtime : ℕ
  pub mtime_nsec : ℕ
  pub ctime : ℕ
  pub ctime_nsec : ℕ

-- An operation's view of the file system; none is an error of the call. `held` is the metadata of
-- the file that is kept open, `opened` that of the file that opening a path gives.
pub record Files : Type 0 where
  pub euid : ℕ
  pub canonicalize : FilePath → Option FilePath
  pub symlink_metadata : FilePath → Option FileMetadata
  pub opened : FilePath → Option FileMetadata
  pub held : ℕ → Option FileMetadata

pub data IdentityError : Type 0 where
  no_parent : IdentityError
  not_plain_directory : IdentityError
  untrusted_owner : IdentityError
  writable_by_another : IdentityError
  not_controlled : IdentityError
  symlinked : IdentityError
  exceeds_limit : IdentityError
  not_native : IdentityError
  changed_during_inspection : IdentityError
  replaced : IdentityError
  other_image : IdentityError
  file_system_failed : IdentityError

-- `mode & mask != 0`
abbrev pub has_bits : ℕ → ℕ → Bool
has_bits mode mask = not (nat_eqb (bit_and mode mask) 0)

-- `0o022` and `0o1000`
abbrev pub group_or_world_write : ℕ
group_or_world_write = 18

abbrev pub sticky : ℕ
sticky = 512

-- One round of `check_trusted_directory_chain`, for the user and the owner of the root.
unfoldable pub check_directory : ℕ → ℕ → FileMetadata → Result IdentityError (Unit {0})
check_directory owner system_owner m = do
  guard (not (not m.is_dir || m.is_symlink)) not_plain_directory
  guard (not (not (nat_eqb m.uid owner) && not (nat_eqb m.uid system_owner))) untrusted_owner
  guard
      (not (
        has_bits m.mode group_or_world_write
        && not (nat_eqb m.uid system_owner && has_bits m.mode sticky)))
      writable_by_another

-- The loop over a directory and its parents.
unfoldable pub check_chain_from : Files → ℕ → FilePath → Result IdentityError (Unit {0})
check_chain_from files system_owner [] = do
  m ← ok_or (files.symlink_metadata []) file_system_failed
  check_directory files.euid system_owner m
check_chain_from files system_owner (name ∷ path) = do
  m ← ok_or (files.symlink_metadata (name ∷ path)) file_system_failed
  check_directory files.euid system_owner m
  check_chain_from files system_owner path

unfoldable pub check_trusted_directory_chain : Files → FilePath → Result IdentityError (Unit {0})
check_trusted_directory_chain files path = do
  root ← ok_or (files.symlink_metadata []) file_system_failed
  check_chain_from files root.uid path

-- The directory that a path stands in.
unfoldable pub check_parent : Files → FilePath → Result IdentityError (Unit {0})
check_parent files path = do
  directory ← ok_or (parent path) no_parent
  check_trusted_directory_chain files directory

abbrev pub Stamp : Type 0
Stamp = List ℕ

-- `stamp`, of what `file.metadata()` answered.
unfoldable pub stamp : Files → Option FileMetadata → Result IdentityError Stamp
stamp files answer = do
  m ← ok_or answer file_system_failed
  guard
      (not (
        not m.is_file
        || not (nat_eqb m.nlink 1)
        || has_bits m.mode group_or_world_write
        || not (nat_eqb m.uid files.euid)))
      not_controlled
  ok (m.dev ∷ m.ino ∷ m.len ∷ m.mode ∷ m.uid ∷ m.mtime ∷ m.mtime_nsec ∷ m.ctime ∷ m.ctime_nsec ∷ [])

pub record Executable : Type 0 where
  pub requested : FilePath
  pub path : FilePath
  pub sha256 : Bytes
  pub stamp : Stamp
  pub file : ℕ

pub record BoundFile : Type 0 where
  pub path : FilePath
  pub stamp : Stamp
  pub file : ℕ
  pub sha256 : Bytes
  pub size : ℕ

unfoldable pub path_beq : FilePath → FilePath → Bool
path_beq a b = list_beq bytes_beq a b

pub path_beq_iff : (a b : FilePath) → (path_beq a b ≡ true) ↔ (a ≡ b)
unfolding path_beq
path_beq_iff a b = list_beq_iff bytes_eq a b

-- The three comparisons that both `recheck`s make.
unfoldable pub recheck_identity :
    Files → FilePath → FilePath → Stamp → ℕ → Result IdentityError (Unit {0})
recheck_identity files requested path expected file = do
  check_parent files path
  found ← ok_or (files.canonicalize requested) file_system_failed
  guard (path_beq found path) replaced
  held ← stamp files (files.held file)
  guard (bytes_beq held expected) replaced
  again ← stamp files (files.opened path)
  guard (bytes_beq again expected) replaced

-- `BoundFile::recheck` and `Executable::recheck`
unfoldable pub recheck_file : Files → BoundFile → Result IdentityError (Unit {0})
recheck_file files f = recheck_identity files f.path f.path f.stamp f.file

unfoldable pub recheck_executable : Files → Executable → Result IdentityError (Unit {0})
recheck_executable files e = recheck_identity files e.requested e.path e.stamp e.file

-- `/proc/{pid}/exe`
abbrev pub image_path : ℕ → FilePath
image_path pid = codes "exe" ∷ to_decimal pid ∷ codes "proc" ∷ []

-- `Executable::verify_process`
unfoldable pub verify_image : Files → Executable → ℕ → Result IdentityError (Unit {0})
verify_image files e pid = do
  recheck_executable files e
  running ← stamp files (files.opened (image_path pid))
  guard (bytes_beq running e.stamp) other_image
