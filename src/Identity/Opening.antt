-- ===== src/Identity/Opening.antt =====
-- Reading a file of a package into its digest: `Executable::open` and `BoundFile::open_limited` of
-- src/identity.rs. SHA-256 is an argument.
-- The answers about the file that was opened: its metadata when it was opened, when its size was
-- asked and when it had been read, and the chunks that `read` gave; none is an error.
use codex_autoapprover.Prelude.{
  ◌*◌, ◌+◌, ◌++◌, ◌-◌, ◌==◌, ◌>>◌, ◌>>=◌, Bytes, List, Option, Result, [], ◌^◌, bytes_beq, codes,
  if◌then◌else◌, err, guard, if◌then◌else◌, leb, length, nat_eqb, none, not, ok, ok_or, some,
  if◌then◌else◌, ℕ, ◌∷◌, nat_eq, bytes_eq, option_eq,
}
use codex_autoapprover.Identity.{
  BoundFile, Executable, FilePath, Files, IdentityError, FileMetadata, changed_during_inspection,
  check_parent, exceeds_limit, file_system_failed, not_native, path_beq, stamp, symlinked,
}
use codex_autoapprover.Arming.{hex}

pub record FileReading : Type 0 where
  pub file : ℕ
  pub opened : Option FileMetadata
  pub sized : Option FileMetadata
  pub header : Option Bytes
  pub chunks : List (Option Bytes)
  pub closing : Option FileMetadata

abbrev pub max_u64 : ℕ
max_u64 = 2 ^ 64 - 1

abbrev pub max_identity_file_bytes : ℕ
max_identity_file_bytes = 2 * 1024 * 1024 * 1024

abbrev pub elf_header : Bytes
elf_header = 127 ∷ codes "ELF"

-- The loop over the chunks; `content` is what the hash was given. A list that is at its end answers
-- no bytes.
unfoldable pub read_chunks : ℕ → ℕ → Bytes → List (Option Bytes) → Result IdentityError (ℕ × Bytes)
read_chunks limit read_bytes content [] = ok (read_bytes, content)
read_chunks limit read_bytes content (none ∷ chunks) = err file_system_failed
read_chunks limit read_bytes content (some [] ∷ chunks) = ok (read_bytes, content)
read_chunks limit read_bytes content (some (b ∷ bs) ∷ chunks) =
    let total = read_bytes + length (b ∷ bs) in
    do
      guard (leb total max_u64) exceeds_limit
      guard (leb total limit) exceeds_limit
      read_chunks limit total (content ++ b ∷ bs) chunks

-- `read_exact` of the four bytes.
abbrev pub four_bytes : Option Bytes → Option Bytes
four_bytes none = none
four_bytes (some bytes) = if nat_eqb (length bytes) 4 then some bytes else none

module _ (sha256 : Bytes → Bytes) where
  -- `BoundFile::open_limited`; the file system is asked before and after the reading.
  unfoldable pub open_limited :
      Files → Files → FileReading → FilePath → ℕ → Result IdentityError BoundFile
  unfolding read_chunks
  open_limited files later r path limit = do
    check_parent files path
    m ← ok_or (files.symlink_metadata path) file_system_failed
    guard (not m.is_symlink) symlinked
    before ← stamp files r.opened
    sized ← ok_or r.sized file_system_failed
    guard (leb sized.len limit) exceeds_limit
    (read_bytes, content) ← read_chunks limit 0 [] r.chunks
    guard (nat_eqb read_bytes sized.len) changed_during_inspection
    after ← stamp later r.closing
    guard (bytes_beq before after) changed_during_inspection
    again ← ok_or (later.canonicalize path) file_system_failed
    guard (path_beq again path) changed_during_inspection
    ok (record {
      path = path;
      stamp = before;
      file = r.file;
      sha256 = hex (sha256 content);
      size = sized.len;
    })

  -- `Executable::open`
  unfoldable pub open_executable :
      Files → Files → FileReading → FilePath → Result IdentityError Executable
  unfolding read_chunks
  open_executable files later r requested = do
    path ← ok_or (files.canonicalize requested) file_system_failed
    check_parent files path
    before ← stamp files r.opened
    sized ← ok_or r.sized file_system_failed
    guard (leb sized.len max_identity_file_bytes) exceeds_limit
    prefix ← ok_or (four_bytes r.header) file_system_failed
    guard (prefix == elf_header) not_native
    (read_bytes, content) ← read_chunks max_identity_file_bytes 4 prefix r.chunks
    guard (nat_eqb read_bytes sized.len) changed_during_inspection
    after ← stamp later r.closing
    guard (bytes_beq before after) changed_during_inspection
    again ← ok_or (later.canonicalize requested) file_system_failed
    guard (path_beq again path) changed_during_inspection
    ok (record {
      requested = requested;
      path = path;
      sha256 = hex (sha256 content);
      stamp = before;
      file = r.file;
    })
