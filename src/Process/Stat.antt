-- ===== src/Process/Stat.antt =====
-- The readers of /proc in src/process/linux.rs: `parse_stat`, `parse_effective_uid` and `ProcFs`. A
-- text is the list of its characters.
pub mod Names
use codex_autoapprover.Prelude.{
  ◌&&◌, ◌+◌, ◌-◌, ◌>>◌, ◌>>=◌, List, Option, Result, [], ◌^◌, codes, drop, if◌then◌else◌, get_elem?,
  guard, if◌then◌else◌, is_nil, is_whitespace, length, lines, ltb, nat_eqb, none, ok, ok_or, some,
  split_whitespace, starts_with, suc, take, if◌then◌else◌, ℕ, ◌∷◌,
}
use codex_autoapprover.Process.{ProcessError, ProcessRecord, malformed_process, unavailable_process}
use codex_autoapprover.Protocol.{map_option}
use codex_autoapprover.Prelude.Decimal.{parse_unsigned}

abbrev pub Text : Type 0
Text = List ℕ

abbrev pub max_u32 : ℕ
max_u32 = 2 ^ 32 - 1

abbrev pub max_u64 : ℕ
max_u64 = 2 ^ 64 - 1

-- `content.find(c)` and `content.rfind(c)`, as numbers of characters.
unfoldable pub find : ℕ → Text → Option ℕ
find c [] = none
find c (d ∷ s) = let rest = find c s in if nat_eqb d c then some 0 else map_option suc rest

unfoldable pub rfind : ℕ → Text → Option ℕ
rfind c [] = none
rfind c (d ∷ s) = elim (rfind c s) [
  | some i ↦ some (suc i)
  | none ↦ if nat_eqb d c then some 0 else none
]

-- `str::trim`
unfoldable pub trim_start : Text → Text
trim_start [] = []
trim_start (c ∷ s) = let rest = trim_start s in if is_whitespace c then rest else c ∷ s

unfoldable pub trim_end : Text → Text
trim_end [] = []
trim_end (c ∷ s) = let rest = trim_end s in if is_whitespace c && is_nil rest then [] else c ∷ rest

unfoldable pub trim : Text → Text
unfolding trim_start trim_end
trim s = trim_end (trim_start s)

-- The bytes of a character in UTF-8.
unfoldable pub char_len : ℕ → ℕ
char_len c = if ltb c 0x80 then 1 else if ltb c 0x800 then 2 else if ltb c 0x10000 then 3 else 4

unfoldable pub str_len : Text → ℕ
unfolding char_len
str_len [] = 0
str_len (c ∷ s) = char_len c + str_len s

-- The fields behind the name.
unfoldable pub parse_fields : ℕ → List Text → Result ProcessError ProcessRecord
unfolding str_len
parse_fields pid fields = do
  guard (ltb 19 (length fields)) malformed_process
  state ← ok_or (get_elem? fields 0) malformed_process
  guard (nat_eqb (str_len state) 1) malformed_process
  parent_field ← ok_or (get_elem? fields 1) malformed_process
  parent_pid ← ok_or (parse_unsigned max_u32 parent_field) malformed_process
  start_field ← ok_or (get_elem? fields 19) malformed_process
  start_time ← ok_or (parse_unsigned max_u64 start_field) malformed_process
  ok (record {
    identity = record { pid = pid; start_time = start_time; effective_uid = 0 };
    parent_pid = parent_pid;
  })

unfoldable pub parse_stat : Text → ℕ → Result ProcessError ProcessRecord
unfolding find rfind trim parse_fields
parse_stat content expected_pid = do
  opening ← ok_or (find b'(' content) malformed_process
  closing ← ok_or (rfind b')' content) malformed_process
  guard (ltb opening closing) malformed_process
  pid ← ok_or (parse_unsigned max_u32 (trim (take opening content))) malformed_process
  guard (nat_eqb pid expected_pid) malformed_process
  parse_fields pid (split_whitespace (drop (closing + 1) content))

-- The first line that starts with `Uid:`.
unfoldable pub find_line : List Text → Option Text
find_line [] = none
find_line (line ∷ rest) =
    let later = find_line rest in if starts_with line (codes "Uid:") then some line else later

unfoldable pub parse_effective_uid : Text → Result ProcessError ℕ
unfolding find_line
parse_effective_uid status = do
  line ← ok_or (find_line (lines status)) malformed_process
  uid ← ok_or (get_elem? (split_whitespace line) 2) malformed_process
  ok_or (parse_unsigned max_u32 uid) malformed_process

-- `ProcFs::read_process`, for what reading the two files gave; none is a failure.
unfoldable pub read_process : Option Text → Option Text → ℕ → Result ProcessError ProcessRecord
unfolding parse_effective_uid parse_stat
read_process stat_file status_file pid = do
  stat ← ok_or stat_file unavailable_process
  status ← ok_or status_file unavailable_process
  effective_uid ← parse_effective_uid status
  r ← parse_stat stat pid
  ok (record {
    identity = record {
      pid = r.identity.pid;
      start_time = r.identity.start_time;
      effective_uid = effective_uid;
    };
    parent_pid = r.parent_pid;
  })
