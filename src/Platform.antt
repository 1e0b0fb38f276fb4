-- ===== src/Platform.antt =====
-- The build's platform: what `cfg!(target_os = …)` and `cfg!(windows)` decide when the program is
-- compiled. A parameter of the definitions that branch on it.
use codex_autoapprover.Prelude.{Bool, Eq, arith, false, nat_eqb, true, ℕ, ◌↔◌, ◌≡◌}

pub data OperatingSystem : Type 0 where
  linux mac_os windows other_os : OperatingSystem

-- `cfg!(windows)`
abbrev pub is_windows : OperatingSystem → Bool
is_windows windows = true
is_windows linux = false
is_windows mac_os = false
is_windows other_os = false

abbrev pub is_linux : OperatingSystem → Bool
is_linux linux = true
is_linux mac_os = false
is_linux windows = false
is_linux other_os = false

-- The order of the declaration, which the derived `Ord` follows.
abbrev pub os_index : OperatingSystem → ℕ
os_index linux = 0
os_index mac_os = 1
os_index windows = 2
os_index other_os = 3

unfoldable pub os_beq : OperatingSystem → OperatingSystem → Bool
os_beq a b = nat_eqb (os_index a) (os_index b)

pub os_beq_iff : (a b : OperatingSystem) → (os_beq a b ≡ true) ↔ (a ≡ b)
unfolding os_beq
os_beq_iff a b = (λ h. ground arith, λ h. ground arith)

instance abbrev pub os_eq : Eq OperatingSystem
os_eq = record { beq = os_beq; beq_iff = os_beq_iff }

-- `Surface` of src/compatibility.rs.
pub data Surface : Type 0 where
  local_cli_launcher : Surface

abbrev pub surface_index : Surface → ℕ
surface_index local_cli_launcher = 0
