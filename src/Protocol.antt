-- ===== src/Protocol.antt =====
-- src/protocol.rs: the JSON values and the hook input of a permission request. The bytes of a JSON
-- text are read by serde_json; what its deserializer hands to the visitors is the type `Event`.
pub mod Unique
use codex_autoapprover.Prelude.{
  ◌>>◌, ◌>>=◌, guard, is_ascii_whitespace, is_nil, leb, length, map_err, nat_eqb, ok_or, ◌*◌, ◌==◌,
  Bool, Bytes, List, Option, Result, [], codes, contains, if◌then◌else◌, err, false, if◌then◌else◌,
  none, ok, some, if◌then◌else◌, true, ℕ, ◌∷◌, nat_eq, bytes_eq, option_eq,
}

-- `serde_json::Number`: an unsigned, a negative or a floating-point number (the float as its bits).
pub data Number : Type 0 where
  unsigned : ℕ → Number
  negative : ℕ → Number
  float : ℕ → Number

-- `serde_json::Value`. An object keeps its fields in the order of the text.
mutual
  pub data Value : Type 0 where
    null : Value
    bool : Bool → Value
    number : Number → Value
    string : Bytes → Value
    array : Items → Value
    object : Fields → Value

  pub data Items : Type 0 where
    nil : Items
    cons : Value → Items → Items

  pub data Fields : Type 0 where
    end : Fields
    field : Bytes → Value → Fields → Fields

-- The keys of an object.
unfoldable pub keys : Fields → List Bytes
keys end = []
keys (field k v rest) = k ∷ keys rest

-- `object.get(key)`
unfoldable pub get : Bytes → Fields → Option Value
get key end = none
get key (field k v rest) = let later = get key rest in if k == key then some v else later

-- `as_str`, `as_object`
abbrev pub as_str : Value → Option Bytes
as_str (string s) = some s
as_str null = none
as_str (bool b) = none
as_str (number n) = none
as_str (array xs) = none
as_str (object fs) = none

abbrev pub as_object : Value → Option Fields
as_object (object fs) = some fs
as_object null = none
as_object (bool b) = none
as_object (number n) = none
as_object (string s) = none
as_object (array xs) = none

abbrev pub permission_request_event : Bytes
permission_request_event = codes "PermissionRequest"

abbrev pub max_input_bytes : ℕ
max_input_bytes = 1024 * 1024

pub record HookInput : Type 0 where
  pub hook_event_name : Option Bytes
  pub session_id : Option Bytes
  pub transcript_path : Option Bytes
  pub cwd : Option Bytes
  pub model : Option Bytes
  pub tool_name : Option Bytes
  pub tool_input : Option Value
  pub turn_id : Option Bytes
  pub permission_mode : Option Bytes

pub data NullableString : Type 0 where
  missing : NullableString
  null_path : NullableString
  value : Bytes → NullableString

pub data PermissionMode : Type 0 where
  default_mode accept_edits plan dont_ask bypass_permissions : PermissionMode

-- The wire schema: every field is required.
pub record WireHookInput : Type 0 where
  pub hook_event_name : Bytes
  pub session_id : Bytes
  pub transcript_path : NullableString
  pub cwd : Bytes
  pub model : Bytes
  pub tool_name : Bytes
  pub tool_input : Value
  pub turn_id : Bytes
  pub permission_mode : PermissionMode

-- The names of the modes on the wire.
unfoldable pub mode_name : PermissionMode → Bytes
mode_name default_mode = codes "default"
mode_name accept_edits = codes "acceptEdits"
mode_name plan = codes "plan"
mode_name dont_ask = codes "dontAsk"
mode_name bypass_permissions = codes "bypassPermissions"

path_of : NullableString → Option (Option Bytes)
path_of missing = none
path_of null_path = some none
path_of (value path) = some (some path)

-- `HookInput::try_from(WireHookInput)`
unfoldable pub try_from : WireHookInput → Result (Unit {0}) HookInput
unfolding path_of mode_name
try_from w = elim (path_of w.transcript_path) [
  | none ↦ err tt
  | some path ↦ ok (record {
    hook_event_name = some w.hook_event_name;
    session_id = some w.session_id;
    transcript_path = path;
    cwd = some w.cwd;
    model = some w.model;
    tool_name = some w.tool_name;
    tool_input = some w.tool_input;
    turn_id = some w.turn_id;
    permission_mode = some (mode_name w.permission_mode);
  })
]

pub data ProtocolError : Type 0 where
  input_too_large : ℕ → ProtocolError
  not_an_object : ProtocolError
  invalid_json : ProtocolError
  trailing_data : ProtocolError

-- What serde_json's deserializer offers to a visitor: the values of the text in order, an object
-- with its fields as they are written, repeated keys included.
mutual
  pub data Event : Type 0 where
    visit_none : Event
    visit_bool : Bool → Event
    visit_number : Number → Event
    visit_str : Bytes → Event
    visit_seq : Events → Event
    visit_map : Entries → Event

  pub data Events : Type 0 where
    seq_end : Events
    element : Event → Events → Events

  pub data Entries : Type 0 where
    map_end : Entries
    entry : Bytes → Event → Entries → Entries

-- `?` on an option, and a failure when a test holds.
infixl 5 ◌>>=?◌
abbrev pub ◌>>=?◌ : {A B : Type 0} → Option A → (A → Option B) → Option B
none >>=? f = none
some a >>=? f = f a

abbrev pub unless : {A : Type 0} → Bool → Option A → Option A
unless true o = none
unless false o = o

abbrev pub map_option : {A B : Type 0} → (A → B) → Option A → Option B
map_option f none = none
map_option f (some a) = some (f a)

-- `StrictValueVisitor` and the loop of `visit_map`, which `UniqueObjectVisitor` has too: `seen` is
-- the set `fields`.
unfoldable mutual
  pub strict_value : Event → Option Value
  strict_value visit_none = some null
  strict_value (visit_bool b) = some (bool b)
  strict_value (visit_number n) = some (number n)
  strict_value (visit_str s) = some (string s)
  strict_value (visit_seq es) = map_option array (strict_items es)
  strict_value (visit_map es) = map_option object (strict_fields es [])

  pub strict_items : Events → Option Items
  strict_items seq_end = some nil
  strict_items (element e es) = strict_value e >>=? λ v. strict_items es >>=? λ vs. some (cons v vs)

  pub strict_fields : Entries → List Bytes → Option Fields
  strict_fields map_end seen = some end
  strict_fields (entry k e es) seen =
      unless (contains seen k)
        (strict_value e >>=? λ v. map_option (field k v) (strict_fields es (k ∷ seen)))

-- The first byte that is not white space is an opening brace.
unfoldable pub opens_object : Bytes → Bool
opens_object [] = false
opens_object (b ∷ rest) =
    let later = opens_object rest in if is_ascii_whitespace b then later else nat_eqb b b'{'

-- `UniqueObjectVisitor` takes an object alone.
unfoldable pub unique_object : Event → Option Value
unique_object (visit_map es) = strict_value (visit_map es)
unique_object visit_none = none
unique_object (visit_bool b) = none
unique_object (visit_number n) = none
unique_object (visit_str s) = none
unique_object (visit_seq es) = none

-- serde_json's part: the events of a text with the bytes behind them that are no white space, and
-- the decoder that `derive(Deserialize)` makes for the wire schema.
module _ (deserialize : Bytes → Option (Event × Bytes)) where
  unfoldable pub parse_unique_object : Bytes → Result ProtocolError Value
  parse_unique_object input = do
    guard (opens_object input) not_an_object
    (event, trailing) ← ok_or (deserialize input) invalid_json
    tree ← ok_or (unique_object event) invalid_json
    guard (is_nil trailing) trailing_data
    ok tree

module _ (deserialize : Bytes → Option (Event × Bytes))
    (decode : Value → Option WireHookInput) where
  unfoldable pub parse : Bytes → Result ProtocolError HookInput
  parse input = do
    guard (leb (length input) max_input_bytes) (input_too_large max_input_bytes)
    tree ← parse_unique_object deserialize input
    wire ← ok_or (decode tree) invalid_json
    map_err (try_from wire) invalid_json

-- `allow_response`, as the value that is serialized.
unfoldable pub allow_response : Value
allow_response = object (
    field (codes "hookSpecificOutput")
      (object (
        field (codes "hookEventName") (string permission_request_event) (
          field (codes "decision") (object (field (codes "behavior") (string (codes "allow")) end))
            end)))
      end)
