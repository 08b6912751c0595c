-- ===== src/Reset.antt =====
-- cmd/reset/main.go: the generator of `Reset` methods. go/types is a parameter; what is printed for a
-- field is split into a statement and its text.
pub mod Print
pub mod Typed
pub mod Walk
pub mod Marked
pub mod Folders
pub mod Contents
pub mod Grouped
mod Tests
use go_metrics_stas.Prelude.{
  ℕ, String, Option, none, some, Bool, true, false, not, ◌&&◌, List, [], ◌∷◌, ◌==◌, eqb,
  if◌then◌else◌, map,
}

pub data FieldKind : Type 0 where
  kind_unknown : FieldKind
  kind_int : FieldKind
  kind_float : FieldKind
  kind_complex : FieldKind
  kind_bool : FieldKind
  kind_string : FieldKind
  kind_slice : FieldKind
  kind_map : FieldKind
  kind_struct : FieldKind
  kind_interface : FieldKind
  kind_func : FieldKind
  kind_chan : FieldKind
  kind_pointer : FieldKind
  kind_array : FieldKind

pub record FieldInfo : Type 0 where
  pub name : String
  pub type_string : String
  pub kind : FieldKind
  pub elem_kind : FieldKind
  pub elem_type : String
  pub is_pointer : Bool
  pub has_reset : Bool

pub record StructInfo : Type 0 where
  pub name : String
  pub recv_name : String
  pub fields : List FieldInfo
  pub package_name : String
  pub file_path : String

-- The kinds of `types.Basic` that the switch tells apart.
pub data Basic : Type 0 where
  basic_bool : Basic
  basic_int : Basic
  basic_float : Basic
  basic_complex : Basic
  basic_string : Basic
  basic_other : Basic

-- What `Underlying` gives.
pub data Underlying : Type 0 where
  basic : Basic → Underlying
  slice_type : Underlying
  map_type : Underlying
  struct_type : Underlying
  interface_type : Underlying
  signature : Underlying
  chan_type : Underlying
  pointer_type : Underlying
  array_type : Underlying
  other_type : Underlying

-- A method of a method set: its name, and how many parameters and results it has.
pub record Method : Type 0 where
  pub name : String
  pub params : ℕ
  pub results : ℕ

-- `types.Type`: `Underlying`, the element where it is a `types.Pointer`, whether it is a
-- `types.TypeParam`, `NewPointer`, its method set and its text.
pub record Types : Type 1 where
  pub T : Type 0
  pub underlying : T → Underlying
  pub elem : T → Option T
  pub is_type_param : T → Bool
  pub new_pointer : T → T
  pub methods : T → List Method
  pub type_string : T → String

-- The statement for a field; the last but one stands under a test for nil.
pub data Statement : Type 0 where
  zero_number : Statement
  set_false : Statement
  empty_text : Statement
  cut : Statement
  clear : Statement
  composite : String → Statement
  call_reset : Statement
  set_nil : Statement
  leave_chan : Statement
  leave_unknown : Statement
  unless_nil : Statement → Statement
  nothing : Statement

unfoldable pub classify : Underlying → FieldKind
classify (basic basic_bool) = kind_bool
classify (basic basic_int) = kind_int
classify (basic basic_float) = kind_float
classify (basic basic_complex) = kind_complex
classify (basic basic_string) = kind_string
classify (basic basic_other) = kind_unknown
classify slice_type = kind_slice
classify map_type = kind_map
classify struct_type = kind_struct
classify interface_type = kind_interface
classify signature = kind_func
classify chan_type = kind_chan
classify pointer_type = kind_pointer
classify array_type = kind_array
classify other_type = kind_unknown

abbrev pub is_reset : Method → Bool
is_reset m = m.name == "Reset" && eqb m.params 0 && eqb m.results 0

abbrev pub any_reset : List Method → Bool
any_reset [] = false
any_reset (m ∷ methods) = if is_reset m then true else any_reset methods

abbrev pub is_pointer_kind : FieldKind → Bool
is_pointer_kind kind_pointer = true
is_pointer_kind k = false

module _ (types : Types) where
  abbrev pub classify_type : types.T → FieldKind
  classify_type t = classify (types.underlying t)

  abbrev pub has_reset_method : types.T → Bool
  has_reset_method t = any_reset (types.methods t)

  -- The field of this name and type, once it is known whether the type is a pointer.
  abbrev pub analyzed : String → types.T → Option types.T → FieldInfo
  analyzed name t none = record {
    name = name;
    type_string = types.type_string t;
    kind = classify_type t;
    elem_kind = kind_unknown;
    elem_type = "";
    is_pointer = is_pointer_kind (classify_type t);
    has_reset = has_reset_method (types.new_pointer t);
  }
  analyzed name t (some elem) = record {
    name = name;
    type_string = types.type_string t;
    kind = classify_type t;
    elem_kind = classify_type elem;
    elem_type = types.type_string elem;
    is_pointer = is_pointer_kind (classify_type t);
    has_reset = has_reset_method (types.new_pointer elem);
  }

  unfoldable pub analyze_field : String → types.T → FieldInfo
  unfolding classify
  analyze_field name t = analyzed name t (types.elem t)

-- What is done to the target of a pointer, and to a field.
abbrev pub target_statement : FieldInfo → FieldKind → Statement
target_statement f kind_int = zero_number
target_statement f kind_float = zero_number
target_statement f kind_complex = zero_number
target_statement f kind_bool = set_false
target_statement f kind_string = empty_text
target_statement f kind_slice = cut
target_statement f kind_map = clear
target_statement f kind_array = composite f.elem_type
target_statement f kind_struct = if f.has_reset then call_reset else composite f.elem_type
target_statement f kind_interface = set_nil
target_statement f kind_func = set_nil
target_statement f kind_chan = leave_chan
target_statement f k = leave_unknown

abbrev pub kind_statement : FieldInfo → FieldKind → Statement
kind_statement f kind_int = zero_number
kind_statement f kind_float = zero_number
kind_statement f kind_complex = zero_number
kind_statement f kind_bool = set_false
kind_statement f kind_string = empty_text
kind_statement f kind_slice = cut
kind_statement f kind_map = clear
kind_statement f kind_array = composite f.type_string
kind_statement f kind_struct = if f.has_reset then call_reset else composite f.type_string
kind_statement f kind_interface = set_nil
kind_statement f kind_func = set_nil
kind_statement f kind_chan = leave_chan
kind_statement f kind_pointer = unless_nil (target_statement f f.elem_kind)
kind_statement f kind_unknown = leave_unknown

unfoldable pub field_statement : FieldInfo → Statement
field_statement f = if f.name == "" then nothing else kind_statement f f.kind
