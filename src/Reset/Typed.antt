-- ===== src/Reset/Typed.antt =====
-- The typing of the generated statements.
use go_metrics_stas.Prelude.{◌≡◌, ◌⊎◌, some, true, false}
use go_metrics_stas.Reset.{
  Underlying, basic_bool, basic_int, basic_float, basic_complex, basic_string, basic, slice_type,
  map_type, struct_type, interface_type, signature, pointer_type, array_type, Types, Statement,
  zero_number, set_false, empty_text, cut, clear, composite, call_reset, set_nil, leave_chan,
  leave_unknown, unless_nil, nothing, has_reset_method,
}

abbrev IsNumeric : Underlying → Type 0
IsNumeric (basic basic_int) = Unit
IsNumeric (basic basic_float) = Unit
IsNumeric (basic basic_complex) = Unit
IsNumeric u = ⊥

abbrev IsComposite : Underlying → Type 0
IsComposite struct_type = Unit
IsComposite array_type = Unit
IsComposite u = ⊥

abbrev TakesNil : Underlying → Type 0
TakesNil interface_type = Unit
TakesNil signature = Unit
TakesNil u = ⊥

module _ (types : Types) where
  -- The typing rules of Go for a statement on a variable of a type: 0 is for numbers, a composite
  -- literal names the type of the variable, a method is called that the pointer to it has, nil is for
  -- an interface or a function, but not for a type parameter, whose underlying type is its constraint,
  -- and what stands under a test for nil is on the element of the pointer.
  pub data WellTyped : Statement → types.T → Type 0 where
    zero_typed : {t : types.T} → IsNumeric (types.underlying t) → WellTyped zero_number t
    false_typed : {t : types.T} → types.underlying t ≡ basic basic_bool → WellTyped set_false t
    text_typed : {t : types.T} → types.underlying t ≡ basic basic_string → WellTyped empty_text t
    cut_typed : {t : types.T} → types.underlying t ≡ slice_type → WellTyped cut t
    clear_typed : {t : types.T} → types.underlying t ≡ map_type → WellTyped clear t
    composite_typed :
        {t : types.T}
        → IsComposite (types.underlying t)
        → WellTyped (composite (types.type_string t)) t
    reset_typed :
        {t : types.T} → has_reset_method types (types.new_pointer t) ≡ true → WellTyped call_reset t
    nil_typed :
        {t : types.T}
        → TakesNil (types.underlying t)
        → types.is_type_param t ≡ false
        → WellTyped set_nil t
    chan_typed : {t : types.T} → WellTyped leave_chan t
    unknown_typed : {t : types.T} → WellTyped leave_unknown t
    guard_typed :
        {t e : types.T} {s : Statement}
        → types.elem t ≡ some e
        → WellTyped s e
        → WellTyped (unless_nil s) t
    remark_typed :
        {t : types.T} → types.underlying t ≡ pointer_type → WellTyped (unless_nil leave_unknown) t
    nothing_typed : {t : types.T} → WellTyped nothing t

  -- The type of the field, or the element of its pointer, is a type parameter.
  abbrev pub OfParameter : types.T → Type 0
  OfParameter t =
      (types.is_type_param t ≡ true)
      ⊎ ((e : types.T) × (types.elem t ≡ some e) × (types.is_type_param e ≡ true))
