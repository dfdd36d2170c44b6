-- ===== src/Evaluator/Types.antt =====
-- `check_type` of crates/core/src/parser/logic/eval.rs, which an argument passes before it is bound.
use mizu_navigator.Prelude.{Bool, true, false, ◌&&◌, if◌then◌else◌, bytes_eq}
use mizu_navigator.Value.{
  Value, null, bool, int, decimal, string, list, record_of, Values, nil, cons, Fields, no_field,
  field, type_error, type_name, Outcome, ok, err,
}
use mizu_navigator.Evaluator.Syntax.{
  ValueType, num_type, str_type, bool_type, list_type, record_type, nullable, FieldTypes, no_type,
  field_type,
}

-- `check_type(..).is_ok()`; the fields of a record and of its type agree one by one, in number too.
unfoldable mutual
  pub has_type : ValueType → Value → Bool
  has_type num_type (int n) = true
  has_type num_type (decimal n) = true
  has_type str_type (string s) = true
  has_type bool_type (bool b) = true
  has_type (list_type t) (list vs) = all_have_type t vs
  has_type (record_type ts) (record_of fs) = fields_have_types ts fs
  has_type (nullable t) null = true
  has_type (nullable t) v = has_type t v
  has_type t v = false

  pub all_have_type : ValueType → Values → Bool
  all_have_type t nil = true
  all_have_type t (cons v vs) = has_type t v && all_have_type t vs

  pub fields_have_types : FieldTypes → Fields → Bool
  fields_have_types no_type no_field = true
  fields_have_types no_type (field h k v fs) = false
  fields_have_types (field_type name t ts) no_field = false
  fields_have_types (field_type name t ts) (field h k v fs) =
      bytes_eq k name && (has_type t v && fields_have_types ts fs)

unfoldable pub check_type : Value → ValueType → Outcome (Unit {0})
check_type v expected = if has_type expected v then ok tt else err (type_error (type_name v))
