-- ===== src/Review/Json.antt =====
-- Setting a field of a JSON object, `value[key] = field`: the fields are in the order of their keys.
use prometheus_knowledge_rs.Prelude.{
  ◌≡◌, refl, some, arith, String, str_eq, eq_iff, if◌then◌else◌, str_leb,
}
use prometheus_knowledge_rs.Worker.Operation.{Value, Fields, null, object, end, field, get_field}

unfoldable pub put_field : String → Value → Fields → Fields
put_field key v end = field key v end
put_field key v (field name w rest) =
    let after = put_field key v rest in
    if str_eq name key
    then field key v rest
    else if str_leb key name
    then field key v (field name w rest)
    else field name w after

-- A value that is no object is left as it is here; the source ends the process there, and a file of a
-- candidate is an object.
unfoldable pub set : String → Value → Value → Value
unfolding put_field
set key v (object fields) = object (put_field key v fields)
set key v null = object (field key v end)
set key v value = value

pub get_field-put_field :
    (key other : String) (v : Value) (fields : Fields)
    → get_field other (put_field key v fields)
      ≡ (if str_eq key other then some v else get_field other fields)
unfolding put_field
get_field-put_field key other v end = refl
get_field-put_field key other v (field name w rest) = ground (
  arith,
  get_field-put_field key other v rest,
  eq_iff name key,
  eq_iff key other,
  eq_iff name other,
)
