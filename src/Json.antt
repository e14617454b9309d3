-- ===== src/Json.antt =====
-- The JSON values of libutils/json.c: the elements and the error codes. The children of a container
-- are a Seq of elements in the source, each with its key in `propertyName` when it stands in an
-- object; here they are the list of the elements, or of the keys with their elements. A C string is
-- the list of its bytes, with no NUL in it.
pub mod Strings
pub mod Numbers
pub mod Parser
pub mod Writer
pub mod Progress
pub mod Sort
pub mod RoundTrip
pub mod Objects
mod Tests
use libntech.Prelude.{ℕ, List}

-- `JsonPrimitiveType`
pub data PrimitiveType : Type 0 where
  string_type integer_type real_type bool_type null_type : PrimitiveType

-- `JsonElement`
mutual
  pub data Json : Type 0 where
    primitive : PrimitiveType → List ℕ → Json
    array : Elements → Json
    object : Properties → Json

  pub data Elements : Type 0 where
    no_elements : Elements
    element : Json → Elements → Elements

  pub data Properties : Type 0 where
    no_properties : Properties
    property : List ℕ → Json → Properties → Properties

-- `JsonParseError`, as far as the parsers of text return it.
pub data ParseError : Type 0 where
  string_no_doublequote_start string_no_doublequote_end : ParseError
  number_exponent_negative number_exponent_positive number_duplicate_zero : ParseError
  number_no_digit number_multiple_dots number_exponent_duplicate : ParseError
  number_exponent_digit number_exponent_follow_leading_zero : ParseError
  number_bad_symbol number_digit_end : ParseError
  array_start array_end array_comma : ParseError
  object_bad_symbol object_end object_colon object_comma : ParseError
  object_comma_missing object_array_lval object_object_lval object_open_lval : ParseError
  invalid_end no_data : ParseError

-- What a parser leaves: its result with the byte `*data` points to, the last one it used, and the
-- text behind that byte; or an error; or a read behind the terminator of the text. `out_of_fuel`
-- is none of the source's.
pub data Parsed {ℓ} (A : Type ℓ) : Type ℓ where
  ok : A → ℕ → List ℕ → Parsed A
  fail : ParseError → Parsed A
  overrun out_of_fuel : Parsed A
