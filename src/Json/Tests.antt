-- ===== src/Json/Tests.antt =====
-- The theorems on JSON, at a small document and at small strings.
use libntech.Prelude.{
  ◌<◌, ◌^◌, ℕ, ◌≡◌, refl, inl, none, some, if◌then◌else◌, length, List, [], ◌∷◌, ◌++◌, arith,
}
use libntech.Json.{
  Json, string_type, integer_type, bool_type, primitive, array, object, no_elements, element,
  no_properties, property, Properties, ok, overrun,
}
use libntech.Json.Strings.{
  parse_as_string, encode_string, short_escape, encode_byte, control_of, unicode_escape,
}
use libntech.Json.Numbers.{number_byte, number_end, number_loop, parse_as_number}
use libntech.Json.Parser.{string_equal, true_text, parse_as_value, parse_all}
use libntech.Json.Parser.{remove_key, object_append_element}
use libntech.Json.Objects.{get, IsDistinct, objects_refine}
use libntech.Json.Objects.Sound.{Gives}
use libntech.Json.Objects.Loops.{parse_all-Gives}
use libntech.Json.Writer.{write_at, write_behind, quoted, write_compact, primitive_write}
use libntech.Json.Progress.Stops.{Stops, parse_all-Stops}
use libntech.Json.RoundTrip.Strings.{half, half_byte}
use libntech.Json.RoundTrip.Numerals.{digits_text}
use libntech.Json.RoundTrip.Printable.{IsPrintable}
use libntech.Json.Sort.{
  sort_items, strcmp, property_compare, items_of, object_of, sort_properties, sort_all,
  json_write_compact, json_write,
}
use libntech.Json.Sort.Printed.{
  sort_properties-IsSorted, parse_all-json_write_compact, parse_all-json_write,
}
use libntech.Sequence.Sort.{quick_sort, partition, scan_up, scan_down, exchange, swap}
use libntech.Sequence.Sort.Exchange.{IsRearranged}
use libntech.Sequence.Sort.Sorted.{IsSorted}
use libntech.Json.RoundTrip.Faults.{parse_as_value-twice, parse_as_string-half, parse_all-overrun}

-- x and a line feed
abbrev line_text : List ℕ
line_text = b'x' ∷ 10 ∷ []

-- {"a":[12,"x\n",true],"b":{}}
abbrev document : Json
document = object (
    property (b'a' ∷ [])
      (array (
        element (primitive integer_type (b'1' ∷ b'2' ∷ [])) (
          element (primitive string_type line_text)
            (element (primitive bool_type true_text) no_elements))))
      (property (b'b' ∷ []) (object no_properties) no_properties))

abbrev document_text : List ℕ
document_text =
    b'{' ∷ b'"' ∷ b'a' ∷ b'"' ∷ b':' ∷ b'[' ∷ b'1' ∷ b'2' ∷ b',' ∷ b'"' ∷ b'x' ∷ b'\\' ∷ b'n' ∷ b'"'
    ∷ b',' ∷ b't' ∷ b'r' ∷ b'u' ∷ b'e' ∷ b']' ∷ b',' ∷ b'"' ∷ b'b' ∷ b'"' ∷ b':' ∷ b'{' ∷ b'}'
    ∷ b'}' ∷ []

write_compact-document : write_compact document ≡ document_text
unfolding write_compact quoted encode_string encode_byte short_escape primitive_write
write_compact-document = refl

document-IsPrintable : IsPrintable document
unfolding string_equal parse_as_number number_loop number_byte number_end
document-IsPrintable = (
  ((refl, tt), (refl, tt)),
  (
    (
      digits_text b'1' (b'2' ∷ []) refl (refl, tt),
      (
        (
          ((omega arith, omega arith), omega arith),
          (((omega arith, omega arith), omega arith), tt),
        ),
        (inl refl, tt),
      ),
    ),
    (((refl, tt), tt), (tt, tt)),
  ),
)

compact-short : length (json_write_compact document ++ 10 ∷ []) < 2 ^ 31
unfolding json_write_compact sort_all sort_properties sort_items quick_sort partition scan_up
    scan_down exchange swap strcmp write_compact quoted encode_string encode_byte short_escape
    primitive_write
compact-short = omega arith

lines-short : length (json_write 1 document ++ 10 ∷ []) < 2 ^ 31
unfolding json_write write_at write_behind sort_all sort_properties sort_items quick_sort partition
    scan_up scan_down exchange swap strcmp quoted encode_string encode_byte short_escape
    primitive_write
lines-short = omega arith

-- A primitive at an indent level
indented : json_write 2 (primitive bool_type true_text) ≡ b' ' ∷ b' ' ∷ b' ' ∷ b' ' ∷ true_text
unfolding json_write write_at
indented = refl

parse_all-json_write_compact_example :
    (last : ℕ) × (parse_all (json_write_compact document ++ 10 ∷ [])
      ≡ ok (sort_all document) last (10 ∷ []))
parse_all-json_write_compact_example =
    parse_all-json_write_compact document (10 ∷ []) document-IsPrintable (refl, tt) compact-short

parse_all-json_write_example :
    (last : ℕ) × (parse_all (json_write 1 document ++ 10 ∷ [])
      ≡ ok (sort_all document) last (10 ∷ []))
parse_all-json_write_example =
    parse_all-json_write 1 document (10 ∷ []) document-IsPrintable (refl, tt) lines-short

abbrev unsorted : Properties
unsorted = property (b'b' ∷ []) (object no_properties) (
    property (b'a' ∷ b'c' ∷ []) (array no_elements)
      (property (b'a' ∷ []) (object no_properties) no_properties))

unsorted-sorted :
    sort_properties unsorted
    ≡ property (b'a' ∷ []) (object no_properties) (
        property
          (b'a' ∷ b'c' ∷ [])
          (array no_elements)
          (property (b'b' ∷ []) (object no_properties) no_properties))
unfolding sort_properties sort_items quick_sort partition scan_up scan_down exchange swap strcmp
unsorted-sorted = refl

sort_properties-IsSorted_example :
    (l : List (List ℕ × Json)) × (sort_items (items_of unsorted) ≡ some l)
    × (sort_properties unsorted ≡ object_of l)
    × IsSorted property_compare l
    × IsRearranged l (items_of unsorted)
unfolding items_of
sort_properties-IsSorted_example = sort_properties-IsSorted unsorted (omega arith)

parse_all-Stops_example : Stops document_text (parse_all document_text)
parse_all-Stops_example = parse_all-Stops document_text

-- The file name C:\new
abbrev path_text : List ℕ
path_text = b'C' ∷ b':' ∷ b'\\' ∷ b'n' ∷ b'e' ∷ b'w' ∷ []

parse_as_value-twice_example :
    parse_as_value (quoted path_text [])
    ≡ ok (primitive string_type (b'C' ∷ b':' ∷ 10 ∷ b'e' ∷ b'w' ∷ [])) b'"' []
unfolding control_of
parse_as_value-twice_example =
    parse_as_value-twice (b'C' ∷ b':' ∷ []) (b'e' ∷ b'w' ∷ []) [] b'n' 10
      ((refl, omega arith), ((refl, omega arith), tt))
      ((refl, omega arith), ((refl, omega arith), tt)) refl

-- The two bytes of é
abbrev accent : List ℕ
accent = 195 ∷ 169 ∷ []

parse_as_string-half_example : parse_as_string (quoted accent []) ≡ ok (half accent) b'"' []
parse_as_string-half_example = parse_as_string-half accent []

accent-half :
    half accent
    ≡ b'\\' ∷ b'u' ∷ b'0' ∷ b'0' ∷ b'c' ∷ b'3' ∷ b'\\' ∷ b'u' ∷ b'0' ∷ b'0' ∷ b'a' ∷ b'9' ∷ []
unfolding half half_byte short_escape unicode_escape
accent-half = refl

parse_all-overrun_example : parse_all (b'"' ∷ b'a' ∷ b'\\' ∷ []) ≡ overrun
parse_all-overrun_example = parse_all-overrun (b'a' ∷ []) ((omega arith, omega arith), tt)

-- Two children with the keys x and y.
abbrev two_children : Properties
two_children =
    property (b'x' ∷ []) (primitive bool_type true_text)
      (property (b'y' ∷ []) (primitive integer_type (b'1' ∷ [])) no_properties)

two_children-IsDistinct : IsDistinct two_children
unfolding get string_equal
two_children-IsDistinct = (refl, (refl, tt))

objects_refine_example :
    ((l : List ℕ)
      → (get (object_append_element two_children (b'x' ∷ []) (primitive integer_type (b'2' ∷ []))) l
          ≡ (if string_equal l (b'x' ∷ [])
              then some (primitive integer_type (b'2' ∷ []))
              else get two_children l))
        × (get (remove_key two_children (b'x' ∷ [])) l
            ≡ (if string_equal l (b'x' ∷ []) then none else get two_children l)))
    × IsDistinct
        (object_append_element two_children (b'x' ∷ []) (primitive integer_type (b'2' ∷ [])))
    × IsDistinct (remove_key two_children (b'x' ∷ []))
objects_refine_example =
    objects_refine two_children (b'x' ∷ []) (primitive integer_type (b'2' ∷ []))
      two_children-IsDistinct

-- {"x":1,"x":true}
abbrev repeated : List ℕ
repeated =
    b'{' ∷ b'"' ∷ b'x' ∷ b'"' ∷ b':' ∷ b'1' ∷ b',' ∷ b'"' ∷ b'x' ∷ b'"' ∷ b':' ∷ true_text
    ++ b'}' ∷ []

parse_all-Gives_example : Gives (parse_all repeated)
parse_all-Gives_example = parse_all-Gives repeated
