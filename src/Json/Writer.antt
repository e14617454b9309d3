-- ===== src/Json/Writer.antt =====
-- The two printers of libutils/json.c, compact and indented, on elements whose objects have been
-- sorted. What they write is the list of its bytes.
use libntech.Prelude.{int_rounds, ℕ, ◌+◌, ◌*◌, List, [], ◌∷◌, ◌++◌, replicate}
use libntech.Json.{
  Json, PrimitiveType, string_type, primitive, array, object, Elements, no_elements, element,
  Properties, no_properties, property,
}
use libntech.Json.Strings.{encode_string}

-- `"%s"` on the encoded string, in front of `rest`.
unfoldable pub quoted : List ℕ → List ℕ → List ℕ
quoted s rest = b'"' ∷ (encode_string s ++ (b'"' ∷ rest))

-- JsonPrimitiveWrite behind its PrintIndent.
unfoldable pub primitive_write : PrimitiveType → List ℕ → List ℕ
unfolding quoted
primitive_write string_type v = quoted v []
primitive_write _ v = v

-- JsonWriteCompact, and the loops of JsonArrayWriteCompact and JsonObjectWriteCompact.
unfoldable mutual
  unfolding primitive_write quoted

  pub write_compact : Json → List ℕ
  write_compact (primitive t v) = primitive_write t v
  write_compact (array es) = b'[' ∷ (elements_compact es ++ b']' ∷ [])
  write_compact (object ps) = b'{' ∷ (properties_compact ps ++ b'}' ∷ [])

  pub elements_compact : Elements → List ℕ
  elements_compact no_elements = []
  elements_compact (element j no_elements) = write_compact j
  elements_compact (element j (element i es)) =
      write_compact j ++ (b',' ∷ elements_compact (element i es))

  pub properties_compact : Properties → List ℕ
  properties_compact no_properties = []
  properties_compact (property k j no_properties) = quoted k (b':' ∷ write_compact j)
  properties_compact (property k j (property l i ps)) =
      quoted k (b':' ∷ (write_compact j ++ (b',' ∷ properties_compact (property l i ps))))

-- PrintIndent, in front of `rest`. The level is stored in an int and doubled in int, where C leaves an
-- overflow undefined; here it wraps.
abbrev pub indent : ℕ → List ℕ → List ℕ
indent n rest = replicate (int_rounds (n * 2)) b' ' ++ rest

-- JsonContainerWrite at an indent level or, behind its PrintIndent, JsonPrimitiveWrite, and the loops
-- of JsonArrayWrite and JsonObjectWrite. The loop of an array writes a primitive at its level, that of
-- an object at level 0, and both write a container behind a PrintIndent or a colon.
unfoldable mutual
  unfolding primitive_write quoted

  pub write_behind : ℕ → Json → List ℕ
  write_behind n (primitive t v) = primitive_write t v
  write_behind n (array no_elements) = b'[' ∷ b']' ∷ []
  write_behind n (array (element j es)) =
      b'[' ∷ 10 ∷ (elements_write (n + 1) (element j es) ++ indent n (b']' ∷ []))
  write_behind n (object ps) = b'{' ∷ 10 ∷ (properties_write (n + 1) ps ++ indent n (b'}' ∷ []))

  pub elements_write : ℕ → Elements → List ℕ
  elements_write n no_elements = []
  elements_write n (element j no_elements) = indent n (write_behind n j ++ 10 ∷ [])
  elements_write n (element j (element i es)) =
      indent n (write_behind n j ++ (b',' ∷ 10 ∷ elements_write n (element i es)))

  pub properties_write : ℕ → Properties → List ℕ
  properties_write n no_properties = []
  properties_write n (property k j no_properties) =
      indent n (quoted k (b':' ∷ b' ' ∷ (write_behind n j ++ 10 ∷ [])))
  properties_write n (property k j (property l i ps)) = indent n (
      quoted k
        (b':' ∷ b' ' ∷ (write_behind n j ++ (b',' ∷ 10 ∷ properties_write n (property l i ps)))))

-- JsonWrite on an element whose objects have been sorted.
unfoldable pub write_at : ℕ → Json → List ℕ
unfolding primitive_write write_behind
write_at n (primitive t v) = indent n (primitive_write t v)
write_at n (array es) = write_behind n (array es)
write_at n (object ps) = write_behind n (object ps)
