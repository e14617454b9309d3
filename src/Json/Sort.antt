-- ===== src/Json/Sort.antt =====
-- The sorting of objects in libutils/json.c before they are printed, and the printers with it.
-- JsonObjectWrite and JsonObjectWriteCompact sort the children of an object in place when they come
-- to it, which touches no other object, so that all can be sorted before the printing.
pub mod Kept
pub mod Keys
pub mod Printed
use Prim.Native.Nat.{compare, Ordering}
use libntech.Prelude.{
  int_rounds, take, drop, ◌++◌, ℕ, suc, Option, none, some, List, [], ◌∷◌, length,
}
use libntech.Json.{
  Json, primitive, array, object, Elements, no_elements, element, Properties, no_properties,
  property,
}
use libntech.Json.Writer.{write_compact, write_at}
use libntech.Sequence.Sort.{◌>>=◌, quick_sort}

-- strcmp, which compares the bytes as unsigned.
unfoldable pub strcmp : List ℕ → List ℕ → Ordering
strcmp [] [] = Ordering.eq
strcmp [] (b ∷ bs) = Ordering.lt
strcmp (a ∷ s) [] = Ordering.gt
strcmp (a ∷ s) (b ∷ t) = elim (compare a b) [
  | Ordering.lt ↦ Ordering.lt
  | Ordering.eq ↦ strcmp s t
  | Ordering.gt ↦ Ordering.gt
]

-- JsonElementPropertyCompare
abbrev pub property_compare : List ℕ × Json → List ℕ × Json → Ordering
property_compare p q = strcmp p.0 q.0

-- The children of an object as the items of their Seq, and back.
unfoldable pub items_of : Properties → List (List ℕ × Json)
items_of no_properties = []
items_of (property k j ps) = (k, j) ∷ items_of ps

unfoldable pub object_of : List (List ℕ × Json) → Properties
object_of [] = no_properties
object_of (p ∷ ps) = property p.0 p.1 (object_of ps)

-- SeqSort on the items, as many as the int holds that their number is stored in.
unfoldable pub sort_items : List (List ℕ × Json) → Option (List (List ℕ × Json))
sort_items l =
    let n = int_rounds (length l) in
    quick_sort property_compare (suc n) (take n l) >>= λ s. some (s ++ drop n l)

-- JsonSort with JsonElementPropertyCompare, for which SeqSort does not fail.
unfoldable pub sort_properties : Properties → Properties
unfolding items_of object_of sort_items
sort_properties ps = elim (sort_items (items_of ps)) [ none ↦ ps | some l ↦ object_of l ]

-- The element as its printing leaves it: every object in it is sorted.
unfoldable mutual
  unfolding sort_properties

  pub sort_all : Json → Json
  sort_all (primitive t v) = primitive t v
  sort_all (array es) = array (sort_elements es)
  sort_all (object ps) = object (sort_properties (sort_children ps))

  pub sort_elements : Elements → Elements
  sort_elements no_elements = no_elements
  sort_elements (element j es) = element (sort_all j) (sort_elements es)

  pub sort_children : Properties → Properties
  sort_children no_properties = no_properties
  sort_children (property k j ps) = property k (sort_all j) (sort_children ps)

-- JsonWriteCompact
unfoldable pub json_write_compact : Json → List ℕ
unfolding write_compact sort_all
json_write_compact j = write_compact (sort_all j)

-- JsonWrite
unfoldable pub json_write : ℕ → Json → List ℕ
unfolding write_at sort_all
json_write level j = write_at level (sort_all j)
