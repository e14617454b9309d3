-- ===== src/Json/Sort/Printed.antt =====
-- Sorting keeps a printable element printable, so that what the printers write with it is read back
-- as the sorted element.
use libntech.Prelude.{
  int_rounds, ◌^◌, ◌<◌, take, drop, ap, ◌∙◌, length-take, take-append-drop, drop-all, append-nil,
  All-append, ℕ, suc, ◌≡◌, refl, sym, true, false, some, List, [], ◌∷◌, ◌++◌, length, arith, All,
  subst,
}
use libntech.Json.{
  Json, primitive, array, object, Elements, no_elements, element, Properties, no_properties,
  property, ok,
}
use libntech.Json.Parser.{parse_all}
use libntech.Json.RoundTrip.Strings.{is_plain}
use libntech.Json.RoundTrip.Printable.{IsNew, IsPrintable, ElementsPrintable, PropertiesPrintable}
use libntech.Json.RoundTrip.Steps.{IsBlank}
use libntech.Json.RoundTrip.Documents.{parse_all-write_compact, parse_all-write_at}
use libntech.Json.Sort.{
  property_compare, items_of, object_of, sort_items, sort_properties, sort_all, sort_elements,
  sort_children, json_write_compact, json_write,
}
use libntech.Json.Sort.Kept.{Gives, All-take, All-drop, quick_sort-Gives}
use libntech.Json.Sort.Keys.{
  has_key, IsPairwise, IsPairwise-IsRearranged, property_compare-IsPreorder,
}
use libntech.Sequence.Sort.{◌>>=◌, quick_sort}
use libntech.Sequence.Sort.Exchange.{count, IsRearranged}
use libntech.Sequence.Sort.Cut.{count-append}
use libntech.Sequence.Sort.Sorted.{IsSorted, quick_sort-IsSorted}

abbrev ItemPrintable : List ℕ × Json → Type 0
ItemPrintable p = All (λ c. is_plain c ≡ true) p.0 × IsPrintable p.1

items-IsNew :
    (k : List ℕ) (ps : Properties) → IsNew k ps → All (λ q. has_key k q ≡ false) (items_of ps)
unfolding items_of
items-IsNew k no_properties h = tt
items-IsNew k (property l j ps) h = (h.0, items-IsNew k ps h.1)

object-IsNew :
    (k : List ℕ) (l : List (List ℕ × Json))
    → All (λ q. has_key k q ≡ false) l
    → IsNew k (object_of l)
unfolding object_of
object-IsNew k [] h = tt
object-IsNew k (p ∷ l) h = (h.0, object-IsNew k l h.1)

items-IsPrintable :
    (ps : Properties)
    → PropertiesPrintable ps
    → All ItemPrintable (items_of ps) × IsPairwise (items_of ps)
unfolding items_of
items-IsPrintable no_properties h = (tt, tt)
items-IsPrintable (property k j ps) h =
    let (a, b) = items-IsPrintable ps h.1.1 in (((h.0.0, h.1.0), a), (items-IsNew k ps h.0.1, b))

object-IsPrintable :
    (l : List (List ℕ × Json))
    → All ItemPrintable l
    → IsPairwise l
    → PropertiesPrintable (object_of l)
unfolding object_of
object-IsPrintable [] h p = tt
object-IsPrintable (q ∷ l) h p =
    ((h.0.0, object-IsNew q.0 l p.0), (h.0.1, object-IsPrintable l h.1 p.1))

-- The items that are sorted, and those behind them.
record SortedItems (l s : List (List ℕ × Json)) (n : ℕ) : Type 0 where
  ends : quick_sort property_compare (suc n) (take n l) ≡ some s
  sorted : IsSorted property_compare s
  same : IsRearranged (s ++ drop n l) l

sort_first : (l : List (List ℕ × Json)) (n : ℕ) → (s : List (List ℕ × Json)) × SortedItems l s n
sort_first l n =
    let (s, ends, sorted, same) =
      quick_sort-IsSorted property_compare property_compare-IsPreorder (suc n) (take n l)
        (omega (arith, length-take n l)) in
    (
      s,
      record {
        ends = ends;
        sorted = sorted;
        same = λ f. omega (
          arith,
          count-append f s (drop n l),
          count-append f (take n l) (drop n l),
          ap (count f) (take-append-drop n l),
          same f,
        );
      },
    )

sort_items-some :
    (l s : List (List ℕ × Json)) (n : ℕ)
    → int_rounds (length l) ≡ n
    → quick_sort property_compare (suc n) (take n l) ≡ some s
    → sort_items l ≡ some (s ++ drop n l)
unfolding sort_items
sort_items-some l s n w e =
    ap (λ n. quick_sort property_compare (suc n) (take n l) >>= λ t. some (t ++ drop n l)) w
    ∙ ap (λ o. o >>= λ t. some (t ++ drop n l)) e

sort_properties-some :
    (ps : Properties) (l : List (List ℕ × Json))
    → sort_items (items_of ps) ≡ some l
    → sort_properties ps ≡ object_of l
unfolding sort_properties
sort_properties-some ps l e = rw (sort_properties, e) refl

-- JsonSort with the comparison of keys, on an object of fewer than 2 ^ 31 children, does not fail,
-- reads nothing outside the children, and leaves the same children, ordered by strcmp on their keys.
pub sort_properties-IsSorted :
    (ps : Properties)
    → length (items_of ps) < 2 ^ 31
    → (l : List (List ℕ × Json)) × (sort_items (items_of ps) ≡ some l)
      × (sort_properties ps ≡ object_of l)
      × IsSorted property_compare l
      × IsRearranged l (items_of ps)
sort_properties-IsSorted ps h =
    let items = items_of ps in
    let n = length items in
    let whole : int_rounds n ≡ n = ground arith in
    let (s, t) = sort_first items n in
    let nothing : s ++ drop n items ≡ s =
      ap (λ r. s ++ r) (drop-all items n (omega arith)) ∙ append-nil s in
    let ends = sort_items-some items s n whole t.ends ∙ ap some nothing in
    (s, ends, sort_properties-some ps s ends, t.sorted, λ f. ap (count f) (sym nothing) ∙ t.same f)

sort_properties-IsPrintable :
    (ps : Properties) → PropertiesPrintable ps → PropertiesPrintable (sort_properties ps)
sort_properties-IsPrintable ps h =
    let items = items_of ps in
    let n = int_rounds (length items) in
    let (s, t) = sort_first items n in
    let (a, b) = items-IsPrintable ps h in
    let kept : All ItemPrintable s = subst (Gives (All ItemPrintable)) t.ends (
      quick_sort-Gives ItemPrintable property_compare (suc n) (take n items)
        (All-take ItemPrintable n items a)) in
    let all = All-append ItemPrintable s (drop n items) kept (All-drop ItemPrintable n items a) in
    subst PropertiesPrintable
      (sym (sort_properties-some ps _ (sort_items-some items s n refl t.ends)))
      (object-IsPrintable (s ++ drop n items) all
        (IsPairwise-IsRearranged items (s ++ drop n items) t.same b))

sort_children-IsNew : (k : List ℕ) (ps : Properties) → IsNew k ps → IsNew k (sort_children ps)
unfolding sort_children
sort_children-IsNew k no_properties h = tt
sort_children-IsNew k (property l j ps) h = (h.0, sort_children-IsNew k ps h.1)

mutual
  unfolding sort_all

  sort_all-IsPrintable : (j : Json) → IsPrintable j → IsPrintable (sort_all j)
  sort_all-IsPrintable (primitive t v) h = h
  sort_all-IsPrintable (array es) h = sort_elements-IsPrintable es h
  sort_all-IsPrintable (object ps) h =
      sort_properties-IsPrintable (sort_children ps) (sort_children-IsPrintable ps h)

  sort_elements-IsPrintable :
      (es : Elements) → ElementsPrintable es → ElementsPrintable (sort_elements es)
  sort_elements-IsPrintable no_elements h = tt
  sort_elements-IsPrintable (element j es) h =
      (sort_all-IsPrintable j h.0, sort_elements-IsPrintable es h.1)

  sort_children-IsPrintable :
      (ps : Properties) → PropertiesPrintable ps → PropertiesPrintable (sort_children ps)
  sort_children-IsPrintable no_properties h = tt
  sort_children-IsPrintable (property k j ps) h = (
    (h.0.0, sort_children-IsNew k ps h.0.1),
    (sort_all-IsPrintable j h.1.0, sort_children-IsPrintable ps h.1.1),
  )

-- JsonParseAll reads the text that JsonWriteCompact writes for a printable element, with blanks
-- behind it or not, where it has fewer than 2 ^ 31 bytes, as the element as JsonSort leaves it.
-- Printable is an element whose strings hold no NUL and no backslash, whose numbers are decimal,
-- integers without a fraction and reals with one, and whose keys are of plain bytes and differ within
-- an object.
pub parse_all-json_write_compact :
    (j : Json) (rest : List ℕ)
    → IsPrintable j
    → IsBlank rest
    → length (json_write_compact j ++ rest) < 2 ^ 31
    → (last : ℕ) × (parse_all (json_write_compact j ++ rest) ≡ ok (sort_all j) last rest)
unfolding json_write_compact
parse_all-json_write_compact j rest h b z =
    parse_all-write_compact (sort_all j) rest (sort_all-IsPrintable j h) b z

-- JsonParseAll reads the lines that JsonWrite writes for a printable element at an indent level, with
-- blanks behind them or not, where they have fewer than 2 ^ 31 bytes, as the element as JsonSort
-- leaves it. Printable is an element whose strings hold no NUL and no backslash, whose numbers are
-- decimal, integers without a fraction and reals with one, and whose keys are of plain bytes and differ
-- within an object.
pub parse_all-json_write :
    (level : ℕ) (j : Json) (rest : List ℕ)
    → IsPrintable j
    → IsBlank rest
    → length (json_write level j ++ rest) < 2 ^ 31
    → (last : ℕ) × (parse_all (json_write level j ++ rest) ≡ ok (sort_all j) last rest)
unfolding json_write
parse_all-json_write level j rest h b z =
    parse_all-write_at level (sort_all j) rest (sort_all-IsPrintable j h) b z
