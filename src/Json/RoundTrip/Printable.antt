-- ===== src/Json/RoundTrip/Printable.antt =====
-- The elements that the parser of libutils/json.c gives back, and the keys of an object as it grows.
use libntech.Prelude.{ℕ, ◌≡◌, refl, ap, ◌∙◌, true, false, List, All}
use libntech.Json.{
  Json, primitive, array, object, Elements, no_elements, element, Properties, no_properties,
  property,
}
use libntech.Json.Parser.{
  string_equal, append_element, remove_key, append_property, object_append_element,
}
use libntech.Json.RoundTrip.Strings.{is_plain}
use libntech.Json.RoundTrip.Scalars.{IsPrimitive}

-- The elements that come back: their keys are plain and differ from one another.
abbrev pub IsNew : List ℕ → Properties → Type 0
IsNew k no_properties = Unit
IsNew k (property l j ps) = (string_equal l k ≡ false) × IsNew k ps

abbrev mutual
  pub IsPrintable : Json → Type 0
  IsPrintable (primitive t v) = IsPrimitive t v
  IsPrintable (array es) = ElementsPrintable es
  IsPrintable (object ps) = PropertiesPrintable ps

  pub ElementsPrintable : Elements → Type 0
  ElementsPrintable no_elements = Unit
  ElementsPrintable (element j es) = IsPrintable j × ElementsPrintable es

  pub PropertiesPrintable : Properties → Type 0
  PropertiesPrintable no_properties = Unit
  PropertiesPrintable (property k j ps) =
      (All (λ c. is_plain c ≡ true) k × IsNew k ps) × (IsPrintable j × PropertiesPrintable ps)

-- The children read so far with the others behind them.
unfoldable pub append_elements : Elements → Elements → Elements
append_elements es no_elements = es
append_elements es (element j fs) = append_elements (append_element es j) fs

unfoldable pub append_properties : Properties → Properties → Properties
append_properties ps no_properties = ps
append_properties ps (property k j qs) = append_properties (append_property ps k j) qs

append_elements-element :
    (i : Json) (es fs : Elements)
    → append_elements (element i es) fs ≡ element i (append_elements es fs)
unfolding append_elements append_element
append_elements-element i es no_elements = refl
append_elements-element i es (element j fs) = append_elements-element i (append_element es j) fs

pub append_elements-none : (fs : Elements) → append_elements no_elements fs ≡ fs
unfolding append_elements append_element
append_elements-none no_elements = refl
append_elements-none (element j fs) =
    append_elements-element j no_elements fs ∙ ap (element j) (append_elements-none fs)

append_properties-property :
    (k : List ℕ) (i : Json) (ps qs : Properties)
    → append_properties (property k i ps) qs ≡ property k i (append_properties ps qs)
unfolding append_properties append_property
append_properties-property k i ps no_properties = refl
append_properties-property k i ps (property l j qs) =
    append_properties-property k i (append_property ps l j) qs

pub append_properties-none : (qs : Properties) → append_properties no_properties qs ≡ qs
unfolding append_properties append_property
append_properties-none no_properties = refl
append_properties-none (property k j qs) =
    append_properties-property k j no_properties qs ∙ ap (property k j) (append_properties-none qs)

-- A key that is not in an object yet.
abbrev IsFresh : List ℕ → Properties → Type 0
IsFresh k no_properties = Unit
IsFresh k (property l j ps) = (string_equal k l ≡ false) × IsFresh k ps

remove_key-IsFresh : (ps : Properties) (k : List ℕ) → IsFresh k ps → remove_key ps k ≡ ps
unfolding remove_key
remove_key-IsFresh no_properties k h = refl
remove_key-IsFresh (property l j ps) k h =
    rw (h.0) (ap (property l j) (remove_key-IsFresh ps k h.1))

IsFresh-append :
    (ps : Properties) (k l : List ℕ) (j : Json)
    → IsFresh l ps
    → string_equal l k ≡ false
    → IsFresh l (append_property ps k j)
unfolding append_property
IsFresh-append no_properties k l j h e = (e, tt)
IsFresh-append (property m i ps) k l j h e = (h.0, IsFresh-append ps k l j h.1 e)

-- The keys to come are not in the object yet.
abbrev pub IsApart : Properties → Properties → Type 0
IsApart ps no_properties = Unit
IsApart ps (property k j qs) = IsFresh k ps × IsApart ps qs

pub IsApart-none : (qs : Properties) → IsApart no_properties qs
IsApart-none no_properties = tt
IsApart-none (property k j qs) = (tt, IsApart-none qs)

pub IsApart-append :
    (ps qs : Properties) (k : List ℕ) (j : Json)
    → IsApart ps qs
    → IsNew k qs
    → IsApart (append_property ps k j) qs
IsApart-append ps no_properties k j a n = tt
IsApart-append ps (property l i qs) k j a n =
    (IsFresh-append ps k l j a.0 n.0, IsApart-append ps qs k j a.1 n.1)

pub object_append_element-IsApart :
    (ps qs : Properties) (k : List ℕ) (i j : Json)
    → IsApart ps (property k i qs)
    → object_append_element ps k j ≡ append_property ps k j
unfolding object_append_element
object_append_element-IsApart ps qs k i j a =
    ap (λ l. append_property l k j) (remove_key-IsFresh ps k a.0)
