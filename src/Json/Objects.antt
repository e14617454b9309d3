-- ===== src/Json/Objects.antt =====
-- JsonObjectGet of libutils/json.c, and objects as finite maps: what JsonObjectAppendElement and
-- JsonObjectRemoveKey do to what JsonObjectGet finds.
pub mod Sound
pub mod Loops
use libntech.Prelude.{
  ℕ, ◌≡◌, refl, sym, ◌∙◌, Bool, true, false, inl, inr, Option, none, some, List, if◌then◌else◌,
  arith, Bool-cases, ap,
}
use mathlib.Core.Option.{none-ne-some}
use libntech.Json.{Json, Properties, no_properties, property}
use libntech.Json.Parser.{string_equal, remove_key, append_property, object_append_element}
use libntech.Json.Sort.Keys.{string_equal_iff, string_equal_self}

-- JsonObjectGet
unfoldable pub get : Properties → List ℕ → Option Json
unfolding string_equal
get no_properties k = none
get (property l j ps) k = let rest = get ps k in if string_equal k l then some j else rest

-- No key stands twice.
abbrev pub IsDistinct : Properties → Type 0
IsDistinct no_properties = Unit
IsDistinct (property l j ps) = (get ps l ≡ none) × IsDistinct ps

-- Keys that are equal to one key are equal to the same keys.
string_equal-congr :
    (k l : List ℕ) → string_equal k l ≡ true → (m : List ℕ) → string_equal k m ≡ string_equal l m
string_equal-congr k l h m = ap (λ s. string_equal s m) (string_equal_iff k l h)

string_equal-sym : (k l : List ℕ) → string_equal l k ≡ false → string_equal k l ≡ false
string_equal-sym k l h = elim (Bool-cases (string_equal k l)) [
  | inr e ↦ e
  | inl e ↦
      let self : string_equal l k ≡ true =
        ap (λ s. string_equal s k) (sym (string_equal_iff k l e)) ∙ string_equal_self k in
      absurd (ground (arith, self, h))
]

if-none : (b : Bool) (x : Option Json) → x ≡ none → (if b then none else x) ≡ none
if-none true x h = refl
if-none false x h = h

get-none :
    (m : List ℕ) (i : Json) (ps : Properties) (k : List ℕ)
    → get (property m i ps) k ≡ none
    → (string_equal k m ≡ false) × (get ps k ≡ none)
unfolding get
get-none m i ps k h = elim (Bool-cases (string_equal k m)) [
  | inr e ↦ (e, sym (rw e refl) ∙ h)
  | inl e ↦
      let found : get (property m i ps) k ≡ some i = rw e in absurd (none-ne-some i (sym h ∙ found))
]

get-remove_key :
    (ps : Properties) (k l : List ℕ)
    → IsDistinct ps
    → get (remove_key ps k) l ≡ (if string_equal l k then none else get ps l)
unfolding get remove_key
get-remove_key no_properties k l d = elim (Bool-cases (string_equal l k)) [
  | inl e ↦ rw e
  | inr e ↦ rw e
]
get-remove_key (property m i ps) k l (fresh, d) =
    let rest = get-remove_key ps k l d in
    elim (Bool-cases (string_equal l k)) [
      | inl e ↦
          let same = string_equal-congr l k e m in
          elim (Bool-cases (string_equal k m)) [
            | inl f ↦
                let gone : get ps l ≡ none =
                  ap (get ps) (string_equal_iff l k e ∙ string_equal_iff k m f) ∙ fresh in
                rw (f, e, gone)
            | inr f ↦ rw (f, get, same, f, rest, e)
          ]
      | inr e ↦ elim (Bool-cases (string_equal k m)) [
        | inl f ↦
            let other : string_equal l m ≡ false =
              ap (string_equal l) (sym (string_equal_iff k m f)) ∙ e in
            rw (f, e, other)
        | inr f ↦ rw (f, get, rest, e)
      ]
    ]

get-append_property :
    (ps : Properties) (k : List ℕ) (j : Json) (l : List ℕ)
    → get ps k ≡ none
    → get (append_property ps k j) l ≡ (if string_equal l k then some j else get ps l)
unfolding get append_property
get-append_property no_properties k j l h = refl
get-append_property (property m i ps) k j l h =
    let (apart, absent) = get-none m i ps k h in
    let rest = get-append_property ps k j l absent in
    elim (Bool-cases (string_equal l m)) [
      | inr f ↦ rw (f, rest)
      | inl f ↦
          let other : string_equal l k ≡ false =
            string_equal-sym l k (ap (string_equal k) (string_equal_iff l m f) ∙ apart) in
          rw (f, other)
    ]

remove_key-IsDistinct :
    (ps : Properties) (k : List ℕ) → IsDistinct ps → IsDistinct (remove_key ps k)
unfolding remove_key
remove_key-IsDistinct no_properties k d = d
remove_key-IsDistinct (property m i ps) k (fresh, d) = elim (Bool-cases (string_equal k m)) [
  | inl f ↦ rw f d
  | inr f ↦
      let still : get (remove_key ps k) m ≡ none =
        get-remove_key ps k m d ∙ if-none (string_equal m k) (get ps m) fresh in
      rw f (still, remove_key-IsDistinct ps k d)
]

append_property-IsDistinct :
    (ps : Properties) (k : List ℕ) (j : Json)
    → IsDistinct ps
    → get ps k ≡ none
    → IsDistinct (append_property ps k j)
unfolding append_property get
append_property-IsDistinct no_properties k j d h = (refl, tt)
append_property-IsDistinct (property m i ps) k j (fresh, d) h =
    let (apart, absent) = get-none m i ps k h in
    let other = string_equal-sym m k apart in
    (
      get-append_property ps k j m absent ∙ rw (other, fresh),
      append_property-IsDistinct ps k j d absent,
    )

-- JsonObjectAppendElement on an object in which no key stands twice is an insertion into the finite
-- map from keys to elements that JsonObjectGet reads, JsonObjectRemoveKey is a removal, and no key
-- stands twice afterwards.
pub objects_refine :
    (ps : Properties) (k : List ℕ) (j : Json)
    → IsDistinct ps
    → ((l : List ℕ)
        → (get (object_append_element ps k j) l ≡ (if string_equal l k then some j else get ps l))
          × (get (remove_key ps k) l ≡ (if string_equal l k then none else get ps l)))
      × IsDistinct (object_append_element ps k j)
      × IsDistinct (remove_key ps k)
unfolding object_append_element
objects_refine ps k j d =
    let kept = remove_key-IsDistinct ps k d in
    let gone : get (remove_key ps k) k ≡ none =
      get-remove_key ps k k d ∙ rw (string_equal_self k) in
    (
      λ l. (
        get-append_property (remove_key ps k) k j l gone ∙ append-removed l,
        get-remove_key ps k l d,
      ),
      append_property-IsDistinct (remove_key ps k) k j kept gone,
      kept,
    )
  where
    append-removed :
        (l : List ℕ)
        → (if string_equal l k then some j else get (remove_key ps k) l)
          ≡ (if string_equal l k then some j else get ps l)
    append-removed l = elim (Bool-cases (string_equal l k)) [
      | inl e ↦ rw e
      | inr e ↦ rw (get-remove_key ps k l d, e)
    ]
