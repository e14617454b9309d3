-- ===== src/Stack/Run.antt =====
-- Calls on a stack against a list with the top first.
use libntech.Prelude.{
  words_double, ℕ, zero, suc, ◌+◌, ◌-◌, ◌*◌, ◌≤◌, ◌<◌, ◌≡◌, refl, ap, ◌∙◌, true, false, List, [],
  ◌∷◌, ◌++◌, ltb, length, max, take, arith, Ptr, null, read, size_mod, add_size, length-realloc,
  length-set, length-take, length-append, take-set_next, take-set_ge, take-realloc,
}
use mathlib.Core.List.{reverse, reverse-append, reverse-cons}
use native.Mathlib.Decide.{dec_lt}
use libntech.Stack.{Stack, expand_if_necessary, push, push_report_count, pop, top, count}

-- The items, from the bottom up.
abbrev pub contents : Stack → List Ptr
contents s = take s.size s.items

-- The items, from the top down.
abbrev pub view : Stack → List Ptr
view s = reverse (contents s)

pub record IsValid (s : Stack) : Type 0 where
  pub slots : length s.items ≡ s.capacity
  pub positive : 0 < s.capacity
  pub within : s.size ≤ s.capacity

-- A doubled array of pointers stays below the address space.
abbrev pub Fits : Stack → Type 0
Fits s = 16 * s.capacity < size_mod

record HasRoom (s t : Stack) : Type 0 where
  valid : IsValid t
  same : contents t ≡ contents s
  kept : t.size ≡ s.size
  room : t.size < t.capacity
  bound : t.capacity ≤ max s.capacity (2 * s.size)

expand-HasRoom : (s : Stack) → IsValid s → Fits s → HasRoom s (expand_if_necessary s)
unfolding expand_if_necessary
expand-HasRoom s v f = ground (
  arith,
  words_double s.capacity f,
  length-realloc s.items (s.capacity * 2),
  take-realloc s.items s.size (s.capacity * 2),
)

record Stepped (s t : Stack) (l : List Ptr) : Type 0 where
  valid : IsValid t
  holds : view t ≡ l
  bound : t.capacity ≤ max s.capacity (2 * t.size)
  count : t.size ≤ s.size + 1

push-Stepped :
    (s : Stack) (x : Ptr)
    → IsValid s
    → Fits s
    → Stepped s (push s x) (x ∷ view s) × ((push s x).size ≡ s.size + 1)
unfolding push
push-Stepped s x v f =
    let t = expand_if_necessary s in
    let r = expand-HasRoom s v f in
    let more : add_size t.size 1 ≡ suc t.size = omega (arith, r.kept, v.within, f) in
    (
      record {
        valid = record {
          slots = length-set t.items t.size x ∙ r.valid.slots;
          positive = r.valid.positive;
          within = omega (arith, more, r.room);
        };
        holds =
            rw (more, take-set_next t.items t.size x (omega (arith, r.room, r.valid.slots)), r.same)
              (reverse-append (contents s) (x ∷ []));
        bound = omega (arith, more, r.bound, r.kept);
        count = omega (arith, more, r.kept);
      },
      omega (arith, more, r.kept),
    )

-- One more item of an array.
take-next : (d : List Ptr) (n : ℕ) → n < length d → take (suc n) d ≡ take n d ++ read d n ∷ []
take-next [] n h = absurd (omega arith)
take-next (x ∷ xs) zero h = refl
take-next (x ∷ xs) (suc n) h = ap (λ l. x ∷ l) (take-next xs n (omega arith))

-- A stack that is not empty is its top and what is below.
view-top :
    (s : Stack)
    → IsValid s
    → 0 < s.size
    → view s ≡ read s.items (s.size - 1) ∷ reverse (take (s.size - 1) s.items)
view-top s v h =
    let e : s.size ≡ suc (s.size - 1) = omega arith in
    ap (λ n. reverse (take n s.items)) e
    ∙ ap reverse (take-next s.items (s.size - 1) (omega (arith, v.slots, v.within)))
    ∙ reverse-append (take (s.size - 1) s.items) (read s.items (s.size - 1) ∷ [])

-- What a pop returns and leaves.
abbrev pub first : List Ptr → Ptr × List Ptr
first [] = (null, [])
first (x ∷ xs) = (x, xs)

pop-Stepped :
    (s : Stack)
    → IsValid s
    → Stepped s (pop s).1 (first (view s)).1 × ((pop s).0 ≡ (first (view s)).0)
unfolding pop
pop-Stepped s v = elim (dec_lt 0 s.size) [
  | yes h ↦
      let e : ltb 0 s.size ≡ true = ground arith in
      let w = view-top s v h in
      rw e (
        record {
          valid = record {
            slots = length-set s.items (s.size - 1) null ∙ v.slots;
            positive = v.positive;
            within = omega (arith, v.within);
          };
          holds = rw (w, take-set_ge s.items (s.size - 1) (s.size - 1) null (omega arith)) refl;
          bound = omega arith;
          count = omega arith;
        },
        rw w refl,
      )
  | no h ↦
      let e : ltb 0 s.size ≡ false = ground arith in
      let z : s.size ≡ 0 = omega arith in
      let w : view s ≡ [] = ap (λ n. reverse (take n s.items)) z in
      rw e (
        record { valid = v; holds = rw w refl; bound = omega arith; count = omega arith },
        rw w refl,
      )
]

top-first : (s : Stack) → IsValid s → top s ≡ (first (view s)).0
unfolding top
top-first s v = elim (dec_lt 0 s.size) [
  | yes h ↦ let e : ltb 0 s.size ≡ true = ground arith in rw (e, view-top s v h) refl
  | no h ↦
      let e : ltb 0 s.size ≡ false = ground arith in
      let z : s.size ≡ 0 = omega arith in
      let w : view s ≡ [] = ap (λ n. reverse (take n s.items)) z in rw (e, w) refl
]

length-reverse : (xs : List Ptr) → length (reverse xs) ≡ length xs
length-reverse [] = refl
length-reverse (x ∷ xs) =
    ap length (reverse-cons x xs)
    ∙ omega (arith, length-append (reverse xs) (x ∷ []), length-reverse xs)

length-view : (s : Stack) → IsValid s → length (view s) ≡ s.size
length-view s v =
    length-reverse (contents s) ∙ omega (arith, length-take s.size s.items, v.slots, v.within)

-- A call, and what it returns.
pub data Op : Type 0 where
  push_one push_counted : Ptr → Op
  pop_one read_top ask_count : Op

pub data Reply : Type 0 where
  done : Reply
  item : Ptr → Reply
  counted : ℕ → Reply

pub step : Op → Stack → Reply × Stack
unfolding push push_report_count pop top count
step (push_one x) s = (done, push s x)
step (push_counted x) s = let (r, n) = push_report_count s x in (counted n, r)
step pop_one s = let (x, r) = pop s in (item x, r)
step read_top s = (item (top s), s)
step ask_count s = (counted (count s), s)

pub run : List Op → Stack → List Reply × Stack
unfolding step
run [] s = ([], s)
run (op ∷ ops) s = let (a, r) = step op s in let (more, t) = run ops r in (a ∷ more, t)

-- The specification, on a list with the top first.
pub list_step : Op → List Ptr → Reply × List Ptr
list_step (push_one x) l = (done, x ∷ l)
list_step (push_counted x) l = (counted (length l + 1), x ∷ l)
list_step pop_one l = (item (first l).0, (first l).1)
list_step read_top l = (item (first l).0, l)
list_step ask_count l = (counted (length l), l)

unfoldable pub list_run : List Op → List Ptr → List Reply × List Ptr
unfolding list_step
list_run [] l = ([], l)
list_run (op ∷ ops) l =
    let (a, m) = list_step op l in let (more, n) = list_run ops m in (a ∷ more, n)

step-Stepped :
    (op : Op) (s : Stack)
    → IsValid s
    → Fits s
    → Stepped s (step op s).1 (list_step op (view s)).1
      × ((step op s).0 ≡ (list_step op (view s)).0)
unfolding step list_step push_report_count count
step-Stepped (push_one x) s v f = ((push-Stepped s x v f).0, refl)
step-Stepped (push_counted x) s v f =
    let (r, n) = push-Stepped s x v f in (r, rw (n, length-view s v) refl)
step-Stepped pop_one s v f = let (r, e) = pop-Stepped s v in (r, ap item e)
step-Stepped read_top s v f = (
  record { valid = v; holds = refl; bound = omega arith; count = omega arith },
  ap item (top-first s v),
)
step-Stepped ask_count s v f = (
  record { valid = v; holds = refl; bound = omega arith; count = omega arith },
  rw (length-view s v) refl,
)

-- Calls of StackPush, StackPushReportCount, StackPop, StackTop and StackCount on a valid stack
-- return what they do on a list with the top first, and leave a valid stack with that list's items,
-- where the array fits into the address space and so would an item for each call.
pub stack_refines :
    (ops : List Op) (s : Stack)
    → IsValid s
    → Fits s
    → 32 * (s.size + length ops) < size_mod
    → ((run ops s).0 ≡ (list_run ops (view s)).0)
      × IsValid (run ops s).1
      × (view (run ops s).1 ≡ (list_run ops (view s)).1)
unfolding run list_run
stack_refines [] s v f b = (refl, v, refl)
stack_refines (op ∷ ops) s v f b =
    let (r, e) = step-Stepped op s v f in
    let (es, w, h) =
      stack_refines ops (step op s).1 r.valid (omega (arith, r.bound, r.count))
        (omega (arith, r.count)) in
    (rw (e, es, r.holds) refl, w, h ∙ ap (λ l. (list_run ops l).1) r.holds)
