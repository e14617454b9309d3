-- ===== src/Sequence.antt =====
-- libutils/sequence.c: a growing array of pointers. Its searches, sort and in-place loops are the
-- child modules'. An operation that may call the destroy function returns the pointers it
-- destroys, in order, beside the new sequence.
pub mod Growth
mod Tests
pub mod Ranges
pub mod Search
pub mod Reverse
pub mod Filter
pub mod Sort
use libntech.Prelude.{
  ℕ, zero, suc, ◌+◌, ◌-◌, ◌/◌, ◌*◌, ◌≤◌, Bool, true, false, ◌&&◌, ◌||◌, not, Option, none, some,
  List, [], ◌∷◌, ◌++◌, if◌then◌else◌, ◌==◌, ltb, leb, set, take, drop, Ptr, null, read, calloc,
  realloc, copy_to, add_size, sub_size, mul_size,
}

-- `Seq`
pub record Seq : Type 0 where
  pub items : List Ptr
  pub length : ℕ
  pub capacity : ℕ
  pub has_destroy : Bool

-- The words of an allocation of `sizeof(void *) * n` bytes.
abbrev pub words : ℕ → ℕ
words n = mul_size 8 n / 8

pub new : ℕ → Bool → Seq
new initial destroy =
    let n = (if initial == 0 then 1 else initial) in
    record { items = calloc n; length = 0; capacity = n; has_destroy = destroy }

-- The loop of DestroyRange: `n` items from index `i` on.
pub slice : List Ptr → ℕ → ℕ → List Ptr
slice d i zero = []
slice d i (suc n) = read d i ∷ slice d (i + 1) n

-- DestroyRange, both ends included.
pub destroy_range : Seq → ℕ → ℕ → List Ptr
unfolding slice
destroy_range s start end = if s.has_destroy then slice s.items start (end + 1 - start) else []

-- SeqDestroy on a sequence that is not NULL: what it destroys.
pub destroy : Seq → List Ptr
unfolding destroy_range
destroy s = if ltb 0 s.length then destroy_range s 0 (s.length - 1) else []

pub expand_if_necessary : Seq → Seq
expand_if_necessary s =
    if s.length == s.capacity
    then record s {
      capacity = mul_size s.capacity 2;
      items = realloc s.items (words (mul_size s.capacity 2));
    }
    else s

-- SeqSet, for an index below the length.
pub set_item : Seq → ℕ → Ptr → Seq × List Ptr
set_item s index item = (
  record s { items = set s.items index item },
  (if s.has_destroy then read s.items index ∷ [] else []),
)

pub soft_set : Seq → ℕ → Ptr → Seq
soft_set s index item = record s { items = set s.items index item }

pub append : Seq → Ptr → Seq
unfolding expand_if_necessary
append s item =
    let t = expand_if_necessary s in
    record t { items = set t.items t.length item; length = add_size t.length 1 }

-- The loop of SeqAppendSeq: `n` items of the other sequence from index `i` on.
pub append_from : Seq → List Ptr → ℕ → ℕ → Seq
append_from s d i zero = s
append_from s d i (suc n) = append_from (append s (read d i)) d (i + 1) n

-- SeqAppendSeq, for two sequences that are not the same object.
pub append_seq : Seq → Seq → Seq
unfolding append_from append
append_seq s items = append_from s items.items 0 items.length

-- What both removals do to the array, for `start ≤ end < length`.
pub soft_remove_range : Seq → ℕ → ℕ → Seq
soft_remove_range s start end =
    let rest_len = sub_size (sub_size s.length end) 1 in
    record s {
      items =
          if ltb 0 rest_len
          then copy_to s.items start (take rest_len (drop (end + 1) s.items))
          else s.items;
      length = sub_size s.length (add_size (sub_size end start) 1);
    }

pub remove_range : Seq → ℕ → ℕ → Seq × List Ptr
unfolding soft_remove_range destroy_range
remove_range s start end = (soft_remove_range s start end, destroy_range s start end)

pub remove : Seq → ℕ → Seq × List Ptr
unfolding remove_range
remove s index = remove_range s index index

pub soft_remove : Seq → ℕ → Seq
unfolding soft_remove_range
soft_remove s index = soft_remove_range s index index

pub clear : Seq → Seq × List Ptr
unfolding remove_range
clear s = if ltb 0 s.length then remove_range s 0 (s.length - 1) else (s, [])

-- SeqGetRange; `none` is NULL.
pub get_range : Seq → ℕ → ℕ → Option Seq
unfolding append_from append new
get_range s start end =
    if ltb end start || leb s.length start || leb s.length end
    then none
    else some (append_from (new (end - start + 1) s.has_destroy) s.items start (end + 1 - start))

-- SeqSplit: what stays in the sequence, and the new one. SeqGetRange does not fail here.
pub split : Seq → ℕ → Seq × Option Seq
unfolding get_range new soft_remove_range
split s index =
    if leb s.length index
    then (s, some (new 1 s.has_destroy))
    else (soft_remove_range s index (s.length - 1), get_range s index (s.length - 1))

-- SeqFromArgv: the loop over `argv`.
pub from_argv : List Ptr → ℕ → Seq
unfolding append_from append new
from_argv argv argc = append_from (new argc false) argv 0 argc
