-- ===== src/ListHead/Tests.antt =====
-- Runs of list.c, and the theorems at a list of two nodes.
use so2_soa_fib.Common.{
  ◌≡◌, refl, Option, some, none, true, false, [], ◌∷◌, arith, ◌==◌, if◌then◌else◌, ◌>>=◌, Out,
  update,
}
use so2_soa_fib.ListHead.{
  Ptr, null, Links, init_list_head, list_add, list_add_tail, list_del, list_empty, list_first,
  list_is_last,
}
use so2_soa_fib.ListHead.Queue.{
  IsQueue, SameOutside, init_list_head-IsQueue, list_add_tail-append, list_del-remove,
  list_empty-is_empty, list_first-first_of, list_is_last-is_empty,
}

-- Head 1, nodes 5 and 6.
abbrev two : Links
two = record {
  next = λ a. if a == 1 then 5 else if a == 5 then 6 else if a == 6 then 1 else 0;
  prev = λ a. if a == 1 then 6 else if a == 6 then 5 else if a == 5 then 1 else 0;
}

two-IsQueue : IsQueue two 1 (5 ∷ 6 ∷ [])
two-IsQueue = record {
  nonnull = omega arith;
  distinct = omega arith;
  forward = (refl, (refl, refl));
  backward = (refl, (refl, refl));
}

fresh : Out 9 (null ∷ 1 ∷ 5 ∷ 6 ∷ [])
fresh = omega arith

-- A queue made from nothing: two nodes at the end, one in front, and the first taken out.
script : Option Ptr
unfolding init_list_head list_add list_add_tail list_del list_first
script = do
  m ← init_list_head 1 (record { next = λ a. 0; prev = λ a. 0 })
  m ← list_add_tail 5 1 m
  m ← list_add_tail 6 1 m
  m ← list_add 7 1 m
  m ← list_del 7 m
  list_first 1 m

script_result : script ≡ some 5
unfolding script update
script_result = refl

del_twice_faults : (list_del 5 two >>= list_del 5) ≡ none
unfolding list_del update
del_twice_faults = refl

init_list_head-IsQueue_example :
    (m' : Links) × (init_list_head 3 two ≡ some m') × IsQueue m' 3 [] × SameOutside (3 ∷ []) two m'
init_list_head-IsQueue_example = init_list_head-IsQueue 3 two (omega arith)

list_add_tail-append_example :
    (m' : Links) × (list_add_tail 9 1 two ≡ some m')
    × IsQueue m' 1 (5 ∷ 6 ∷ 9 ∷ [])
    × SameOutside (9 ∷ 1 ∷ 5 ∷ 6 ∷ []) two m'
list_add_tail-append_example = list_add_tail-append 9 (5 ∷ 6 ∷ []) two-IsQueue fresh

list_del-remove_example :
    (m' : Links) × (list_del 5 two ≡ some m')
    × IsQueue m' 1 (6 ∷ [])
    × (m'.next 5 ≡ null)
    × (m'.prev 5 ≡ null)
    × SameOutside (5 ∷ 1 ∷ 6 ∷ []) two m'
list_del-remove_example = list_del-remove [] 5 (6 ∷ []) two-IsQueue

list_empty-is_empty_example : list_empty 1 two ≡ some false
list_empty-is_empty_example = list_empty-is_empty (5 ∷ 6 ∷ []) two-IsQueue

list_first-first_of_example : list_first 1 two ≡ some 5
list_first-first_of_example = list_first-first_of (5 ∷ 6 ∷ []) two-IsQueue

list_is_last-is_empty_example : list_is_last 6 1 two ≡ some true
list_is_last-is_empty_example = list_is_last-is_empty (5 ∷ []) 6 [] two-IsQueue
