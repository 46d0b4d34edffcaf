-- ===== src/ListHead.antt =====
-- zeOS/list.c and zeOS/include/list.h: intrusive circular doubly linked lists. An address is a
-- number and 0 is NULL; the two fields of every `struct list_head` are two memories.
pub mod Chain
pub mod Queue
mod Tests
use so2_soa_fib.Common.{ℕ, Bool, ◌==◌, if◌then◌else◌, Option, none, some, ◌>>=◌, update}

abbrev pub Ptr : Type 0
Ptr = ℕ

abbrev pub null : Ptr
null = 0

pub record Links : Type 0 where
  pub next : Ptr → Ptr
  pub prev : Ptr → Ptr

-- `p->next = v` and `p->prev = v`: page 0 is never mapped, so a write through NULL faults.
unfoldable pub set_next : Ptr → Ptr → Links → Option Links
set_next p v m = if p == null then none else some (record m { next = update m.next p v })

unfoldable pub set_prev : Ptr → Ptr → Links → Option Links
set_prev p v m = if p == null then none else some (record m { prev = update m.prev p v })

-- INIT_LIST_HEAD
unfoldable pub init_list_head : Ptr → Links → Option Links
unfolding set_next set_prev
init_list_head list m = do m ← set_next list list m; set_prev list list m

-- __list_add
unfoldable pub list_add_between : Ptr → Ptr → Ptr → Links → Option Links
unfolding set_next set_prev
list_add_between new prev next m = do
  m ← set_prev next new m
  m ← set_next new next m
  m ← set_prev new prev m
  set_next prev new m

-- A read through NULL faults as well.
unfoldable pub get_next : Ptr → Links → Option Ptr
get_next p m = if p == null then none else some (m.next p)

unfoldable pub get_prev : Ptr → Links → Option Ptr
get_prev p m = if p == null then none else some (m.prev p)

unfoldable pub list_add : Ptr → Ptr → Links → Option Links
unfolding get_next list_add_between
list_add new head m = do next ← get_next head m; list_add_between new head next m

unfoldable pub list_add_tail : Ptr → Ptr → Links → Option Links
unfolding get_prev list_add_between
list_add_tail new head m = do prev ← get_prev head m; list_add_between new prev head m

-- __list_del
unfoldable pub list_del_between : Ptr → Ptr → Links → Option Links
unfolding set_next set_prev
list_del_between prev next m = do m ← set_prev next prev m; set_next prev next m

unfoldable pub list_del : Ptr → Links → Option Links
unfolding get_next get_prev list_del_between set_next set_prev
list_del entry m = do
  prev ← get_prev entry m
  next ← get_next entry m
  m ← list_del_between prev next m
  m ← set_next entry null m
  set_prev entry null m

unfoldable pub list_is_last : Ptr → Ptr → Links → Option Bool
unfolding get_next
list_is_last list head m = do next ← get_next list m; some (next == head)

unfoldable pub list_empty : Ptr → Links → Option Bool
unfolding get_next
list_empty head m = do next ← get_next head m; some (next == head)

-- The macro list_first.
unfoldable pub list_first : Ptr → Links → Option Ptr
unfolding get_next
list_first head m = get_next head m
