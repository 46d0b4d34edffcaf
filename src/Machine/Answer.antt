-- ===== src/Machine/Answer.antt =====
-- Which system calls return to their caller.
use so2_soa_fib.Common.{
  ℕ, ◌≡◌, refl, Bool, true, false, ◌&&◌, Option, none, some, List, [], ◌∷◌, ℤ, pos, ltb, get_elem?,
}
use so2_soa_fib.Kernel.{Kernel, user_to_sys, sys_to_user_ready}
use so2_soa_fib.Machine.{
  Handler, ni_syscall, exit, fork, write, gettime, get_key, put_screen, set_fps, fflush, sbrk,
  getpid, get_stats, sys_call_table, max_syscall, Args, Reply, value, serve, reaches, handle,
  dispatch, system_call,
}
use so2_soa_fib.Machine.Calls.{Still}

-- All handlers but those of `exit` and `fork`.
unfoldable plain : Handler → Bool
plain exit = false
plain fork = false
plain ni_syscall = true
plain write = true
plain gettime = true
plain get_key = true
plain put_screen = true
plain set_fps = true
plain fflush = true
plain sbrk = true
plain getpid = true
plain get_stats = true

unfoldable all_plain : List Handler → Bool
all_plain [] = true
all_plain (h ∷ hs) = plain h && all_plain hs

-- Behind the first three.
unfoldable all_behind : List Handler → Bool
unfolding all_plain
all_behind (x ∷ y ∷ z ∷ hs) = all_plain hs
all_behind hs = true

-- A call is answered when it returns a value and leaves the queues and the running task alone.
abbrev pub Answers : Option (Reply × Kernel) → Kernel → Type 0
Answers o k = (r : ℤ) × (k' : Kernel) × (o ≡ some (value r, k')) × Still k k'

-- What a system call returns when its handler can use its pointers.
pub served :
    (n : ℕ) (h : Handler) (a : Args) (k : Kernel) (r : ℤ) (j : Kernel)
    → get_elem? sys_call_table n ≡ some h
    → ltb max_syscall n ≡ false
    → reaches h a (user_to_sys k) ≡ true
    → serve h a (user_to_sys k) ≡ some (value r, j)
    → system_call (pos n) a k ≡ some (value r, sys_to_user_ready j)
unfolding system_call dispatch handle
served n h a k r j listed in_table can e = rw (in_table, listed, can, e) refl

-- Number 36 is not refused: the handler's address is read behind the end of the table.
pub system_call-last : (a : Args) (k : Kernel) → system_call (pos 36) a k ≡ none
unfolding system_call
system_call-last a k = unfold dispatch in refl
