-- ===== src/Syscalls/Write.antt =====
-- What `sys_write` shows.
use so2_soa_fib.Common.{
  ℕ, zero, suc, ◌+◌, ◌-◌, ◌/◌, ◌%◌, ◌≤◌, ◌<◌, ◌≡◌, ◌≢◌, refl, sym, ap, ◌∙◌, true, false, List, [],
  ◌∷◌, ◌++◌, arith, ◌==◌, ltb, if◌then◌else◌, ℤ, pos, eq_ℤ, is_pos, Bool-cases, inl, inr,
}
use so2_soa_fib.Kernel.{Kernel, user_memory}
use so2_soa_fib.Screen.{Screen, write_loop}
use so2_soa_fib.Utils.{Memory}
use so2_soa_fib.Fps.{text_at}
use so2_soa_fib.Syscalls.{check_fd, console, write_chunks, sys_write}

text_at-append :
    (m n a : ℕ) (mem : Memory) → text_at (m + n) a mem ≡ text_at m a mem ++ text_at n (a + m) mem
unfolding text_at
text_at-append zero n a mem =
    let size : 0 + n ≡ n = omega arith in
    let start : a ≡ a + 0 = omega arith in
    ap (λ m. text_at m a mem) size ∙ ap (λ b. text_at n b mem) start
text_at-append (suc m) n a mem =
    let size : suc m + n ≡ suc (m + n) = omega arith in
    let start : a + 1 + m ≡ a + suc m = omega arith in
    ap (λ l. text_at l a mem) size
    ∙ ap (λ xs. mem a ∷ xs)
        (text_at-append m n (a + 1) mem ∙ ap (λ b. text_at m (a + 1) mem ++ text_at n b mem) start)

write_loop-append :
    (xs ys : List ℕ) (s : Screen) → write_loop (xs ++ ys) s ≡ write_loop ys (write_loop xs s)
unfolding write_loop
write_loop-append [] ys s = refl
write_loop-append (x ∷ xs) ys s = write_loop-append xs ys _

console-console : (m n a : ℕ) (k : Kernel) → console n (a + m) (console m a k) ≡ console (m + n) a k
unfolding console user_memory
console-console m n a k =
    ap (λ s. record k { screen = s })
      (sym (write_loop-append (text_at m a mem) (text_at n (a + m) mem) k.screen)
        ∙ ap (λ xs. write_loop xs k.screen) (sym (text_at-append m n a mem)))
  where
    mem : Memory
    mem = user_memory k

-- The number of bytes that `sys_write` shows of `size`.
abbrev pub shown : ℕ → ℕ
shown size = if ltb size 500 then size else 500 + size % 500

check_fd-is_pos : (fd : ℤ) → is_pos (check_fd fd 1) ≡ false
unfolding check_fd
check_fd-is_pos fd = elim (Bool-cases (eq_ℤ fd (pos 1))) [ inl one ↦ rw one | inr other ↦ rw other ]

-- With the loop at its end, the lines after it.
write_chunks-last :
    (fuel i limit total buffer size : ℕ) (k : Kernel)
    → limit ≤ i
    → write_chunks (suc fuel) i limit total buffer size k ≡ (
      if size % 500 == 0 then pos 0 else pos (total + size % 500),
      console (size % 500) (buffer + i) k,
    )
unfolding write_chunks
write_chunks-last fuel i limit total buffer size k le =
    let over : ltb i limit ≡ false = ground arith in rw over

write_chunks-next :
    (fuel i limit total buffer size : ℕ) (k : Kernel)
    → i < limit
    → write_chunks (suc fuel) i limit total buffer size k
      ≡ write_chunks fuel (i + 500) limit (total + 500) buffer size (console 500 (buffer + i) k)
unfolding write_chunks
write_chunks-next fuel i limit total buffer size k lt =
    let more : ltb i limit ≡ true = ground arith in rw more

-- One full chunk and the lines after the loop.
write_chunks-two :
    (f limit buffer size : ℕ) (k : Kernel)
    → 0 < limit
    → limit ≤ 500
    → write_chunks (suc (suc f)) 0 limit 0 buffer size k ≡ (
      if size % 500 == 0 then pos 0 else pos (500 + size % 500),
      console (500 + size % 500) buffer k,
    )
write_chunks-two f limit buffer size k low high =
    let start : buffer + 0 ≡ buffer = omega arith in
    let ret : ℤ = if size % 500 == 0 then pos 0 else pos (500 + size % 500) in
    write_chunks-next (suc f) 0 limit 0 buffer size k low
    ∙ write_chunks-last f 500 limit 500 buffer size _ high
    ∙ ap (λ b. (ret, console (size % 500) (buffer + 500) (console 500 b k))) start
    ∙ ap (λ k'. (ret, k')) (console-console 500 (size % 500) buffer k)

sys_write-chunks :
    (fd : ℤ) (buffer size : ℕ) (k : Kernel)
    → buffer ≢ 0
    → sys_write fd buffer (pos size) k
      ≡ write_chunks (suc (size / 500)) 0 (size / 500) 0 buffer size k
unfolding sys_write
sys_write-chunks fd buffer size k some_b =
    let given : (buffer == 0) ≡ false = ground arith in rw (check_fd-is_pos fd, given)

-- Whatever the file descriptor, `sys_write` of a buffer that is not NULL and of up to 250499 bytes
-- shows the bytes from the buffer's start, all of them if they are fewer than 1000, and else the
-- first 500 and as many more as `size % 500`; it returns their number, but 0 if `size` is a multiple
-- of 500.
pub sys_write_lem :
    (fd : ℤ) (buffer size : ℕ) (k : Kernel)
    → buffer ≢ 0
    → size < 250500
    → sys_write fd buffer (pos size) k
      ≡ (if size % 500 == 0 then pos 0 else pos (shown size), console (shown size) buffer k)
sys_write_lem fd buffer size k some_b lt =
    sys_write-chunks fd buffer size k some_b ∙ elim (Bool-cases (ltb size 500)) [
      | inl short ↦
          let none_full : size / 500 ≡ 0 = ground arith in
          let all : size % 500 ≡ size = ground arith in
          let start : buffer + 0 ≡ buffer = omega arith in
          let sum : 0 + size ≡ size = omega arith in
          rw
            (
              write_chunks-last (size / 500) 0 (size / 500) 0 buffer size k
                  (omega (arith, none_full)),
              all,
              start,
              sum,
              short,
            )
            refl
      | inr long ↦
          let some_full : size / 500 ≡ suc (size / 500 - 1) = ground arith in
          rw long (
            ap (λ q. write_chunks (suc q) 0 (size / 500) 0 buffer size k) some_full
            ∙ write_chunks-two (size / 500 - 1) (size / 500) buffer size k (ground arith)
                (omega arith))
    ]
