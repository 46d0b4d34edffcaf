-- ===== src/Fork/Child.antt =====
-- The PCB of the child: as it is copied, and as it enters its queue.
use so2_soa_fib.Common.{
  ℕ, suc, ◌≡◌, ◌≢◌, refl, sym, ap, ap₂, ◌∙◌, true, false, some, arith, ◌==◌, update, update_ne,
  update_self, Bool-cases, inl, inr, ==→eq, pos,
}
use mathlib.Core.Path.{fun_ext}
use so2_soa_fib.ListHead.{Ptr, Links, list_add_tail}
use so2_soa_fib.Kernel.{Kernel, Task, current, set_task, allocate_dir, init_stat, node}
use so2_soa_fib.Sched.{set_links}
use so2_soa_fib.Sched.Policy.{home}
use so2_soa_fib.Fork.{copy_node, copy_pcb, enter_queue}

update_same {ℓ} : {A : Type ℓ} (f : ℕ → A) (p : ℕ) (v : A) → v ≡ f p → update f p v ≡ f
unfolding update
update_same f p v e = fun_ext λ q. elim (Bool-cases (q == p)) [
  | inl same ↦ rw same (e ∙ ap f (sym (==→eq q p same)))
  | inr differs ↦ rw differs
]

copy_node-null :
    (from to : Ptr) (m : Links)
    → m.next from ≡ m.next to
    → m.prev from ≡ m.prev to
    → copy_node from to m ≡ m
unfolding copy_node
copy_node-null from to m n p =
    ap₂ {C = Links} (λ a b. record { next = a; prev = b }) (update_same m.next to (m.next from) n)
      (update_same m.prev to (m.prev from) p)

-- The state in which `sys_fork` reserves the frames.
abbrev pub prepared : ℕ → Links → Kernel → Kernel
prepared child m k = allocate_dir child (copy_pcb child (set_links m k))

pub prepared-child :
    (child : ℕ) (m : Links) (k : Kernel)
    → (prepared child m k).task child ≡ record (current k) { dir = child }
unfolding allocate_dir copy_pcb set_links
prepared-child child m k =
    update_self _ child _
    ∙ ap {A = Task} {B = Task} (λ t. record t { dir = child })
        (update_self k.task child (current k))

pub prepared-running :
    (child : ℕ) (m : Links) (k : Kernel)
    → k.running ≢ child
    → current (prepared child m k) ≡ current k
unfolding allocate_dir copy_pcb set_links
prepared-running child m k n = update_ne _ child _ n ∙ update_ne k.task child (current k) n

pub prepared-links :
    (child : ℕ) (m : Links) (k : Kernel)
    → m.next (node k.running) ≡ m.next (node child)
    → m.prev (node k.running) ≡ m.prev (node child)
    → (prepared child m k).links ≡ m
unfolding allocate_dir copy_pcb set_links
prepared-links child m k n p = copy_node-null (node k.running) (node child) m n p

pub prepared-phys_mem :
    (child : ℕ) (m : Links) (k : Kernel) → (prepared child m k).phys_mem ≡ k.phys_mem
unfolding allocate_dir copy_pcb set_links
prepared-phys_mem child m k = refl

-- The state after `enter_queue`, with the links `m`.
abbrev pub numbered : ℕ → Kernel → Kernel
numbered child j = init_stat child (
    set_task child (record (j.task child) { pid = pos j.next_pid })
      (record j { next_pid = suc j.next_pid }))

pub numbered-child :
    (child : ℕ) (j : Kernel)
    → (((numbered child j).task child).nice ≡ (j.task child).nice)
      × (((numbered child j).task child).quantum ≡ (j.task child).quantum)
      × (((numbered child j).task child).brk ≡ (j.task child).brk)
      × (((numbered child j).task child).dir ≡ (j.task child).dir)
      × (((numbered child j).task child).pid ≡ pos j.next_pid)
unfolding init_stat set_task update
numbered-child child j =
    let same : (child == child) ≡ true = ground arith in rw same (refl, refl, refl, refl, refl)

pub numbered-other : (child i : ℕ) (j : Kernel) → i ≢ child → (numbered child j).task i ≡ j.task i
unfolding init_stat set_task update
numbered-other child i j n = let other : (i == child) ≡ false = ground arith in rw other

numbered-links : (child : ℕ) (j : Kernel) → (numbered child j).links ≡ j.links
unfolding init_stat set_task
numbered-links child j = refl

pub enter_queue-numbered :
    (child : ℕ) (j : Kernel) (m : Links)
    → list_add_tail (node child) (home (j.task child).nice) j.links ≡ some m
    → enter_queue child j ≡ some (pos j.next_pid, set_links m (numbered child j))
unfolding enter_queue
enter_queue-numbered child j m e = rw ((numbered-child child j).0, numbered-links child j, e) refl
