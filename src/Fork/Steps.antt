-- ===== src/Fork/Steps.antt =====
-- The steps of `sys_fork` on a free PCB: the queues, the state before and after the frames are
-- reserved, and the child.
use so2_soa_fib.Common.{
  ℕ, ◌-◌, ◌≡◌, ◌≢◌, refl, sym, ap, ◌∙◌, false, none, some, List, ◌∷◌, arith, length, ltb, ◌==◌,
  update, Out, subst, Bool-cases, inl, inr, ==→eq, pos, neg,
}
use mathlib.Core.Path.{fun_ext}
use so2_soa_fib.ListHead.{Ptr, Links, list_first, list_del, list_add, list_add_tail}
use so2_soa_fib.ListHead.Chain.{first_of}
use so2_soa_fib.ListHead.Queue.{list_first-first_of, list_empty-is_empty}
use so2_soa_fib.PageTable.{pbase_addr}
use so2_soa_fib.Frames.{PhysMem, reserve}
use so2_soa_fib.Frames.Reserve.{AllFree, mark}
use so2_soa_fib.Kernel.{
  Kernel, current, get_pt, set_task, allocate_dir, init_stat, freequeue, node,
  list_head_to_task_struct,
}
use so2_soa_fib.Sched.{set_links}
use so2_soa_fib.Sched.Queues.{
  Queues, Holds, Detached, push_back, list_del-Detached, list_add-Holds, list_add-Detached,
  list_add_tail-Detached, list_add_tail-Holds,
}
use so2_soa_fib.Sched.Policy.{IsScheduled, home}
use so2_soa_fib.Sched.Policy.Turn.{home-IsHead}
use so2_soa_fib.Fork.{copy_pcb, inherit, fork_frames, fork_child, sys_fork}
use so2_soa_fib.Fork.Views.{InUse}
use so2_soa_fib.Fork.Inherit.{inherit-views}
use so2_soa_fib.Fork.Child.{
  prepared, prepared-child, prepared-running, prepared-links, prepared-phys_mem, numbered,
  numbered-child, numbered-other, enter_queue-numbered,
}
use so2_soa_fib.Fork.Spec.{data_pages, IsCopy, Views, IsChild}

module _ (k : Kernel) (q : Queues) (x : Ptr) (xs : List Ptr) (is : IsScheduled k q)
    (front : q freequeue ≡ x ∷ xs) (m : Links) (del : list_del x k.links ≡ some m)
    (holds : Holds m (update q freequeue xs)) (out : Detached x m (update q freequeue xs)) where
  abbrev child : ℕ
  child = x - 4

  node-child : node child ≡ x
  node-child = omega (arith, out.is_node)

  running-ne : k.running ≢ child
  running-ne e =
      let o = subst (Out (node k.running)) front (is.out.outside freequeue (omega arith)) in
      o.0 (omega (arith, out.is_node))

  running-Detached : Detached (node k.running) m (update q freequeue xs)
  running-Detached =
      list_del-Detached freequeue x xs (omega arith) is.holds front (node k.running) del
        (λ e. running-ne (omega arith)) is.out

  ready-links : (prepared child m k).links ≡ m
  ready-links =
      prepared-links child m k
        (running-Detached.next_null ∙ sym (ap m.next node-child ∙ out.next_null))
        (running-Detached.prev_null ∙ sym (ap m.prev node-child ∙ out.prev_null))

  pub fork_child-prepared :
      fork_child k
      ≡ fork_frames child
          (data_pages (current k))
          (reserve (data_pages (current k)) k.phys_mem)
          (prepared child m k)
  unfolding fork_child list_head_to_task_struct
  fork_child-prepared =
      let first : list_first freequeue k.links ≡ some x =
        list_first-first_of (q freequeue) (is.holds.queue freequeue (omega arith))
        ∙ ap (λ ys. some (first_of ys freequeue)) front in
      let task : ltb x 4 ≡ false = ground (arith, out.is_node) in
      rw (first, del, task, prepared-running child m k running-ne, prepared-phys_mem child m k) refl

  pub sys_fork-child : sys_fork k ≡ fork_child k
  unfolding sys_fork
  sys_fork-child =
      rw (list_empty-is_empty (q freequeue) (is.holds.queue freequeue (omega arith)), front) refl

  -- With the frames reserved, and with too few of them.
  pid_of :
      (fs : List ℕ)
      → (inherit child
          (data_pages (current k))
          fs
          (record (prepared child m k) { phys_mem = mark fs k.phys_mem })).next_pid
        ≡ k.next_pid
  unfolding inherit allocate_dir copy_pcb set_links
  pid_of fs = refl

  -- The state in which the child inherits, and the one that `enter_queue` gets.
  abbrev reserved : List ℕ → Kernel
  reserved fs = record (prepared child m k) { phys_mem = mark fs k.phys_mem }

  abbrev inherited : List ℕ → Kernel
  inherited fs = inherit child (data_pages (current k)) fs (reserved fs)

  inherited-links : (fs : List ℕ) → (inherited fs).links ≡ m
  unfolding inherit
  inherited-links fs = ready-links

  inherited-task : (fs : List ℕ) → (inherited fs).task ≡ (prepared child m k).task
  unfolding inherit
  inherited-task fs = refl

  inherited-child : (fs : List ℕ) → (inherited fs).task child ≡ record (current k) { dir = child }
  inherited-child fs = rw inherited-task (prepared-child child m k)

  add_child :
      (fs : List ℕ) (m3 : Links)
      → list_add_tail x (home (current k).nice) m ≡ some m3
      → list_add_tail (node child) (home ((inherited fs).task child).nice) (inherited fs).links
        ≡ some m3
  add_child fs m3 e = rw (node-child, inherited-child fs, inherited-links fs) e

  fork_frames-numbered :
      (fs : List ℕ) (m3 : Links)
      → list_add_tail x (home (current k).nice) m ≡ some m3
      → fork_frames child
          (data_pages (current k))
          (some fs, mark fs k.phys_mem)
          (prepared child m k)
        ≡ some (pos k.next_pid, set_links m3 (numbered child (inherited fs)))
  unfolding fork_frames
  fork_frames-numbered fs m3 e =
      enter_queue-numbered child (inherited fs) m3 (add_child fs m3 e)
      ∙ ap (λ p. some (pos p, set_links m3 (numbered child (inherited fs)))) (pid_of fs)

  done_queues :
      (fs : List ℕ) (m3 : Links)
      → Holds m3 (push_back (update q freequeue xs) (home (current k).nice) x)
      → Detached (node k.running) m3 (push_back (update q freequeue xs) (home (current k).nice) x)
      → IsScheduled
          (set_links m3 (numbered child (inherited fs)))
          (push_back (update q freequeue xs) (home (current k).nice) (node child))
  unfolding set_links inherit init_stat set_task allocate_dir copy_pcb
  done_queues fs m3 h o = rw node-child (record { holds = h; out = o })

  done-Views :
      (fs : List ℕ) (m3 : Links)
      → length fs ≡ data_pages (current k)
      → AllFree fs k.phys_mem
      → InUse (data_pages (current k)) (k.tables (get_pt k (current k))) k.phys_mem
      → get_pt k (current k) ≢ pbase_addr (k.dir_pages child)
      → Views k child (set_links m3 (numbered child (inherited fs)))
  unfolding set_links init_stat set_task allocate_dir copy_pcb
  done-Views fs m3 len free used apart =
      let (c, p) =
        inherit-views (data_pages (current k)) child fs k.phys_mem (reserved fs)
          (get_pt k (current k)) (pbase_addr (k.dir_pages child)) free len
          (ap (λ t. pbase_addr (k.dir_pages t.dir)) (prepared-running child m k running-ne))
          (ap (λ t. pbase_addr (k.dir_pages t.dir)) (prepared-child child m k)) used apart in
      record { child_memory = c; parent_memory = p }

  done_parent :
      (fs : List ℕ) (m3 : Links)
      → (current (set_links m3 (numbered child (inherited fs))) ≡ current k)
        × ((set_links m3 (numbered child (inherited fs))).running ≡ k.running)
  unfolding set_links init_stat set_task inherit allocate_dir copy_pcb
  done_parent fs m3 = (
    numbered-other child k.running (inherited fs) running-ne
        ∙ prepared-running child m k running-ne,
    refl,
  )

  done_child :
      (fs : List ℕ) (m3 : Links) → IsCopy k child (set_links m3 (numbered child (inherited fs)))
  unfolding set_links
  done_child fs m3 =
      let (nice, quantum, brk, dir, pid) = numbered-child child (inherited fs) in
      let same = inherited-child fs in
      record {
        pid = pid ∙ ap pos (pid_of fs);
        dir = dir ∙ ap (λ t. t.dir) same;
        nice = nice ∙ ap (λ t. t.nice) same;
        quantum = quantum ∙ ap (λ t. t.quantum) same;
        brk = brk ∙ ap (λ t. t.brk) same;
      }

  -- The child is in its queue, whatever the frames hold.
  pub fork_queued :
      (fs : List ℕ)
      → (m3 : Links) × (fork_frames child
            (data_pages (current k))
            (some fs, mark fs k.phys_mem)
            (prepared child m k)
          ≡ some (pos k.next_pid, set_links m3 (numbered child (inherited fs))))
        × IsScheduled
            (set_links m3 (numbered child (inherited fs)))
            (push_back (update q freequeue xs) (home (current k).nice) (node child))
  fork_queued fs =
      let ih = home-IsHead (current k).nice in
      let h = home (current k).nice in
      let (m3, e, holds3) = list_add_tail-Holds h x ih holds out in
      let out3 =
        list_add_tail-Detached h x ih holds out (node k.running) e (λ f. running-ne (omega arith))
          running-Detached in
      (m3, fork_frames-numbered fs m3 e, done_queues fs m3 holds3 out3)

  pub fork_done :
      (fs : List ℕ)
      → length fs ≡ data_pages (current k)
      → AllFree fs k.phys_mem
      → InUse (data_pages (current k)) (k.tables (get_pt k (current k))) k.phys_mem
      → get_pt k (current k) ≢ pbase_addr (k.dir_pages child)
      → (k' : Kernel) × (fork_frames child
            (data_pages (current k))
            (some fs, mark fs k.phys_mem)
            (prepared child m k)
          ≡ some (pos k.next_pid, k'))
        × IsChild k q xs child k'
  fork_done fs len free used apart =
      let (m3, e, is3) = fork_queued fs in
      (
        set_links m3 (numbered child (inherited fs)),
        e,
        record {
          queues = is3;
          copy = done_child fs m3;
          parent = done_parent fs m3;
          views = done-Views fs m3 len free used apart;
        },
      )

  restored : update (update q freequeue xs) freequeue (x ∷ update q freequeue xs freequeue) ≡ q
  unfolding update
  restored = fun_ext λ h. elim (Bool-cases (h == freequeue)) [
    | inl same ↦ rw same (sym front ∙ ap q (sym (==→eq h freequeue same)))
    | inr differs ↦ rw differs refl
  ]

  failed-eq :
      (mem : PhysMem) (m2 : Links)
      → list_add x freequeue m ≡ some m2
      → fork_frames child (data_pages (current k)) (none, mem) (prepared child m k)
        ≡ some (neg 12, set_links m2 (record (prepared child m k) { phys_mem = mem }))
  unfolding fork_frames
  failed-eq mem m2 e = rw (node-child, ready-links, e) refl

  pub fork_failed :
      (mem : PhysMem)
      → (k' : Kernel) × (fork_frames child (data_pages (current k)) (none, mem) (prepared child m k)
          ≡ some (neg 12, k'))
        × IsScheduled k' q
        × (k'.tables ≡ k.tables)
        × (k'.ram ≡ k.ram)
        × (current k' ≡ current k)
        × (k'.phys_mem ≡ mem)
  unfolding set_links allocate_dir copy_pcb
  fork_failed mem =
      let (m2, e, holds2) = list_add-Holds freequeue x (omega arith) holds out in
      let out2 =
        list_add-Detached freequeue x (omega arith) holds out (node k.running) e
          (λ f. running-ne (omega arith)) running-Detached in
      (
        set_links m2 (record (prepared child m k) { phys_mem = mem }),
        failed-eq mem m2 e,
        record {
          holds = subst (Holds m2) restored holds2;
          out = subst (Detached (node k.running) m2) restored out2;
        },
        refl,
        refl,
        prepared-running child m k running-ne,
        refl,
      )
