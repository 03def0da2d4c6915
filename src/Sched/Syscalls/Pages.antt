-- ===== src/Sched/Syscalls/Pages.antt =====
-- Invariants in the system calls on memory and messages (sched/kern/syscall.c).
use Prim.Native.Nat.{bit_or}
use tps_sis_ops.Base.{ℕ, refl, Option, none, some, true, ◌&&◌, ◌||◌, not, leb, ◌==◌, ◌%◌}
use tps_sis_ops.Sched.Memory.{
  Memory, pgsize, utop, ptx, has_bit, page_alloc, Insert, inserted, no_memory, Mapping, no_page,
  bad_page, page_in,
}
use tps_sis_ops.Sched.PageCalls.{
  check_perm, after_insert, insert_new, env_page_alloc, map_found, env_page_map, after_remove,
  deliver, set_ipc_perm, send_page, send_found, try_send,
}
use tps_sis_ops.Sched.Env.{Env, Kernel}
use tps_sis_ops.Sched.Scheduler.{Exit}
use tps_sis_ops.Sched.Syscalls.Interface.{untouched-IsTame, stopped-IsTame, Keeps, ReturnKeeps}
use tps_sis_ops.Sched.Syscalls.Outcomes.{either-Keeps, then_ok-Keeps}

module _ {P : (ℕ → Env) → Option ℕ → Type 0} {Q : Exit → Type 0} (inv : Keeps P Q) where
  pub after_insert-Keeps :
      (k : Kernel) (r : Insert) → P k.envs k.curenv → ReturnKeeps P Q (after_insert k r)
  after_insert-Keeps k (inserted m) b = b
  after_insert-Keeps k (no_memory m) b = b
  after_insert-Keeps k Insert.panicked b = inv.panics

  pub insert_new-Keeps :
      (k : Kernel) (i va perm : ℕ) (o : Option ℕ × Memory)
      → P k.envs k.curenv
      → ReturnKeeps P Q (insert_new k i va perm o)
  insert_new-Keeps k i va perm (none, m) b = b
  insert_new-Keeps k i va perm (some p, m) b = after_insert-Keeps k _ b

  pub env_page_alloc-Keeps :
      (k : Kernel) (i va perm : ℕ)
      → P k.envs k.curenv
      → ReturnKeeps P Q (env_page_alloc k i va perm)
  unfolding env_page_alloc
  env_page_alloc-Keeps k i va perm b =
      either-Keeps inv (check_perm perm) _ _
        (insert_new-Keeps k i va perm (page_alloc true k.memory) b) b

  pub map_found-Keeps :
      (k : Kernel) (srcva dst dstva perm : ℕ) (f : Mapping)
      → P k.envs k.curenv
      → ReturnKeeps P Q (map_found k srcva dst dstva perm f)
  map_found-Keeps k srcva dst dstva perm no_page b = b
  map_found-Keeps k srcva dst dstva perm bad_page b = inv.panics
  map_found-Keeps k srcva dst dstva perm (page_in p t) b =
      either-Keeps inv (has_bit perm 2 && not (has_bit (k.memory.words t (ptx srcva)) 2)) _ _ b
        (after_insert-Keeps k _ b)

  pub env_page_map-Keeps :
      (k : Kernel) (src srcva dst dstva perm : ℕ)
      → P k.envs k.curenv
      → ReturnKeeps P Q (env_page_map k src srcva dst dstva perm)
  unfolding env_page_map
  env_page_map-Keeps k src srcva dst dstva perm b = map_found-Keeps k srcva dst dstva perm _ b

  pub after_remove-Keeps :
      (k : Kernel) (o : Option Memory) → P k.envs k.curenv → ReturnKeeps P Q (after_remove k o)
  after_remove-Keeps k none b = inv.panics
  after_remove-Keeps k (some m) b = b

  pub deliver-Keeps :
      (k : Kernel) (c i message : ℕ) → P k.envs k.curenv → ReturnKeeps P Q (deliver k c i message)
  unfolding deliver
  deliver-Keeps k c i message b =
      inv.changes k.envs k.curenv i _ b (stopped-IsTame k.envs i _ refl refl)

  pub send_page-Keeps :
      (k : Kernel) (c i srcva perm : ℕ)
      → P k.envs k.curenv
      → ReturnKeeps P Q (send_page k c i srcva perm)
  unfolding send_page
  send_page-Keeps k c i srcva perm b = either-Keeps inv ((k.envs i).env_ipc_dstva == 0) _ _ b (
      then_ok-Keeps inv _ _ (env_page_alloc-Keeps k i _ perm b) λ k' b'.
        then_ok-Keeps inv _ _ (env_page_map-Keeps k' c srcva i _ perm b') λ k'' b''.
          inv.changes k''.envs k''.curenv i _ b'' (untouched-IsTame k''.envs i _ refl refl))

  pub send_found-Keeps :
      (k : Kernel) (c i message srcva perm : ℕ) (f : Mapping)
      → P k.envs k.curenv
      → ReturnKeeps P Q (send_found k c i message srcva perm f)
  send_found-Keeps k c i message srcva perm no_page b = inv.faults
  send_found-Keeps k c i message srcva perm bad_page b = inv.panics
  send_found-Keeps k c i message srcva perm (page_in p t) b =
      let pte = k.memory.words t (ptx srcva) in
      either-Keeps inv
        ((not (pte == 0) && not (has_bit pte 1)) || (has_bit perm 2 && not (has_bit pte 2))) _ _ b
        (then_ok-Keeps inv _ _ (send_page-Keeps k c i srcva (bit_or perm 5) b)
          λ k' b'. deliver-Keeps k' c i message b')

  pub try_send-Keeps :
      (k : Kernel) (c i message srcva perm : ℕ)
      → P k.envs k.curenv
      → ReturnKeeps P Q (try_send k c i message srcva perm)
  unfolding try_send
  try_send-Keeps k c i message srcva perm b =
      either-Keeps inv (not (k.envs i).env_ipc_recving) _ _ b (
        either-Keeps inv (leb utop srcva) _ _
          (deliver-Keeps (set_ipc_perm k i 0) c i message
            (inv.changes k.envs k.curenv i _ b (untouched-IsTame k.envs i _ refl refl)))
          (either-Keeps inv (not (srcva % pgsize == 0)) _ _ b
            (send_found-Keeps k c i message srcva perm _ b)))
