-- ===== src/Scheduler.antt =====
-- scheduler.c and scheduler.h: the ring of tasks and the switch between them. A task is reached by its
-- address, 0 is NULL, and the tasks are a function from the address. Interrupts are off in every
-- operation, so that each is one step.
pub mod Ring
pub mod Tick
pub mod Enroll
pub mod Lookup
mod Tests
use cuore_os.Base.{
  ℕ, zero, suc, ◌+◌, ◌-◌, bit_and, Bool, not, ◌&&◌, Option, none, some, List, [], ◌∷◌, u64, not64,
  ◌==◌, if◌then◌else◌, store, Run, ok, panic,
}
use cuore_os.Vmm.{page_size_2mb}

-- `task_t`
pub record Task : Type 0 where
  pub upid : ℕ
  pub rsp : ℕ
  pub cr3 : ℕ
  pub next : ℕ
  pub prev : ℕ
  pub stack_base : ℕ

-- The tasks, the current one, the number of the next one, and the table of pages in use; then what was
-- given to `free` and to `pma_free_pages`.
pub record Scheduler : Type 0 where
  pub tasks : ℕ → Task
  pub current : ℕ
  pub current_pid : ℕ
  pub pml4 : ℕ
  pub freed : List ℕ
  pub freed_stacks : List ℕ

abbrev pub set_next : (a v : ℕ) → (ℕ → Task) → ℕ → Task
set_next a v t = store t a (record (t a) { next = v })

abbrev pub set_prev : (a v : ℕ) → (ℕ → Task) → ℕ → Task
set_prev a v t = store t a (record (t a) { prev = v })

-- A task leaves the ring, and its memory is given back.
unfoldable pub release_task : (hhdm_offset old : ℕ) → Scheduler → Scheduler
release_task hhdm_offset old s =
    let task = s.tasks old in
    record s {
      tasks = set_prev task.next task.prev (set_next task.prev task.next s.tasks);
      freed = old ∷ s.freed;
      freed_stacks =
          if task.stack_base == 0
          then s.freed_stacks
          else (task.stack_base - hhdm_offset) ∷ s.freed_stacks;
    }

unfoldable pub is_over : (old : ℕ) → Task → Bool
is_over old task =
    task.upid == 0 && not (old == task.next) && not (task.next == 0) && not (task.prev == 0)

-- The next task becomes the current one, with its table of pages.
unfoldable pub switch_to : (next : ℕ) → Scheduler → Scheduler
switch_to next s =
    let cr3 = (s.tasks next).cr3 in
    record s {
      current = next;
      pml4 = if not (cr3 == s.pml4) && not (cr3 == 0) then cr3 else s.pml4;
    }

-- `scheduler_timer_handler`: the frame to return to, and the state.
unfoldable pub timer_handler : (hhdm_offset tf : ℕ) → Scheduler → ℕ × Scheduler
unfolding release_task is_over switch_to
timer_handler hhdm_offset tf s =
    let old = s.current in
    let saved = record s { tasks = store s.tasks old (record (s.tasks old) { rsp = tf }) } in
    let next = (s.tasks old).next in
    let left = if is_over old (s.tasks old) then release_task hhdm_offset old saved else saved in
    ((left.tasks next).rsp, switch_to next left)

-- The loop of `get_task_by_upid`, on fuel for the tasks of the ring.
unfoldable pub find_upid : (fuel : ℕ) → (target_upid start curr : ℕ) → (ℕ → Task) → ℕ
find_upid zero target_upid start curr t = 0
find_upid (suc fuel) target_upid start curr t =
    let next = (t curr).next in
    let rest = find_upid fuel target_upid start next t in
    if (t curr).upid == target_upid then curr else if next == start then 0 else rest

unfoldable pub get_task_by_upid : (fuel : ℕ) → (target_upid : ℕ) → Scheduler → ℕ
unfolding find_upid
get_task_by_upid fuel target_upid s =
    if s.current == 0 then 0 else find_upid fuel target_upid s.current s.current s.tasks

-- `sizeof(struct trap_frame)`: 28 words.
abbrev pub trap_frame_size : ℕ
trap_frame_size = 224

-- The fields of the `struct trap_frame` at the top of a new stack that are not 0.
pub record TrapFrame : Type 0 where
  pub address : ℕ
  pub rip : ℕ
  pub cs : ℕ
  pub ss : ℕ
  pub rsp : ℕ
  pub rflags : ℕ

-- The frame of a task that begins at `entry_point`.
unfoldable pub first_frame : (hhdm_offset entry_point stack_phys : ℕ) → TrapFrame
first_frame hhdm_offset entry_point stack_phys =
    let top = bit_and (u64 (stack_phys + page_size_2mb + hhdm_offset)) (not64 0xF) in
    record {
      address = top - trap_frame_size;
      rip = entry_point;
      cs = 0x08;
      ss = 0x10;
      rsp = top;
      rflags = 0x202;
    }

-- `scheduler_create_task`, with what `zalloc` and `pma_alloc_pages_2mb` return: the task, and its frame.
unfoldable pub create_task :
    (hhdm_offset entry_point new_task stack_phys : ℕ)
    → Scheduler
    → (ℕ × Option TrapFrame) × Scheduler
unfolding first_frame
create_task hhdm_offset entry_point new_task stack_phys s =
    let frame = first_frame hhdm_offset entry_point stack_phys in
    let task : Task = record {
      upid = 0;
      rsp = frame.address;
      cr3 = s.pml4;
      next = 0;
      prev = 0;
      stack_base = u64 (stack_phys + hhdm_offset);
    } in
    if new_task == 0
    then ((0, none), s)
    else if stack_phys == 0
    then ((0, none), record s { freed = new_task ∷ s.freed })
    else ((new_task, some frame), record s { tasks = store s.tasks new_task task })

-- `scheduler_enroll_task`
unfoldable pub enroll_task : (new_task : ℕ) → Scheduler → Scheduler
enroll_task new_task s =
    let t = store s.tasks new_task (record (s.tasks new_task) { upid = s.current_pid }) in
    let last = (t s.current).prev in
    let linked =
      set_prev s.current new_task
        (set_next new_task s.current (set_prev new_task last (set_next last new_task t))) in
    if s.current == 0
    then record s {
      tasks = set_prev new_task new_task (set_next new_task new_task t);
      current = new_task;
      current_pid = u64 (s.current_pid + 1);
    }
    else record s { tasks = linked; current_pid = u64 (s.current_pid + 1) }

-- `scheduler_exit_task`, with the frame of the interrupt that it raises.
unfoldable pub exit_task : (hhdm_offset tf : ℕ) → Scheduler → Run (ℕ × Scheduler)
unfolding timer_handler
exit_task hhdm_offset tf s =
    let ended = record s {
      tasks = store s.tasks s.current (record (s.tasks s.current) { upid = 0 });
    } in
    if (s.tasks s.current).next == s.current then panic else ok (timer_handler hhdm_offset tf ended)

-- `scheduler_start`: what is reached before the wait.
unfoldable pub scheduler_start : Scheduler → Run Scheduler
scheduler_start s = if s.current == 0 then panic else ok s

-- `scheduler_init`, with what `zalloc` returns.
unfoldable pub scheduler_init : (bootstrap_task : ℕ) → Scheduler → Scheduler
scheduler_init bootstrap_task s = record s {
  tasks = store s.tasks bootstrap_task (record {
    upid = 0;
    rsp = 0;
    cr3 = s.pml4;
    next = bootstrap_task;
    prev = bootstrap_task;
    stack_base = 0;
  });
  current = bootstrap_task;
}
