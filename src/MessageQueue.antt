-- ===== src/MessageQueue.antt =====
-- src/rtos.c, message queues: a ring of ten `int`s, with callers that block on full and empty.
pub mod Fifo
pub mod Ring
pub mod Refine
pub mod Progress
use mini_rtos_sim.Base.{
  ◌==◌, if◌then◌else◌, ℤ, set, ℕ, ◌+◌, ◌-◌, ◌%◌, Bool, true, false, Option, none, some,
}
use mini_rtos_sim.Task.{blocked, block_queue_full, block_queue_empty, queue_size}
use mini_rtos_sim.Kernel.{
  Kernel, scheduler_set_current_task_state, scheduler_unblock_one, rtos_current_task,
}
use mini_rtos_sim.Sync.{◌>>=◌}

pub record MessageQueue : Type 0 where
  pub buffer : ℕ → ℤ
  pub front : ℕ
  pub rear : ℕ
  pub count : ℕ

unfoldable pub queue_init : MessageQueue → MessageQueue
queue_init queue = record queue { front = 0; rear = 0; count = 0 }

abbrev pub enqueued : MessageQueue → ℤ → MessageQueue
enqueued queue value = record {
  buffer = set queue.buffer queue.rear value;
  front = queue.front;
  rear = (queue.rear + 1) % queue_size;
  count = queue.count + 1;
}

abbrev pub dequeued : MessageQueue → MessageQueue
dequeued queue = record queue { front = (queue.front + 1) % queue_size; count = queue.count - 1 }

-- The Boolean is the result; `none` is the fault of a call outside a task.
unfoldable pub rtos_queue_send : MessageQueue → ℤ → Kernel → Option (Bool × MessageQueue × Kernel)
rtos_queue_send queue value k = do
  task ← rtos_current_task k
  if queue.count == queue_size
      then some (false, queue, scheduler_set_current_task_state blocked block_queue_full k)
      else do k' ← scheduler_unblock_one block_queue_empty k; some (true, enqueued queue value, k')

-- The inner option is what goes through `value`, `none` where the call returns false.
unfoldable pub rtos_queue_receive :
    MessageQueue → Kernel → Option (Option ℤ × MessageQueue × Kernel)
rtos_queue_receive queue k = do
  task ← rtos_current_task k
  if queue.count == 0
      then some (none, queue, scheduler_set_current_task_state blocked block_queue_empty k)
      else do
        k' ← scheduler_unblock_one block_queue_full k
        some (some (queue.buffer queue.front), dequeued queue, k')
