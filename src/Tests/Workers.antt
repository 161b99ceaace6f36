-- ===== src/Tests/Workers.antt =====
-- The workers of src/thread-pool.c on a queue with one job.
use aml.Base.{refl, [], ◌∷◌, some}
use aml.ThreadPool.{Pool, sentinel, enqueue_work, dequeue_work}
use aml.ThreadPool.Order.{History, Reaches, begin, give, close, take, InOrder, dequeue_work-InOrder}

abbrev idle_pool : Pool
idle_pool = record { work_queue = []; n_thread_pool_users = 1; n_threads = 2; workers = 2 }

-- A job is given, the pool is closed, and a worker takes the job.
abbrev closed_history : History
closed_history = record { given = 8 ∷ []; taken = 8 ∷ []; closed = some (8 ∷ []) }

abbrev closed_pool : Pool
closed_pool = record idle_pool { work_queue = sentinel ∷ [] }

closed_pool-Reaches : Reaches idle_pool closed_history closed_pool
unfolding enqueue_work dequeue_work
closed_pool-Reaches = take refl (close refl (give 8 begin))

dequeue_work-InOrder_example : InOrder closed_history (dequeue_work closed_pool.work_queue)
dequeue_work-InOrder_example =
    dequeue_work-InOrder idle_pool closed_history closed_pool refl closed_pool-Reaches
