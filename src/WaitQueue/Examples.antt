-- ===== src/WaitQueue/Examples.antt =====
-- Two processes that wait at a port, and one that waits at another.
use a9n.Base.{◌≡◌, refl, ◌∙◌, [], ◌∷◌, write, erase}
use a9n.Base.Result.{ok}
use a9n.WaitQueue.{Pointers, push, pop, pop_ipc, remove}
use a9n.WaitQueue.Equal.{pop_ipc-pop}
use a9n.WaitQueue.Pop.{pop-Represents}
use a9n.WaitQueue.Push.{enqueue, push-port, push-Represents}
use a9n.WaitQueue.Queues.{Waiters, Represents, no_waiters, no_waiters-Represents}
use a9n.WaitQueue.Remove.{remove-Represents}

abbrev nobody : Waiters
nobody = λ _. []

-- Process 3 at port 1, then process 4, and process 5 at port 2.
abbrev one : Pointers
one = push no_waiters 1 3

abbrev two : Pointers
two = push one 1 4

one-Represents : Represents one (enqueue nobody 1 3)
one-Represents = push-Represents no_waiters nobody 1 3 no_waiters-Represents refl

two-Represents : Represents two (enqueue (enqueue nobody 1 3) 1 4)
two-Represents =
    push-Represents one (enqueue nobody 1 3) 1 4 one-Represents (push-port no_waiters 1 3 4)

push-Represents_example : Represents (push two 2 5) (enqueue (enqueue (enqueue nobody 1 3) 1 4) 2 5)
push-Represents_example =
    push-Represents two (enqueue (enqueue nobody 1 3) 1 4) 2 5 two-Represents
      (push-port one 1 4 5 ∙ push-port no_waiters 1 3 5)

pop-Represents_example :
    ((pop two 1).0 ≡ ok 3)
    × Represents (pop two 1).1 (write (enqueue (enqueue nobody 1 3) 1 4) 1 (4 ∷ []))
pop-Represents_example =
    pop-Represents two (enqueue (enqueue nobody 1 3) 1 4) 1 3 (4 ∷ []) two-Represents refl

pop_ipc-pop_example : pop_ipc two 1 ≡ pop two 1
pop_ipc-pop_example = pop_ipc-pop two (enqueue (enqueue nobody 1 3) 1 4) 1 two-Represents

remove-Represents_example :
    ((remove two 1 4).0 ≡ ok tt)
    × Represents
        (remove two 1 4).1
        (write (enqueue (enqueue nobody 1 3) 1 4) 1 (erase 4 (3 ∷ 4 ∷ [])))
remove-Represents_example =
    remove-Represents two (enqueue (enqueue nobody 1 3) 1 4) 1 4 two-Represents
      (push-port one 1 4 4)
