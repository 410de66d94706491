-- ===== src/Notification/Bind.antt =====
-- The binding of a process to a notification port changes the port alone.
use a9n.Base.{ℕ, ◌≡◌, refl, Bool, true, false, none, some, points_to, if◌then◌else◌}
use a9n.Base.Result.{Result, ok, err, KernelError, illegal_argument}
use a9n.Kernel.{Kernel}
use a9n.Notification.{bind_process, unbind_process, is_bound_elsewhere, set_binded, set_ports}

-- The state without the notification ports.
abbrev pub without_ports : Kernel → Kernel
without_ports k = set_ports (record (k.notification_ports) { binded_process = λ _. none }) k

if-same :
    (b : Bool) (x y : Result (Unit {0}) KernelError × Kernel) (k : Kernel)
    → without_ports x.1 ≡ without_ports k
    → without_ports y.1 ≡ without_ports k
    → without_ports (if b then x else y).1 ≡ without_ports k
if-same true x y k e e' = e
if-same false x y k e e' = e'

pub bind_process-same :
    (n p : ℕ) (k : Kernel) → without_ports (bind_process n p k).1 ≡ without_ports k
unfolding bind_process
bind_process-same n p k =
    if-same (is_bound_elsewhere (k.notification_ports.binded_process n) p) (err illegal_argument, k)
      (ok tt, set_binded n (some p) k) k refl refl

pub unbind_process-same :
    (n p : ℕ) (k : Kernel) → without_ports (unbind_process n p k).1 ≡ without_ports k
unfolding unbind_process
unbind_process-same n p k =
    if-same (points_to (k.notification_ports.binded_process n) p) (ok tt, set_binded n none k)
      (err illegal_argument, k) k refl refl
