-- ===== src/Lib.antt =====
-- The A9N microkernel: its scheduler and process manager, the notification and IPC ports with their wait
-- queues, the capability slots with the dependency chain, their reclamation, and the memory that
-- Generic capabilities hand out.
--
-- The kernel runs under one lock, so each operation is a function from the state before it to its
-- result and the state after it. Kernel objects are addresses; each field of a struct is a map from
-- addresses (`Processes`, `Slots`), and a write of one field leaves the other maps alone. Where the
-- source follows pointers through a loop, the model does so on fuel, and `none` (or `out_of_fuel`)
-- means that the fuel ended first.
--
-- Files and the code they model (paths from the repository's root):
--   Base/*             shared tests, lists, integers and results (liba9n's result<T, E>)
--   Dll                doubly linked lists through the pointers of kernel objects
--   Hal                src/hal/include/hal/interface: what the kernel calls of the hardware layer, an
--                      interface
--   Process            src/kernel/include/kernel/process/process.hpp, the fields of a process
--   Kernel/*           the state that the operations of the ports and of the process manager share
--                      (cpu.hpp, notification_port.hpp, ipc_port.hpp, ipc_buffer.hpp in
--                      src/kernel/include/kernel), and the chaining of results
--   Scheduler/*        src/kernel/process/scheduler.cpp and scheduler.hpp: schedule, add_process,
--                      remove_process, try_direct_schedule
--   Manager/*          src/kernel/process/process_manager.cpp and process_manager.hpp: the current
--                      process of a core, yield, the switches, and the routing to a process's core
--   Stop/*             src/kernel/process/reclamation.cpp: how a process is stopped, also on another core
--   WaitQueue/*        the wait queues of src/kernel/capability/notification_port.cpp and ipc_port.cpp
--   IpcQueue/*         the push_ipc_queue, pop_ipc_queue and remove_ipc_queue of ipc_port.cpp
--   RevokedWait/*      complete_revoked_wait of ipc_port.cpp
--   Notification/*     src/kernel/capability/notification_port.cpp, notification_port.hpp and
--                      src/kernel/include/kernel/ipc/notification.hpp: the operations of a port, the
--                      notification of a bound process, the revocation
--   MessageInfo/*      ipc_port::message_info of src/kernel/include/kernel/capability/ipc_port.hpp
--   IpcPort/*          src/kernel/capability/ipc_port.cpp: the operations of a port, the transfer of
--                      messages and faults, the reply relation, the revocation, the transfer of
--                      capabilities (move_capabilities)
--   ControlBlock/*     src/kernel/capability/process_control_block.cpp and process_control_block.hpp: the
--                      configuration, the registers, the resumption, the suspension and the
--                      revocation of a process
--   Fixture            a hardware layer of plain registers, for the examples
--   CapabilityTypes    src/kernel/include/kernel/capability/capability_types.hpp and
--                      capability_local_state.hpp
--   Slot/*             src/kernel/include/kernel/capability/capability_component.hpp: slots, alias
--                      groups, insertion, move and copy
--   Reclamation/*      src/kernel/capability/capability_node_reclamation.cpp: revoke_slot and
--                      remove_slot, over an interface of objects
--   Generic/*          src/kernel/capability/generic.cpp and generic.hpp: the allocation cursor and
--                      the revocation
--   Node/*             src/kernel/capability/capability_node.cpp and capability_node.hpp: the lookup by
--                      index, the traversal of descriptors, the operations and the teardown of a node
--   Calculate/*        src/liba9n/include/liba9n/common/calculate.hpp: alignment, powers of two
--
-- How the parts interact: the scheduler works on the processes' queue pointers and calls nothing else.
-- The process manager calls the scheduler of its core, or of the core of the process that it acts on,
-- and the context switch of the hardware layer. The ports keep their waiting processes in wait
-- queues and block and wake them through the process manager; they read and write message registers
-- through the hardware layer. A notification to a port that nobody waits at goes to the process bound
-- to it, which leaves the queue of the IPC port where it receives. The reclamation removes
-- slots by the slot operations, and calls the objects' own `revoke` through the record `Objects`; the
-- Generic's `revoke` is one of these and asks the slots whether anything is derived from it. The
-- Generic's cursor is aligned by Calculate. A node's transfers move and copy slots by the slot
-- operations. The stop of a process takes it out of scheduling by the process manager and asks the
-- core that runs it to go idle; that core serves the request while it waits for the lock. A process
-- control block stops its process, takes it out of the wait queues and the reply relation by the
-- operations of the ports, and makes it ready by the process manager.
--
-- Fuel: a walk along a ready queue needs the length of the queue (`mark_suspended` and the switch to
-- a process take it for the removal from the queue, and the stop of a process likewise), the traversal
-- of a descriptor one round for each node on its path, the search for the last alias one more than the
-- number of slots behind, the reclamation three calls a slot behind and two more, and the loop
-- of a port's `revoke` one round for each waiting process and one more. `calculate_radix` halves a
-- 64-bit word at most 64 times.
--
-- Not modelled: the hardware layer (src/hal) but for its interface, boot and logging; of the process
-- manager `init`, `init_idle_context` and `switch_to_user`, which set up hardware contexts; the
-- conversion of Generic memory into objects, address spaces and page tables, interrupts and I/O ports,
-- virtual CPUs, and the dispatch of kernel calls; the lock itself and the floating-point contexts. The
-- operations that look a descriptor up take the lookup as an argument, which Node.Traverse gives for
-- the nodes. The slot removal of the process control block (try_remove_and_init), which a hypothesis says
-- leaves the priority and the core of the process alone, and that in the revocation of a notification
-- port are arguments. The teardown of a node recursively removes the slots in it, and is no object with
-- a local teardown; it is modelled on fuel, and the results on the reclamation say which objects they take.
pub mod Base
pub mod Calculate
pub mod CapabilityTypes
pub mod ControlBlock
pub mod Dll
pub mod Fixture
pub mod Generic
pub mod Hal
pub mod IpcPort
pub mod IpcQueue
pub mod Kernel
pub mod Manager
pub mod MessageInfo
pub mod Node
pub mod Notification
pub mod Process
pub mod Reclamation
pub mod RevokedWait
pub mod Scheduler
pub mod Slot
pub mod Stop
pub mod WaitQueue
