-- ===== src/Fixture.antt =====
-- A hardware layer of plain registers and a kernel without waiting processes, for the examples.
use a9n.Base.{◌^◌, true, false, none, some, write}
use a9n.Base.Int.{pos}
use a9n.Base.Result.{ok}
use a9n.CapabilityTypes.{CapabilityType, zero_data}
use a9n.Hal.{Hal}
use a9n.Kernel.{
  Kernel, Cpu, Ends, NotificationState, NotificationPortState, NotificationPorts, IpcPortState,
}
use a9n.Process.{Processes, ProcessStatus, initial_processes}
use a9n.Scheduler.{initial}
use a9n.Slot.{Slots}

-- The one core is 0, and nothing fails.
abbrev pub plain_hal : Hal
plain_hal = record {
  hardware_context_size = 23;
  message_register_count = 10;
  kernel_virtual_base = 2 ^ 47;
  current_cpu = ok 0;
  switch_context = λ previous next r. (ok tt, r);
  send_ipi = λ core. ok tt;
  get_message_register = λ p index r. ok (r p index);
  configure_message_register = λ p index v r. (ok tt, write r p (write (r p) index v));
  get_instruction_pointer = λ p r. ok 0;
  core_count = 1;
  is_valid_user_address = λ v. true;
  configure_general_register = λ p register v r. (ok tt, write r p (write (r p) 20 v));
  init_hardware_context = λ p r. write r p (λ index. 0);
  restart_syscall = λ p r. r;
}

abbrev pub no_ends : Ends
no_ends = record { head = none; tail = none }

-- Every slot has all rights, and the identifier of slot n is n.
abbrev pub slots : Slots
slots = record {
  component = λ _. none;
  type = λ _. CapabilityType.none;
  rights = λ _. 15;
  reclaiming = λ _. false;
  local = λ n. record zero_data { word_0 = n };
  next_slot = λ _. none;
  preview_slot = λ _. none;
  depth = λ _. 0;
}

abbrev pub notification_ports : NotificationPorts
notification_ports = record {
  current_state = λ _. NotificationState.none;
  flag = λ _. 0;
  queue = λ _. no_ends;
  binded_process = λ _. none;
  state = λ _. NotificationPortState.wait;
}

-- Every process is ready at priority 4, and 9 is IDLE.
abbrev pub processes : Processes
processes = record initial_processes { status = λ _. ProcessStatus.ready; priority = λ _. pos 4 }

abbrev pub cpu : Cpu
cpu = record {
  scheduler = initial;
  idle_process = 9;
  current_process = some 0;
  is_idle = false;
  pending_reschedule_target = none;
}

abbrev pub kernel : Kernel
kernel = record {
  procs = processes;
  cpus = λ _. cpu;
  slots = slots;
  nodes = λ _. record { ignore_bits = 0; radix_bits = 0; capability_slots = none };
  notification_ports = notification_ports;
  ipc_ports = record { queue = λ _. no_ends; state = λ _. IpcPortState.wait };
  ipc_buffers = λ _. record {
    transfer_source_descriptors = λ _. 0;
    transfer_destination_node = 0;
    transfer_destination_index = 0;
  };
}
