-- ===== src/MessageInfo.antt =====
-- `ipc_port::message_info` (kernel/capability/ipc_port.hpp): the fields of a word. `(data & MASK) >> SHIFT` is
-- a quotient with a remainder, and a field is written where the mask has cleared it.
pub mod Fields
mod Examples
use a9n.Base.{ℕ, ◌+◌, ◌-◌, ◌*◌, ◌/◌, ◌%◌, Bool, true, false, not, ◌==◌}

abbrev pub word_of : Bool → ℕ
word_of true = 1
word_of false = 0

pub is_block : ℕ → Bool
is_block word = not (word % 2 == 0)

pub message_length : ℕ → ℕ
message_length word = word / 2 % 256

pub transfer_count : ℕ → ℕ
transfer_count word = word / 512 % 16

pub source : ℕ → ℕ
source word = word / 8192 % 4

-- NORMAL is 0, FAULT 1 and NOTIFICATION 2.
pub is_normal : ℕ → Bool
unfolding source
is_normal word = source word == 0

pub configure_block : ℕ → Bool → ℕ
configure_block word b = word - word % 2 + word_of b

pub configure_message_length : ℕ → ℕ → ℕ
configure_message_length word v = word - word / 2 % 256 * 2 + v % 256 * 2

pub configure_transfer_count : ℕ → ℕ → ℕ
configure_transfer_count word v = word - word / 512 % 16 * 512 + v % 16 * 512

pub configure_source : ℕ → ℕ → ℕ
configure_source word v = word - word / 8192 % 4 * 8192 + v % 4 * 8192

-- The constructor.
pub message_info : Bool → ℕ → ℕ → ℕ → ℕ
unfolding configure_block configure_message_length configure_transfer_count configure_source
message_info block length count s =
    configure_source
      (configure_transfer_count (configure_message_length (configure_block 0 block) length) count) s
