-- ===== src/MessageInfo/Fields.antt =====
-- The fields of a constructed `message_info`.
use a9n.Base.{ℕ, ◌+◌, ◌-◌, ◌/◌, ◌%◌, ap, ◌*◌, ◌<◌, ◌≡◌, Bool, true, false, arith}
use a9n.MessageInfo.{
  word_of, is_block, message_length, transfer_count, source, configure_block,
  configure_message_length, configure_transfer_count, configure_source, message_info,
}

message_info-sum :
    (block : Bool) (length count s : ℕ)
    → length < 256
    → count < 16
    → s < 4
    → message_info block length count s ≡ word_of block + 2 * length + 512 * count + 8192 * s
unfolding message_info configure_block configure_message_length configure_transfer_count
    configure_source
message_info-sum true length count s l c h = omega arith
message_info-sum false length count s l c h = omega arith

-- The constructor takes a count of 8 bits, of which the field holds the low 4.
message_info-count :
    (block : Bool) (length count s : ℕ)
    → message_info block length count s ≡ message_info block length (count % 16) s
unfolding message_info configure_transfer_count
message_info-count block length count s =
    ap
      (λ (c : ℕ).
        configure_source (counted (configure_message_length (configure_block 0 block) length) c) s)
      low
  where
    counted : ℕ → ℕ → ℕ
    counted word c = word - word / 512 % 16 * 512 + c * 512

    low : count % 16 ≡ count % 16 % 16
    low = omega arith

fields_in_range :
    (block : Bool) (length count s : ℕ)
    → length < 256
    → count < 16
    → s < 4
    → (is_block (message_info block length count s) ≡ block)
      × (message_length (message_info block length count s) ≡ length)
      × (transfer_count (message_info block length count s) ≡ count)
      × (source (message_info block length count s) ≡ s)
unfolding is_block message_length transfer_count source
fields_in_range true length count s l c h =
    rw (message_info-sum true length count s l c h)
      (ground arith, omega arith, omega arith, omega arith)
fields_in_range false length count s l c h =
    rw (message_info-sum false length count s l c h)
      (ground arith, omega arith, omega arith, omega arith)

-- For a length of 8 bits, a source of 2 bits and any count, the fields of a message_info read back as
-- they were given, but for the count, of which only the low 4 bits are kept.
pub message_info-fields :
    (block : Bool) (length count s : ℕ)
    → length < 256
    → s < 4
    → (is_block (message_info block length count s) ≡ block)
      × (message_length (message_info block length count s) ≡ length)
      × (transfer_count (message_info block length count s) ≡ count % 16)
      × (source (message_info block length count s) ≡ s)
message_info-fields block length count s l h =
    rw (message_info-count block length count s)
      (fields_in_range block length (count % 16) s l (omega arith) h)
