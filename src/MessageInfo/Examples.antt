-- ===== src/MessageInfo/Examples.antt =====
-- A blocking message of five words, with a count of twenty capabilities that reads back as four.
use a9n.Base.{◌≡◌, true, arith}
use a9n.MessageInfo.{is_block, message_length, transfer_count, source, message_info}
use a9n.MessageInfo.Fields.{message_info-fields}

message_info-fields_example :
    (is_block (message_info true 5 20 0) ≡ true)
    × (message_length (message_info true 5 20 0) ≡ 5)
    × (transfer_count (message_info true 5 20 0) ≡ 4)
    × (source (message_info true 5 20 0) ≡ 0)
message_info-fields_example = message_info-fields true 5 20 0 (omega arith) (omega arith)
