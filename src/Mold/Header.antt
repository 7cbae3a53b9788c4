-- ===== src/Mold/Header.antt =====
-- include/moldudp64/header.hpp: the 20-byte packet header and the length prefix of a message.
pub mod Wire
use dpdk_itch5_feedhandler.Prelude.{
  ℕ, ◌-◌, ◌^◌, ◌++◌, [], ◌∷◌, Bool, ◌&&◌, Option, none, some, Bytes, drop, load, ltb, ◌==◌,
  if◌then◌else◌, ◌>>=◌,
}
use dpdk_itch5_feedhandler.Common.Endian.{read_be16, read_be64}

-- The packed structs' sizes: 10 + 8 + 2, and 2.
abbrev pub sizeof_header : ℕ
sizeof_header = 20

abbrev pub sizeof_message_block : ℕ
sizeof_message_block = 2

pub record Header : Type 0 where
  pub session : Bytes
  pub sequence_number : ℕ
  pub message_count : ℕ

abbrev pub heartbeat_sequence : ℕ
heartbeat_sequence = 0

abbrev pub end_of_session_sequence : ℕ
end_of_session_sequence = 2 ^ 64 - 1

-- The inner option is the `bool` that is returned, with the header that is filled in.
unfoldable pub parse : Bytes → ℕ → Option (Option Header)
parse ptr len = if ltb len sizeof_header then some none else (do
  session ← load 10 ptr
  sequence_number ← read_be64 (drop 10 ptr)
  message_count ← read_be16 (drop 18 ptr)
  some (
      some (record {
        session = session;
        sequence_number = sequence_number;
        message_count = message_count;
      })))

-- The session name with its terminating zero.
unfoldable pub get_session_string : Header → Bytes
get_session_string h = h.session ++ 0 ∷ []

unfoldable pub is_heartbeat : Header → Bool
is_heartbeat h = h.sequence_number == heartbeat_sequence && h.message_count == 0

unfoldable pub is_end_of_session : Header → Bool
is_end_of_session h = h.sequence_number == end_of_session_sequence

abbrev pub get_messages_offset : ℕ
get_messages_offset = sizeof_header

unfoldable pub read_message_length : Bytes → Option ℕ
unfolding read_be16
read_message_length ptr = read_be16 ptr
