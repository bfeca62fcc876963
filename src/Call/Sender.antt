-- ===== src/Call/Sender.antt =====
-- src/gvs_call_dispatch.c: the sender that keeps a command's frame in memory. `placeholder_fields` is
-- `df_gvs_placeholder_header_fields` of src/gvs_memory_sender.c.
use doorfast.Prelude.{
  ℕ, ◌&&◌, ◌||◌, Option, none, some, ltb, ◌==◌, if◌then◌else◌, Bytes, zero_block,
}
use doorfast.Frame.Serialize.{HeaderProvider}
use doorfast.Session.{is_null}
use doorfast.SendTransaction.{AttemptResult, success, failure}
use doorfast.Call.Command.{CallCommand, command_serialize}

abbrev pub placeholder_fields : HeaderProvider
placeholder_fields r =
    if ltb 0 r.payload_length && is_null r.payload then none else some (zero_block, zero_block)

-- `struct df_gvs_call_memory_sender`; `length` is that of `bytes`.
pub record MemorySender : Type 0 where
  pub provide_fields : Option HeaderProvider
  pub bytes : Bytes
  pub completion_id : ℕ

abbrev store_frame : MemorySender → ℕ → Option Bytes → AttemptResult × MemorySender
store_frame m id none = (failure, m)
store_frame m id (some frame) = (success, record m { bytes = frame; completion_id = id })

-- `df_gvs_call_memory_attempt`
unfoldable pub memory_attempt : MemorySender → CallCommand → ℕ → ℕ → AttemptResult × MemorySender
memory_attempt m c attempt id =
    if attempt == 0 || id == 0
    then (failure, m)
    else store_frame m id (command_serialize c 49 m.provide_fields)
