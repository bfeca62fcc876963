-- ===== src/Call.antt =====
-- The commands of a call, from the user's wish to the station's acknowledgement: src/gvs_call_command.c,
-- src/gvs_call_dispatch.c and src/gvs_call_ack.c.
pub mod Command
pub mod Sender
pub mod Dispatch
pub mod Ack
mod Tests
