-- ===== src/Lib.antt =====
-- Doorfast: the control core of a GVS door-entry adapter.
--
-- The service receives and sends GVS datagrams for one indoor unit. A datagram is parsed to a frame and
-- an event; the session holds the one call, and the deadline and the keep-alive can end it; commands of
-- the call go through a dispatch with retries and wait for the station's acknowledgement; an unlock
-- request has a control of its own; replies to peers wait in a queue that a send transaction empties;
-- the lift is asked and reports with frames of family 8. The call control composes the parts of a call,
-- one step at a time. The presence machine announces the unit, probes its peers and agrees with the
-- other machines of the apartment on who keeps their shared values. Beside the control, the chunks of a
-- video frame are put together, audio is coded, and a ring of four keeps the JPEG frames that the media
-- side takes.
--
-- What models which part:
--   Frame, Frame.Serialize    src/gvs_frame.c `df_gvs_frame_parse`; src/gvs_serialize.c
--                             `df_gvs_control_serialize`, `df_gvs_presence_action_serialize`,
--                             `df_gvs_peer_reply_serialize`
--   Identity                  src/gvs_identity.c `df_gvs_identity_*`, `df_gvs_frame_is_for_identity`
--   Elevator, Elevator.Floors src/gvs_elevator.c `df_gvs_elevator_prepare_call`, `_prepare_query`,
--                             `_serialize`, `_parse_status`
--   Priority                  src/gvs_priority.c `df_gvs_call_category`, `df_gvs_priority_compare`
--   Session                   src/gvs_session.c `df_gvs_session_apply`, `_apply_for_generation`,
--                             `_preempt`, `_abort`, `_observe_pick`
--   Deadline                  src/gvs_deadline.c `df_gvs_deadline_arm`, `_tick`, `_remaining`, `_cancel`
--   Access, Access.Control    src/gvs_access.c `df_gvs_access_*`
--   Handshake                 src/gvs_handshake.c `df_gvs_handshake_*`
--   Lifecycle                 the session through all operations of the parts above that write it
--   ReplyQueue                src/gvs_reply_queue.c `df_gvs_reply_queue_*`
--   SendTransaction           src/gvs_send_transaction.c `df_gvs_send_transaction_*`
--   Call.Command              src/gvs_call_command.c `df_gvs_call_command_*`
--   Call.Dispatch             src/gvs_call_dispatch.c `df_gvs_call_dispatch_*`
--   Call.Sender               src/gvs_call_dispatch.c `df_gvs_call_memory_attempt`, and the placeholder
--                             fields of src/gvs_memory_sender.c
--   Call.Ack                  src/gvs_call_ack.c `df_gvs_call_ack_*`
--   Alaw                      src/g711_alaw.c `df_g711_alaw_encode*`, `df_g711_alaw_decode*`
--   Media                     src/gvs_media.c `df_gvs_parse_*`, `df_gvs_serialize_audio`
--   MediaGate                 src/gvs_media_admission.c `df_gvs_media_admit`,
--                             src/gvs_media_lifecycle.c `df_gvs_media_lifecycle_*`
--   Video                     src/gvs_video_reassembly.c `df_gvs_video_reassembly_*`,
--                             `df_gvs_jpeg_*`
--   FrameQueue                src/media_frame_queue.c `df_media_frame_queue_*`
--   Presence                  src/gvs_presence.c `df_gvs_presence_*`; `Presence.Receive` what it hears
--   Receive                   src/gvs_receive.c `df_gvs_receive_*`, src/gvs_observer.c
--                             `df_gvs_observe_datagram*`
--   Runtime                   src/gvs_call_runtime.c `df_gvs_call_runtime_tick`, `_receive`
--   Control, Control.Step,    src/gvs_call_control.c `df_gvs_call_control_*`; the step is the sequence
--   Control.View              of its stages
--   LiftControl               src/gvs_elevator_control.c `df_gvs_elevator_control_*`,
--                             src/gvs_elevator_query.c `df_gvs_elevator_query_*`
--   Prelude                   what the parts share: comparisons, statuses, bytes, lists
--   Fixtures, X.Tests         data for runs, and the runs
--
-- How the code is read. An operation is a function from the state and its arguments to the status and
-- the state that it leaves; out parameters are further results. Pointers that the code tests against
-- null before anything else are values here; a frame's payload, a text, a sender and a header provider
-- can be missing. A sender is a function from what it is given to the result that it returns, and an
-- operation that must tell what it sent also returns the requests. A fixed array with a count is the
-- list of the entries in use, but the ring of FrameQueue, whose buffers are pointed to, is a function
-- from the index, as are the buffer and the bitmap of Video. Numbers are natural numbers: the width of a
-- machine integer is written out where the code can reach it, as a remainder or as the code's own test against the maximum. A
-- `memcmp` of addresses is `addr_eq`, of strings `bytes_eq`. Loops are structural recursion, but for
-- two with fuel. The loop of `df_gvs_presence_tick` has one more than the milliseconds that its two
-- timers are behind, which is enough at any clock that a timer's period above does not pass UINT64_MAX.
-- The loop of `df_gvs_jpeg_dimensions` has as many rounds as there are bytes, and each round takes one
-- byte at least. Runs are lists of calls, in any order and with any arguments.
--
-- Not modelled: sockets, files, processes and the event loop; the audio buffers and the other video
-- parts; the synchronisation state machine, the station registry and the monitor; the setters of the
-- call control's senders; text scanning of identities, and printing.
pub mod Prelude
pub mod Frame
pub mod Identity
pub mod Elevator
pub mod Priority
pub mod Session
pub mod Deadline
pub mod Access
pub mod Handshake
pub mod Lifecycle
pub mod ReplyQueue
pub mod SendTransaction
pub mod Call
pub mod FrameQueue
pub mod Presence
pub mod Receive
pub mod Runtime
pub mod Control
pub mod LiftControl
pub mod Media
pub mod Video
pub mod Alaw
pub mod MediaGate
pub mod Fixtures
