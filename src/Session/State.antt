-- ===== src/Session/State.antt =====
-- The session's state, its initial value and its transitions.
pub mod Diagram
use Prim.Native.String.{String}
use linux_device_manager.Base.{ℕ, Bool, false}
use linux_device_manager.Status.{Status, ok, state}
use linux_device_manager.Protocol.Frame.{Frame}
use linux_device_manager.Protocol.Frame.Wire.{zero_frame}

-- `enum devmgr_device_state`
pub data DeviceState : Type 0 where
  disconnected connecting handshaking ready streaming upgrading rebooting : DeviceState

-- `enum devmgr_session_event`
pub data Event : Type 0 where
  connect transport_connected handshake_ok start_stream stop_stream : Event
  start_upgrade upgrade_done reboot transport_lost fail : Event

-- `struct devmgr_retry_policy`
pub record Policy : Type 0 where
  pub timeout_ms : ℕ  -- uint32_t
  pub retry_interval_ms : ℕ  -- uint32_t
  pub max_retries : ℕ  -- uint8_t

-- `struct devmgr_session_stats`; every field is a uint64_t.
pub record Stats : Type 0 where
  pub requests : ℕ
  pub responses : ℕ
  pub retries : ℕ
  pub timeouts : ℕ
  pub sequence_mismatches : ℕ
  pub duplicate_responses : ℕ
  pub unexpected_responses : ℕ

-- `struct devmgr_pending_request`
pub record Pending : Type 0 where
  pub frame : Frame
  pub policy : Policy
  pub deadline_ns : ℕ  -- uint64_t
  pub retries_done : ℕ  -- uint8_t
  pub active : Bool

-- `struct devmgr_session`
pub record Session : Type 0 where
  pub state : DeviceState
  pub next_sequence : ℕ  -- uint32_t
  pub last_completed_sequence : ℕ  -- uint32_t
  pub pending : Pending
  pub stats : Stats

abbrev zero_stats : Stats
zero_stats = record {
  requests = 0;
  responses = 0;
  retries = 0;
  timeouts = 0;
  sequence_mismatches = 0;
  duplicate_responses = 0;
  unexpected_responses = 0;
}

abbrev zero_pending : Pending
zero_pending = record {
  frame = zero_frame;
  policy = record { timeout_ms = 0; retry_interval_ms = 0; max_retries = 0 };
  deadline_ns = 0;
  retries_done = 0;
  active = false;
}

-- `devmgr_session_init`
unfoldable pub init : Session
init = record {
  state = DeviceState.disconnected;
  next_sequence = 1;
  last_completed_sequence = 0;
  pending = zero_pending;
  stats = zero_stats;
}

-- `devmgr_session_cancel_request`
unfoldable pub cancel_request : Session → Session
cancel_request s = record s { pending = record s.pending { active = false } }

abbrev moved : Session → DeviceState → Status × Session
moved s next = (ok, record s { state = next })

-- The switch of `devmgr_session_transition`; the last clause is every `else` and `default`.
dispatch : DeviceState → Event → Session → Status × Session
unfolding cancel_request
dispatch _ transport_lost s = (ok, cancel_request (record s { state = disconnected }))
dispatch _ fail s = (ok, cancel_request (record s { state = disconnected }))
dispatch disconnected connect s = moved s connecting
dispatch connecting transport_connected s = moved s handshaking
dispatch handshaking handshake_ok s = moved s ready
dispatch ready start_stream s = moved s streaming
dispatch ready start_upgrade s = moved s upgrading
dispatch ready reboot s = moved s rebooting
dispatch streaming stop_stream s = moved s ready
dispatch streaming reboot s = moved s rebooting
dispatch upgrading upgrade_done s = moved s ready
dispatch upgrading reboot s = moved s rebooting
dispatch rebooting transport_connected s = moved s handshaking
dispatch _ _ s = (Status.state, s)

-- `devmgr_session_transition`
unfoldable pub transition : Session → Event → Status × Session
unfolding dispatch
transition s event = dispatch s.state event s

-- `devmgr_device_state_string` on the states; its `default` is for other integers.
abbrev device_state_string : DeviceState → String
device_state_string disconnected = "DISCONNECTED"
device_state_string connecting = "CONNECTING"
device_state_string handshaking = "HANDSHAKING"
device_state_string ready = "READY"
device_state_string streaming = "STREAMING"
device_state_string upgrading = "UPGRADING"
device_state_string rebooting = "REBOOTING"
