-- ===== src/Session/State/Diagram.antt =====
-- The state diagram of docs/state-machines.md, and `devmgr_session_transition` against it.
use linux_device_manager.Base.{
  ◌≡◌, refl, sym, ap, arith, Bool, true, false, ◌⊎◌, inl, inr, Bool-cases,
}
use linux_device_manager.Status.{Status, ok, is_ok, is_ok→ok}
use linux_device_manager.Session.State.{
  DeviceState, disconnected, connecting, handshaking, ready, streaming, upgrading, rebooting, Event,
  connect, transport_connected, handshake_ok, start_stream, stop_stream, start_upgrade,
  upgrade_done, reboot, transport_lost, fail, Session, cancel_request, transition,
}

abbrev is_disconnected : DeviceState → Bool
is_disconnected disconnected = true
is_disconnected _ = false

-- The edges of the diagram. "failure / disconnect" leads to DISCONNECTED from everywhere else.
pub data Edge : DeviceState → Event → DeviceState → Type 0 where
  plug : Edge disconnected connect connecting
  open_port : Edge connecting transport_connected handshaking
  accept : Edge handshaking handshake_ok ready
  stream : Edge ready start_stream streaming
  unstream : Edge streaming stop_stream ready
  upgrade : Edge ready start_upgrade upgrading
  upgraded : Edge upgrading upgrade_done ready
  reboot_ready : Edge ready reboot rebooting
  reboot_streaming : Edge streaming reboot rebooting
  reboot_upgrading : Edge upgrading reboot rebooting
  reopen : Edge rebooting transport_connected handshaking
  lose : (s : DeviceState) → is_disconnected s ≡ false → Edge s transport_lost disconnected
  break : (s : DeviceState) → is_disconnected s ≡ false → Edge s fail disconnected

-- What has no edge there: the device is lost, or fails, once more.
pub data Again : DeviceState → Event → Type 0 where
  lose_again : Again disconnected transport_lost
  break_again : Again disconnected fail

-- The steps that the call takes, by the event on each.
data Passage : DeviceState → Event → DeviceState → Type 0 where
  plug_taken : Passage disconnected connect connecting
  open_port_taken : Passage connecting transport_connected handshaking
  accept_taken : Passage handshaking handshake_ok ready
  stream_taken : Passage ready start_stream streaming
  unstream_taken : Passage streaming stop_stream ready
  upgrade_taken : Passage ready start_upgrade upgrading
  upgraded_taken : Passage upgrading upgrade_done ready
  reboot_ready_taken : Passage ready reboot rebooting
  reboot_streaming_taken : Passage streaming reboot rebooting
  reboot_upgrading_taken : Passage upgrading reboot rebooting
  reopen_taken : Passage rebooting transport_connected handshaking
  lose_taken : (s : DeviceState) → Passage s transport_lost disconnected
  break_taken : (s : DeviceState) → Passage s fail disconnected

ruleset passages = (
  plug_taken, open_port_taken, accept_taken, stream_taken, unstream_taken, upgrade_taken,
  upgraded_taken, reboot_ready_taken, reboot_streaming_taken, reboot_upgrading_taken, reopen_taken,
  lose_taken, break_taken,
)

transition-Passage :
    (s : Session) (e : Event) → (transition s e).0 ≡ ok → Passage s.state e (transition s e).1.state
unfolding transition
transition-Passage s e h = grind (arith, passages)

-- What a transition to `t` may leave of the session: the state, and the request in flight only
-- where the transport is gone.
abbrev pub entered : Session → Event → DeviceState → Session
entered s transport_lost t = cancel_request (record s { state = t })
entered s fail t = cancel_request (record s { state = t })
entered s e t = record s { state = t }

transition-entered :
    (s : Session) (e : Event)
    → (transition s e).0 ≡ ok
    → transition s e ≡ (ok, entered s e (transition s e).1.state)
unfolding transition cancel_request
transition-entered s e h = ground arith

transition_refused :
    (s : Session) (e : Event)
    → is_ok (transition s e).0 ≡ false
    → transition s e ≡ (Status.state, s)
unfolding transition
transition_refused s e h = ground arith

taken :
    {d t : DeviceState} {e : Event}
    → Passage d e t
    → (s : Session) → s.state ≡ d
    → (transition s e).0 ≡ ok
unfolding transition
taken plug_taken s h = rw h refl
taken open_port_taken s h = rw h refl
taken accept_taken s h = rw h refl
taken stream_taken s h = rw h refl
taken unstream_taken s h = rw h refl
taken upgrade_taken s h = rw h refl
taken upgraded_taken s h = rw h refl
taken reboot_ready_taken s h = rw h refl
taken reboot_streaming_taken s h = rw h refl
taken reboot_upgrading_taken s h = rw h refl
taken reopen_taken s h = rw h refl
taken (lose_taken d) s h = ground arith
taken (break_taken d) s h = ground arith

-- The state is DISCONNECTED as before.
transition-Again :
    {d : DeviceState} {e : Event} (s : Session)
    → Again d e
    → s.state ≡ d
    → transition s e ≡ (ok, cancel_request s)
unfolding transition
transition-Again s lose_again h =
    ap (λ (d : DeviceState). (ok, cancel_request (record s { state = d }))) (sym h)
transition-Again s break_again h =
    ap (λ (d : DeviceState). (ok, cancel_request (record s { state = d }))) (sym h)

-- A step of the call is an edge of the diagram, or comes to a device that is gone already.
Passage-Edge : {d t : DeviceState} {e : Event} → Passage d e t → Edge d e t ⊎ Again d e
Passage-Edge plug_taken = inl plug
Passage-Edge open_port_taken = inl open_port
Passage-Edge accept_taken = inl accept
Passage-Edge stream_taken = inl stream
Passage-Edge unstream_taken = inl unstream
Passage-Edge upgrade_taken = inl upgrade
Passage-Edge upgraded_taken = inl upgraded
Passage-Edge reboot_ready_taken = inl reboot_ready
Passage-Edge reboot_streaming_taken = inl reboot_streaming
Passage-Edge reboot_upgrading_taken = inl reboot_upgrading
Passage-Edge reopen_taken = inl reopen
Passage-Edge (lose_taken disconnected) = inr lose_again
Passage-Edge (lose_taken connecting) = inl (lose _ refl)
Passage-Edge (lose_taken handshaking) = inl (lose _ refl)
Passage-Edge (lose_taken ready) = inl (lose _ refl)
Passage-Edge (lose_taken streaming) = inl (lose _ refl)
Passage-Edge (lose_taken upgrading) = inl (lose _ refl)
Passage-Edge (lose_taken rebooting) = inl (lose _ refl)
Passage-Edge (break_taken disconnected) = inr break_again
Passage-Edge (break_taken connecting) = inl (break _ refl)
Passage-Edge (break_taken handshaking) = inl (break _ refl)
Passage-Edge (break_taken ready) = inl (break _ refl)
Passage-Edge (break_taken streaming) = inl (break _ refl)
Passage-Edge (break_taken upgrading) = inl (break _ refl)
Passage-Edge (break_taken rebooting) = inl (break _ refl)

Edge-Passage : {d t : DeviceState} {e : Event} → Edge d e t → Passage d e t
Edge-Passage plug = plug_taken
Edge-Passage open_port = open_port_taken
Edge-Passage accept = accept_taken
Edge-Passage stream = stream_taken
Edge-Passage unstream = unstream_taken
Edge-Passage upgrade = upgrade_taken
Edge-Passage upgraded = upgraded_taken
Edge-Passage reboot_ready = reboot_ready_taken
Edge-Passage reboot_streaming = reboot_streaming_taken
Edge-Passage reboot_upgrading = reboot_upgrading_taken
Edge-Passage reopen = reopen_taken
Edge-Passage (lose s h) = lose_taken s
Edge-Passage (break s h) = break_taken s

Again-Passage : {d : DeviceState} {e : Event} → Again d e → Passage d e disconnected
Again-Passage lose_again = lose_taken disconnected
Again-Passage break_again = break_taken disconnected

-- `devmgr_session_transition` against the diagram: where the event labels an edge out of the
-- session's state it succeeds and changes the state to the edge's end, and nothing else, except
-- that an edge for a lost transport or a failure also cancels the request in flight. A lost
-- transport or a failure in DISCONNECTED, which labels no edge, succeeds too: it leaves the state
-- and cancels the request in flight. On every other event that labels no edge the call returns
-- DEVMGR_ERROR_STATE and changes nothing.
pub transition_follows_diagram :
    (s : Session) (e : Event)
    → ((t : DeviceState) × Edge s.state e t × (transition s e ≡ (ok, entered s e t)))
      ⊎ ((Again s.state e × (transition s e ≡ (ok, cancel_request s)))
          ⊎ (((t : DeviceState) → ¬ Edge s.state e t)
              × (¬ Again s.state e)
              × (transition s e ≡ (Status.state, s))))
transition_follows_diagram s e = elim (Bool-cases (is_ok (transition s e).0)) [
  | inl yes' ↦
      let h = is_ok→ok (transition s e).0 yes' in
      elim (Passage-Edge (transition-Passage s e h)) [
        | inl edge ↦ inl ((transition s e).1.state, edge, transition-entered s e h)
        | inr again ↦ inr (inl (again, transition-Again s again refl))
      ]
  | inr no' ↦ inr (
      inr (
        λ t edge. cc (taken (Edge-Passage edge) s refl, no'),
        λ again. cc (taken (Again-Passage again) s refl, no'),
        transition_refused s e no',
      ))
]
