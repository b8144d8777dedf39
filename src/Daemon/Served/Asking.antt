-- ===== src/Daemon/Served/Asking.antt =====
-- `start_request` answers the client whose request it is given, or lets it wait.
use linux_device_manager.Base.{
  ℕ, ◌+◌, ◌<◌, ◌≡◌, ◌≢◌, inl, inr, refl, arith, true, false, not, ◌&&◌, ◌||◌, ◌==◌, ◌!=◌, ltb, leb,
  some, List, [], if-both, if-cases, take, drop, strlen, length,
}
use native.Mathlib.Decide.{ℕ_discrete}
use linux_device_manager.Status.{Status, ok, invalid, busy, not_found, is_ok}
use linux_device_manager.Span.{Span, at}
use linux_device_manager.Protocol.Constants.{
  flag_ack_required, msg_start_telemetry, msg_stop_telemetry,
}
use linux_device_manager.Protocol.Le.{put_le32, get_le32}
use linux_device_manager.Protocol.Frame.{Frame}
use linux_device_manager.Protocol.Frame.Wire.{zero_frame}
use linux_device_manager.Session.State.{Session, Policy, cancel_request, DeviceState}
use linux_device_manager.Session.Request.{begin_request}
use linux_device_manager.Upgrade.State.{active, version_max}
use linux_device_manager.Ipc.Codec.{Request}
use linux_device_manager.Daemon.State.{
  Client, Daemon, Surroundings, client_at, queue_frame, queue_client_response,
}
use linux_device_manager.Daemon.Upgrading.{retry_policy, cancelled, is_handshaking}
use linux_device_manager.Daemon.Clients.{
  ipc_get_telemetry, ipc_upgrade, ipc_upgrade_status, is_ready, is_streaming, has_client, submitted,
  submit_upgrade, upgrade_status, start_upgrade_request, forward_request, start_request,
}
use linux_device_manager.Daemon.Served.{
  Asked, IsClient, IsSlot, Slots, Present, Waits, IsServed, moved-IsSlot,
}
use linux_device_manager.Daemon.Served.Answering.{answering-IsServed}
use linux_device_manager.Daemon.Served.Keeping.{NoneWaits, queue_frame-SameClients}

-- A daemon in which all is well but that the client of one slot has asked, and is not answered yet.
pub record IsAsking (d : Daemon) (index : ℕ) : Type 0 where
  pub others :
      (i : ℕ) (c : Client) → i ≢ index → client_at d.clients i ≡ some c → IsSlot d.active_client i c
  pub asker :
      (c : Client)
      → client_at d.clients index ≡ some c
      → IsClient c × Asked c × (c.is_open ≡ true) × (c.close_after_write ≡ false)
  pub here : index < length d.clients
  pub free : d.active_client ≢ some index
  pub present : Present d.clients d.active_client
  pub waits : Waits d.active_client d.session d.upgrade

pub answer_asking :
    (e : Surroundings) (d : Daemon) (index command : ℕ) (status : Status) (bytes : List ℕ)
    → IsAsking d index
    → IsServed (queue_client_response e d index command status bytes).1
answer_asking e d index command verdict bytes v =
    answering-IsServed e d d.active_client index command verdict bytes v.others
      (λ j ne. (λ h. h, λ h. h)) v.free (λ c at. ((v.asker c at).0, inl (v.asker c at).1)) v.present
      v.waits

-- Where no client waits, the session and the upgrade do not matter.
idle-IsAsking :
    (d d' : Daemon) (index : ℕ)
    → d'.clients ≡ d.clients
    → d'.active_client ≡ d.active_client
    → NoneWaits d
    → IsAsking d index
    → IsAsking d' index
idle-IsAsking d d' index clients waiting idle v = record {
  others = rw (clients, waiting) v.others;
  asker = rw clients v.asker;
  here = rw clients v.here;
  free = rw waiting v.free;
  present = rw (clients, waiting) v.present;
  waits = λ i h. absurd (idle i (rw waiting at h));
}

no_client-NoneWaits : (d : Daemon) → has_client d ≡ false → NoneWaits d
no_client-NoneWaits d h i waiting = cc (rw waiting at h)

begin_request-flight :
    (s : Session) (type flags : ℕ) (payload : Span) (policy : Policy) (now : ℕ) (f : Frame)
    → let begun = begin_request s type flags payload policy now f in
      (begun.session.state ≡ s.state)
      × (is_ok begun.status ≡ true → begun.session.pending.active ≡ true)
unfolding begin_request
begin_request-flight s type flags payload policy now f = ground arith

module _ (e : Surroundings) (d : Daemon) (index : ℕ) (v : IsAsking d index) where
  -- The client waits.
  waiting-IsServed :
      (d' : Daemon)
      → NoneWaits d
      → d'.clients ≡ d.clients
      → d'.active_client ≡ some index
      → d'.session.pending.active ≡ true
      → active d'.upgrade ≡ false
      → is_handshaking d'.session.state ≡ false
      → IsServed d'
  waiting-IsServed d' idle clients waiting flight quiet settled =
      let slot : (c : Client) → client_at d.clients index ≡ some c → IsSlot (some index) index c =
        λ c at.
          let (valid, asked, opened, unanswered) = v.asker c at in
          record {
            client = valid;
            answered = λ o h. inr refl;
            waits = λ h. (opened, unanswered, asked);
          } in
      let slots : Slots d.clients (some index) = λ i c found. elim (ℕ_discrete i index) [
        | yes same ↦ rw same (slot c (moved_at i c same found))
        | no ne ↦
            moved-IsSlot i c (λ h. absurd (idle i h), λ h. absurd (ground (arith, h, ne)))
              (v.others i c ne found)
      ] in
      record {
        slots = rw (clients, waiting) slots;
        present = λ i h. rw clients (one i (rw waiting at h));
        waits = λ i h. (flight, quiet, settled);
      }
    where
      moved_at :
          (i : ℕ) (c : Client)
          → i ≡ index
          → client_at d.clients i ≡ some c
          → client_at d.clients index ≡ some c
      moved_at i c same found = rw same at found

      one : (i : ℕ) → some index ≡ some i → i < length d.clients
      one i h = ground (arith, h, v.here)

  forward_request-IsServed :
      (command : ℕ) (payload : List ℕ)
      → NoneWaits d
      → active d.upgrade ≡ false
      → is_handshaking d.session.state ≡ false
      → IsServed (forward_request e d index command payload).1
  unfolding forward_request cancel_request
  forward_request-IsServed command payload idle quiet settled =
      let P = λ (x : Status × Daemon). IsServed x.1 in
      let begun =
        begin_request d.session command flag_ack_required (at payload) (retry_policy 1000 500 2)
          e.now_ns zero_frame in
      let (state, flight) =
        begin_request-flight d.session command flag_ack_required (at payload)
          (retry_policy 1000 500 2) e.now_ns zero_frame in
      let d1 = record d { session = begun.session } in
      let queued = queue_frame e d1 begun.request in
      let ((clients, waiting), session, upgrade) = queue_frame-SameClients e d1 begun.request in
      if-cases P (not (is_ok begun.status)) _ _
        (λ bad.
          answer_asking e d1 index command begun.status []
            (idle-IsAsking d d1 index refl refl idle v))
        (λ good.
          if-both P (not (is_ok queued.0)) _ (ok, record (queued.1) { active_client = some index })
            (answer_asking e (cancelled queued.1) index command queued.0 []
              (idle-IsAsking d (cancelled queued.1) index clients waiting idle v))
            (waiting-IsServed (record (queued.1) { active_client = some index }) idle clients refl
              (rw session (flight (ground (arith, good)))) (rw upgrade quiet)
              (rw (session, state) settled)))

  submit_upgrade-IsServed : (payload : List ℕ) → IsServed (submit_upgrade e d index payload).1
  submit_upgrade-IsServed payload =
      let P = λ (x : Status × Daemon). IsServed x.1 in
      let (result, d') = submitted d payload in
      if-cases P (not (is_ready d.session.state) || (has_client d || active d.upgrade)) _ _
        (λ refused. answer_asking e d index ipc_upgrade busy [] v)
        (λ taken.
          let idle = no_client-NoneWaits d (ground (arith, taken)) in
          let v' = idle-IsAsking d d' index refl refl idle v in
          if-both P (is_ok result) _ _
            (answer_asking e d' index ipc_upgrade ok (put_le32 d'.upgrade_operation_id) v')
            (answer_asking e d' index ipc_upgrade result [] v'))

  start_upgrade_request-IsServed :
      (payload : List ℕ) → IsServed (start_upgrade_request e d index payload).1
  unfolding start_upgrade_request
  start_upgrade_request-IsServed payload =
      let P = λ (x : Status × Daemon). IsServed x.1 in
      let refusal = answer_asking e d index ipc_upgrade invalid [] v in
      let path_length = strlen payload in
      let version = drop (path_length + 1) payload in
      if-both P (path_length == length payload) _ _ refusal (
        if-both P
          ((path_length == 0)
            || (leb (length payload) (path_length + 1) || (strlen version == length version)))
          _ _ refusal
          (if-both P ((strlen version == 0) || ltb version_max (strlen version)) _ _ refusal
            (submit_upgrade-IsServed payload)))

  pub start_request-IsServed : (r : Request) → IsServed (start_request e d index r).1
  unfolding start_request
  start_request-IsServed r =
      let P = λ (x : Status × Daemon). IsServed x.1 in
      let payload = take r.payload_length r.payload in
      let answered =
        λ (status : Status) (bytes : List ℕ). answer_asking e d index r.command status bytes v in
      let state = d.session.state in
      if-both P (r.command == ipc_get_telemetry) _ _
        (if-both P (d.latest_telemetry_length == 0) _ _ (answered not_found [])
          (answered ok (take d.latest_telemetry_length d.latest_telemetry)))
        (if-both P (r.command == ipc_upgrade_status) _ _
          (if-both P
            (r.payload_length != 4
              || ((d.upgrade_operation_id == 0) || get_le32 r.payload != d.upgrade_operation_id))
            _ _ (answered not_found []) (answered ok (upgrade_status d)))
          (if-both P (r.command == ipc_upgrade) _ _ (start_upgrade_request-IsServed payload) (
            if-cases P (active d.upgrade) _ _ (λ updating. answered busy [])
              λ quiet.
                if-both P ((r.command == msg_start_telemetry) && not (is_ready state)) _ _
                  (answered Status.state [])
                  (if-both P ((r.command == msg_stop_telemetry) && not (is_streaming state)) _ _
                    (answered Status.state [])
                    (if-cases P (not (is_ready state) && not (is_streaming state)) _ _
                      (λ wrong. answered Status.state [])
                      λ right.
                        if-cases P (has_client d) _ _ (λ other. answered busy [])
                          λ alone.
                            forward_request-IsServed r.command payload (no_client-NoneWaits d alone)
                              quiet (settled state right))))))
    where
      settled :
          (state : DeviceState)
          → (not (is_ready state) && not (is_streaming state)) ≡ false
          → is_handshaking state ≡ false
      settled state right = ground (arith, right)
