-- ===== src/Daemon/Trace.antt =====
-- What every sequence of events of the daemon's loop keeps true.
use linux_device_manager.Base.{
  ℕ, ◌+◌, ◌≡◌, arith, true, not, ◌&&◌, ◌||◌, ◌==◌, ◌!=◌, some, List, [], ◌∷◌, if-both, Bool-cases,
  inl, inr, take, drop, strlen, length, leb, ltb,
}
use linux_device_manager.Status.{Status, ok, invalid, busy, not_found, is_ok}
use linux_device_manager.Span.{null, at}
use linux_device_manager.Protocol.Constants.{
  flag_ack_required, msg_ping, msg_start_telemetry, msg_stop_telemetry,
}
use linux_device_manager.Protocol.Le.{put_le32, get_le32}
use linux_device_manager.Protocol.Frame.{Frame}
use linux_device_manager.Protocol.Frame.Wire.{zero_frame}
use linux_device_manager.Session.State.{Event, Session, transition, cancel_request}
use linux_device_manager.Session.Request.{begin_request}
use linux_device_manager.Upgrade.State.{UpgradeState, active, version_max}
use linux_device_manager.Ipc.Codec.{Request}
use linux_device_manager.Daemon.State.{
  Daemon, Surroundings, queue_frame, queue_client_response, close_client,
}
use linux_device_manager.Daemon.Upgrading.{
  on_device_frame, handle_worker_completion, on_timer, start_handshake, retry_policy, cancelled,
}
use linux_device_manager.Daemon.Clients.{
  ipc_get_telemetry, ipc_upgrade, ipc_upgrade_status, is_ready, is_streaming, has_client, submitted,
  submit_upgrade, upgrade_status, start_upgrade_request, forward_request, start_request,
}
use linux_device_manager.Daemon.Coupling.{
  Coupled, IsCoupled, kept-IsCoupled, begin_request-state, queue_frame-Keeps,
  queue_client_response-Keeps, on_timer-IsCoupled,
}
use linux_device_manager.Daemon.Handling.{
  on_device_frame-IsCoupled, handle_worker_completion-IsCoupled,
}

connect-Coupled :
    (s : Session) (u : UpgradeState)
    → Coupled s.state u
    → Coupled (transition s Event.connect).1.state u
unfolding transition
connect-Coupled s u v = ground arith

transport_connected-Coupled :
    (s : Session) (u : UpgradeState)
    → Coupled s.state u
    → Coupled (transition s Event.transport_connected).1.state u
unfolding transition
transport_connected-Coupled s u v = ground arith

module _ (e : Surroundings) where
  pub responding-IsCoupled :
      (d : Daemon) (index command : ℕ) (status : Status) (bytes : List ℕ)
      → IsCoupled d
      → IsCoupled (queue_client_response e d index command status bytes).1
  responding-IsCoupled d index command status bytes v =
      kept-IsCoupled d (queue_client_response e d index command status bytes).1
        (queue_client_response-Keeps e d index command status bytes) v

  submitted-IsCoupled :
      (d : Daemon) (payload : List ℕ)
      → is_ready d.session.state ≡ true
      → IsCoupled (submitted d payload).1
  submitted-IsCoupled d payload ready = ground (arith, ready)

  forward_request-IsCoupled :
      (d : Daemon) (index command : ℕ) (payload : List ℕ)
      → IsCoupled d
      → IsCoupled (forward_request e d index command payload).1
  unfolding forward_request cancel_request
  forward_request-IsCoupled d index command payload v =
      let P = λ (x : Status × Daemon). IsCoupled x.1 in
      let begun =
        begin_request d.session command flag_ack_required (at payload) (retry_policy 1000 500 2)
          e.now_ns zero_frame in
      let same =
        begin_request-state d.session command flag_ack_required (at payload)
          (retry_policy 1000 500 2) e.now_ns zero_frame in
      let d1 = record d { session = begun.session } in
      let v1 : IsCoupled d1 = rw same v in
      let queued = queue_frame e d1 begun.request in
      let (state, upgrade) = queue_frame-Keeps e d1 begun.request in
      let v2 : IsCoupled queued.1 = rw (state, upgrade) v1 in
      if-both P (not (is_ok begun.status)) _ _
        (responding-IsCoupled d1 index command begun.status [] v1)
        (if-both P (not (is_ok queued.0)) _ (ok, record (queued.1) { active_client = some index })
          (responding-IsCoupled (cancelled queued.1) index command queued.0 [] v2) v2)

  submit_upgrade-IsCoupled :
      (d : Daemon) (index : ℕ) (payload : List ℕ)
      → IsCoupled d
      → IsCoupled (submit_upgrade e d index payload).1
  submit_upgrade-IsCoupled d index payload v =
      let P = λ (x : Status × Daemon). IsCoupled x.1 in
      let (result, d') = submitted d payload in
      let refused = responding-IsCoupled d index ipc_upgrade busy [] v in
      elim (Bool-cases (is_ready d.session.state)) [
        | inr other ↦ rw other refused
        | inl ready ↦
            let v' = submitted-IsCoupled d payload ready in
            if-both P (not (is_ready d.session.state) || (has_client d || active d.upgrade))
              (queue_client_response e d index ipc_upgrade busy []) _ refused
              (if-both P (is_ok result)
                (queue_client_response e d' index ipc_upgrade ok (put_le32 d'.upgrade_operation_id))
                (queue_client_response e d' index ipc_upgrade result [])
                (responding-IsCoupled d' index ipc_upgrade ok (put_le32 d'.upgrade_operation_id) v')
                (responding-IsCoupled d' index ipc_upgrade result [] v'))
      ]

  start_upgrade_request-IsCoupled :
      (d : Daemon) (index : ℕ) (payload : List ℕ)
      → IsCoupled d
      → IsCoupled (start_upgrade_request e d index payload).1
  unfolding start_upgrade_request
  start_upgrade_request-IsCoupled d index payload v =
      let P = λ (x : Status × Daemon). IsCoupled x.1 in
      let refused = queue_client_response e d index ipc_upgrade invalid [] in
      let refusal = responding-IsCoupled d index ipc_upgrade invalid [] v in
      let path_length = strlen payload in
      let version = drop (path_length + 1) payload in
      if-both P (path_length == length payload) refused _ refusal (
        if-both P
          ((path_length == 0)
            || (leb (length payload) (path_length + 1) || (strlen version == length version)))
          refused _ refusal
          (if-both P ((strlen version == 0) || ltb version_max (strlen version)) refused
            (submit_upgrade e d index payload) refusal
            (submit_upgrade-IsCoupled d index payload v)))

  pub start_request-IsCoupled :
      (d : Daemon) (index : ℕ) (r : Request) → IsCoupled d → IsCoupled (start_request e d index r).1
  unfolding start_request
  start_request-IsCoupled d index r v =
      let P = λ (x : Status × Daemon). IsCoupled x.1 in
      let payload = take r.payload_length r.payload in
      let respond = λ (status : Status) (bytes : List ℕ).
        queue_client_response e d index r.command status bytes in
      let answered = λ (status : Status) (bytes : List ℕ).
        responding-IsCoupled d index r.command status bytes v in
      let state = d.session.state in
      let wrong = respond Status.state [] in
      if-both P (r.command == ipc_get_telemetry) _ _
        (if-both P (d.latest_telemetry_length == 0) (respond not_found [])
          (respond ok (take d.latest_telemetry_length d.latest_telemetry)) (answered not_found [])
          (answered ok (take d.latest_telemetry_length d.latest_telemetry)))
        (if-both P (r.command == ipc_upgrade_status) _ _
          (if-both P
            (r.payload_length != 4
              || ((d.upgrade_operation_id == 0) || get_le32 r.payload != d.upgrade_operation_id))
            (respond not_found []) (respond ok (upgrade_status d)) (answered not_found [])
            (answered ok (upgrade_status d)))
          (if-both P (r.command == ipc_upgrade) (start_upgrade_request e d index payload) _
            (start_upgrade_request-IsCoupled d index payload v)
            (if-both P (active d.upgrade) (respond busy []) _ (answered busy []) (
              if-both P ((r.command == msg_start_telemetry) && not (is_ready state)) wrong _
                (answered Status.state [])
                (if-both P ((r.command == msg_stop_telemetry) && not (is_streaming state)) wrong _
                  (answered Status.state [])
                  (if-both P (not (is_ready state) && not (is_streaming state)) wrong _
                    (answered Status.state [])
                    (if-both P (has_client d) (respond busy [])
                      (forward_request e d index r.command payload) (answered busy [])
                      (forward_request-IsCoupled d index r.command payload v))))))))

  pub start_handshake-IsCoupled : (d : Daemon) → IsCoupled d → IsCoupled (start_handshake e d).1
  unfolding start_handshake
  start_handshake-IsCoupled d v =
      let P = λ (x : Status × Daemon). IsCoupled x.1 in
      let (connected, s1) = transition d.session Event.connect in
      let (transport, s2) = transition s1 Event.transport_connected in
      let begun =
        begin_request s2 msg_ping flag_ack_required (null 0) (retry_policy 1000 500 3) e.now_ns
          zero_frame in
      let same =
        begin_request-state s2 msg_ping flag_ack_required (null 0) (retry_policy 1000 500 3)
          e.now_ns zero_frame in
      let d2 = record d { session = begun.session } in
      let v1 : IsCoupled (record d { session = s1 }) =
        connect-Coupled d.session d.upgrade.state v in
      let v2 : IsCoupled (record d { session = s2 }) =
        transport_connected-Coupled s1 d.upgrade.state v1 in
      let v3 : IsCoupled d2 = rw same v2 in
      let (state, upgrade) = queue_frame-Keeps e d2 begun.request in
      let v4 : IsCoupled (queue_frame e d2 begun.request).1 = rw (state, upgrade) v3 in
      if-both P (not (is_ok connected)) (connected, record d { session = s1 }) _ v1
        (if-both P (not (is_ok transport)) (transport, record d { session = s2 }) _ v2
          (if-both P (not (is_ok begun.status)) (begun.status, d2) (queue_frame e d2 begun.request)
            v3 v4))

-- What the event loop reacts to: a frame from the device, the worker's event, the timer, a client's
-- request, the end of a client, and the start.
pub data Happening : Type 0 where
  frame_comes : Frame → Happening
  worker_finishes : Happening
  timer_expires : Happening
  client_asks : ℕ → Request → Happening
  client_leaves : ℕ → Happening
  starts : Happening

unfoldable pub react : Surroundings → Daemon → Happening → Daemon
react e d (frame_comes f) = (on_device_frame e d f).1
react e d worker_finishes = (handle_worker_completion e d).1
react e d timer_expires = (on_timer e d).1
react e d (client_asks index request) = (start_request e d index request).1
react e d (client_leaves index) = close_client d index
react e d starts = (start_handshake e d).1

unfoldable pub run_daemon : Daemon → List (Surroundings × Happening) → Daemon
run_daemon d [] = d
run_daemon d ((e, h) ∷ events) = run_daemon (react e d h) events

react-IsCoupled :
    (e : Surroundings) (d : Daemon) (h : Happening) → IsCoupled d → IsCoupled (react e d h)
unfolding react close_client
react-IsCoupled e d (frame_comes f) v = on_device_frame-IsCoupled e d f v
react-IsCoupled e d worker_finishes v = handle_worker_completion-IsCoupled e d v
react-IsCoupled e d timer_expires v = on_timer-IsCoupled e d v
react-IsCoupled e d (client_asks index request) v = start_request-IsCoupled e d index request v
react-IsCoupled e d (client_leaves index) v = v
react-IsCoupled e d starts v = start_handshake-IsCoupled e d v

-- From a new session and a new upgrade on, after any frames, worker results, timer expirations,
-- client requests and disconnections in any order, and whether or not requests could be sent: the
-- session is UPGRADING just while an update runs on the device, from ENTER_BOOTLOADER to REBOOT.
pub run_daemon-IsCoupled :
    (events : List (Surroundings × Happening)) (d : Daemon)
    → IsCoupled d
    → IsCoupled (run_daemon d events)
unfolding run_daemon
run_daemon-IsCoupled [] d v = v
run_daemon-IsCoupled ((e, h) ∷ events) d v =
    run_daemon-IsCoupled events (react e d h) (react-IsCoupled e d h v)
