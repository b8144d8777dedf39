-- ===== src/Daemon/Served/Receiving.antt =====
-- `handle_client_input` keeps what is owed to the clients.
use linux_device_manager.Base.{
  ℕ, ◌+◌, ◌-◌, ◌<◌, ◌≤◌, ◌≡◌, ◌≢◌, inl, inr, refl, ◌∙◌, arith, true, false, not, ◌&&◌, ◌==◌, ltb,
  Option, none, some, List, [], ◌∷◌, if-both, if-cases, take, length, length-take,
}
use linux_device_manager.Status.{Status, ok, limit, is_ok}
use linux_device_manager.Ipc.Codec.{decode_request}
use linux_device_manager.Daemon.State.{
  Client, Daemon, Surroundings, client_at, queue_client_response,
}
use linux_device_manager.Daemon.Calls.{Receipt, gives}
use linux_device_manager.Daemon.Input.{
  put_client, blank_request, taken_in, header_due, announced, sized, is_whole, handle_request,
  input_loop, handle_client_input,
}
use linux_device_manager.Daemon.Served.{
  Asked, Overlong, IsClient, IsSlot, Present, IsServed, changed-Slots, other-Slots, length-changed,
  client_at-changed, client_at-length, client_at-changed_self,
}
use linux_device_manager.Daemon.Loop.{is_open_at}
use linux_device_manager.Daemon.Served.Answering.{answering-IsServed, close_client-IsServed}
use linux_device_manager.Daemon.Served.Asking.{IsAsking, answer_asking, start_request-IsServed}
use linux_device_manager.Daemon.Served.Filling.{
  asked_before, whole_asked, filled-IsClient, refused-Overlong, fitting_lem, grown_lem,
  grown-IsClient, just_asked,
}

module _ (index : ℕ) (d : Daemon) (c c' : Client) (found : client_at d.clients index ≡ some c)
    (v : IsServed d) where
  put_others :
      (i : ℕ) (x : Client)
      → i ≢ index
      → client_at (put_client d index c').clients i ≡ some x
      → IsSlot d.active_client i x
  put_others i x ne at = elim (client_at-changed (λ (old : Client). c') index d.clients i x at) [
    | inl (same, old) ↦ absurd (ne same)
    | inr (other, before) ↦ v.slots i x before
  ]

  put_self : (x : Client) → client_at (put_client d index c').clients index ≡ some x → c' ≡ x
  put_self x at = cc (at, client_at-changed_self (λ (old : Client). c') index d.clients c found)

  put-Present : Present (put_client d index c').clients d.active_client
  put-Present i h = rw (length-changed (λ (old : Client). c') index d.clients) (v.present i h)

  put-IsAsking :
      IsClient c'
      → Asked c'
      → c'.is_open ≡ true
      → c'.close_after_write ≡ false
      → d.active_client ≢ some index
      → IsAsking (put_client d index c') index
  put-IsAsking valid asked opened unanswered free = record {
    others = put_others;
    asker = λ x at. rw (← put_self x at) (valid, asked, opened, unanswered);
    here =
        rw (length-changed (λ (old : Client). c') index d.clients)
          (client_at-length d.clients index c found);
    free = free;
    present = put-Present;
    waits = v.waits;
  }

  put-Overlong :
      (e : Surroundings)
      → IsClient c'
      → Overlong c'
      → d.active_client ≢ some index
      → IsServed (queue_client_response e (put_client d index c') index 0 limit []).1
  put-Overlong e valid over free =
      answering-IsServed e (put_client d index c') d.active_client index 0 limit [] put_others
        (λ j ne. (λ h. h, λ h. h)) free (λ x at. rw (← put_self x at) (valid, inr over)) put-Present
        v.waits

  pub put-IsServed : IsSlot d.active_client index c' → IsServed (put_client d index c')
  put-IsServed slot = record {
    slots =
        changed-Slots (λ (old : Client). c') index d.clients d.active_client d.active_client
          (other-Slots d.clients d.active_client v.slots index) (λ j ne. (λ h. h, λ h. h))
          (λ old at. slot);
    present = put-Present;
    waits = v.waits;
  }

module _ (e : Surroundings) (index : ℕ) where
  handle_request-IsServed :
      (d : Daemon) (c : Client) → IsAsking d index → IsServed (handle_request e d index c).1
  unfolding handle_request
  handle_request-IsServed d c v =
      let (result, request) = decode_request (take c.input_size c.input) blank_request in
      if-both (λ (x : Status × Daemon). IsServed x.1) (not (is_ok result)) _ _
        (answer_asking e d index 0 result [] v) (start_request-IsServed e d index v request)

  input_loop-IsServed :
      (receipts : List Receipt) (d : Daemon) (c : Client)
      → client_at d.clients index ≡ some c
      → c.is_open ≡ true
      → IsServed d
      → IsServed (input_loop e d index c receipts).1
  unfolding input_loop
  input_loop-IsServed [] d c found opened v = v
  input_loop-IsServed (Receipt.interrupted ∷ later) d c found opened v =
      input_loop-IsServed later d c found opened v
  input_loop-IsServed (Receipt.failed ∷ later) d c found opened v = close_client-IsServed d index v
  input_loop-IsServed (gives xs ∷ later) d c found opened v =
      let P = λ (x : Status × Daemon). IsServed x.1 in
      let bytes = take (4104 - c.input_size) xs in
      let c1 = taken_in c bytes in
      let c2 = sized c1 in
      let slot = v.slots index c found in
      let cv = slot.client in
      let room : c.input_size + length bytes ≤ 4104 =
        omega (arith, length-take (4104 - c.input_size) xs, cv.received) in
      if-cases P (length bytes == 0) _ _ (λ end. close_client-IsServed d index v)
        λ some_bytes.
          let more : 0 < length bytes = ground (arith, some_bytes) in
          let before = asked_before c bytes cv more room in
          let (opens, closing, input, input_size, output) = grown_lem c bytes cv more room in
          if-cases P (header_due c1 && ltb 4096 (announced c1)) _ _
            (λ refused.
              let over = refused-Overlong c bytes cv more room refused in
              put-Overlong index d c c1 found v e (filled-IsClient c bytes cv more room (inr over))
                over (λ h. absurd (omega (arith, over.0, (slot.waits h).2))))
            (λ fits.
              let fine = fitting_lem c bytes cv more room fits in
              let valid = grown-IsClient c bytes cv more room fine in
              if-cases P (is_whole c2) _ _
                (λ whole. handle_request-IsServed (put_client d index c2) c2 (
                  put-IsAsking index d c c2 found v valid (whole_asked c bytes cv more room whole)
                    (opens ∙ opened) (just_asked c bytes cv more room fine whole)
                    (λ h. cc (whole, (before (slot.waits h).2).1))))
                (λ partial.
                  input_loop-IsServed later (put_client d index c2) c2
                    (client_at-changed_self (λ (old : Client). c2) index d.clients c found)
                    (opens ∙ opened)
                    (put-IsServed index d c c2 found v (record {
                      client = valid;
                      answered = λ o whole. cc (whole, partial);
                      waits = λ h.
                          let (o, unanswered, asked) = slot.waits h in
                          (opens ∙ o, closing ∙ unanswered, (before asked).0);
                    }))))

  pub handle_client_input-IsServed :
      (receipts : List Receipt) (d : Daemon)
      → is_open_at d index ≡ true
      → IsServed d
      → IsServed (handle_client_input e d index receipts).1
  unfolding handle_client_input
  handle_client_input-IsServed receipts d opened v = begins (client_at d.clients index) refl
    where
      begins :
          (found : Option Client)
          → client_at d.clients index ≡ found
          → IsServed
              (elim found as (λ _. Status × Daemon) [
                | none ↦ (ok, d)
                | some c ↦ input_loop e d index c receipts
              ]).1
      begins none h = v
      begins (some c) h = input_loop-IsServed receipts d c h (rw (h, is_open_at) at opened) v
