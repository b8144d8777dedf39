-- ===== src/Daemon/Served/Answering.antt =====
-- A response that is queued, and a client that is closed, keep what is owed to the clients.
use linux_device_manager.Base.{
  ℕ, ◌+◌, ◌≤◌, ◌≡◌, ◌≢◌, ◌⊎◌, inl, refl, arith, true, false, Option, none, some, List, [], ltb,
  ◌==◌, if◌then◌else◌, length, length-memcpy, if-both, if-cases, overwrite, replicate,
}
use native.Mathlib.Decide.{ℕ_discrete}
use linux_device_manager.Status.{Status, ok, limit, code}
use linux_device_manager.Ipc.Codec.{Response, encode_response, response_body}
use linux_device_manager.Daemon.State.{
  Client, Daemon, Surroundings, changed, client_at, responded, respond_to, queue_client_response,
  close_client,
}
use linux_device_manager.Daemon.Served.{
  IsClient, IsSlot, Present, Waits, IsServed, SameBut, Asked, Overlong, changed-Slots, other-Slots,
  length-changed, moved-IsSlot,
}

length-response_body : (r : Response) (out : List ℕ) → length (response_body r out) ≡ length out
unfolding response_body
length-response_body r out = simp length-memcpy

pub encode_response_lem :
    (r : Response) (out : List ℕ) (n : ℕ)
    → r.payload_length ≤ 4096
    → length out ≡ 4108
    → ((encode_response r out n).status ≡ ok)
      × (length (encode_response r out n).output ≡ 4108)
      × ((encode_response r out n).encoded_length ≡ 12 + r.payload_length)
unfolding encode_response
encode_response_lem r out n fits array = ground (arith, length-response_body r out)

responded_lem :
    (c : Client) (command : ℕ) (verdict : Status) (payload : List ℕ)
    → length c.output ≡ 4108
    → let (result, c') = responded c command verdict payload in
      (result ≡ ok)
      × (c'.is_open ≡ c.is_open)
      × (c'.input ≡ c.input)
      × (c'.input_size ≡ c.input_size)
      × (c'.expected_size ≡ c.expected_size)
      × (length c'.output ≡ 4108)
      × (c'.close_after_write ≡ true)
unfolding responded
responded_lem c command verdict payload array =
    let fits = ltb (length payload) 4097 in
    let bytes = if fits then payload else [] in
    let few : length bytes ≤ 4096 =
      if-cases (λ (xs : List ℕ). length xs ≤ 4096) fits payload [] (λ h. ground (arith, h))
        (λ h. omega arith) in
    let response : Response = record {
      command = command;
      status = code (if fits then verdict else limit);
      payload_length = length bytes;
      payload = overwrite (replicate 4096 0) bytes;
    } in
    let (fine, size, total) = encode_response_lem response c.output c.output_size few array in
    rw fine (refl, refl, refl, refl, refl, size, refl)

-- The client with its response is served, when it does not wait.
responded-IsSlot :
    (w : Option ℕ) (i : ℕ) (c : Client) (command : ℕ) (verdict : Status) (payload : List ℕ)
    → IsClient c
    → Asked c ⊎ Overlong c
    → w ≢ some i
    → IsSlot w i (responded c command verdict payload).1
responded-IsSlot w i c command verdict payload v asked free =
    let (fine, opened, input, input_size, expected_size, output, closes) =
      responded_lem c command verdict payload v.output_array in
    record {
      client = record {
        input_array = rw input v.input_array;
        output_array = output;
        received = rw input_size v.received;
        responds = λ h. rw (input, input_size, expected_size) asked;
      };
      answered = λ o h. inl closes;
      waits = λ h. absurd (free h);
    }

-- `queue_client_response` when the slot's client has asked, and does not wait any more.
pub answering-IsServed :
    (e : Surroundings) (d : Daemon) (w : Option ℕ) (index command : ℕ) (status : Status)
    (payload : List ℕ)
    → ((i : ℕ) (c : Client) → i ≢ index → client_at d.clients i ≡ some c → IsSlot w i c)
    → SameBut index w d.active_client
    → d.active_client ≢ some index
    → ((c : Client) → client_at d.clients index ≡ some c → IsClient c × (Asked c ⊎ Overlong c))
    → Present d.clients d.active_client
    → Waits d.active_client d.session d.upgrade
    → IsServed (queue_client_response e d index command status payload).1
unfolding queue_client_response
answering-IsServed e d w index command verdict payload others same free asker present waits =
    respond (client_at d.clients index) refl
  where
    respond :
        (found : Option Client)
        → client_at d.clients index ≡ found
        → IsServed (respond_to e d index command verdict payload found).1
    respond none h = record {
      slots = λ i c at. elim (ℕ_discrete i index) [
        | yes same_one ↦ cc (h, at, same_one)
        | no ne ↦ moved-IsSlot i c (same i ne) (others i c ne at)
      ];
      present = present;
      waits = waits;
    }
    respond (some c) h =
        let (v, asked) = asker c h in
        let c' = (responded c command verdict payload).1 in
        let put = record d { clients = changed (λ (old : Client). c') index d.clients } in
        let served : IsServed put = record {
          slots =
              changed-Slots (λ (old : Client). c') index d.clients w d.active_client others same
                λ old found.
                  responded-IsSlot d.active_client index c command verdict payload v asked free;
          present =
              λ i at. rw (length-changed (λ (old : Client). c') index d.clients) (present i at);
          waits = waits;
        } in
        if-both (λ (x : Status × Daemon). IsServed x.1) _ _ _ served served

-- Who waits when a client is closed.
abbrev left_waiting : Option ℕ → ℕ → Option ℕ
left_waiting w index = elim w [ none ↦ none | some i ↦ if i == index then none else some i ]

left_waiting_lem :
    (w : Option ℕ) (index j : ℕ)
    → (left_waiting w index ≡ some j → (w ≡ some j) × (j ≢ index))
      × (j ≢ index → w ≡ some j → left_waiting w index ≡ some j)
left_waiting_lem none index j = (λ h. cc h, λ ne h. cc h)
left_waiting_lem (some i) index j =
    (λ h. (ground (arith, h), ground (arith, h)), λ ne h. ground (arith, h))

-- `close_client`
pub close_client-IsServed : (d : Daemon) (index : ℕ) → IsServed d → IsServed (close_client d index)
unfolding close_client
close_client-IsServed d index v =
    let shut = λ (c : Client). record c { is_open = false } in
    let w' = left_waiting d.active_client index in
    let left = left_waiting_lem d.active_client index in
    record {
      slots =
          changed-Slots shut index d.clients d.active_client w'
            (other-Slots d.clients d.active_client v.slots index)
            (λ j ne. (λ h. (left j).1 ne h, λ h. ((left j).0 h).0))
            (λ c at.
              let old = (v.slots index c at).client in
              record {
                client = record {
                  input_array = old.input_array;
                  output_array = old.output_array;
                  received = old.received;
                  responds = old.responds;
                };
                answered = λ o h. cc o;
                waits = λ h. absurd (((left index).0 h).1 refl);
              });
      present = λ i h. rw (length-changed shut index d.clients) (v.present i ((left i).0 h).0);
      waits = λ i h. v.waits i ((left i).0 h).0;
    }
