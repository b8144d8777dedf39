-- ===== src/Daemon/Loop/Outgoing.antt =====
-- What goes out of the daemon, and new clients, keep the update coupled and the clients served.
use Prim.Native.Nat.{min}
use linux_device_manager.Base.{
  ℕ, zero, suc, ◌+◌, ◌-◌, ◌≡◌, ◌≢◌, inl, inr, refl, ap, ◌∙◌, arith, false, ◌==◌, Option, none, some,
  List, [], ◌∷◌, Bool, Bool-cases, if-both, take, drop, length-replicate,
}
use linux_device_manager.Status.{Status, disconnected}
use linux_device_manager.Daemon.State.{Client, Daemon, Surroundings, client_at, close_client}
use linux_device_manager.Daemon.Calls.{Sending, takes, Accepting, accepts, sent_before}
use linux_device_manager.Daemon.Input.{put_client}
use linux_device_manager.Daemon.Output.{
  output_done, output_loop, handle_client_output, free_slot, new_client, accepted, accept_clients,
  flushed, flush_transport,
}
use linux_device_manager.Daemon.Served.{IsSlot, client_at-changed_self}
use linux_device_manager.Daemon.Served.Keeping.{kept-IsServed}
use linux_device_manager.Daemon.Served.Receiving.{put-IsServed}
use linux_device_manager.Daemon.Loop.Managing.{IsManaged, close_client-IsManaged}

-- Bytes that went out to a client change nothing that it is owed.
written-IsSlot :
    (w : Option ℕ) (i : ℕ) (c : Client) (n : ℕ)
    → IsSlot w i c
    → IsSlot w i (record c { output_offset = n })
written-IsSlot w i c n v = record {
  client = record {
    input_array = v.client.input_array;
    output_array = v.client.output_array;
    received = v.client.received;
    responds = v.client.responds;
  };
  answered = v.answered;
  waits = v.waits;
}

output_done-IsManaged :
    (d : Daemon) (index : ℕ) (c : Client) → IsManaged d → IsManaged (output_done d index c).1
output_done-IsManaged d index c v =
    if-both IsManaged c.close_after_write _ _ (close_client-IsManaged d index v) v

output_loop-IsManaged :
    (index : ℕ) (sendings : List Sending) (d : Daemon) (c : Client)
    → client_at d.clients index ≡ some c
    → IsManaged d
    → IsManaged (output_loop d index c sendings).1
unfolding output_loop
output_loop-IsManaged index [] d c found v =
    if-both (λ (x : List ℕ × Daemon). IsManaged x.1) _ _ _ v (output_done-IsManaged d index c v)
output_loop-IsManaged index (Sending.interrupted ∷ later) d c found v =
    if-both (λ (x : List ℕ × Daemon). IsManaged x.1) _ _ _ (close_client-IsManaged d index v)
      (output_done-IsManaged d index c v)
output_loop-IsManaged index (Sending.failed ∷ later) d c found v =
    if-both (λ (x : List ℕ × Daemon). IsManaged x.1) _ _ _ (close_client-IsManaged d index v)
      (output_done-IsManaged d index c v)
output_loop-IsManaged index (takes n ∷ later) d c found v =
    let P = λ (x : List ℕ × Daemon). IsManaged x.1 in
    let count = min n (c.output_size - c.output_offset) in
    let c' = record c { output_offset = c.output_offset + count } in
    let slot =
      written-IsSlot d.active_client index c (c.output_offset + count)
        (v.served.slots index c found) in
    let later_on = output_loop (put_client d index c') index c' later in
    if-both P (c.output_size - c.output_offset == 0) (output_done d index c) _
      (output_done-IsManaged d index c v)
      (if-both P (count == 0) ([], close_client d index)
        (sent_before (take count (drop c.output_offset c.output)) later_on)
        (close_client-IsManaged d index v)
        (output_loop-IsManaged index later (put_client d index c') c'
          (client_at-changed_self (λ (old : Client). c') index d.clients c found)
          (record { coupled = v.coupled; served = put-IsServed index d c c' found v.served slot })))

pub handle_client_output-IsManaged :
    (d : Daemon) (index : ℕ) (sendings : List Sending)
    → IsManaged d
    → IsManaged (handle_client_output d index sendings).1
unfolding handle_client_output
handle_client_output-IsManaged d index sendings v = begins (client_at d.clients index) refl
  where
    begins :
        (found : Option Client)
        → client_at d.clients index ≡ found
        → IsManaged
            (elim found as (λ _. List ℕ × Daemon) [
              | none ↦ ([], d)
              | some c ↦ output_loop d index c sendings
            ]).1
    begins none h = v
    begins (some c) h = output_loop-IsManaged index sendings d c h v

new_client-IsSlot : (w : Option ℕ) (i : ℕ) → w ≢ some i → IsSlot w i new_client
new_client-IsSlot w i free = record {
  client = record {
    input_array = length-replicate {A = ℕ} 4104 0;
    output_array = length-replicate {A = ℕ} 4108 0;
    received = omega arith;
    responds = λ h. cc h;
  };
  answered = λ o h. cc h;
  waits = λ h. absurd (free h);
}

abbrev FreeAt : List Client → ℕ → Type 0
FreeAt cs i = (c : Client) × (client_at cs i ≡ some c) × (c.is_open ≡ false)

free_slot_lem : (cs : List Client) (i : ℕ) → free_slot cs ≡ some i → FreeAt cs i
unfolding free_slot
free_slot_lem [] i h = cc h
free_slot_lem (c ∷ cs) i h = elim (Bool-cases c.is_open) [
  | inr shut ↦ first i shut (rw shut at h)
  | inl opened ↦ later (free_slot cs) refl i (free_slot_lem cs) (rw opened at h)
]
  where
    first : (i : ℕ) → c.is_open ≡ false → some 0 ≡ some i → FreeAt (c ∷ cs) i
    first zero shut h = (c, refl, shut)
    first (suc i) shut h = absurd (ground (arith, h))

    later :
        (found : Option ℕ)
        → free_slot cs ≡ found
        → (i : ℕ) → ((k : ℕ) → free_slot cs ≡ some k → FreeAt cs k)
        → elim found as (λ _. Option ℕ) [ none ↦ none | some k ↦ some (suc k) ] ≡ some i
        → FreeAt (c ∷ cs) i
    later none e i ih h = cc h
    later (some k) e zero ih h = absurd (ground (arith, h))
    later (some k) e (suc i) ih h = ih i (e ∙ ap some (ground (arith, h)))

accepted-IsManaged :
    (d : Daemon) (polls : Bool) (slot : Option ℕ)
    → free_slot d.clients ≡ slot
    → IsManaged d
    → IsManaged (accepted d slot polls)
unfolding accepted
accepted-IsManaged d polls none h v = v
accepted-IsManaged d polls (some index) h v =
    let (c, found, shut) = free_slot_lem d.clients index h in
    let free : d.active_client ≢ some index =
      λ w. cc (shut, ((v.served.slots index c found).waits w).0) in
    let d' = put_client d index new_client in
    let v' : IsManaged d' = record {
      coupled = v.coupled;
      served =
          put-IsServed index d c new_client found v.served
            (new_client-IsSlot d.active_client index free);
    } in
    if-both IsManaged polls d' (close_client d' index) v' (close_client-IsManaged d' index v')

pub accept_clients-IsManaged :
    (d : Daemon) (acceptings : List Accepting)
    → IsManaged d
    → IsManaged (accept_clients d acceptings).1
unfolding accept_clients
accept_clients-IsManaged d [] v = v
accept_clients-IsManaged d (Accepting.interrupted ∷ later) v = accept_clients-IsManaged d later v
accept_clients-IsManaged d (Accepting.failed ∷ later) v = v
accept_clients-IsManaged d (accepts polls ∷ later) v =
    accept_clients-IsManaged (accepted d (free_slot d.clients) polls) later
      (accepted-IsManaged d polls (free_slot d.clients) refl v)

-- What goes out to the device is not the clients' concern.
same-IsManaged :
    (d : Daemon) (size offset : ℕ)
    → IsManaged d
    → IsManaged (record d { transport_output_size = size; transport_output_offset = offset })
same-IsManaged d size offset v = record {
  coupled = v.coupled;
  served = kept-IsServed d _ (refl, refl) v.served.waits v.served;
}

flushed-IsManaged : (e : Surroundings) (d : Daemon) → IsManaged d → IsManaged (flushed e d).1.1
flushed-IsManaged e d v = if-both IsManaged _ _ d (same-IsManaged d 0 0 v) v

pub flush_transport-IsManaged :
    (e : Surroundings) (sendings : List Sending) (d : Daemon)
    → IsManaged d
    → IsManaged (flush_transport e d sendings).1.1
unfolding flush_transport
flush_transport-IsManaged e [] d v = flushed-IsManaged e d v
flush_transport-IsManaged e (Sending.interrupted ∷ later) d v =
    if-both (λ (x : List ℕ × (Status × Daemon)). IsManaged x.1.1) _ _ (flushed e d)
      (flush_transport-IsManaged e later d v) (flushed-IsManaged e d v)
flush_transport-IsManaged e (Sending.failed ∷ later) d v =
    if-both (λ (x : List ℕ × (Status × Daemon)). IsManaged x.1.1) _ _ (flushed e d) v
      (flushed-IsManaged e d v)
flush_transport-IsManaged e (takes n ∷ later) d v =
    let P = λ (x : List ℕ × (Status × Daemon)). IsManaged x.1.1 in
    let left = d.transport_output_size - d.transport_output_offset in
    let count = min n left in
    let d' = record d { transport_output_offset = d.transport_output_offset + count } in
    if-both P (left == 0) (flushed e d) _ (flushed-IsManaged e d v) (
      if-both P (count == 0) ([], (disconnected, d))
        (sent_before (take count (drop d.transport_output_offset d.transport_output))
          (flush_transport e d' later))
        v
        (flush_transport-IsManaged e later d'
          (same-IsManaged d d.transport_output_size (d.transport_output_offset + count) v)))
