-- ===== src/Daemon/Loop/Managing.antt =====
-- The loops of the daemon over its system calls keep the update coupled and the clients served.
use linux_device_manager.Base.{
  ℕ, ◌-◌, not, ◌&&◌, ◌==◌, ltb, Option, none, some, List, [], ◌∷◌, if-both, take, length,
}
use linux_device_manager.Status.{Status, ok, limit, is_ok}
use linux_device_manager.Ipc.Codec.{decode_request}
use linux_device_manager.Daemon.State.{Client, Daemon, Surroundings, client_at, close_client}
use linux_device_manager.Daemon.Calls.{Receipt, gives}
use linux_device_manager.Daemon.Input.{
  put_client, blank_request, taken_in, header_due, announced, sized, is_whole, handle_request,
  input_loop, handle_client_input,
}
use linux_device_manager.Daemon.Coupling.{IsCoupled}
use linux_device_manager.Daemon.Trace.{responding-IsCoupled, start_request-IsCoupled}
use linux_device_manager.Daemon.Served.{IsServed}
use linux_device_manager.Daemon.Served.Answering.{close_client-IsServed}

-- The update and the session agree, and what is owed to the clients is kept.
pub record IsManaged (d : Daemon) : Type 0 where
  pub coupled : IsCoupled d
  pub served : IsServed d

pub close_client-IsManaged : (d : Daemon) (i : ℕ) → IsManaged d → IsManaged (close_client d i)
unfolding close_client
close_client-IsManaged d i v = record {
  coupled = v.coupled;
  served = close_client-IsServed d i v.served;
}

module _ (e : Surroundings) (index : ℕ) where
  handle_request-IsCoupled :
      (d : Daemon) (c : Client) → IsCoupled d → IsCoupled (handle_request e d index c).1
  unfolding handle_request
  handle_request-IsCoupled d c v =
      let (result, request) = decode_request (take c.input_size c.input) blank_request in
      if-both (λ (x : Status × Daemon). IsCoupled x.1) (not (is_ok result)) _ _
        (responding-IsCoupled e d index 0 result [] v) (start_request-IsCoupled e d index request v)

  input_loop-IsCoupled :
      (receipts : List Receipt) (d : Daemon) (c : Client)
      → IsCoupled d
      → IsCoupled (input_loop e d index c receipts).1
  unfolding input_loop close_client
  input_loop-IsCoupled [] d c v = v
  input_loop-IsCoupled (Receipt.interrupted ∷ later) d c v = input_loop-IsCoupled later d c v
  input_loop-IsCoupled (Receipt.failed ∷ later) d c v = v
  input_loop-IsCoupled (gives xs ∷ later) d c v =
      let P = λ (x : Status × Daemon). IsCoupled x.1 in
      let bytes = take (4104 - c.input_size) xs in
      let c1 = taken_in c bytes in
      let c2 = sized c1 in
      if-both P (length bytes == 0) _ _ v (
        if-both P (header_due c1 && ltb 4096 (announced c1)) _ _
          (responding-IsCoupled e (put_client d index c1) index 0 limit [] v)
          (if-both P (is_whole c2) _ _ (handle_request-IsCoupled (put_client d index c2) c2 v)
            (input_loop-IsCoupled later (put_client d index c2) c2 v)))

  pub handle_client_input-IsCoupled :
      (receipts : List Receipt) (d : Daemon)
      → IsCoupled d
      → IsCoupled (handle_client_input e d index receipts).1
  unfolding handle_client_input
  handle_client_input-IsCoupled receipts d v = begins (client_at d.clients index)
    where
      begins :
          (found : Option Client)
          → IsCoupled
              (elim found as (λ _. Status × Daemon) [
                | none ↦ (ok, d)
                | some c ↦ input_loop e d index c receipts
              ]).1
      begins none = v
      begins (some c) = input_loop-IsCoupled receipts d c v
