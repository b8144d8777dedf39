-- ===== src/Daemon/Output/Outgoing.antt =====
-- What is queued for a client goes out, in whatever pieces.
use Prim.Native.Nat.{min}
use linux_device_manager.Base.{
  ℕ, zero, suc, ◌+◌, ◌-◌, ◌≤◌, ◌<◌, ◌⊎◌, inl, inr, ◌≡◌, refl, ap, ◌∙◌, arith, true, false, ◌==◌,
  ltb, some, List, [], ◌∷◌, ◌++◌, take, drop, length, take-append_drop, if◌then◌else◌, append-nil,
}
use linux_device_manager.Daemon.State.{Client, Daemon, client_at, close_client}
use linux_device_manager.Daemon.Calls.{Sending, takes, sent_before}
use linux_device_manager.Daemon.Input.{put_client}
use linux_device_manager.Daemon.Output.{output_loop, handle_client_output}
use linux_device_manager.Daemon.Loop.{is_open_at}
use linux_device_manager.Daemon.Served.{client_at-changed_self}
use linux_device_manager.Daemon.Input.Requests.{drop-drop}

-- Calls of `write` that take a byte or more each, up to EAGAIN: by how many bytes more than one
-- they could take.
abbrev pub writes : List ℕ → List Sending
writes [] = []
writes (n ∷ sizes) = takes (suc n) ∷ writes sizes

-- How many calls of `write` there are in all.
abbrev pub total : List (List ℕ) → ℕ
total [] = 0
total (sizes ∷ later) = length sizes + total later

-- `handle_client_output` at every EPOLLOUT of a client that is still there: the bytes that go out.
pub sent_out : Daemon → ℕ → List (List ℕ) → List ℕ × Daemon
sent_out d index [] = ([], d)
sent_out d index (sizes ∷ later) =
    let (bytes, d') = handle_client_output d index (writes sizes) in
    if is_open_at d index then sent_before bytes (sent_out d' index later) else ([], d)

-- No client has the slot any more.
abbrev pub IsClosedAt : Daemon → ℕ → Type 0
IsClosedAt d index = (c : Client) × (client_at d.clients index ≡ some c) × (c.is_open ≡ false)

closed_at :
    (d : Daemon) (index : ℕ) (c : Client)
    → client_at d.clients index ≡ some c
    → IsClosedAt (close_client d index) index
unfolding close_client
closed_at d index c found = (
  record c { is_open = false },
  client_at-changed_self (λ (old : Client). record old { is_open = false }) index d.clients c found,
  refl,
)

-- All bytes have gone out.
output_over :
    (sendings : List Sending) (d : Daemon) (index : ℕ) (c : Client)
    → c.close_after_write ≡ true
    → c.output_size ≤ c.output_offset
    → output_loop d index c sendings ≡ ([], close_client d index)
unfolding output_loop
output_over [] d index c closes h = ground (arith, closes, h)
output_over (Sending.interrupted ∷ later) d index c closes h = ground (arith, closes, h)
output_over (Sending.failed ∷ later) d index c closes h = ground (arith, closes, h)
output_over (takes n ∷ later) d index c closes h = ground (arith, closes, h)

-- What goes out of a client's output in one call: all that was left, and the slot is left; or a
-- part, and the client goes on behind it.
abbrev Sent : ℕ → Client → ℕ → ℕ → (List ℕ × Daemon) → Type 0
Sent index c left n (bytes, d') =
    ((bytes ≡ take left (drop c.output_offset c.output)) × IsClosedAt d' index)
    ⊎ ((k : ℕ) × (n ≤ k)
        × (k < left)
        × (bytes ≡ take k (drop c.output_offset c.output))
        × (client_at d'.clients index ≡ some (record c { output_offset = c.output_offset + k })))

-- Two parts of the output, one after the other.
parts :
    (c : Client) (n k m : ℕ) (bytes : List ℕ)
    → bytes ≡ take k (drop (c.output_offset + n) c.output)
    → m ≡ n + k
    → take n (drop c.output_offset c.output) ++ bytes ≡ take m (drop c.output_offset c.output)
parts c n k m bytes e h =
    ap (λ (l : List ℕ). take n (drop c.output_offset c.output) ++ l)
      (e
        ∙ ap (λ (l : List ℕ). take k l)
            (drop-drop c.output_offset n (c.output_offset + n) c.output refl))
    ∙ take-append_drop n k m (drop c.output_offset c.output) h

output_loop_lem :
    (index : ℕ) (sizes : List ℕ) (d : Daemon) (c : Client) (left : ℕ)
    → client_at d.clients index ≡ some c
    → c.close_after_write ≡ true
    → left ≡ c.output_size - c.output_offset
    → Sent index c left (length sizes) (output_loop d index c (writes sizes))
unfolding output_loop
output_loop_lem index sizes d c zero found closes size =
    rw (output_over (writes sizes) d index c closes (omega arith))
      (inl (refl, closed_at d index c found))
output_loop_lem index [] d c (suc left) found closes size =
    let waits : ltb c.output_offset c.output_size ≡ true = ground (arith, size) in
    rw waits (
      inr (
        0,
        omega arith,
        omega arith,
        refl,
        found ∙ ap (λ (n : ℕ). some (record c { output_offset = n })) (omega arith),
      ))
output_loop_lem index (n ∷ sizes) d c (suc left) found closes size =
    let count = min (suc n) (c.output_size - c.output_offset) in
    let c' = record c { output_offset = c.output_offset + count } in
    let d' = put_client d index c' in
    let rest =
      output_loop_lem index sizes d' c' (suc left - count)
        (client_at-changed_self (λ (old : Client). c') index d.clients c found) closes
        (omega arith) in
    let some_left : (c.output_size - c.output_offset == 0) ≡ false = ground (arith, size) in
    let some_taken : (count == 0) ≡ false = ground (arith, size) in
    rw (some_left, some_taken)
      (elim rest [
        | inl (bytes, closed) ↦ inl (parts c count _ (suc left) _ bytes (omega arith), closed)
        | inr (k, made, short, bytes, here) ↦ inr (
          count + k,
          omega arith,
          omega arith,
          parts c count k (count + k) _ bytes refl,
          here ∙ ap (λ (m : ℕ). some (record c { output_offset = m })) (omega arith),
        )
      ])

handle_client_output-found :
    (d : Daemon) (index : ℕ) (c : Client) (sendings : List Sending)
    → client_at d.clients index ≡ some c
    → handle_client_output d index sendings ≡ output_loop d index c sendings
unfolding handle_client_output
handle_client_output-found d index c sendings found = ground (arith, found)

open_at :
    (d : Daemon) (index : ℕ) (c : Client)
    → client_at d.clients index ≡ some c
    → is_open_at d index ≡ c.is_open
open_at d index c found = ground (arith, found)

-- Nothing goes out to a client that is not there.
sent_out_closed :
    (calls : List (List ℕ)) (d : Daemon) (index : ℕ)
    → is_open_at d index ≡ false
    → sent_out d index calls ≡ ([], d)
unfolding sent_out
sent_out_closed [] d index shut = refl
sent_out_closed (sizes ∷ later) d index shut = rw shut refl

-- All that is left of a client's output goes out, and then the slot is left.
pub sent_out_lem :
    (index : ℕ) (calls : List (List ℕ)) (d : Daemon) (c : Client) (left : ℕ)
    → client_at d.clients index ≡ some c
    → c.is_open ≡ true
    → c.close_after_write ≡ true
    → left ≡ c.output_size - c.output_offset
    → 0 < left
    → left ≤ total calls
    → let (bytes, d') = sent_out d index calls in
      (bytes ≡ take left (drop c.output_offset c.output)) × IsClosedAt d' index
unfolding sent_out
sent_out_lem index [] d c left found opened closes size some_left enough = absurd (omega arith)
sent_out_lem index (sizes ∷ later) d c left found opened closes size some_left enough =
    let d1 = (output_loop d index c (writes sizes)).1 in
    let here = open_at d index c found ∙ opened in
    let said = handle_client_output-found d index c (writes sizes) found in
    rw (here, said)
      (elim (output_loop_lem index sizes d c left found closes size) [
        | inl (bytes, (c', at, shut)) ↦
            rw (sent_out_closed later d1 index (open_at d1 index c' at ∙ shut))
              (append-nil _ ∙ bytes, (c', at, shut))
        | inr (k, made, short, bytes, there) ↦
            let c' = record c { output_offset = c.output_offset + k } in
            let (rest, closed) =
              sent_out_lem index later d1 c' (left - k) there opened closes (omega arith)
                (omega arith) (omega arith) in
            (
              ap (λ (l : List ℕ). l ++ (sent_out d1 index later).0) bytes
                  ∙ parts c k (left - k) left _ rest (omega arith),
              closed,
            )
      ])
