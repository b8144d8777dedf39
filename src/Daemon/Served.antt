-- ===== src/Daemon/Served.antt =====
-- apps/devmgrd/daemon.c: what is owed to the clients.
pub mod Answering
pub mod Keeping
pub mod Serving
pub mod Asking
pub mod Filling
pub mod Receiving
use linux_device_manager.Base.{
  ℕ, zero, suc, ◌+◌, ◌≤◌, ◌<◌, ◌≡◌, ◌≢◌, ◌⊎◌, inl, inr, refl, sym, ◌∙◌, ap, arith, Bool, true,
  false, Option, none, some, List, [], ◌∷◌, length, drop, ◌↔◌, ◌==◌, Bool-cases, if◌then◌else◌,
}
use linux_device_manager.Session.State.{Session}
use linux_device_manager.Upgrade.State.{Upgrade, active}
use linux_device_manager.Daemon.State.{Client, Daemon, changed, client_at}
use linux_device_manager.Daemon.Upgrading.{is_handshaking}
use linux_device_manager.Daemon.Input.{is_whole, announced}

-- The whole request has come: the bytes that its header announces, or more.
abbrev pub Asked : Client → Type 0
Asked c = (0 < c.expected_size) × (c.expected_size ≤ c.input_size)

-- The header announces a payload beyond the limit.
abbrev pub Overlong : Client → Type 0
Overlong c = (c.expected_size ≡ 0) × (8 ≤ c.input_size) × (4096 < announced c)

-- The buffers of a client in their bounds, and a response only to a request.
pub record IsClient (c : Client) : Type 0 where
  pub input_array : length c.input ≡ 4104
  pub output_array : length c.output ≡ 4108
  pub received : c.input_size ≤ 4104
  pub responds : c.close_after_write ≡ true → Asked c ⊎ Overlong c

-- A client with what is owed to it: once its request is whole a response is queued for it, or it
-- is the one that waits for the device; the one that waits is open, has sent its request, and no
-- response is queued for it.
pub record IsSlot (waiting : Option ℕ) (index : ℕ) (c : Client) : Type 0 where
  pub client : IsClient c
  pub answered :
      c.is_open ≡ true → is_whole c ≡ true → (c.close_after_write ≡ true) ⊎ (waiting ≡ some index)
  pub waits : waiting ≡ some index → (c.is_open ≡ true) × (c.close_after_write ≡ false) × Asked c

abbrev pub Slots : List Client → Option ℕ → Type 0
Slots cs waiting = (i : ℕ) (c : Client) → client_at cs i ≡ some c → IsSlot waiting i c

-- The client that waits has a slot.
abbrev pub Present : List Client → Option ℕ → Type 0
Present cs waiting = (i : ℕ) → waiting ≡ some i → i < length cs

-- While a client waits its request is in flight, no update is active, and the device is not
-- HANDSHAKING.
abbrev pub Waits : Option ℕ → Session → Upgrade → Type 0
Waits waiting s u =
    (i : ℕ)
    → waiting ≡ some i
    → (s.pending.active ≡ true) × (active u ≡ false) × (is_handshaking s.state ≡ false)

pub record IsServed (d : Daemon) : Type 0 where
  pub slots : Slots d.clients d.active_client
  pub present : Present d.clients d.active_client
  pub waits : Waits d.active_client d.session d.upgrade

pub length-changed :
    (f : Client → Client) (index : ℕ) (cs : List Client) → length (changed f index cs) ≡ length cs
length-changed f index [] = refl
length-changed f zero (c ∷ cs) = refl
length-changed f (suc index) (c ∷ cs) = ap suc (length-changed f index cs)

-- A client of a changed list is the changed one, or one of the others.
pub client_at-changed :
    (f : Client → Client) (index : ℕ) (cs : List Client) (i : ℕ) (c : Client)
    → client_at (changed f index cs) i ≡ some c
    → ((i ≡ index) × ((old : Client) × (client_at cs index ≡ some old) × (c ≡ f old)))
      ⊎ ((i ≢ index) × (client_at cs i ≡ some c))
client_at-changed f index [] i c h = cc h
client_at-changed f zero (x ∷ cs) zero c h = inl (refl, (x, refl, cc h))
client_at-changed f zero (x ∷ cs) (suc i) c h = inr (omega arith, h)
client_at-changed f (suc index) (x ∷ cs) zero c h = inr (omega arith, h)
client_at-changed f (suc index) (x ∷ cs) (suc i) c h = elim (client_at-changed f index cs i c h) [
  | inl (e, old) ↦ inl (ap suc e, old)
  | inr (ne, at) ↦ inr (omega arith, at)
]

pub client_at-length :
    (cs : List Client) (i : ℕ) (c : Client) → client_at cs i ≡ some c → i < length cs
client_at-length [] i c h = cc h
client_at-length (x ∷ cs) zero c h = omega arith
client_at-length (x ∷ cs) (suc i) c h = omega (arith, client_at-length cs i c h)

-- The changed client.
pub client_at-changed_self :
    (f : Client → Client) (index : ℕ) (cs : List Client) (c : Client)
    → client_at cs index ≡ some c
    → client_at (changed f index cs) index ≡ some (f c)
client_at-changed_self f index [] c h = cc h
client_at-changed_self f zero (x ∷ cs) c h = ap some (cc h)
client_at-changed_self f (suc index) (x ∷ cs) c h = client_at-changed_self f index cs c h

pub present-client :
    (cs : List Client) (i : ℕ) → i < length cs → (c : Client) × (client_at cs i ≡ some c)
present-client [] i h = absurd (omega arith)
present-client (c ∷ cs) zero h = (c, refl)
present-client (c ∷ cs) (suc i) h = present-client cs i (omega arith)

-- The same clients wait, but for one slot.
abbrev pub SameBut : ℕ → Option ℕ → Option ℕ → Type 0
SameBut index w w' = (j : ℕ) → j ≢ index → (w ≡ some j) ↔ (w' ≡ some j)

pub moved-IsSlot :
    {w w' : Option ℕ} (i : ℕ) (c : Client)
    → (w ≡ some i) ↔ (w' ≡ some i)
    → IsSlot w i c
    → IsSlot w' i c
moved-IsSlot {w} {w'} i c same v = record {
  client = v.client;
  answered = λ o h. elim (v.answered o h) [ inl a ↦ inl a | inr a ↦ inr (same.0 a) ];
  waits = λ h. v.waits (same.1 h);
}

-- A change of one client, when the other ones wait as before.
pub changed-Slots :
    (f : Client → Client) (index : ℕ) (cs : List Client) (w w' : Option ℕ)
    → ((i : ℕ) (c : Client) → i ≢ index → client_at cs i ≡ some c → IsSlot w i c)
    → SameBut index w w'
    → ((c : Client) → client_at cs index ≡ some c → IsSlot w' index (f c))
    → Slots (changed f index cs) w'
changed-Slots f index cs w w' others same one i c at = elim (client_at-changed f index cs i c at) [
  | inl (e, (old, found, new)) ↦ rw (e, new) (one old found)
  | inr (ne, found) ↦ moved-IsSlot i c (same i ne) (others i c ne found)
]

pub other-Slots :
    (cs : List Client) (w : Option ℕ)
    → Slots cs w
    → (index i : ℕ) (c : Client) → i ≢ index
    → client_at cs i ≡ some c
    → IsSlot w i c
other-Slots cs w slots index i c ne at = slots i c at
