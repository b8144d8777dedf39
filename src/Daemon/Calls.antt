-- ===== src/Daemon/Calls.antt =====
-- What the system calls on the daemon's non-blocking descriptors give. A list of them is what the
-- calls of one loop give in turn; the call behind the last one gives EAGAIN.
use linux_device_manager.Base.{ℕ, Bool, List, ◌++◌}

-- `read`: bytes, of which it copies as many as were asked for, and none at the end of the file;
-- EINTR; or another error.
pub data Receipt : Type 0 where
  gives : List ℕ → Receipt
  interrupted : Receipt
  failed : Receipt

-- `write`: a number of bytes that it takes, of those that it is given; EINTR; or another error.
pub data Sending : Type 0 where
  takes : ℕ → Sending
  interrupted : Sending
  failed : Sending

-- `accept4`: a descriptor, with whether it can be polled; EINTR; or another error.
pub data Accepting : Type 0 where
  accepts : Bool → Accepting
  interrupted : Accepting
  failed : Accepting

-- What went out, behind what went out before.
abbrev pub sent_before : {R : Type 0} → List ℕ → (List ℕ × R) → List ℕ × R
sent_before bytes (later, result) = (bytes ++ later, result)
