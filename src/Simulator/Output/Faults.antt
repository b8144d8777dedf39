-- ===== src/Simulator/Output/Faults.antt =====
-- Losing and corrupting frames, and the loop that writes them.
use linux_device_manager.Base.{
  ℕ, zero, suc, ◌≤◌, ◌≡◌, ◌⊎◌, inl, inr, refl, sym, ap, ◌∙◌, arith, true, false, Option, none, some,
  List, [], ◌∷◌, ◌++◌, length, take, drop, length-drop, append_assoc, take-append-drop,
}
use linux_device_manager.Status.{Status, ok, io, is_ok}
use linux_device_manager.Simulator.Output.{
  Outcome, written, interrupted, blocked, failed, write_loop, behind,
}

-- How many outcomes of `write` make progress.
abbrev pub progress : List Outcome → ℕ
progress [] = 0
progress (written zero ∷ outcomes) = progress outcomes
progress (written (suc n) ∷ outcomes) = suc (progress outcomes)
progress (interrupted ∷ outcomes) = progress outcomes
progress (blocked room ∷ outcomes) = progress outcomes
progress (failed ∷ outcomes) = progress outcomes

-- A prefix of the bytes, and all of them when the loop succeeds.
pub record Writes (bytes : List ℕ) (result : Status × List ℕ) : Type 0 where
  pub left : List ℕ
  pub prefix : bytes ≡ result.1 ++ left
  pub whole : is_ok result.0 ≡ true → result.1 ≡ bytes
  pub status : (result.0 ≡ ok) ⊎ (result.0 ≡ io)

-- What the loop returns on an error.
abbrev stop : Option (Status × List ℕ)
stop = some (io, [])

stopped : (bytes : List ℕ) → (result : Status × List ℕ) × (stop ≡ some result) × Writes bytes result
stopped bytes = (
  (io, []),
  refl,
  record { left = bytes; prefix = refl; whole = λ e. ground arith; status = inr refl },
)

-- The loop of `write_frame` ends when as many calls of `write` make progress as there are bytes,
-- however short the writes are and whatever interrupts them: what went out is a start of the
-- bytes, all of them when it returns DEVMGR_OK, and it returns nothing else but DEVMGR_ERROR_IO.
pub write_loop-terminates :
    (bytes : List ℕ) (outcomes : List Outcome)
    → length bytes ≤ progress outcomes
    → (result : Status × List ℕ) × (write_loop bytes outcomes ≡ some result) × Writes bytes result
unfolding write_loop
write_loop-terminates [] outcomes h =
    ((ok, []), refl, record { left = []; prefix = refl; whole = λ e. refl; status = inl refl })
write_loop-terminates (b ∷ bytes) [] h = absurd (omega arith)
write_loop-terminates (b ∷ bytes) (written zero ∷ outcomes) h = stopped (b ∷ bytes)
write_loop-terminates (b ∷ bytes) (written (suc n) ∷ outcomes) h =
    let ((status, rest), e, w) =
      write_loop-terminates (drop n bytes) outcomes (omega (arith, length-drop n bytes)) in
    let split = take-append-drop n bytes in
    (
      (status, b ∷ (take n bytes ++ rest)),
      rw (write_loop, e) refl,
      record {
        left = w.left;
        prefix =
            ap (λ l. b ∷ l)
              (sym split
                ∙ ap (λ l. take n bytes ++ l) w.prefix
                ∙ sym (append_assoc (take n bytes) rest w.left));
        whole = λ good. ap (λ l. b ∷ l) (ap (λ l. take n bytes ++ l) (w.whole good) ∙ split);
        status = w.status;
      },
    )
write_loop-terminates (b ∷ bytes) (interrupted ∷ outcomes) h =
    write_loop-terminates (b ∷ bytes) outcomes h
write_loop-terminates (b ∷ bytes) (blocked true ∷ outcomes) h =
    write_loop-terminates (b ∷ bytes) outcomes h
write_loop-terminates (b ∷ bytes) (blocked false ∷ outcomes) h = stopped (b ∷ bytes)
write_loop-terminates (b ∷ bytes) (failed ∷ outcomes) h = stopped (b ∷ bytes)

-- The loop on the rest, behind the bytes that went out.
continued :
    (start : List ℕ) (r : Option (Status × List ℕ)) (out : List ℕ)
    → behind start r ≡ some (ok, out)
    → (rest : List ℕ) × (r ≡ some (ok, rest)) × (out ≡ start ++ rest)
continued start none out h = ground arith
continued start (some (verdict, rest)) out h = (rest, ground arith, ground arith)

-- What goes out when the loop succeeds.
pub write_loop_whole :
    (bytes : List ℕ) (outcomes : List Outcome) (out : List ℕ)
    → write_loop bytes outcomes ≡ some (ok, out)
    → out ≡ bytes
unfolding write_loop
write_loop_whole [] outcomes out h = ground arith
write_loop_whole (b ∷ bytes) [] out h = ground arith
write_loop_whole (b ∷ bytes) (written zero ∷ outcomes) out h = ground arith
write_loop_whole (b ∷ bytes) (written (suc n) ∷ outcomes) out h =
    let (rest, e, same) = continued (b ∷ take n bytes) (write_loop (drop n bytes) outcomes) out h in
    let tail : rest ≡ drop n bytes = write_loop_whole (drop n bytes) outcomes rest e in
    same ∙ ap (λ l. b ∷ l) (ap (λ l. take n bytes ++ l) tail ∙ take-append-drop n bytes)
write_loop_whole (b ∷ bytes) (interrupted ∷ outcomes) out h =
    write_loop_whole (b ∷ bytes) outcomes out h
write_loop_whole (b ∷ bytes) (blocked true ∷ outcomes) out h =
    write_loop_whole (b ∷ bytes) outcomes out h
write_loop_whole (b ∷ bytes) (blocked false ∷ outcomes) out h = ground arith
write_loop_whole (b ∷ bytes) (failed ∷ outcomes) out h = ground arith
