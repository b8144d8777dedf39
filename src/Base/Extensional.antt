-- ===== src/Base/Extensional.antt =====
-- Lists by their elements: what each operation has at an index, and extensionality.
use Prim.Native.Nat.{ℕ, zero, suc, ◌+◌, ◌-◌, ◌≤◌}
use mathlib.Core.Path.{◌≡◌, refl, ap}
use mathlib.Core.Bool.{◌&&◌}
use mathlib.Core.List.{List, [], ◌∷◌, ◌++◌}
use mathlib.Core.Option.{none}
use native.Mathlib.Omega.{arith}
use linux_device_manager.Base.Tests.{ltb, leb, if◌then◌else◌}
use linux_device_manager.Base.Lists.{length, get_elem?, take, drop, overwrite, memcpy}

module _ {ℓ} {A : Type ℓ} where
  pub list_ext : (xs ys : List A) → ((i : ℕ) → get_elem? xs i ≡ get_elem? ys i) → xs ≡ ys
  list_ext [] [] h = refl
  list_ext [] (y ∷ ys) h = cc (h 0)
  list_ext (x ∷ xs) [] h = cc (h 0)
  list_ext (x ∷ xs) (y ∷ ys) h = cc (h 0, list_ext xs ys (λ i. h (suc i)))

  pub get_elem?-out : (xs : List A) (i : ℕ) → length xs ≤ i → get_elem? xs i ≡ none
  get_elem?-out [] i h = refl
  get_elem?-out (x ∷ xs) zero h = absurd (omega arith)
  get_elem?-out (x ∷ xs) (suc i) h = get_elem?-out xs i (omega arith)

  pub get_elem?-take :
      (n : ℕ) (xs : List A) (i : ℕ)
      → get_elem? (take n xs) i ≡ (if ltb i n then get_elem? xs i else none)
  get_elem?-take zero xs i = ground arith
  get_elem?-take (suc n) [] i = ground arith
  get_elem?-take (suc n) (x ∷ xs) zero = ground arith
  get_elem?-take (suc n) (x ∷ xs) (suc i) = ground (arith, get_elem?-take n xs i)

  pub get_elem?-drop :
      (n : ℕ) (xs : List A) (i : ℕ) → get_elem? (drop n xs) i ≡ get_elem? xs (n + i)
  get_elem?-drop zero xs i = ap (get_elem? xs) (omega arith)
  get_elem?-drop (suc n) [] i = refl
  get_elem?-drop (suc n) (x ∷ xs) i = ground (arith, get_elem?-drop n xs i)

  pub get_elem?-append :
      (xs ys : List A) (i : ℕ)
      → get_elem? (xs ++ ys) i
        ≡ (if ltb i (length xs) then get_elem? xs i else get_elem? ys (i - length xs))
  get_elem?-append [] ys i = ground arith
  get_elem?-append (x ∷ xs) ys zero = ground arith
  get_elem?-append (x ∷ xs) ys (suc i) = ground (arith, get_elem?-append xs ys i)

  get_elem?-overwrite :
      (dst src : List A) (i : ℕ)
      → get_elem? (overwrite dst src) i
        ≡ (if ltb i (length src) && ltb i (length dst) then get_elem? src i else get_elem? dst i)
  unfolding overwrite
  get_elem?-overwrite [] src i = ground arith
  get_elem?-overwrite (d ∷ dst) [] i = ground arith
  get_elem?-overwrite (d ∷ dst) (s ∷ src) zero = ground arith
  get_elem?-overwrite (d ∷ dst) (s ∷ src) (suc i) = ground (arith, get_elem?-overwrite dst src i)

  pub get_elem?-memcpy :
      (dst : List A) (at : ℕ) (src : List A) (i : ℕ)
      → get_elem? (memcpy dst at src) i ≡ (
          if leb at i && (ltb i (at + length src) && ltb i (length dst))
          then get_elem? src (i - at)
          else get_elem? dst i)
  unfolding memcpy
  get_elem?-memcpy dst zero src i = ground (arith, get_elem?-overwrite dst src i)
  get_elem?-memcpy [] (suc at) src i = ground arith
  get_elem?-memcpy (d ∷ dst) (suc at) src zero = ground arith
  get_elem?-memcpy (d ∷ dst) (suc at) src (suc i) = ground (arith, get_elem?-memcpy dst at src i)
