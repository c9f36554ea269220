-- ===== src/Wire/Examples.antt =====
-- Frames on the wire, at concrete payloads.
use pandastack_ai.Common.{◌≡◌, refl, none, some, [], ◌∷◌, ◌++◌, arith}
use pandastack_ai.Wire.{Bytes, Read, ReadError, write_frame, read_frame}
use pandastack_ai.Wire.Frames.{append, IsBytes, read_frame-write_frame}

abbrev payload : Bytes
payload = 123 ∷ 125 ∷ []

read_frame-write_frame_example :
    (bs : Bytes) × (write_frame append 2 (some payload) [] ≡ (none, [] ++ bs))
    × ((rest : Bytes) → read_frame (bs ++ rest) ≡ Read.frame 2 payload rest)
read_frame-write_frame_example = read_frame-write_frame 2 payload [] (omega arith) (omega arith)

abbrev hello : Bytes
hello = 80 ∷ 68 ∷ 1 ∷ 0 ∷ 0 ∷ 0 ∷ 2 ∷ 123 ∷ 125 ∷ []

hello_read : read_frame hello ≡ Read.frame 1 payload []
unfolding read_frame
hello_read = refl

hello-IsBytes : IsBytes hello
hello-IsBytes = (
  omega arith,
  (
    omega arith,
    (
      omega arith,
      (omega arith, (omega arith, (omega arith, (omega arith, (omega arith, (omega arith, tt)))))),
    ),
  ),
)

garbage : read_frame (71 ∷ 69 ∷ 84 ∷ 32 ∷ 47 ∷ 32 ∷ 72 ∷ []) ≡ Read.read_err ReadError.bad_magic
unfolding read_frame
garbage = refl
