-- ===== src/Examples/Frames.antt =====
-- Frames of pkg/stickpackage/stickpackage.go that carry "hi" and "you".
use yoyichat.Base.{inr, ◌≡◌, refl, some, List, [], ◌∷◌, ◌++◌, map, arith}
use yoyichat.Base.Bytes.{Bytes, codes}
use yoyichat.StickPackage.{
  split_header, split_at, get_int16, new_package, pack, Unpacked, unpack, Split, need_more, split,
  frames,
}
use yoyichat.Base.Int.{pos}
use yoyichat.Connect.Write.{
  Wake, message, closed, tick, write_data_to_tcp, sent_bodies, frames-write_data_to_tcp,
}
use yoyichat.StickPackage.Frames.{Fits}
use yoyichat.StickPackage.Pieces.{Feed, ends, takes, whole, fuel_for, frames-whole}
use yoyichat.StickPackage.Stream.{stream, frames-stream, negative_length_panics}

abbrev hi : Bytes
hi = codes "hi"

abbrev you : Bytes
you = codes "you"

hi-Fits : Fits hi
hi-Fits = omega arith

you-Fits : Fits you
you-Fits = omega arith

first_byte_waits : split (b'v' ∷ []) ≡ need_more
unfolding split
first_byte_waits = refl

frames-stream_example :
    frames 3 (stream (hi ∷ you ∷ []) ++ b'v' ∷ [])
    ≡ some (map (λ m. pack (new_package m)) (hi ∷ you ∷ []), b'v' ∷ [])
frames-stream_example =
    frames-stream (hi ∷ you ∷ []) (b'v' ∷ []) 3 (hi-Fits, omega arith, (you-Fits, omega arith, tt))
      (inr first_byte_waits) (omega arith)

negative_length_panics_example :
    (split (b'v' ∷ b'1' ∷ 255 ∷ 255 ∷ 0 ∷ []) ≡ Split.panics)
    × (unpack (b'v' ∷ b'1' ∷ 255 ∷ 255 ∷ 0 ∷ []) ≡ Unpacked.panics)
negative_length_panics_example =
    negative_length_panics 255 255 b'1' 0 [] (omega arith) (omega arith) (omega arith)

abbrev two_wakes : List Wake
two_wakes = message (record { ver = pos 1; op = pos 3; seq = []; body = hi }) ∷ tick ∷ closed ∷ []

frames-write_data_to_tcp_example :
    frames 3 (write_data_to_tcp two_wakes)
    ≡ some (map (λ m. pack (new_package m)) (sent_bodies two_wakes), [])
frames-write_data_to_tcp_example =
    frames-write_data_to_tcp two_wakes 3 (hi-Fits, omega arith, (omega arith, omega arith, tt))
      (omega arith)

-- the frame of "hi" in two pieces
abbrev halves : List Bytes
halves = (b'v' ∷ b'1' ∷ 0 ∷ []) ∷ (6 ∷ b'h' ∷ b'i' ∷ []) ∷ []

first_half : frames 3 (b'v' ∷ b'1' ∷ 0 ∷ []) ≡ some ([], b'v' ∷ b'1' ∷ 0 ∷ [])
unfolding frames split
first_half = refl

second_half : frames 3 (whole halves) ≡ some (whole halves ∷ [], [])
unfolding frames split split_header split_at get_int16
second_half = refl

halves_fed : Feed 3 halves [] (whole halves ∷ []) []
halves_fed = takes (b'v' ∷ b'1' ∷ 0 ∷ []) first_half (takes (6 ∷ b'h' ∷ b'i' ∷ []) second_half ends)

frames-whole_example : frames (fuel_for 3 halves) (whole halves) ≡ some (whole halves ∷ [], [])
frames-whole_example = frames-whole 3 halves (whole halves ∷ []) [] halves_fed
