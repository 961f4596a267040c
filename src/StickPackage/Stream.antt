-- ===== src/StickPackage/Stream.antt =====
-- A stream of frames at the scanner of connect/server_tcp.go.
use yoyichat.Base.{
  ℕ, zero, suc, ◌+◌, ◌<◌, ◌≤◌, ◌≡◌, refl, some, List, [], ◌∷◌, ◌++◌, map, arith, length, drop,
  append_assoc, drop-length_append, ◌-◌, ◌^◌, ◌==◌, ◌&&◌, ltb, if◌then◌else◌, take, ◌∙◌, ap, ◌⊎◌,
}
use yoyichat.Base.Bytes.{Bytes}
use yoyichat.Base.Int.{negsuc}
use yoyichat.StickPackage.{
  new_package, pack, get_int16, read_msg, read_bytes, msg_size, short, unpacked, Unpacked, unpack,
  Split, need_more, token, split_at, split_header, split, frames,
}
use yoyichat.StickPackage.Frames.{Fits, length-pack, split-pack}

-- every message fits its length field and is not empty
abbrev pub AllFit : List Bytes → Type 0
AllFit [] = Unit
AllFit (m ∷ ms) = Fits m × (0 < length m) × AllFit ms

abbrev pub stream : List Bytes → Bytes
stream [] = []
stream (m ∷ ms) = pack (new_package m) ++ stream ms

frames-token :
    (fuel n : ℕ) (s t left : Bytes) (ts : List Bytes)
    → split s ≡ token (suc n) t
    → frames fuel (drop (suc n) s) ≡ some (ts, left)
    → frames (suc fuel) s ≡ some (t ∷ ts, left)
unfolding frames
frames-token fuel n [] t left ts e h = unfold split in cc e
frames-token fuel n (c ∷ s) t left ts e h = rw (e, frames) (rw h)

frames_wait :
    (fuel : ℕ) (s : Bytes) → (s ≡ []) ⊎ (split s ≡ need_more) → frames (suc fuel) s ≡ some ([], s)
unfolding frames
frames_wait fuel [] e = refl
frames_wait fuel (c ∷ s) e = rw (not_empty e, frames)
  where
    not_empty : ((c ∷ s) ≡ []) ⊎ (split (c ∷ s) ≡ need_more) → split (c ∷ s) ≡ need_more
    not_empty e = ground (arith, e)

-- The scanner returns the frames that were sent, whole and in order, and keeps what has arrived of
-- the next one, of which no token can be cut yet: if every message fits its frame and none is
-- empty, from fuel above their number on.
pub frames-stream :
    (ms : List Bytes) (rest : Bytes) (fuel : ℕ)
    → AllFit ms
    → (rest ≡ []) ⊎ (split rest ≡ need_more)
    → length ms < fuel
    → frames fuel (stream ms ++ rest) ≡ some (map (λ m. pack (new_package m)) ms, rest)
frames-stream ms rest zero fit wait h = absurd (omega arith)
frames-stream [] rest (suc fuel) fit wait h = frames_wait fuel rest wait
frames-stream (m ∷ ms) rest (suc fuel) fit wait h =
    let frame = pack (new_package m) in
    let bytes = frame ++ (stream ms ++ rest) in
    let ih = frames-stream ms rest fuel fit.2 wait (omega arith) in
    let cut : drop (4 + length m) bytes ≡ stream ms ++ rest =
      rw (← length-pack m fit.0) (drop-length_append frame (stream ms ++ rest)) in
    let next : suc (3 + length m) ≡ 4 + length m = omega arith in
    rw (append_assoc) (
      frames-token fuel (3 + length m) bytes frame rest _
        (split-pack m (stream ms ++ rest) fit.0 fit.1 ∙ ap (λ n. token n frame) (omega arith))
        (rw (next, cut) ih))

-- A header whose length field has its top bit set makes the split function panic, once a fifth byte has
-- arrived. `Unpack` panics there too, except at the four least lengths, from which the subtraction of the
-- header wraps around to at least 32764: there it waits for that many bytes.
pub negative_length_panics :
    (hi lo v c : ℕ) (rest : Bytes)
    → 128 ≤ hi
    → hi < 256
    → lo < 256
    → (split (b'v' ∷ v ∷ hi ∷ lo ∷ c ∷ rest) ≡ Split.panics)
      × (unpack (b'v' ∷ v ∷ hi ∷ lo ∷ c ∷ rest) ≡ (
          if (hi == 128) && ltb lo 4
          then (if ltb (length (c ∷ rest)) (2 ^ 15 - 4 + lo)
              then short
              else unpacked (record {
                version = (b'v', v);
                length = negsuc (2 ^ 15 - 1 - lo);
                msg = take (2 ^ 15 - 4 + lo) (c ∷ rest);
              }))
          else Unpacked.panics))
unfolding split split_header split_at unpack read_msg read_bytes msg_size get_int16
negative_length_panics hi lo v c rest big h l = ground arith
