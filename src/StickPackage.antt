-- ===== src/StickPackage.antt =====
-- pkg/stickpackage/stickpackage.go, and the split function that connect/server_tcp.go hands to the
-- scanner: frames of two version bytes, a big-endian int16 with the length of the whole frame, and
-- the message.
pub mod Frames
pub mod Stream
pub mod Pieces
use yoyichat.Base.{
  ℕ, zero, suc, ◌+◌, ◌-◌, ◌*◌, ◌/◌, ◌%◌, ◌^◌, Bool, true, false, ◌&&◌, Option, none, some, List, [],
  ◌∷◌, ◌++◌, ◌==◌, ltb, leb, if◌then◌else◌, length, take, drop,
}
use yoyichat.Base.Bytes.{Bytes}
use yoyichat.Base.Int.{ℤ, pos, negsuc, signed16, residue16}

abbrev pub tcp_header_length : ℕ
tcp_header_length = 4

abbrev pub version_content : ℕ × ℕ
version_content = (b'v', b'1')

pub record StickPackage : Type 0 where
  pub version : ℕ × ℕ
  pub length : ℤ
  pub msg : Bytes

-- `4 + int16(len(p.Msg))`, in int16 arithmetic
unfoldable pub get_package_length : Bytes → ℤ
get_package_length msg = signed16 ((4 + length msg) % 2 ^ 16)

-- the package that the write loops fill in before they send it
unfoldable pub new_package : Bytes → StickPackage
new_package msg = record { version = version_content; length = get_package_length msg; msg = msg }

-- `binary.Write` and `binary.Read` of an int16 in big-endian order
unfoldable pub put_int16 : ℤ → Bytes
put_int16 z = let u = residue16 z in (u / 256) ∷ u % 256 ∷ []

unfoldable pub get_int16 : ℕ → ℕ → ℤ
get_int16 hi lo = signed16 ((hi * 256 + lo) % 2 ^ 16)

-- `Pack`, as the bytes that it writes
unfoldable pub pack : StickPackage → Bytes
pack p = p.version.0 ∷ p.version.1 ∷ put_int16 p.length ++ p.msg

-- What `Unpack` ends in: `make` panics at a negative size; a short read is an error.
pub data Unpacked : Type 0 where
  panics : Unpacked
  short : Unpacked
  unpacked : StickPackage → Unpacked

-- `p.Length-4`, in int16 arithmetic: it wraps around below -32764
unfoldable pub msg_size : ℤ → ℤ
msg_size len = signed16 ((residue16 len + (2 ^ 16 - 4)) % 2 ^ 16)

unfoldable pub read_bytes : ℕ × ℕ → (len size : ℤ) → Bytes → Unpacked
read_bytes version len (negsuc n) rest = panics
read_bytes version len (pos n) rest =
    if ltb (length rest) n
    then short
    else unpacked (record { version = version; length = len; msg = take n rest })

unfoldable pub read_msg : ℕ × ℕ → ℤ → Bytes → Unpacked
read_msg version len rest = read_bytes version len (msg_size len) rest

-- The errors of the first two reads are dropped: without a whole header the length stays 0.
unfoldable pub unpack : Bytes → Unpacked
unpack (v₀ ∷ v₁ ∷ hi ∷ lo ∷ rest) = read_msg (v₀, v₁) (get_int16 hi lo) rest
unpack _ = panics

-- What the split function answers while the stream is open: no token yet, a token of that many
-- bytes, or a panic (no data at all, or a slice with a negative bound).
pub data Split : Type 0 where
  need_more : Split
  token : ℕ → Bytes → Split
  panics : Split

unfoldable pub split_at : ℤ → Bytes → Split
split_at (negsuc n) bytes = panics
split_at (pos n) bytes = if leb n (length bytes) then token n (take n bytes) else need_more

unfoldable pub split_header : Bytes → Split
split_header (v₀ ∷ v₁ ∷ hi ∷ lo ∷ rest) = split_at (get_int16 hi lo) (v₀ ∷ v₁ ∷ hi ∷ lo ∷ rest)
split_header _ = need_more

unfoldable pub split : Bytes → Split
split [] = panics
split (c ∷ rest) =
    if c == b'v'
    then (if ltb tcp_header_length (length (c ∷ rest)) then split_header (c ∷ rest) else need_more)
    else need_more

-- The tokens that the scanner returns from what has arrived, and what waits in its buffer. `none`:
-- a panic, an empty token (at which `Unpack` panics), or no fuel.
unfoldable pub frames : ℕ → Bytes → Option (List Bytes × Bytes)
frames zero bytes = none
frames (suc fuel) [] = some ([], [])
frames (suc fuel) (c ∷ rest) = elim (split (c ∷ rest)) [
  | need_more ↦ some ([], c ∷ rest)
  | panics ↦ none
  | token zero t ↦ none
  | token (suc n) t ↦ (elim (frames fuel (drop (suc n) (c ∷ rest))) [
    | none ↦ none
    | some (ts, left) ↦ some (t ∷ ts, left)
  ])
]
