-- ===== src/StickPackage/Frames.antt =====
-- One frame of pkg/stickpackage/stickpackage.go: what is written, cut off and read.
use yoyichat.Base.{
  head?, length-take, ℕ, zero, suc, ◌+◌, ◌-◌, ◌/◌, ◌%◌, ◌^◌, ◌<◌, ◌≡◌, refl, true, false, some, [],
  ◌∷◌, ◌++◌, ltb, leb, length, take, arith, length-append, take-length_append, ◌∙◌,
}
use yoyichat.Base.Bytes.{Bytes}
use yoyichat.Base.Int.{pos}
use yoyichat.StickPackage.{
  new_package, get_package_length, put_int16, get_int16, pack, unpacked, read_msg, read_bytes,
  msg_size, unpack, need_more, token, split_at, split_header, split, version_content,
}

-- the message fits the int16 length field together with the header
abbrev pub Fits : Bytes → Type 0
Fits msg = 4 + length msg < 2 ^ 15

abbrev header : Bytes → Bytes
header msg = b'v' ∷ b'1' ∷ (4 + length msg) / 256 ∷ (4 + length msg) % 256 ∷ []

pub length_small : (msg : Bytes) → Fits msg → get_package_length msg ≡ pos (4 + length msg)
unfolding get_package_length
length_small msg fits = ground arith

put_small : (n : ℕ) → n < 2 ^ 15 → put_int16 (pos n) ≡ n / 256 ∷ n % 256 ∷ []
unfolding put_int16
put_small n fits = ground arith

length_field :
    (msg : Bytes)
    → Fits msg
    → get_int16 ((4 + length msg) / 256) ((4 + length msg) % 256) ≡ pos (4 + length msg)
unfolding get_int16
length_field msg fits = ground arith

pub pack-header : (msg : Bytes) → Fits msg → pack (new_package msg) ≡ header msg ++ msg
unfolding pack new_package
pack-header msg fits = rw (length_small msg fits, put_small (4 + length msg) fits) refl

pub length-pack : (msg : Bytes) → Fits msg → length (pack (new_package msg)) ≡ 4 + length msg
length-pack msg fits = rw (pack-header msg fits) (omega arith)

take_all : (xs : Bytes) (n : ℕ) → n ≡ length xs → take n xs ≡ xs
take_all xs n e = rw e (take_length xs)
  where
    take_length : (xs : Bytes) → take (length xs) xs ≡ xs
    take_length [] = refl
    take_length (x ∷ xs) = rw (take_length xs)

msg_size-pos : (n : ℕ) → n < 2 ^ 15 - 4 → msg_size (pos (4 + n)) ≡ pos n
unfolding msg_size
msg_size-pos n small = ground arith

read_msg-pos :
    (msg : Bytes)
    → Fits msg
    → read_msg version_content (pos (4 + length msg)) msg
      ≡ unpacked (record { version = version_content; length = pos (4 + length msg); msg = msg })
unfolding read_msg read_bytes
read_msg-pos msg fits =
    let enough : ltb (length msg) (length msg) ≡ false = ground arith in
    rw (msg_size-pos (length msg) (omega arith), enough, take_all msg (length msg) refl) refl

-- A message that fits the length field is read back from its frame.
pub unpack-pack :
    (msg : Bytes) → Fits msg → unpack (pack (new_package msg)) ≡ unpacked (new_package msg)
unfolding unpack new_package
unpack-pack msg fits =
    rw (pack-header msg fits, length_field msg fits, length_small msg fits) (read_msg-pos msg fits)

split_at-pos :
    (n : ℕ) (frame rest : Bytes)
    → n ≡ length frame
    → split_at (pos n) (frame ++ rest) ≡ token n frame
unfolding split_at
split_at-pos n frame rest e =
    let enough : leb n (length (frame ++ rest)) ≡ true = ground (arith, length-append frame rest) in
    rw (enough, e, take-length_append frame rest) refl

split_long : (s : Bytes) → head? s ≡ some b'v' → 4 < length s → split s ≡ split_header s
unfolding split
split_long [] e h = elim h [ ]
split_long (c ∷ s) e h = ground arith

-- The frame of a message that is not empty and fits the length field is the next token, whatever
-- follows it in the buffer.
pub split-pack :
    (msg rest : Bytes)
    → Fits msg
    → 0 < length msg
    → split (pack (new_package msg) ++ rest) ≡ token (4 + length msg) (pack (new_package msg))
split-pack msg rest fits some_bytes =
    rw
      (
        pack-header msg fits,
        split_long (header msg ++ msg ++ rest) refl (ground (arith, length-append msg rest)),
      )
      (unfold split_header in
        rw (length_field msg fits)
          (split_at-pos (4 + length msg) (header msg ++ msg) rest (omega arith)))

split_at-less : (n : ℕ) (s : Bytes) → length s < n → split_at (pos n) s ≡ need_more
unfolding split_at
split_at-less n s h = ground arith

part_need_more :
    (msg : Bytes) (n : ℕ)
    → Fits msg
    → 0 < n
    → n < 4 + length msg
    → split (take n (header msg ++ msg)) ≡ need_more
unfolding split
part_need_more msg zero fits arrived partial = absurd (omega arith)
part_need_more msg (suc zero) fits arrived partial = refl
part_need_more msg (suc (suc zero)) fits arrived partial = refl
part_need_more msg (suc (suc (suc zero))) fits arrived partial = refl
part_need_more msg (suc (suc (suc (suc zero)))) fits arrived partial = refl
part_need_more msg (suc (suc (suc (suc (suc k))))) fits arrived partial =
    split_long (header msg ++ take (suc k) msg) refl (omega (arith, length-take (suc k) msg))
    ∙ (unfold split_header in
        rw (length_field msg fits) (
          split_at-less (4 + length msg) (header msg ++ take (suc k) msg)
            (omega (arith, length-take (suc k) msg))))

-- While only a proper part of the frame of a message that fits has arrived, at least one byte, no
-- token is cut off.
pub split-part :
    (msg : Bytes) (n : ℕ)
    → Fits msg
    → 0 < n
    → n < length (pack (new_package msg))
    → split (take n (pack (new_package msg))) ≡ need_more
split-part msg n fits arrived partial =
    rw (pack-header msg fits)
      (part_need_more msg n fits arrived (omega (arith, length-pack msg fits)))
