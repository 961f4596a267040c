-- ===== src/StickPackage/Pieces.antt =====
-- The scanner of connect/server_tcp.go on a stream that arrives in pieces.
use yoyichat.Base.{
  ℕ, zero, suc, ◌+◌, append-nil, append_assoc, ◌≤◌, ◌≡◌, refl, Option, none, some, List, [], ◌∷◌,
  ◌++◌, arith, length, take, drop, length-append, ◌∙◌, ap, sym, Option-cases, inl, inr,
}
use yoyichat.Base.Bytes.{Bytes}
use yoyichat.Base.Int.{ℤ, pos, negsuc}
use yoyichat.StickPackage.{
  Split, need_more, token, get_int16, split_at, split_header, split, frames,
}

take-append : (n : ℕ) (s r : Bytes) → n ≤ length s → take n (s ++ r) ≡ take n s
take-append zero s r h = refl
take-append (suc n) [] r h = absurd (omega arith)
take-append (suc n) (c ∷ s) r h = ap (λ l. c ∷ l) (take-append n s r (omega arith))

drop-append : (n : ℕ) (s r : Bytes) → n ≤ length s → drop n (s ++ r) ≡ drop n s ++ r
drop-append zero s r h = refl
drop-append (suc n) [] r h = absurd (omega arith)
drop-append (suc n) (c ∷ s) r h = drop-append n s r (omega arith)

-- A token that is cut off what has arrived is cut off in the same way when more has arrived.
abbrev Cut : ℕ → Bytes → Bytes → Bytes → Type 0
Cut n t s r = (n ≤ length s) × (split (s ++ r) ≡ token n t)

split_at-append :
    (z : ℤ) (n : ℕ) (s t r : Bytes)
    → split_at z s ≡ token n t
    → (n ≤ length s) × (split_at z (s ++ r) ≡ token n t)
unfolding split_at
split_at-append (negsuc m) n s t r e = absurd (ground arith)
split_at-append (pos m) n s t r e = ground (arith, length-append s r, take-append m s r)

split-append : (n : ℕ) (s t r : Bytes) → split s ≡ token n t → Cut n t s r
unfolding split split_header
split-append n [] t r e = absurd (ground arith)
split-append n (c ∷ []) t r e = absurd (ground arith)
split-append n (c ∷ v ∷ []) t r e = absurd (ground arith)
split-append n (c ∷ v ∷ hi ∷ []) t r e = absurd (ground arith)
split-append n (c ∷ v ∷ hi ∷ lo ∷ s) t r e =
    ground (arith, length-append s r, split_at-append (get_int16 hi lo) n (c ∷ v ∷ hi ∷ lo ∷ s) t r)

abbrev prepend : Bytes → Option (List Bytes × Bytes) → Option (List Bytes × Bytes)
prepend t none = none
prepend t (some (ts, left)) = some (t ∷ ts, left)

-- what `frames` makes of the answer of the split function
abbrev next : ℕ → Bytes → Split → Option (List Bytes × Bytes)
next fuel s need_more = some ([], s)
next fuel s Split.panics = none
next fuel s (token zero t) = none
next fuel s (token (suc n) t) = prepend t (frames fuel (drop (suc n) s))

frames-next :
    (fuel c : ℕ) (s : Bytes) (x : Split)
    → split (c ∷ s) ≡ x
    → frames (suc fuel) (c ∷ s) ≡ next fuel (c ∷ s) x
unfolding frames
frames-next fuel c s need_more e = rw (e, frames) refl
frames-next fuel c s Split.panics e = rw (e, frames) refl
frames-next fuel c s (token zero t) e = rw (e, frames) refl
frames-next fuel c s (token (suc n) t) e =
    elim (Option-cases (frames fuel (drop (suc n) (c ∷ s)))) [
      | inl f ↦ rw (e, frames) (rw (f) refl)
      | inr (r, f) ↦ rw (e, frames) (rw (f) refl)
    ]

-- What a run over a buffer that is not empty has done first: it has stopped, or it has cut a token.
data Start (fuel : ℕ) (s : Bytes) (ts : List Bytes) (left : Bytes) : Type 0 where
  stops : split s ≡ need_more → [] ≡ ts → s ≡ left → Start fuel s ts left
  goes_on :
      (n : ℕ) (t : Bytes) (ts' : List Bytes)
      → split s ≡ token (suc n) t
      → frames fuel (drop (suc n) s) ≡ some (ts', left)
      → t ∷ ts' ≡ ts
      → Start fuel s ts left

prepend-inverse :
    (t : Bytes) (o : Option (List Bytes × Bytes)) (ts : List Bytes) (left : Bytes)
    → prepend t o ≡ some (ts, left)
    → (ts' : List Bytes) × (o ≡ some (ts', left)) × (t ∷ ts' ≡ ts)
prepend-inverse t none ts left e = absurd (ground arith)
prepend-inverse t (some (us, l)) ts left e = (us, cc e, cc e)

next-Start :
    (fuel : ℕ) (s : Bytes) (x : Split) (ts : List Bytes) (left : Bytes)
    → split s ≡ x
    → next fuel s x ≡ some (ts, left)
    → Start fuel s ts left
next-Start fuel s need_more ts left w e = stops w (cc e) (cc e)
next-Start fuel s Split.panics ts left w e = absurd (ground arith)
next-Start fuel s (token zero t) ts left w e = absurd (ground arith)
next-Start fuel s (token (suc n) t) ts left w e =
    let (ts', f, g) = prepend-inverse t (frames fuel (drop (suc n) s)) ts left e in
    goes_on n t ts' w f g

frames-Start :
    (fuel c : ℕ) (s : Bytes) (ts : List Bytes) (left : Bytes)
    → frames (suc fuel) (c ∷ s) ≡ some (ts, left)
    → Start fuel (c ∷ s) ts left
frames-Start fuel c s ts left e =
    next-Start fuel (c ∷ s) (split (c ∷ s)) ts left refl
      (sym (frames-next fuel c s (split (c ∷ s)) refl) ∙ e)

-- more fuel does not change a result
frames-fuel :
    (fuel more : ℕ) (s : Bytes) (ts : List Bytes) (left : Bytes)
    → frames fuel s ≡ some (ts, left)
    → frames (fuel + more) s ≡ some (ts, left)
unfolding frames
frames-fuel zero more s ts left e = absurd (ground arith)
frames-fuel (suc fuel) more [] ts left e =
    let grow : suc fuel + more ≡ suc (fuel + more) = omega arith in rw (grow) e
frames-fuel (suc fuel) more (c ∷ s) ts left e =
    let grow : suc fuel + more ≡ suc (fuel + more) = omega arith in
    elim (frames-Start fuel c s ts left e) [
      | stops w here rest ↦ rw (grow, frames-next (fuel + more) c s need_more w, here, rest) refl
      | goes_on n t ts' w f g ↦
          rw
            (
              grow,
              frames-next (fuel + more) c s (token (suc n) t) w,
              frames-fuel fuel more (drop (suc n) (c ∷ s)) ts' left f,
              g,
            )
            refl
    ]

-- What is cut off what has come, and then off the rest with what comes later, is what is cut off all of it.
frames-append :
    (fuel more : ℕ) (s r : Bytes) (ts ts' : List Bytes) (left left' : Bytes)
    → frames fuel s ≡ some (ts, left)
    → frames more (left ++ r) ≡ some (ts', left')
    → frames (fuel + more) (s ++ r) ≡ some (ts ++ ts', left')
unfolding frames
frames-append zero more s r ts ts' left left' e e' = absurd (ground arith)
frames-append (suc fuel) more [] r ts ts' left left' e e' =
    let grow : suc fuel + more ≡ more + suc fuel = omega arith in
    let nothing : [] ≡ ts = cc e in
    let e'' : frames more ([] ++ r) ≡ some (ts', left') = cc (e, e') in
    rw (grow, ← nothing) (frames-fuel more (suc fuel) r ts' left' e'')
frames-append (suc fuel) more (c ∷ s) r ts ts' left left' e e' =
    let grow : suc fuel + more ≡ more + suc fuel = omega arith in
    let grow' : suc fuel + more ≡ suc (fuel + more) = omega arith in
    elim (frames-Start fuel c s ts left e) [
      | stops w here rest ↦
          let e'' : frames more ((c ∷ s) ++ r) ≡ some (ts', left') =
            ap (λ l. frames more (l ++ r)) rest ∙ e' in
          rw (grow, ← here) (frames-fuel more (suc fuel) ((c ∷ s) ++ r) ts' left' e'')
      | goes_on n t us w f g ↦
          let (low, w') = split-append (suc n) (c ∷ s) t r w in
          rw
            (
              grow',
              ← g,
              frames-next (fuel + more) c (s ++ r) (token (suc n) t) w',
              drop-append (suc n) (c ∷ s) r low,
              frames-append fuel more (drop (suc n) (c ∷ s)) r us ts' left left' f e',
            )
            refl
    ]

-- The scanner takes the pieces one after the other, each behind what it has kept, and has cut the tokens
-- `ts` in all.
pub data Feed (fuel : ℕ)
    : (pieces : List Bytes) (kept : Bytes) (ts : List Bytes) (left : Bytes) → Type 0 where
  ends : {kept : Bytes} → Feed fuel [] kept [] kept
  takes :
      {pieces ts ts' : List Bytes} {kept left left' : Bytes} (piece : Bytes)
      → frames fuel (kept ++ piece) ≡ some (ts, left)
      → Feed fuel pieces left ts' left'
      → Feed fuel (piece ∷ pieces) kept (ts ++ ts') left'

abbrev pub whole : List Bytes → Bytes
whole [] = []
whole (piece ∷ pieces) = piece ++ whole pieces

-- the fuel of the pieces together
abbrev pub fuel_for : ℕ → List Bytes → ℕ
fuel_for fuel [] = 1
fuel_for fuel (piece ∷ pieces) = fuel + fuel_for fuel pieces

-- nothing can be cut off what a run has left
frames_left :
    (fuel : ℕ) (s : Bytes) (ts : List Bytes) (left : Bytes)
    → frames fuel s ≡ some (ts, left)
    → frames 1 left ≡ some ([], left)
unfolding frames
frames_left zero s ts left e = absurd (ground arith)
frames_left (suc fuel) [] ts left e = let none_left : [] ≡ left = cc e in rw (← none_left) refl
frames_left (suc fuel) (c ∷ s) ts left e = elim (frames-Start fuel c s ts left e) [
  | stops w here rest ↦ rw (← rest) (frames-next 0 c s need_more w)
  | goes_on n t us w f g ↦ frames_left fuel (drop (suc n) (c ∷ s)) us left f
]

Feed-frames :
    (fuel : ℕ) (pieces : List Bytes) (kept : Bytes) (ts : List Bytes) (left : Bytes)
    → frames 1 kept ≡ some ([], kept)
    → Feed fuel pieces kept ts left
    → frames (fuel_for fuel pieces) (kept ++ whole pieces) ≡ some (ts, left)
Feed-frames fuel pieces kept ts left q (ends) = rw (append-nil kept) q
Feed-frames fuel pieces kept ts left q
      (takes {pieces = ps} {ts = us} {ts' = us'} {left = l} piece e f) =
    rw (← append_assoc kept piece (whole ps)) (
      frames-append fuel (fuel_for fuel ps) (kept ++ piece) (whole ps) us us' l left e
        (Feed-frames fuel ps l us' left (frames_left fuel (kept ++ piece) us l e) f))

-- It makes no difference into which pieces the bytes of a connection are cut on their way: where the
-- scanner gets through the pieces, it cuts the same tokens off their concatenation, and keeps the same
-- rest.
pub frames-whole :
    (fuel : ℕ) (pieces ts : List Bytes) (left : Bytes)
    → Feed fuel pieces [] ts left
    → frames (fuel_for fuel pieces) (whole pieces) ≡ some (ts, left)
unfolding frames
frames-whole fuel pieces ts left f = Feed-frames fuel pieces [] ts left refl f
