-- ===== src/Connect/Listen.antt =====
-- The TCP listeners of connect/server_tcp.go: the loops that accept connections and number them. What the
-- operating system answers is an argument.
use yoyichat.Base.{
  ℕ, zero, suc, ◌+◌, ◌-◌, ◌%◌, ◌^◌, ◌<◌, ◌≡◌, ap, Bool, true, false, ◌&&◌, Option, none, some, List,
  [], ◌∷◌, ◌++◌, if◌then◌else◌, ◌==◌, ltb, arith, Result, ok, err, get_elem?, replicate, Bool-cases,
  inl, inr,
}
use yoyichat.Base.Bytes.{Bytes}

-- `const maxInt`
abbrev pub max_int : ℕ
max_int = 2 ^ 31 - 1

-- an accepted connection, with the error of each of its three options, or the error of `AcceptTCP`
pub data Arrival : Type 0 where
  connection : (keep_alive read_buffer write_buffer : Option Bytes) → Arrival
  fails : Bytes → Arrival

pub data Accepting : Type 0 where
  waits : (r : ℕ) → Accepting
  returns : Accepting

abbrev pub succeeds : Option Bytes → Bool
succeeds none = true
succeeds (some e) = false

-- The options are set in turn; the first error ends the loop.
unfoldable pub is_served : Arrival → Bool
is_served (connection keep_alive read_buffer write_buffer) =
    succeeds keep_alive && (succeeds read_buffer && succeeds write_buffer)
is_served (fails e) = false

-- `if r++; r == maxInt { r = 0 }`
unfoldable pub next_number : ℕ → ℕ
next_number r = if r + 1 == max_int then 0 else r + 1

-- `acceptTcp` for what arrives: the numbers that `ServeTcp` is called with, and the loop after it
unfoldable pub accept_tcp : List Arrival → ℕ → List ℕ × Accepting
accept_tcp [] r = ([], waits r)
accept_tcp (a ∷ arrivals) r =
    let (numbers, end) = accept_tcp arrivals (next_number r) in
    if is_served a then (r ∷ numbers, end) else ([], returns)

-- `net.ResolveTCPAddr` and `net.ListenTCP`, which gives a listener
pub record Net : Type 0 where
  pub resolve : Bytes → Result Bytes
  pub listen : Bytes → Result ℕ

-- `InitTcpServer`: the listener of each accept loop that was started, and the error that ended it
unfoldable pub listen_at : Result ℕ → ℕ → List ℕ × Option Bytes → List ℕ × Option Bytes
listen_at (err e) cpu_num rest = ([], some e)
listen_at (ok listener) cpu_num (listeners, e) = (replicate cpu_num listener ++ listeners, e)

unfoldable pub resolve_at : Net → Result Bytes → ℕ → List ℕ × Option Bytes → List ℕ × Option Bytes
resolve_at net (err e) cpu_num rest = ([], some e)
resolve_at net (ok addr) cpu_num rest = listen_at (net.listen addr) cpu_num rest

unfoldable pub init_tcp_server : Net → ℕ → List Bytes → List ℕ × Option Bytes
init_tcp_server net cpu_num [] = ([], none)
init_tcp_server net cpu_num (ip_port ∷ addresses) =
    resolve_at net (net.resolve ip_port) cpu_num (init_tcp_server net cpu_num addresses)

-- how many arrivals come before the first that is not served
abbrev pub before_failure : List Arrival → ℕ
before_failure [] = 0
before_failure (a ∷ arrivals) = let n = before_failure arrivals in if is_served a then suc n else 0

next_number_plus : (r j : ℕ) → r < max_int → (next_number r + j) % max_int ≡ (r + suc j) % max_int
unfolding next_number
next_number_plus r j low = elim (Bool-cases (r + 1 == max_int)) [
  | inl e ↦ rw (e) (ground (arith, e))
  | inr e ↦ rw (e) (ap (λ x. x % max_int) (omega arith))
]

next_number_low : (r : ℕ) → r < max_int → next_number r < max_int
unfolding next_number
next_number_low r low = ground arith

-- An accept loop serves the connections before the first arrival that fails, and none after it; from
-- the number `r` on, it numbers them around a ring of `maxInt` numbers.
pub accept_tcp-numbers :
    (arrivals : List Arrival) (r i : ℕ)
    → r < max_int
    → get_elem? (accept_tcp arrivals r).0 i
      ≡ (if ltb i (before_failure arrivals) then some ((r + i) % max_int) else none)
unfolding accept_tcp
accept_tcp-numbers [] r i low = ground arith
accept_tcp-numbers (a ∷ arrivals) r zero low = elim (Bool-cases (is_served a)) [
  | inl e ↦ let same : (r + 0) % max_int ≡ r = omega arith in rw (e, same) (ground arith)
  | inr e ↦ rw (e) (ground arith)
]
accept_tcp-numbers (a ∷ arrivals) r (suc j) low = elim (Bool-cases (is_served a)) [
  | inl e ↦
      let rest = accept_tcp-numbers arrivals (next_number r) j (next_number_low r low) in
      rw (e, rest, next_number_plus r j low) (ground arith)
  | inr e ↦ rw (e) (ground arith)
]
