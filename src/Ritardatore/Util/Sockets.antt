-- ===== src/Ritardatore/Util/Sockets.antt =====
-- src/ritardatore/Util.c: the options of a socket, and the set-up of one. The results 1 and 0 of the
-- functions are true and false here.
pub mod Setup
pub mod Calls
pub mod Answers
pub mod Opened
pub mod Streams
pub mod Blocking
use gproxy.Common.{
  ℕ, zero, suc, ◌+◌, ◌-◌, ◌*◌, ◌/◌, ◌%◌, ◌^◌, Bool, true, false, not, Option, none, some, List, [],
  ◌∷◌, ◌==◌, leb, ltb, if◌then◌else◌,
}
use gproxy.Common.Int.{ℤ, pos, negsuc}
use gproxy.Common.Outcome.{ok, Cmd, pure, ◌>>=◌, ◌>>◌, read, modify}

-- A call of the system: done, `EINTR`, another error. With the script spent, every call is done.
pub data CallAnswer : Type 0 where
  done : CallAnswer
  interrupted : CallAnswer
  failed : CallAnswer

-- What the system keeps for the sockets: their options and flags, the ports that they are bound
-- to, the ends they are connected to, and whether they listen. `next_fd` is the next descriptor.
pub record Sockets : Type 0 where
  pub calls : List CallAnswer
  pub next_fd : ℕ
  pub reuse_addr : ℕ → ℕ
  pub tcp_nodelay : ℕ → ℕ
  pub snd_buf : ℕ → ℕ
  pub rcv_buf : ℕ → ℕ
  pub flags : ℕ → ℕ
  pub bound : ℕ → Option ℕ
  pub connected : ℕ → Option (Option ℕ × ℕ)
  pub listening : ℕ → Bool

abbrev pub put {ℓ} : {A : Type ℓ} → (ℕ → A) → ℕ → A → ℕ → A
put f i x j = if j == i then x else f j

-- The first answer, and the script behind it.
abbrev first_answer : List CallAnswer → CallAnswer
first_answer [] = done
first_answer (a ∷ rest) = a

abbrev behind : List CallAnswer → List CallAnswer
behind [] = []
behind (a ∷ rest) = rest

-- A call that changes the state when it is done.
unfoldable pub call : (Sockets → Sockets) → Cmd Sockets CallAnswer
call effect s =
    let left = record s { calls = behind s.calls } in
    elim (first_answer s.calls) [
      | done ↦ ok done (effect left)
      | interrupted ↦ ok interrupted left
      | failed ↦ ok failed left
    ]

abbrev pub is_done : CallAnswer → Bool
is_done done = true
is_done interrupted = false
is_done failed = false

unfoldable pub try_call : (Sockets → Sockets) → Cmd Sockets Bool
unfolding call
try_call effect = do a ← call effect; pure (is_done a)

-- A call that only reads: its value when it is done.
unfoldable pub try_read : {A : Type 0} → (Sockets → A) → Cmd Sockets (Option A)
unfolding try_call
try_read get = do fine ← try_call (λ s. s); read (λ s. if fine then some (get s) else none)

unfoldable pub setsockopt_reuse_addr : ℕ → Cmd Sockets Bool
unfolding try_call
setsockopt_reuse_addr fd = try_call (λ s. record s { reuse_addr = put s.reuse_addr fd 1 })

-- `getsockopt` writes as many bytes of its value over the old ones as the length says, which the
-- code has not set: `opt_len` and `old` are what the stack held in `OptLen` and `OptVal`. A length that is negative as
-- an `int` is an error.
abbrev pub copied : ℕ → (value old : ℕ) → ℕ
copied len value old = if leb 4 len then value else value % 256 ^ len + old / 256 ^ len * 256 ^ len

unfoldable pub getsockopt_reuse_addr : (opt_len old : ℕ) → ℕ → Cmd Sockets (Option ℕ)
unfolding try_read
getsockopt_reuse_addr opt_len old fd =
    if ltb opt_len (2 ^ 31) then try_read (λ s. copied opt_len (s.reuse_addr fd) old) else pure none

-- `if(booleano) OptVal = 1; else OptVal = 0;`
abbrev pub opt_val : ℤ → ℕ
opt_val (pos n) = if n == 0 then 0 else 1
opt_val (negsuc n) = 1

unfoldable pub setsockopt_tcpnodelay : ℕ → (booleano : ℤ) → Cmd Sockets Bool
unfolding try_call
setsockopt_tcpnodelay fd booleano =
    try_call (λ s. record s { tcp_nodelay = put s.tcp_nodelay fd (opt_val booleano) })

unfoldable pub getsockopt_tcpnodelay : ℕ → Cmd Sockets (Option ℕ)
unfolding try_read
getsockopt_tcpnodelay fd = try_read (λ s. s.tcp_nodelay fd)

-- `granted` is the size that the system makes of the one it is asked for.
module _ (granted : ℕ → ℕ) where
  unfoldable pub setsockopt_snd_buf : ℕ → (numbytes : ℕ) → Cmd Sockets Bool
  unfolding try_call
  setsockopt_snd_buf fd numbytes =
      try_call (λ s. record s { snd_buf = put s.snd_buf fd (granted numbytes) })

  unfoldable pub setsockopt_rcv_buf : ℕ → (numbytes : ℕ) → Cmd Sockets Bool
  unfolding try_call
  setsockopt_rcv_buf fd numbytes =
      try_call (λ s. record s { rcv_buf = put s.rcv_buf fd (granted numbytes) })

unfoldable pub getsockopt_snd_buf : ℕ → Cmd Sockets (Option ℕ)
unfolding try_read
getsockopt_snd_buf fd = try_read (λ s. s.snd_buf fd)

unfoldable pub getsockopt_rcv_buf : ℕ → Cmd Sockets (Option ℕ)
unfolding try_read
getsockopt_rcv_buf fd = try_read (λ s. s.rcv_buf fd)

-- `O_NONBLOCK`, one bit of the flags; with it set, and with it cleared.
abbrev pub nonblock : ℕ
nonblock = 2048

abbrev pub has_nonblock : ℕ → Bool
has_nonblock flags = flags / nonblock % 2 == 1

abbrev pub with_nonblock : ℕ → ℕ
with_nonblock flags = if has_nonblock flags then flags else flags + nonblock

abbrev pub without_nonblock : ℕ → ℕ
without_nonblock flags = if has_nonblock flags then flags - nonblock else flags

-- The flags are read, changed and written back.
abbrev pub change_flags : (ℕ → ℕ) → ℕ → Cmd Sockets Bool
change_flags change fd = do
  flags ← try_read (λ s. s.flags fd)
  elim flags [
    | none ↦ pure false
    | some f ↦ try_call (λ s. record s { flags = put s.flags fd (change f) })
  ]

unfoldable pub set_no_blocking : ℕ → Cmd Sockets Bool
unfolding try_call try_read
set_no_blocking fd = change_flags with_nonblock fd

unfoldable pub set_blocking : ℕ → Cmd Sockets Bool
unfolding try_call try_read
set_blocking fd = change_flags without_nonblock fd

-- What `*pIsBlocking` gets; `none` is the result 0.
unfoldable pub is_blocking : ℕ → Cmd Sockets (Option ℕ)
unfolding try_read
is_blocking fd = do
  flags ← try_read (λ s. s.flags fd)
  pure (elim flags [ none ↦ none | some f ↦ if has_nonblock f then some 0 else some 1 ])
