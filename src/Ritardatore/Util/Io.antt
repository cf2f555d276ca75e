-- ===== src/Ritardatore/Util/Io.antt =====
-- src/ritardatore/Util.c: Writen, Sendn and Readn on a connection of the system.
pub mod Writing
pub mod Reading
use gproxy.Common.{
  ℕ, zero, suc, ◌+◌, ◌-◌, Bool, true, false, List, [], ◌∷◌, ◌++◌, leb, if◌then◌else◌, take, drop,
  length, ◌==◌,
}
use gproxy.Common.Int.{ℤ, pos, negsuc}
use gproxy.Common.Outcome.{ok, halt, starve, Cmd}

-- `send`: takes at most `n` bytes of those given; `EINTR`; `EPIPE`, with the signal that the
-- connection's other end is closed; another error. With the script spent, it waits.
pub data SendAnswer : Type 0 where
  takes : ℕ → SendAnswer
  interrupted : SendAnswer
  broken_pipe : SendAnswer
  failed : SendAnswer

-- `read`: hands over at most `n + 1` of the bytes that are still to come, none at their end;
-- `EINTR`; another error. With the script spent, it waits.
pub data ReadAnswer : Type 0 where
  gives : ℕ → ReadAnswer
  interrupted : ReadAnswer
  failed : ReadAnswer

-- What the system has taken and what it has still to bring.
pub record Connection : Type 0 where
  pub sends : List SendAnswer
  pub taken : List ℕ
  pub reads : List ReadAnswer
  pub incoming : List ℕ

-- The loop of `Writen` and, with `MSG_NOSIGNAL`, of `Sendn`; `n` is the result when all is sent.
-- The signal of a broken pipe ends the process: 128 + `SIGPIPE`, as the shell counts it.
unfoldable pub write_loop :
    (no_signal : Bool) (n : ℕ) → List SendAnswer → (left : List ℕ) → Cmd Connection ℤ
write_loop no_signal n script [] s = ok (pos n) (record s { sends = script })
write_loop no_signal n [] (b ∷ left) s = starve (record s { sends = [] })
write_loop no_signal n (takes k ∷ script) (b ∷ left) s =
    write_loop no_signal n script (drop k (b ∷ left))
      (record s { taken = s.taken ++ take k (b ∷ left) })
write_loop no_signal n (SendAnswer.interrupted ∷ script) (b ∷ left) s =
    write_loop no_signal n script (b ∷ left) s
write_loop no_signal n (broken_pipe ∷ script) (b ∷ left) s =
    if no_signal
    then ok (negsuc 0) (record s { sends = script })
    else halt 141 (record s { sends = script })
write_loop no_signal n (SendAnswer.failed ∷ script) (b ∷ left) s =
    ok (negsuc 0) (record s { sends = script })

-- The `n` bytes at `buf`.
unfoldable pub writen : (buf : List ℕ) → Cmd Connection ℤ
writen buf s = write_loop false (length buf) s.sends buf s

unfoldable pub sendn : (buf : List ℕ) → Cmd Connection ℤ
sendn buf s = write_loop true (length buf) s.sends buf s

abbrev pub minimum : ℕ → ℕ → ℕ
minimum n m = if leb n m then n else m

-- The result, and the bytes that stand at `ptr`.
unfoldable pub read_loop :
    (nbytes : ℕ) → List ReadAnswer → (left : ℕ) (got : List ℕ) → Cmd Connection (ℤ × List ℕ)
read_loop nbytes script zero got s = ok (pos nbytes, got) (record s { reads = script })
read_loop nbytes [] (suc left) got s = starve (record s { reads = [] })
read_loop nbytes (gives k ∷ script) (suc left) got s =
    let chunk = take (minimum (suc k) (suc left)) s.incoming in
    let next =
      read_loop nbytes script (suc left - length chunk) (got ++ chunk)
        (record s { incoming = drop (length chunk) s.incoming }) in
    if length chunk == 0 then ok (pos 0, got) (record s { reads = script }) else next
read_loop nbytes (ReadAnswer.interrupted ∷ script) (suc left) got s =
    read_loop nbytes script (suc left) got s
read_loop nbytes (ReadAnswer.failed ∷ script) (suc left) got s =
    ok (negsuc 0, got) (record s { reads = script })

unfoldable pub readn : (nbytes : ℕ) → Cmd Connection (ℤ × List ℕ)
readn nbytes s = read_loop nbytes s.reads nbytes [] s
