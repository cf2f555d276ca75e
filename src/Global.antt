-- ===== src/Global.antt =====
-- src/include/globalUtils.c: getSocket and the log.
use gproxy.Common.{
  ℕ, ◌<◌, ◌≡◌, refl, sym, ◌∙◌, Bool, true, false, Option, none, some, List, [], ◌∷◌, ◌++◌, length,
  ltb, arith, if◌then◌else◌,
}
use mathlib.Core.List.{append_assoc, append-nil}
use gproxy.Common.Outcome.{ok, fault, Cmd, pure, ◌>>=◌, ◌>>◌}
use gproxy.Common.Outcome.Returns
use gproxy.Common.Outcome.Returns.{Returns, returns}
use gproxy.Ritardatore.Util.Sockets.{Sockets, setsockopt_reuse_addr}
use gproxy.Ritardatore.Util.Sockets.Setup.{socket}

-- The descriptor, and `none` for -1. `setsockopt` fails on the -1 of a `socket` that has failed.
unfoldable pub get_socket : Cmd Sockets (Option ℕ)
unfolding socket setsockopt_reuse_addr
get_socket = do
  sockfd ← socket
  elim sockfd [
    | none ↦ pure none
    | some fd ↦ do fine ← setsockopt_reuse_addr fd; pure (if fine then some fd else none)
  ]

-- The log's file, what went to the standard output, and the flag that the date is still to be
-- written. `date` is the text that `strftime` makes, and `writable` whether `fopen` succeeds.
pub record Log : Type 0 where
  pub file : List ℕ
  pub out : List ℕ
  pub first_execution : Bool
  pub date : List ℕ
  pub writable : Bool

-- `"\n\n==================  "`, the date, and `" ==================\n\n"`
abbrev rule : List ℕ
rule =
    b'=' ∷ b'=' ∷ b'=' ∷ b'=' ∷ b'=' ∷ b'=' ∷ b'=' ∷ b'=' ∷ b'=' ∷ b'=' ∷ b'=' ∷ b'=' ∷ b'=' ∷ b'='
    ∷ b'=' ∷ b'=' ∷ b'=' ∷ b'=' ∷ []

abbrev pub banner : List ℕ → List ℕ
banner date = 10 ∷ 10 ∷ rule ++ b' ' ∷ b' ' ∷ date ++ b' ' ∷ rule ++ 10 ∷ 10 ∷ []

-- The file that cannot be opened is `NULL`, and writing to it is undefined.
unfoldable pub log_append : List ℕ → Cmd Log (Unit {0})
log_append string s =
    if s.writable
    then ok tt (record s {
      file = (if s.first_execution then s.file ++ banner s.date else s.file) ++ string;
      first_execution = false;
    })
    else fault

-- The message's line stands in an array of 1000 bytes, with its NUL.
unfoldable pub print_log : List ℕ → Cmd Log (Unit {0})
unfolding log_append
print_log message s =
    let msg = b'[' ∷ b'L' ∷ b'O' ∷ b'G' ∷ b']' ∷ b' ' ∷ message ++ 10 ∷ [] in
    if ltb (length msg) 1000 then log_append msg (record s { out = s.out ++ msg }) else fault

-- the line of a message
abbrev pub line : List ℕ → List ℕ
line message = b'[' ∷ b'L' ∷ b'O' ∷ b'G' ∷ b']' ∷ b' ' ∷ message ++ 10 ∷ []

unfoldable pub print_logs : List (List ℕ) → Cmd Log (Unit {0})
print_logs [] = pure tt
print_logs (m ∷ ms) = do print_log m; print_logs ms

pub lines : List (List ℕ) → List ℕ
lines [] = []
lines (m ∷ ms) = line m ++ lines ms

-- every message's line fits
abbrev pub AllShort : List (List ℕ) → Type 0
AllShort [] = Unit {0}
AllShort (m ∷ ms) = (length (line m) < 1000) × AllShort ms

print_logs-later :
    (ms : List (List ℕ)) (s : Log)
    → s.writable ≡ true
    → s.first_execution ≡ false
    → AllShort ms
    → Returns (λ _ t. (t.file ≡ s.file ++ lines ms) × (t.out ≡ s.out ++ lines ms)) (print_logs ms s)
unfolding print_logs print_log lines
print_logs-later [] s opens later short = returns (sym (append-nil s.file), sym (append-nil s.out))
print_logs-later (m ∷ ms) s opens later short =
    let fits : ltb (length (line m)) 1000 ≡ true = ground arith in
    rw (fits, opens, later)
      (Returns.mono
        (print_logs-later ms
          (record s {
            file = s.file ++ line m;
            out = s.out ++ line m;
            first_execution = false;
            writable = true;
          })
          refl refl short.1)
        λ _ t (file, out). (
          file ∙ append_assoc s.file (line m) (lines ms),
          out ∙ append_assoc s.out (line m) (lines ms),
        ))

-- While the log's file can be opened and every line fits its array, messages appear in order on the
-- standard output and, behind the date, which is written once, in the file.
pub print_logs-lines :
    (m : List ℕ) (ms : List (List ℕ)) (s : Log)
    → s.writable ≡ true
    → s.first_execution ≡ true
    → AllShort (m ∷ ms)
    → Returns
        (λ _ t.
          (t.file ≡ (s.file ++ banner s.date) ++ lines (m ∷ ms))
          × (t.out ≡ s.out ++ lines (m ∷ ms)))
        (print_logs (m ∷ ms) s)
unfolding print_logs print_log lines
print_logs-lines m ms s opens first short =
    let fits : ltb (length (line m)) 1000 ≡ true = ground arith in
    rw (fits, opens, first)
      (Returns.mono
        (print_logs-later ms
          (record s {
            file = (s.file ++ banner s.date) ++ line m;
            out = s.out ++ line m;
            first_execution = false;
            writable = true;
          })
          refl refl short.1)
        λ _ t (file, out). (
          file ∙ append_assoc (s.file ++ banner s.date) (line m) (lines ms),
          out ∙ append_assoc s.out (line m) (lines ms),
        ))
