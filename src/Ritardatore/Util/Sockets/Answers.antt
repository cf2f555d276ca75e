-- ===== src/Ritardatore/Util/Sockets/Answers.antt =====
-- The calls of the set-ups of a socket, and what follows each answer of the system.
use gproxy.Common.{
  ℕ, zero, suc, ◌<◌, arith, ◌+◌, ◌%◌, ◌^◌, ◌≡◌, refl, ◌⊎◌, Bool, true, false, Option, none, some,
  List, [], ◌∷◌,
}
use mathlib.Core.Path.{subst}
use gproxy.Common.Int.{ℤ, pos, negsuc}
use gproxy.Common.Outcome.{Cmd, and_then}
use gproxy.Common.Outcome.Ends.{Ends, exits, Ends-assoc}
use gproxy.Ritardatore.Util.Sockets.{
  Sockets, CallAnswer, done, interrupted, failed, put, try_call, try_read, setsockopt_reuse_addr,
  setsockopt_snd_buf, getsockopt_snd_buf, setsockopt_rcv_buf, getsockopt_rcv_buf,
}
use gproxy.Ritardatore.Util.Sockets.Calls.{Went, Refused, Went-append, Went-Refused}
use gproxy.Ritardatore.Util.Sockets.Setup.{socket, bind, set_buffer, set_buffers}

abbrev pub at : Sockets → List CallAnswer → Sockets
at s script = record s { calls = script }

module _ {B : Type 0} {P : B → Sockets → Type 0} {Q : ℕ → Sockets → Type 0}
    {W : Sockets → Type 0} where
  pub after_call :
      (effect : Sockets → Sockets) (s : Sockets) (k : Bool → Cmd Sockets B)
      → ((script : List CallAnswer)
          → Went 1 s.calls script
          → Ends P Q W (k true (effect (at s script))))
      → ((script : List CallAnswer) → Refused 0 s.calls → Ends P Q W (k false (at s script)))
      → Ends P Q W (and_then (try_call effect s) k)
  unfolding try_call
  after_call effect s k fine failing = by_answer s.calls refl
    where
      by_answer :
          (script : List CallAnswer)
          → s.calls ≡ script
          → Ends P Q W (and_then (try_call effect s) k)
      by_answer [] e = rw e (fine [] (rw e (refl, refl)))
      by_answer (done ∷ rest) e = rw e (fine rest (rw e (refl, refl)))
      by_answer (interrupted ∷ rest) e = rw e (failing rest (rw e (refl, refl)))
      by_answer (failed ∷ rest) e = rw e (failing rest (rw e (refl, refl)))

  pub after_read :
      {A : Type 0} (get : Sockets → A) (s : Sockets) (k : Option A → Cmd Sockets B)
      → ((script : List CallAnswer)
          → Went 1 s.calls script
          → Ends P Q W (k (some (get (at s script))) (at s script)))
      → ((script : List CallAnswer) → Refused 0 s.calls → Ends P Q W (k none (at s script)))
      → Ends P Q W (and_then (try_read get s) k)
  unfolding try_read
  after_read get s k fine failing =
      Ends-assoc (try_call (λ t. t) s) _ k (after_call (λ t. t) s _ fine failing)

-- what a buffer's sizes are behind a request; `granted` is what the system makes of one
abbrev pub sized : (ℕ → ℕ) → (ℕ → ℕ) → ℕ → ℤ → ℕ → ℕ
sized granted sizes fd (negsuc n) = sizes
sized granted sizes fd (pos zero) = sizes
sized granted sizes fd (pos (suc n)) = put sizes fd (granted (suc n))

-- the calls that such a request makes
abbrev pub calls_for : ℤ → ℕ
calls_for (negsuc n) = 0
calls_for (pos zero) = 0
calls_for (pos (suc n)) = 2

-- one of the next `n` calls is refused, and those before it are done
abbrev pub RefusedIn : ℕ → List CallAnswer → Type 0
RefusedIn n script = (k : ℕ) × (k < n) × Refused k script

-- The setting and the reading of one of the two buffers, which `sizes` and `write` stand for.
module _ (granted : ℕ → ℕ) (sizes : Sockets → ℕ → ℕ) (write : (ℕ → ℕ) → Sockets → Sockets)
    (same_calls : (f : ℕ → ℕ) (s : Sockets) → (write f s).calls ≡ s.calls) where
  abbrev setting : ℕ → ℕ → Cmd Sockets Bool
  setting fd n = try_call (λ s. write (put (sizes s) fd (granted n)) s)

  abbrev getting : ℕ → Cmd Sockets (Option ℕ)
  getting fd = try_read (λ s. sizes s fd)

  after_set_buffer :
      {B : Type 0} {P : B → Sockets → Type 0} {Q : ℕ → Sockets → Type 0} {W : Sockets → Type 0}
      (k : Unit {0} → Cmd Sockets B) (fd : ℕ) (dim : ℤ) (s : Sockets)
      → at (write (sizes s) s) s.calls ≡ s
      → ((script script' : List CallAnswer)
          → Went (calls_for dim) s.calls script'
          → Ends P Q W (
              k tt (at (write (sized granted (sizes (at s script)) fd dim) (at s script)) script')))
      → ((script : List CallAnswer) → RefusedIn (calls_for dim) s.calls → Q 5 (at s script))
      → ((n : ℕ) (script script' : List CallAnswer)
          → RefusedIn (calls_for dim) s.calls
          → Q 5 (at (write (put (sizes (at s script)) fd (granted n)) (at s script)) script'))
      → Ends P Q W (and_then (set_buffer setting getting fd dim s) k)
  unfolding set_buffer
  after_set_buffer {P} {Q} {W} k fd (negsuc n) s same next exit exit' =
      subst (λ t. Ends P Q W (k tt t)) same (next s.calls s.calls (refl, refl))
  after_set_buffer {P} {Q} {W} k fd (pos zero) s same next exit exit' =
      subst (λ t. Ends P Q W (k tt t)) same (next s.calls s.calls (refl, refl))
  after_set_buffer k fd (pos (suc n)) s same next exit exit' =
      Ends-assoc (setting fd (suc n) s) _ k (
        after_call (λ t. write (put (sizes t) fd (granted (suc n))) t) s _
          (λ script w. Ends-assoc (getting fd _) _ k (
            after_read (λ t. sizes t fd) _ _
              (λ script' w'. next script script' (
                Went-append 1 1 s.calls script script' w
                  (subst (λ l. Went 1 l script') (same_calls _ (at s script)) w')))
              (λ script' r. exits (
                exit' (suc n) script script' (
                  1,
                  omega arith,
                  Went-Refused 1 0 s.calls script w
                      (subst (λ l. Refused 0 l) (same_calls _ (at s script)) r),
                )))))
          (λ script r. exits (exit script (0, omega arith, r))))

-- what a set-up returns: with success the descriptor and the state `opened`, and `Fine`; else a
-- state of which `Kept` holds
abbrev pub Opened : ℕ → Sockets → (Fine Kept : Sockets → Type 0) → Bool × ℤ → Sockets → Type 0
Opened fd opened Fine Kept r t =
    ((r.0 ≡ true) × (r.1 ≡ pos fd) × (t ≡ at opened t.calls) × Fine t) ⊎ ((r.0 ≡ false) × Kept t)

-- the sockets' ends are what they were
abbrev pub SameEnds : Sockets → Sockets → Type 0
SameEnds s t = (t.bound ≡ s.bound) × (t.connected ≡ s.connected) × (t.listening ≡ s.listening)

pub after_socket :
    {B : Type 0} {P : B → Sockets → Type 0} {Q : ℕ → Sockets → Type 0} {W : Sockets → Type 0}
    (s : Sockets) (k : Option ℕ → Cmd Sockets B)
    → ((script : List CallAnswer)
        → Went 1 s.calls script
        → Ends P Q W (k (some s.next_fd) (record s { calls = script; next_fd = s.next_fd + 1 })))
    → ((script : List CallAnswer) → Refused 0 s.calls → Ends P Q W (k none (at s script)))
    → Ends P Q W (and_then (socket s) k)
unfolding socket
after_socket s k next failing =
    Ends-assoc (try_call (λ t. record t { next_fd = t.next_fd + 1 }) s) _ k
      (after_call (λ t. record t { next_fd = t.next_fd + 1 }) s _ next failing)

pub after_bind :
    {B : Type 0} {P : B → Sockets → Type 0} {Q : ℕ → Sockets → Type 0} {W : Sockets → Type 0}
    (fd port : ℕ) (s : Sockets) (k : Bool → Cmd Sockets B)
    → ((script : List CallAnswer)
        → Went 1 s.calls script
        → Ends P Q W
            (k true (record s { calls = script; bound = put s.bound fd (some (port % 2 ^ 16)) })))
    → ((script : List CallAnswer) → Refused 0 s.calls → Ends P Q W (k false (at s script)))
    → Ends P Q W (and_then (bind fd port s) k)
unfolding bind
after_bind fd port s k next failing =
    after_call (λ t. record t { bound = put t.bound fd (some (port % 2 ^ 16)) }) s k next failing

pub after_reuse :
    {B : Type 0} {P : B → Sockets → Type 0} {Q : ℕ → Sockets → Type 0} {W : Sockets → Type 0}
    (fd : ℕ) (s : Sockets) (k : Bool → Cmd Sockets B)
    → ((script : List CallAnswer)
        → Went 1 s.calls script
        → Ends P Q W (k true (record s { calls = script; reuse_addr = put s.reuse_addr fd 1 })))
    → ((script : List CallAnswer) → Refused 0 s.calls → Ends P Q W (k false (at s script)))
    → Ends P Q W (and_then (setsockopt_reuse_addr fd s) k)
unfolding setsockopt_reuse_addr
after_reuse fd s k next failing =
    after_call (λ t. record t { reuse_addr = put t.reuse_addr fd 1 }) s k next failing

pub after_set_buffers :
    {B : Type 0} {P : B → Sockets → Type 0} {Q : ℕ → Sockets → Type 0} {W : Sockets → Type 0}
    (granted : ℕ → ℕ) (fd : ℕ) (snd rcv : ℤ) (s : Sockets) (k : Unit {0} → Cmd Sockets B)
    → ((script : List CallAnswer)
        → Went (calls_for snd + calls_for rcv) s.calls script
        → Ends P Q W (
            k tt (record s {
              calls = script;
              snd_buf = sized granted s.snd_buf fd snd;
              rcv_buf = sized granted s.rcv_buf fd rcv;
            })))
    → ((t : Sockets) → SameEnds s t → RefusedIn (calls_for snd + calls_for rcv) s.calls → Q 5 t)
    → Ends P Q W (and_then (set_buffers granted fd snd rcv s) k)
unfolding set_buffers
after_set_buffers granted fd snd rcv s k next exit =
    let first = set_buffer (setsockopt_snd_buf granted) getsockopt_snd_buf fd snd in
    let second = set_buffer (setsockopt_rcv_buf granted) getsockopt_rcv_buf fd rcv in
    let m = calls_for snd in
    Ends-assoc (first s) (λ _. second) k
      (after_set_buffer granted Sockets.snd_buf (λ sizes t. record t { snd_buf = sizes })
        (λ _ _. refl) (λ _ t. and_then (second t) k) fd snd s refl
        (λ _ script w.
          let later : RefusedIn (calls_for rcv) script → RefusedIn (m + calls_for rcv) s.calls =
            λ (n, lt, r). (m + n, omega (arith, lt), Went-Refused m n s.calls script w r) in
          after_set_buffer granted Sockets.rcv_buf (λ sizes t. record t { rcv_buf = sizes })
            (λ _ _. refl) k fd rcv
            (record s { calls = script; snd_buf = sized granted s.snd_buf fd snd }) refl
            (λ _ script' w'.
              next script' (Went-append m (calls_for rcv) s.calls script script' w w'))
            (λ script' r. exit _ (refl, refl, refl) (later r))
            (λ n _ script' r. exit _ (refl, refl, refl) (later r)))
        (λ script (n, lt, r). exit _ (refl, refl, refl) (n, omega (arith, lt), r))
        (λ n _ script (k, lt, r). exit _ (refl, refl, refl) (k, omega (arith, lt), r)))
