-- ===== src/Ritardatore/Util/Sockets/Opened.antt =====
-- `UDP_setup_socket_bound`: what its socket is like, or which call was refused.
use gproxy.Common.{ℕ, ◌<◌, arith, ◌+◌, ◌%◌, ◌^◌, ◌≡◌, refl, ◌∙◌, ◌⊎◌, inl, inr, some, List}
use mathlib.Core.Path.{subst}
use gproxy.Common.Int.{ℤ, pos}
use gproxy.Common.Outcome.{pure}
use gproxy.Common.Outcome.Ends.{Ends, ends}
use gproxy.Ritardatore.Util.Sockets.{Sockets, CallAnswer, put}
use gproxy.Ritardatore.Util.Sockets.Calls.{Went, Refused, Went-append, Went-Refused}
use gproxy.Ritardatore.Util.Sockets.Setup.{udp_bind, udp_setup_socket_bound}
use gproxy.Ritardatore.Util.Sockets.Answers.{
  sized, calls_for, Opened, after_socket, after_bind, after_reuse, after_set_buffers,
}

-- What is refused when it returns 0: `socket`, the first option or `bind`, behind the `n` calls for
-- the buffers.
abbrev pub RefusedCall : (n : ℕ) → List CallAnswer → Type 0
RefusedCall n script = Refused 0 script ⊎ (Refused 1 script ⊎ Refused (2 + n) script)

-- What is refused when it exits: one of those `n` calls.
abbrev pub RefusedSize : (n : ℕ) → List CallAnswer → Type 0
RefusedSize n script = (k : ℕ) × (k < n) × Refused (2 + k) script

udp_bind-Opened :
    (granted : ℕ → ℕ) (fd port : ℕ) (snd rcv : ℤ) (s t : Sockets)
    → t.bound ≡ s.bound
    → Went 2 s.calls t.calls
    → Ends
        (Opened fd
          (record t {
            snd_buf = sized granted t.snd_buf fd snd;
            rcv_buf = sized granted t.rcv_buf fd rcv;
            bound = put t.bound fd (some (port % 2 ^ 16));
          })
          (λ u. Went (3 + (calls_for snd + calls_for rcv)) s.calls u.calls)
          (λ u. (u.bound ≡ s.bound) × RefusedCall (calls_for snd + calls_for rcv) s.calls))
        (λ code u.
          (code ≡ 5) × (u.bound ≡ s.bound) × RefusedSize (calls_for snd + calls_for rcv) s.calls)
        (λ _. ⊥)
        (udp_bind granted fd port snd rcv t)
unfolding udp_bind
udp_bind-Opened granted fd port snd rcv s t same w =
    let n = calls_for snd + calls_for rcv in
    after_set_buffers granted fd snd rcv t _
      (λ script w'.
        let so_far = Went-append 2 n s.calls t.calls script w w' in
        after_bind fd port
          (record t {
            calls = script;
            snd_buf = sized granted t.snd_buf fd snd;
            rcv_buf = sized granted t.rcv_buf fd rcv;
          })
          (λ fine. pure (fine, pos fd))
          (λ script' w''.
            let all = Went-append (2 + n) 1 s.calls script script' so_far w'' in
            let same_number : 2 + n + 1 ≡ 3 + n = omega arith in
            ends (inl (refl, refl, refl, subst (λ k. Went k s.calls script') same_number all)))
          (λ script' r.
            let at_bind = Went-Refused (2 + n) 0 s.calls script so_far r in
            let same_number : 2 + n + 0 ≡ 2 + n = omega arith in
            ends
              (inr (refl, (same, inr (inr (subst (λ k. Refused k s.calls) same_number at_bind)))))))
      (λ u e (k, lt, r). (refl, e.0 ∙ same, (k, lt, Went-Refused 2 k s.calls t.calls w r)))

-- `UDP_setup_socket_bound` makes its calls of the system up to the first that is refused. If none
-- is, it returns 1 with a new descriptor whose address may be reused, whose buffers have the sizes
-- that the system grants for those asked for, and which is bound to the port, and has changed
-- nothing else. If it is one of those that set and read the size of a buffer, as they are asked for
-- with a positive size, it exits with 5; if it is another, it returns 0; then no port is bound that
-- was not before.
pub udp_setup_socket_bound-Opened :
    (granted : ℕ → ℕ) (port : ℕ) (snd rcv : ℤ) (s : Sockets)
    → Ends
        (Opened s.next_fd
          (record s {
            next_fd = s.next_fd + 1;
            reuse_addr = put s.reuse_addr s.next_fd 1;
            snd_buf = sized granted s.snd_buf s.next_fd snd;
            rcv_buf = sized granted s.rcv_buf s.next_fd rcv;
            bound = put s.bound s.next_fd (some (port % 2 ^ 16));
          })
          (λ t. Went (3 + (calls_for snd + calls_for rcv)) s.calls t.calls)
          (λ t. (t.bound ≡ s.bound) × RefusedCall (calls_for snd + calls_for rcv) s.calls))
        (λ code t.
          (code ≡ 5) × (t.bound ≡ s.bound) × RefusedSize (calls_for snd + calls_for rcv) s.calls)
        (λ _. ⊥)
        (udp_setup_socket_bound granted port snd rcv s)
unfolding udp_setup_socket_bound
udp_setup_socket_bound-Opened granted port snd rcv s =
    after_socket s _
      (λ script w.
        after_reuse s.next_fd (record s { calls = script; next_fd = s.next_fd + 1 }) _
          (λ script' w'.
            udp_bind-Opened granted s.next_fd port snd rcv s _ refl
              (Went-append 1 1 s.calls script script' w w'))
          (λ script' r. ends (inr (refl, (refl, inr (inl (Went-Refused 1 0 s.calls script w r)))))))
      (λ script r. ends (inr (refl, (refl, inl r))))
