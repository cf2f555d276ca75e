-- ===== src/Psender/Steps.antt =====
-- The script of `recv` on the sender's connection.
use gproxy.Common.{ℕ, ◌≡◌, refl, List, [], ◌∷◌, ◌++◌, drop, length}
use gproxy.Common.Outcome.{ok}
use gproxy.Psender.{Psender, TcpAnswer, bytes, closed, interrupted, recv_loop}

-- The script from the first answer on that ends the loop.
unfoldable pub after_failures : List TcpAnswer → List TcpAnswer
after_failures [] = []
after_failures (TcpAnswer.failed ∷ rest) = after_failures rest
after_failures (bytes b ∷ rest) = bytes b ∷ rest
after_failures (closed ∷ rest) = closed ∷ rest
after_failures (interrupted ∷ rest) = interrupted ∷ rest

pub recv_loop-after_failures :
    (script : List TcpAnswer) (s : Psender)
    → recv_loop script s ≡ recv_loop (after_failures script) s
unfolding recv_loop after_failures
recv_loop-after_failures [] s = refl
recv_loop-after_failures (TcpAnswer.failed ∷ rest) s = recv_loop-after_failures rest s
recv_loop-after_failures (bytes b ∷ rest) s = refl
recv_loop-after_failures (closed ∷ rest) s = refl
recv_loop-after_failures (interrupted ∷ rest) s = refl

pub recv_loop-bytes :
    (b : List ℕ) (rest : List TcpAnswer) (s : Psender)
    → recv_loop (bytes b ∷ rest) s
      ≡ ok (bytes b) (record s { tcp = rest; recv_buffer = b ++ drop (length b) s.recv_buffer })
unfolding recv_loop
recv_loop-bytes b rest s = refl

pub recv_loop-closed :
    (rest : List TcpAnswer) (s : Psender)
    → recv_loop (closed ∷ rest) s ≡ ok closed (record s { tcp = rest })
unfolding recv_loop
recv_loop-closed rest s = refl
