-- ===== src/Ritardatore/Traffic.antt =====
-- `ricevo_inserisco`: what becomes of a received datagram; `schedula_creazione_nuova_porta`.
use gproxy.Common.{
  ℕ, suc, ◌+◌, ◌*◌, ◌/◌, ◌%◌, ◌^◌, Bool, false, ◌&&◌, List, [], ◌∷◌, ◌++◌, ltb, leb, ◌==◌,
  if◌then◌else◌, take, drop, length,
}
use gproxy.Common.Int.{ℤ, pos, ltb_ℤ}
use gproxy.Common.Outcome.{ok, starve, Cmd, pure, ◌>>=◌, ◌>>◌, read, modify}
use gproxy.Wire.{header_size, body_type}
use gproxy.Ritardatore.Util.{Timeval, somma}
use gproxy.Ritardatore.{
  Comando, RecvAnswer, Ritardatore, gettimeofday, random, malloc, aggiungi_in_ordine, close_coppia,
  datagram, interrupted, reset, failed, cmd_send, cmd_addport,
}

-- The arguments of `ricevo_inserisco` but for the pair's index and the output `pidmsg`.
pub record Lati : Type 0 where
  pub fd_latoricevere : ℤ
  pub fd_latospedire : ℤ
  pub local_port_number_latospedire : ℕ
  pub local_port_number_latoricevere : ℕ
  pub remote_port_number_lato_spedire : ℕ
  pub remote_port_number_latoricevere : ℕ
  pub remote_ip_string_latoricevere : List ℕ
  pub remote_ip_string_latospedire : List ℕ

unfoldable pub recvfrom_loop : List RecvAnswer → Cmd Ritardatore RecvAnswer
recvfrom_loop [] s = starve (record s { recvs = [] })
recvfrom_loop (interrupted ∷ rest) s = recvfrom_loop rest s
recvfrom_loop (datagram b ∷ rest) s = ok (datagram b) (record s { recvs = rest })
recvfrom_loop (reset ∷ rest) s = ok reset (record s { recvs = rest })
recvfrom_loop (failed ∷ rest) s = ok failed (record s { recvs = rest })

-- A 32-bit number as its bytes in network order.
abbrev pub network_bytes : ℕ → List ℕ
network_bytes x = x / 2 ^ 24 % 256 ∷ x / 2 ^ 16 % 256 ∷ x / 256 % 256 ∷ x % 256 ∷ []

-- The text of an `ICMP`: its own number, `'I'`, and the id as the lost packet had it.
abbrev pub icmp : ℕ → List ℕ → List ℕ
icmp counter buf = network_bytes counter ++ b'I' ∷ take 4 buf

abbrev pub accoda : Comando → Timeval → Cmd Ritardatore (Unit {0})
accoda comando t =
    modify
      λ s. record s { root = aggiungi_in_ordine (record { comando = comando; timeout = t }) s.root }

-- The delay in microseconds: `base` and the two variations.
abbrev pub ritardo : (base r onda : ℕ) → Timeval
ritardo base r onda = record { tv_sec = 0; tv_usec = base + r % 20000 + onda }

unfoldable pub scarta_senza_icmp : List ℕ → Cmd Ritardatore ℕ
scarta_senza_icmp buf = do
  modify λ s. record s {
    numscartati_senza_icmp = suc s.numscartati_senza_icmp;
    bytescartati = s.bytescartati + length buf;
  }
  pure 1

unfoldable pub scarta_con_icmp : ℕ → Lati → Timeval → List ℕ → Cmd Ritardatore ℕ
scarta_con_icmp i l now buf = do
  malloc
  malloc
  counter ← read Ritardatore.local_counter
  modify (λ s. record s { local_counter = (s.local_counter + 1) % 2 ^ 32 })
  r ← random
  onda ← read (λ s. s.seno now.tv_sec (s.coppiafd i).sec_istcreazione)
  t ← gettimeofday
  accoda
      (cmd_send l.fd_latoricevere l.local_port_number_latoricevere l.remote_port_number_latoricevere
        l.remote_ip_string_latoricevere (icmp counter buf))
      (somma t (ritardo 50000 r onda))
  modify
      λ s. record s { numscartati = suc s.numscartati; bytescartati = s.bytescartati + length buf }
  pure 2

unfoldable pub inoltra : ℕ → Lati → Timeval → List ℕ → Cmd Ritardatore ℕ
inoltra i l now buf = do
  malloc
  malloc
  r ← random
  onda ← read (λ s. s.seno now.tv_sec (s.coppiafd i).sec_istcreazione)
  t ← gettimeofday
  accoda
      (cmd_send l.fd_latospedire l.local_port_number_latospedire l.remote_port_number_lato_spedire
        l.remote_ip_string_latospedire buf)
      (somma t (ritardo 30000 r onda))
  modify λ s. record s { numspediti = suc s.numspediti; bytespediti = s.bytespediti + length buf }
  pure 3

-- A body packet: lost in any case, lost in a burst with or without a report, or forwarded.
unfoldable pub smista : ℕ → Lati → List ℕ → Cmd Ritardatore ℕ
smista i l buf = do
  now ← gettimeofday
  r ← random
  onda ← read (λ s. s.seno_intero now.tv_sec (s.coppiafd i).sec_istcreazione)
  perc ← read Ritardatore.percentuale_errore
  spedire ← read (λ s. (s.coppiafd i).stato_trasmissione)
  if ltb_ℤ (pos 0) perc && leb (r % 100) (2 + 3 * onda)
      then scarta_senza_icmp buf
      else if spedire
      then inoltra i l now buf
      else (do
        r' ← random
        if ltb (r' % 100) 20 then scarta_senza_icmp buf else scarta_con_icmp i l now buf)

-- The byte behind the id.
abbrev pub tipo_is_body : List ℕ → Bool
tipo_is_body [] = false
tipo_is_body (b ∷ bs) = b == body_type

unfoldable pub on_recv : ℕ → Lati → RecvAnswer → Cmd Ritardatore ℕ
on_recv i l (datagram buf) =
    if leb (length buf) header_size
    then pure 0
    else if tipo_is_body (drop 4 buf)
    then smista i l buf
    else pure 0
on_recv i l interrupted = pure 0
on_recv i l reset = pure 0
on_recv i l failed = do modify (close_coppia i); pure 0

unfoldable pub ricevo_inserisco : ℕ → Lati → Cmd Ritardatore ℕ
ricevo_inserisco i l = do recvs ← read Ritardatore.recvs; a ← recvfrom_loop recvs; on_recv i l a

unfoldable pub schedula_creazione_nuova_porta : Cmd Ritardatore (Unit {0})
schedula_creazione_nuova_porta = do
  malloc
  t ← gettimeofday
  accoda cmd_addport (somma t (record { tv_sec = 0; tv_usec = 500000 }))
