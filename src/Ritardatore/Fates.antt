-- ===== src/Ritardatore/Fates.antt =====
-- What becomes of a datagram that `ricevo_inserisco` receives: its fate, and what each one leaves.
use gproxy.Common.{
  ℕ, zero, suc, ◌+◌, ◌*◌, ◌%◌, ◌^◌, ◌≤◌, ◌<◌, ◌≡◌, Bool, true, false, ◌&&◌, if◌then◌else◌, List,
  ◌∷◌, ltb, leb, length, drop,
}
use gproxy.Common.Int.{pos, ltb_ℤ}
use gproxy.Ritardatore.Util.{Timeval}
use gproxy.Ritardatore.Util.Laws.{micros, IsNormal}
use gproxy.Ritardatore.{Ritardatore, Comando, cmd_send, RecvAnswer, aggiungi_in_ordine}
use gproxy.Ritardatore.Traffic.{Lati, tipo_is_body, icmp}

-- `k` interruptions in front of the other answers
abbrev pub interruptions : ℕ → List RecvAnswer → List RecvAnswer
interruptions zero tail = tail
interruptions (suc k) tail = RecvAnswer.interrupted ∷ interruptions k tail

-- a datagram longer than a header whose fifth byte is `'B'`
abbrev pub IsBody : List ℕ → Type 0
IsBody buf = (leb (length buf) 5 ≡ false) × (tipo_is_body (drop 4 buf) ≡ true)

-- the next answers of `recvfrom` bring this body packet
abbrev pub Brings : List ℕ → Ritardatore → Type 0
Brings buf s =
    IsBody buf
    × (k : ℕ) × (rest : List RecvAnswer) × (s.recvs
        ≡ interruptions k (RecvAnswer.datagram buf ∷ rest))

-- the first draw for a datagram that pair i receives: it is lost whatever the channel's state
abbrev pub drawn_lost : ℕ → Ritardatore → Bool
drawn_lost i s =
    ltb_ℤ (pos 0) s.percentuale_errore
    && leb (s.casuali s.estrazioni % 100)
        (2 + 3 * s.seno_intero (s.orologio s.letture).tv_sec (s.coppiafd i).sec_istcreazione)

-- the timeout is normal and between `base` and `base + 70000` microseconds after the instant
abbrev pub Delayed : (base : ℕ) → Timeval → Timeval → Type 0
Delayed base now t =
    IsNormal t × (micros now + base ≤ micros t) × (micros t < micros now + base + 70000)

-- the list has the new element in its place, with such a delay after the next-but-one reading
abbrev pub Queued : (base : ℕ) → Comando → Ritardatore → Ritardatore → Type 0
Queued base c s s' =
    (t : Timeval) × Delayed base (s.orologio (suc s.letture)) t
    × (s'.root ≡ aggiungi_in_ordine (record { comando = c; timeout = t }) s.root)

-- What becomes of a body packet.
pub data Sorte : Type 0 where
  persa : Sorte
  segnalata : Sorte
  inoltrata : Sorte

-- It is lost by the first draw whatever the channel's state; else forwarded while its pair sends;
-- else lost when the second draw is below 20, and reported otherwise.
abbrev pub sorte : ℕ → Ritardatore → Sorte
sorte i s =
    if drawn_lost i s
    then persa
    else if (s.coppiafd i).stato_trasmissione
    then inoltrata
    else if ltb (s.casuali (suc s.estrazioni) % 100) 20
    then persa
    else segnalata

-- the call's result, and the objects that it allocates
abbrev pub result_of : Sorte → ℕ
result_of persa = 1
result_of segnalata = 2
result_of inoltrata = 3

abbrev pub objects : Sorte → ℕ
objects persa = 0
objects segnalata = 2
objects inoltrata = 2

-- The list, and the number of the next report.
abbrev pub Listed : Sorte → Lati → List ℕ → Ritardatore → Ritardatore → Type 0
Listed persa l buf s s' = (s'.root ≡ s.root) × (s'.local_counter ≡ s.local_counter)
Listed segnalata l buf s s' =
    Queued 50000
      (cmd_send l.fd_latoricevere l.local_port_number_latoricevere l.remote_port_number_latoricevere
        l.remote_ip_string_latoricevere (icmp s.local_counter buf))
      s s'
    × (s'.local_counter ≡ (s.local_counter + 1) % 2 ^ 32)
Listed inoltrata l buf s s' =
    Queued 30000
      (cmd_send l.fd_latospedire l.local_port_number_latospedire l.remote_port_number_lato_spedire
        l.remote_ip_string_latospedire buf)
      s s'
    × (s'.local_counter ≡ s.local_counter)

-- Each packet counts once: as lost, as reported or as sent.
abbrev pub Counted : (lost reported sent bytes : ℕ) → Ritardatore → Ritardatore → Type 0
Counted lost reported sent bytes s s' =
    (s'.numscartati_senza_icmp ≡ lost + s.numscartati_senza_icmp)
    × (s'.numscartati ≡ reported + s.numscartati)
    × (s'.numspediti ≡ sent + s.numspediti)
    × (s'.bytescartati ≡ s.bytescartati + (lost + reported) * bytes)
    × (s'.bytespediti ≡ s.bytespediti + sent * bytes)

abbrev pub Counts : Sorte → ℕ → Ritardatore → Ritardatore → Type 0
Counts persa = Counted 1 0 0
Counts segnalata = Counted 0 1 0
Counts inoltrata = Counted 0 0 1

-- The call has returned, or has ended for want of memory.
abbrev pub Handled : Sorte → Lati → List ℕ → Ritardatore → ℕ → Ritardatore → Type 0
Handled fate l buf s r s' =
    (r ≡ result_of fate)
    × (objects fate ≤ s.mallocs)
    × Listed fate l buf s s'
    × Counts fate (length buf) s s'

abbrev pub OutOfMemory : Sorte → Ritardatore → ℕ → Ritardatore → Type 0
OutOfMemory fate s code s' = (code ≡ 9) × (s.mallocs < objects fate) × (s'.root ≡ s.root)
