-- ===== src/TcpListener/Clients.antt =====
-- common/src/TcoListener.cpp: what the packets are to the streams of several clients.
use klevret.Prelude.{
  ℕ, ◌≡◌, refl, sym, ap, ◌∙◌, ◌==◌, ==_iff, if◌then◌else◌, Bool-cases, inl, inr, List, [], ◌∷◌,
  ◌++◌,
}
use klevret.Prelude.{append_assoc, append-nil, Option, some, none, ◌⊎◌, ok, ok-injective}
use klevret.TcpListener.{TcpListener, on_read, get_next_packet}

abbrev pub update : ℕ → List ℕ → (ℕ → List ℕ) → ℕ → List ℕ
update client rest left c = if c == client then rest else left c

abbrev pub Log : Type 0
Log = List (ℕ × List ℕ)

-- The bytes of a client in the reads of all clients.
unfoldable pub read_of : ℕ → Log → List ℕ
read_of c [] = []
read_of c ((client, bytes) ∷ log) = (if c == client then bytes else []) ++ read_of c log

unfoldable pub packets : Log → List (List ℕ)
packets [] = []
packets ((client, bytes) ∷ log) = bytes ∷ packets log

-- The reads of the clients' threads, what each client has still to be read, the packets that were
-- taken, and the listener. A read takes any bytes that are next in the stream of its client.
pub data TcpReach (streams : ℕ → List ℕ)
    : Log → (ℕ → List ℕ) → List (List ℕ) → TcpListener → Type 0 where
  started : {l : TcpListener} → l.queue ≡ [] → TcpReach streams [] streams [] l
  reads :
      (client b : ℕ) (bytes rest : List ℕ) {log log' : Log} {left left' : ℕ → List ℕ}
      {taken : List (List ℕ)} {l l' : TcpListener}
      → TcpReach streams log left taken l
      → left client ≡ (b ∷ bytes) ++ rest
      → (on_read l (some (b ∷ bytes))).0 ≡ l'
      → log ++ ((client, b ∷ bytes) ∷ []) ≡ log'
      → update client rest left ≡ left'
      → TcpReach streams log' left' taken l'
  reads_nothing :
      (r : Option (List ℕ)) {log : Log} {left : ℕ → List ℕ} {taken : List (List ℕ)}
      {l l' : TcpListener}
      → TcpReach streams log left taken l
      → (r ≡ none) ⊎ (r ≡ some [])
      → (on_read l r).0 ≡ l'
      → TcpReach streams log left taken l'
  takes :
      (p : List ℕ) {log : Log} {left : ℕ → List ℕ} {taken taken' : List (List ℕ)}
      {l l' : TcpListener}
      → TcpReach streams log left taken l
      → get_next_packet l ≡ ok (p, l')
      → taken ++ (p ∷ []) ≡ taken'
      → TcpReach streams log left taken' l'

get_next_packet-queue :
    (l l' : TcpListener) (p : List ℕ) → get_next_packet l ≡ ok (p, l') → l.queue ≡ p ∷ l'.queue
unfolding get_next_packet
get_next_packet-queue l l' p h = front l.queue h
  where
    front :
        (queue : List (List ℕ))
        → get_next_packet (record l { queue = queue }) ≡ ok (p, l')
        → queue ≡ p ∷ l'.queue
    front [] k = absurd (cc)
    front (q ∷ queue) k = ap (λ (x : List ℕ × TcpListener). x.0 ∷ x.1.queue) (ok-injective k)

on_read_nothing :
    (l l' : TcpListener) (r : Option (List ℕ))
    → (r ≡ none) ⊎ (r ≡ some [])
    → (on_read l r).0 ≡ l'
    → l' ≡ l
unfolding on_read
on_read_nothing l l' r (inl e) h = sym (rw (e, on_read) at h)
on_read_nothing l l' r (inr e) h = sym (rw (e, on_read) at h)

packets-append :
    (log : Log) (client : ℕ) (bytes : List ℕ)
    → packets (log ++ ((client, bytes) ∷ [])) ≡ packets log ++ (bytes ∷ [])
unfolding packets
packets-append [] client bytes = refl
packets-append ((c, x) ∷ log) client bytes = ap (λ y. x ∷ y) (packets-append log client bytes)

read_of-append :
    (c : ℕ) (log : Log) (client : ℕ) (bytes : List ℕ)
    → read_of c (log ++ ((client, bytes) ∷ []))
      ≡ read_of c log ++ (if c == client then bytes else [])
unfolding read_of
read_of-append c [] client bytes = append-nil (if c == client then bytes else [])
read_of-append c ((d, x) ∷ log) client bytes =
    ap (λ y. (if c == d then x else []) ++ y) (read_of-append c log client bytes)
    ∙ sym (
        append_assoc (if c == d then x else []) (read_of c log) (if c == client then bytes else []))

-- A read moves the next bytes of its client from what is left to the log.
read_of-update :
    (c client : ℕ) (bytes rest stream : List ℕ) (log : Log) (left : ℕ → List ℕ)
    → read_of c log ++ left c ≡ stream
    → left client ≡ bytes ++ rest
    → read_of c (log ++ ((client, bytes) ∷ [])) ++ update client rest left c ≡ stream
read_of-update c client bytes rest stream log left h e = elim (Bool-cases (c == client)) [
  | inl q ↦
      rw (read_of-append c log client bytes, q)
        (append_assoc (read_of c log) bytes rest
          ∙ ap (λ x. read_of c log ++ x) (sym e)
          ∙ ap (λ k. read_of c log ++ left k) (sym ((==_iff c client).0 q))
          ∙ h)
  | inr q ↦ rw (read_of-append c log client bytes, q, append-nil (read_of c log)) h
]

-- At every moment, for each client, the bytes that were read of it are the front of its stream, and
-- what is left is the rest. The packets that were taken and those in the queue are the reads of all
-- clients, in their order. So no byte is lost, doubled or out of its order, however the threads take
-- turns; where a packet ends is up to the reads.
pub TcpReach-streams :
    {streams : ℕ → List ℕ} {log : Log} {left : ℕ → List ℕ} {taken : List (List ℕ)} {l : TcpListener}
    → TcpReach streams log left taken l
    → ((client : ℕ) → read_of client log ++ left client ≡ streams client)
      × (packets log ≡ taken ++ l.queue)
unfolding read_of packets on_read
TcpReach-streams (started e) = (λ c. refl, sym e)
TcpReach-streams
      (reads client b bytes rest {log = log_0} {left = left_0} {taken = taken_0} {l = l_0} r e h f
        g) =
    let (each, all) = TcpReach-streams r in
    (
      λ c. rw (← f, ← g) (read_of-update c client (b ∷ bytes) rest _ log_0 left_0 (each c) e),
      rw (← f, ← h)
          (packets-append log_0 client (b ∷ bytes)
            ∙ ap (λ x. x ++ ((b ∷ bytes) ∷ [])) all
            ∙ append_assoc taken_0 l_0.queue ((b ∷ bytes) ∷ [])),
    )
TcpReach-streams (reads_nothing x {taken = taken_0} r w h) =
    let (each, all) = TcpReach-streams r in
    (each, all ∙ ap (λ (k : TcpListener). taken_0 ++ k.queue) (sym (on_read_nothing _ _ x w h)))
TcpReach-streams (takes p {taken = taken_0} {l = l_0} {l' = l_1} r h e) =
    let (each, all) = TcpReach-streams r in
    (
      each,
      all
          ∙ ap (λ x. taken_0 ++ x) (get_next_packet-queue l_0 l_1 p h)
          ∙ sym (append_assoc taken_0 (p ∷ []) l_1.queue)
          ∙ ap (λ x. x ++ l_1.queue) e,
    )
