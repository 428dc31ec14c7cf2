-- ===== src/Api/Queue.antt =====
-- common/src/ApiListener.cpp: the queue of a listener, over any order of its two threads.
use klevret.Prelude.{ℕ, ◌≡◌, sym, ap, ◌∙◌, List, [], ◌∷◌, ◌++◌, append_assoc, ok}
use klevret.Prelude.{ok-injective}
use klevret.Json.{Json}
use klevret.Api.{ApiMessage, ApiListener, deserialize, receive, get_next_message}

-- The messages that have arrived and those that were taken, in order, and the listener.
pub data ListenerReach (boost : Json)
    : List (ApiMessage boost) → List (ApiMessage boost) → ApiListener boost → Type 0 where
  started : {l : ApiListener boost} → l.queue ≡ [] → ListenerReach boost [] [] l
  arrives :
      (packet : List ℕ) (m : ApiMessage boost) {arrived arrived' taken : List (ApiMessage boost)}
      {l l' : ApiListener boost}
      → ListenerReach boost arrived taken l
      → deserialize boost packet ≡ ok m
      → receive boost l packet ≡ ok l'
      → arrived ++ (m ∷ []) ≡ arrived'
      → ListenerReach boost arrived' taken l'
  takes :
      (m : ApiMessage boost) {arrived taken taken' : List (ApiMessage boost)}
      {l l' : ApiListener boost}
      → ListenerReach boost arrived taken l
      → get_next_message boost l ≡ ok (m, l')
      → taken ++ (m ∷ []) ≡ taken'
      → ListenerReach boost arrived taken' l'

module _ (boost : Json) where
  receive-queue :
      (l l' : ApiListener boost) (packet : List ℕ) (m : ApiMessage boost)
      → deserialize boost packet ≡ ok m
      → receive boost l packet ≡ ok l'
      → l'.queue ≡ l.queue ++ (m ∷ [])
  unfolding receive
  receive-queue l l' packet m d h =
      sym (ap (λ (x : ApiListener boost). x.queue) (ok-injective (rw (d, receive) at h)))

  get_next_message-queue :
      (l l' : ApiListener boost) (m : ApiMessage boost)
      → get_next_message boost l ≡ ok (m, l')
      → l.queue ≡ m ∷ l'.queue
  unfolding get_next_message
  get_next_message-queue l l' m h = front l.queue h
    where
      front :
          (queue : List (ApiMessage boost))
          → get_next_message boost (record { queue = queue }) ≡ ok (m, l')
          → queue ≡ m ∷ l'.queue
      front [] k = absurd (cc)
      front (n ∷ queue) k =
          let same = ok-injective k in
          ap (λ (x : ApiMessage boost × ApiListener boost). x.0 ∷ x.1.queue) same

  -- At every moment, the messages that were taken and those in the queue are the messages that have
  -- arrived, in the order of their arrival.
  pub ListenerReach-queue :
      (arrived taken : List (ApiMessage boost)) (l : ApiListener boost)
      → ListenerReach boost arrived taken l
      → arrived ≡ taken ++ l.queue
  ListenerReach-queue arrived taken l (started e) = sym e
  ListenerReach-queue arrived taken l
        (arrives packet m {arrived = arrived_0} {taken = taken_0} {l = l_0} r d h e) =
      sym e
      ∙ ap (λ x. x ++ (m ∷ [])) (ListenerReach-queue arrived_0 taken l_0 r)
      ∙ append_assoc taken l_0.queue (m ∷ [])
      ∙ ap (λ x. taken ++ x) (sym (receive-queue l_0 l packet m d h))
  ListenerReach-queue arrived taken l (takes m {taken = taken_0} {l = l_0} r h e) =
      ListenerReach-queue arrived taken_0 l_0 r
      ∙ ap (λ x. taken_0 ++ x) (get_next_message-queue l_0 l m h)
      ∙ sym (append_assoc taken_0 (m ∷ []) l.queue)
      ∙ ap (λ x. x ++ l.queue) e
