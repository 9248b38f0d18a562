-- ===== src/Agent/Threads/Wire.antt =====
-- What the agent's effects put on the wire: the log is the order in which the threads held
-- `adapterMutex_`.
use time_agent.Base.{
  ℕ, suc, Bool, true, false, List, [], ◌∷◌, ◌++◌, ◌≡◌, refl, ap, ◌∙◌, Option, none, some, Bytes,
  map, if◌then◌else◌,
}
use time_agent.Collector.{CollectorEvent}
use time_agent.Convert.{MetricsWrapper}
use time_agent.Adapter
use time_agent.Adapter.{ZmqAdapter, SendResult, accepted, full, error, convert, send, send_impl}
use time_agent.Agent.{Effect, set_interface}
use time_agent.Agent.Threads.{Thread, State, Reach, initial}
use time_agent.Agent.Threads.Order.{is_by, effects_of, effects_for, remaining, Reach-InOrder}

-- The first list is a part of the second, in the same order.
pub data IsPart {ℓ} {A : Type ℓ} : List A → List A → Type ℓ where
  nothing : IsPart [] []
  left_out : {xs ys : List A} {y : A} → IsPart xs ys → IsPart xs (y ∷ ys)
  taken : {xs ys : List A} {x : A} → IsPart xs ys → IsPart (x ∷ xs) (x ∷ ys)

IsPart-none {ℓ} : {A : Type ℓ} (ys : List A) → IsPart [] ys
IsPart-none [] = nothing
IsPart-none (y ∷ ys) = left_out (IsPart-none ys)

IsPart-append {ℓ} :
    {A : Type ℓ} {xs ys : List A} (zs : List A) → IsPart xs ys → IsPart xs (ys ++ zs)
IsPart-append zs nothing = IsPart-none zs
IsPart-append zs (left_out p) = left_out (IsPart-append zs p)
IsPart-append zs (taken p) = taken (IsPart-append zs p)

abbrev pub prepend {ℓ} : {A : Type ℓ} → Option A → List A → List A
prepend none xs = xs
prepend (some x) xs = x ∷ xs

-- The list with the messages put in front, one after the other.
abbrev pub onto : List Bytes → List Bytes → List Bytes
onto [] w = w
onto (m ∷ ms) w = onto ms (m ∷ w)

IsPart-dropped {ℓ} :
    {A : Type ℓ} {xs ys : List A} (b : Bool) (o : Option A)
    → IsPart xs ys
    → IsPart xs (if b then prepend o ys else ys)
IsPart-dropped false o p = p
IsPart-dropped true none p = p
IsPart-dropped true (some y) p = left_out p

prepend-append {ℓ} :
    {A : Type ℓ} (o : Option A) (xs ys : List A) → prepend o (xs ++ ys) ≡ prepend o xs ++ ys
prepend-append none xs ys = refl
prepend-append (some x) xs ys = refl

IsPart-taken {ℓ} :
    {A : Type ℓ} {xs ys : List A} (b : Bool) (x : A)
    → IsPart xs ys
    → IsPart (if b then x ∷ xs else xs) (if b then x ∷ ys else ys)
IsPart-taken false x p = p
IsPart-taken true x p = taken p

abbrev pub if_accepted : SendResult → Option Bytes → Option Bytes
if_accepted accepted o = o
if_accepted full o = none
if_accepted error o = none

abbrev pub tag : Thread → Option Bytes → Option (Thread × Bytes)
tag t none = none
tag t (some m) = some (t, m)

abbrev pub sent_by : ℕ → List (Thread × Bytes) → List Bytes
sent_by i [] = []
sent_by i ((t, m) ∷ ms) = if is_by i t then m ∷ sent_by i ms else sent_by i ms

abbrev pub bytes_of : List (Thread × Bytes) → List Bytes
bytes_of ms = map (λ m. m.1) ms

module _ {Double : Type 0} (serialize : MetricsWrapper Double → Option Bytes) where
  -- One effect, with what the socket would answer.
  unfoldable pub deliver_effect : SendResult → ZmqAdapter → Effect Double → ZmqAdapter
  deliver_effect r a (set_interface name) = a
  deliver_effect r a (Effect.send s node) = (send serialize a r s node).1

  -- The effects of a log, with what the socket answers to each, by its position.
  unfoldable pub deliver :
      (ℕ → SendResult) → ℕ → ZmqAdapter → List (Thread × Effect Double) → ZmqAdapter
  deliver answers n a [] = a
  deliver answers n a ((t, x) ∷ log) = deliver answers (suc n) (deliver_effect (answers n) a x) log

  -- The bytes of a sample.
  abbrev pub message : Effect Double → Option Bytes
  message (set_interface name) = none
  message (Effect.send s node) = serialize (convert s node)

  abbrev pub messages : List (Effect Double) → List Bytes
  messages [] = []
  messages (x ∷ xs) = prepend (message x) (messages xs)

  -- The messages that the socket accepts, each with the thread that sent it.
  abbrev pub accepted_messages :
      (ℕ → SendResult) → ℕ → List (Thread × Effect Double) → List (Thread × Bytes)
  accepted_messages answers n [] = []
  accepted_messages answers n ((t, x) ∷ log) =
      prepend (tag t (if_accepted (answers n) (message x))) (accepted_messages answers (suc n) log)

  transmit-wire :
      (r : SendResult) (a : ZmqAdapter) (o : Option Bytes)
      → (Adapter.transmit serialize a r o).1 ≡ record a { wire = prepend (if_accepted r o) a.wire }
  transmit-wire accepted a (some m) = refl
  transmit-wire accepted a none = refl
  transmit-wire full a (some m) = refl
  transmit-wire full a none = refl
  transmit-wire error a (some m) = refl
  transmit-wire error a none = refl

  deliver_effect-wire :
      (r : SendResult) (a : ZmqAdapter) (x : Effect Double)
      → a.has_sender ≡ true
      → deliver_effect r a x ≡ record a { wire = prepend (if_accepted r (message x)) a.wire }
  unfolding deliver_effect send send_impl
  deliver_effect-wire accepted a (set_interface name) h = refl
  deliver_effect-wire full a (set_interface name) h = refl
  deliver_effect-wire error a (set_interface name) h = refl
  deliver_effect-wire r a (Effect.send s node) h =
      ap
        (λ b.
          (if b then Adapter.transmit serialize a r (serialize (convert s node)) else (false, a)).1)
        h
      ∙ transmit-wire r a (serialize (convert s node))

  onto-tag :
      (t : Thread) (o : Option Bytes) (ms : List (Thread × Bytes)) (w : List Bytes)
      → onto (bytes_of ms) (prepend o w) ≡ onto (bytes_of (prepend (tag t o) ms)) w
  onto-tag t none ms w = refl
  onto-tag t (some m) ms w = refl

  deliver-wire :
      (answers : ℕ → SendResult) (n : ℕ) (a : ZmqAdapter) (log : List (Thread × Effect Double))
      → a.has_sender ≡ true
      → (deliver answers n a log).wire ≡ onto (bytes_of (accepted_messages answers n log)) a.wire
  unfolding deliver
  deliver-wire answers n a [] h = refl
  deliver-wire answers n a ((t, x) ∷ log) h =
      let o = if_accepted (answers n) (message x) in
      ap (λ b. (deliver answers (suc n) b log).wire) (deliver_effect-wire (answers n) a x h)
      ∙ deliver-wire answers (suc n) (record a { wire = prepend o a.wire }) log h
      ∙ onto-tag t o (accepted_messages answers (suc n) log) a.wire

  sent_by-one :
      (i : ℕ) (t : Thread) (r : SendResult) (o : Option Bytes) (ms : List (Thread × Bytes))
      (xs : List Bytes)
      → IsPart (sent_by i ms) xs
      → IsPart
          (sent_by i (prepend (tag t (if_accepted r o)) ms))
          (if is_by i t then prepend o xs else xs)
  sent_by-one i t accepted (some m) ms xs p = IsPart-taken (is_by i t) m p
  sent_by-one i t accepted none ms xs p = IsPart-dropped (is_by i t) none p
  sent_by-one i t full o ms xs p = IsPart-dropped (is_by i t) o p
  sent_by-one i t error o ms xs p = IsPart-dropped (is_by i t) o p

  messages-if :
      (b : Bool) (x : Effect Double) (xs : List (Effect Double))
      → messages (if b then x ∷ xs else xs)
        ≡ (if b then prepend (message x) (messages xs) else messages xs)
  messages-if true x xs = refl
  messages-if false x xs = refl

  sent_by-IsPart :
      (i : ℕ) (answers : ℕ → SendResult) (n : ℕ) (log : List (Thread × Effect Double))
      → IsPart (sent_by i (accepted_messages answers n log)) (messages (effects_of i log))
  sent_by-IsPart i answers n [] = nothing
  sent_by-IsPart i answers n ((t, x) ∷ log) = rw (messages-if (is_by i t) x (effects_of i log)) (
      sent_by-one i t (answers n) (message x) (accepted_messages answers (suc n) log)
        (messages (effects_of i log)) (sent_by-IsPart i answers (suc n) log))

  messages-append :
      (xs ys : List (Effect Double)) → messages (xs ++ ys) ≡ messages xs ++ messages ys
  messages-append [] ys = refl
  messages-append (x ∷ xs) ys =
      ap (prepend (message x)) (messages-append xs ys)
      ∙ prepend-append (message x) (messages xs) (messages ys)

  module _ (count : ℕ) (handle : ℕ → CollectorEvent → List (Effect Double)) (node : Bytes) where
    -- From the events of the sources to the bytes on the wire, in every interleaving and whatever the
    -- socket answers to each send: the wire of a connected adapter holds exactly the messages that
    -- the socket accepted, and those of reader `i` are, in order, a part of the messages of the
    -- samples that its handler has for the events it consumed: the adapter loses messages, but
    -- neither reorders, duplicates nor invents any.
    pub deliver-IsPart :
        (source : ℕ → List CollectorEvent) (answers : ℕ → SendResult) (a : ZmqAdapter)
        {t : State Double}
        → Reach count handle node (initial source) t
        → a.has_sender ≡ true
        → (i : ℕ)
        → ((deliver answers 0 a t.log).wire
            ≡ onto (bytes_of (accepted_messages answers 0 t.log)) a.wire)
          × IsPart
              (sent_by i (accepted_messages answers 0 t.log))
              (messages (effects_for (handle i) (t.readers i).consumed))
          × ((t.readers i).consumed ++ (t.readers i).pending ≡ source i)
    deliver-IsPart source answers a {t} r h i =
        let (sent, read) = Reach-InOrder count handle node source r i in
        let part =
          IsPart-append (messages (remaining (t.readers i).phase))
            (sent_by-IsPart i answers 0 t.log) in
        (deliver-wire answers 0 a t.log h, rw (← sent, messages-append) part, read)
