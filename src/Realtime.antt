-- ===== src/Realtime.antt =====
-- backend/app/services/realtime/broker.py: the fan-out of messages to subscribers. The queues are
-- objects that the broker and a subscriber share: each has an id, and the flag `live` says that it is
-- among the broker's subscribers. A subscriber that is dropped keeps its queue and may still read it.
pub mod Delivery
mod Tests
use egreen_quanta_tes.Base.{
  ℕ, zero, suc, ◌==◌, Bool, true, false, not, ◌&&◌, Option, none, some, List, [], ◌∷◌, ◌++◌, map,
  length, keep, ltb, if◌then◌else◌,
}

pub record Queue {ℓ} (A : Type ℓ) : Type ℓ where
  pub id : ℕ
  pub pending : List A
  pub live : Bool

-- What happens to a broker: the calls of `subscription`, of `publish`, the end of a subscription, and
-- the read of a queue by its subscriber.
pub data Event {ℓ} (A : Type ℓ) : Type ℓ where
  subscribed left read : ℕ → Event A
  published : A → Event A

-- `_MAX_QUEUE`
abbrev pub max_queue : ℕ
max_queue = 200

module _ {ℓ} {A : Type ℓ} where
  abbrev pub has_id : ℕ → Queue A → Bool
  has_id id q = q.id == id

  -- `put_nowait` on a subscriber's queue, and the queue out of the subscribers where it raises QueueFull.
  abbrev pub has_room : Queue A → Bool
  has_room q = q.live && ltb (length q.pending) max_queue

  abbrev pub put : A → Queue A → Queue A
  put m q = record {
    id = q.id;
    pending = if has_room q then q.pending ++ m ∷ [] else q.pending;
    live = has_room q;
  }

  -- `publish`
  unfoldable pub publish : A → List (Queue A) → List (Queue A)
  publish m [] = []
  publish m (q ∷ qs) = put m q ∷ publish m qs

  -- `subscription`: its start and its end.
  unfoldable pub subscribe : ℕ → List (Queue A) → List (Queue A)
  subscribe id qs = qs ++ record { id = id; pending = []; live = true } ∷ []

  abbrev pub close_if : Bool → Queue A → Queue A
  close_if b q = record { id = q.id; pending = q.pending; live = if b then false else q.live }

  abbrev pub tail : List A → List A
  tail [] = []
  tail (m ∷ ms) = ms

  -- `queue.get()`, which waits while nothing is pending.
  abbrev pub get_if : Bool → Queue A → Queue A
  get_if b q = record {
    id = q.id;
    pending = if b then tail q.pending else q.pending;
    live = q.live;
  }

  abbrev pub on_queue : ℕ → (Bool → Queue A → Queue A) → List (Queue A) → List (Queue A)
  on_queue id f [] = []
  on_queue id f (q ∷ qs) = f (has_id id q) q ∷ on_queue id f qs

  abbrev pub run_event : Event A → List (Queue A) → List (Queue A)
  run_event (subscribed id) qs = subscribe id qs
  run_event (left id) qs = on_queue id close_if qs
  run_event (read id) qs = on_queue id get_if qs
  run_event (published m) qs = publish m qs

  abbrev pub run : List (Event A) → List (Queue A) → List (Queue A)
  run [] qs = qs
  run (e ∷ es) qs = run es (run_event e qs)

  -- `subscriber_count`
  unfoldable pub subscriber_count : List (Queue A) → ℕ
  subscriber_count qs = length (keep (λ q. q.live) qs)
