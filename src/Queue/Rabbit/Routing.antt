-- ===== src/Queue/Rabbit/Routing.antt =====
-- Where internal/queue/rabbitmq.go routes an event, and who reads it there.
use text.Mathlib.TextLemmas.{append_cancel_left}
use mercury_relay.Prelude.{
  ℕ, String, ◌<>◌, eq_iff, ◌≡◌, ◌≢◌, ◌⊎◌, refl, sym, ap, ◌∙◌, true, false, none, List, [], ◌∷◌,
  ◌++◌, ℤ, pos, eq_ℤ, ltb_ℤ, elem_ℤ, if◌then◌else◌, arith, Bool-cases, inl, inr,
}
use mercury_relay.Prelude.Decimal.{itoa, atoi, IsInt, atoi-itoa, read_digits}
use mercury_relay.Models.Event.{Event}
use mercury_relay.Queue.Rabbit.{
  undefined_kind, moderation_kind, queue_name_of, binding_key_of, all_kinds, is_valid_event,
  routing_key, consumed_queue,
}
use mercury_relay.Queue.Rabbit.Kinds.{Directory, get_common_kinds}

pub elem_ℤ-append :
    (k : ℤ) (xs ys : List ℤ) → elem_ℤ k (xs ++ ys) ≡ (if elem_ℤ k xs then true else elem_ℤ k ys)
elem_ℤ-append k [] ys = refl
elem_ℤ-append k (x ∷ xs) ys = ground (arith, elem_ℤ-append k xs ys)

-- The directory of kinds is read again and again: `built` when the queues are declared, `dir` when
-- the event is published, and `now_read` when its kind is consumed.
module _ {F : Type 0} (built dir now_read : Directory) (now : ℕ) (event : Event F) where
  valid_kind : is_valid_event now event ≡ true → ltb_ℤ event.kind (pos 0) ≡ false
  unfolding is_valid_event
  valid_kind h = ground arith

  -- The queue that an event belongs in.
  abbrev pub IsDelivered : ℤ → Type 0
  IsDelivered kind =
      (elem_ℤ kind (all_kinds built) ≡ true)
      × (binding_key_of kind ≡ routing_key dir now event)
      × (queue_name_of kind ≡ (
          if is_valid_event now event
          then consumed_queue now_read event.kind
          else "nostr_kind_moderation"))

  refused-IsDelivered : is_valid_event now event ≡ false → IsDelivered moderation_kind
  unfolding all_kinds binding_key_of routing_key queue_name_of consumed_queue
  refused-IsDelivered h = (
    rw
        (elem_ℤ-append moderation_kind (get_common_kinds built)
          (undefined_kind ∷ moderation_kind ∷ []))
        (ground arith),
    rw h refl,
    rw h refl,
  )

  known-IsDelivered :
      is_valid_event now event ≡ true
      → elem_ℤ event.kind (get_common_kinds dir) ≡ true
      → elem_ℤ event.kind (get_common_kinds built) ≡ true
      → elem_ℤ event.kind (get_common_kinds now_read) ≡ true
      → IsDelivered event.kind
  unfolding all_kinds binding_key_of routing_key queue_name_of consumed_queue
  known-IsDelivered h known declared consumed = (
    rw (elem_ℤ-append event.kind (get_common_kinds built) (undefined_kind ∷ moderation_kind ∷ []))
        (ground arith),
    ground (arith, valid_kind h),
    ground (arith, valid_kind h),
  )

  unknown-IsDelivered :
      is_valid_event now event ≡ true
      → elem_ℤ event.kind (get_common_kinds dir) ≡ false
      → elem_ℤ event.kind (get_common_kinds now_read) ≡ false
      → IsDelivered undefined_kind
  unfolding all_kinds binding_key_of routing_key queue_name_of consumed_queue
  unknown-IsDelivered h unknown unread = (
    rw
        (elem_ℤ-append undefined_kind (get_common_kinds built)
          (undefined_kind ∷ moderation_kind ∷ []))
        (ground arith),
    ground arith,
    ground arith,
  )

  -- Where the event's kind, if it is known when the event is published, was known when the queues
  -- were declared, and is known on reading exactly if it was on publishing: the event is routed by a
  -- key that the constructor has bound a queue to, so that it is not lost at the exchange. If it
  -- passes the basic validation of the queue, which knows no rules of a kind, that queue is the one
  -- that consuming its kind reads, and otherwise the moderation queue.
  pub routing_key-IsDelivered :
      (elem_ℤ event.kind (get_common_kinds dir) ≡ true
        → elem_ℤ event.kind (get_common_kinds built) ≡ true)
      → elem_ℤ event.kind (get_common_kinds now_read) ≡ elem_ℤ event.kind (get_common_kinds dir)
      → (kind : ℤ) × IsDelivered kind
  routing_key-IsDelivered declared same = elim (Bool-cases (is_valid_event now event)) [
    | inr h ↦ (moderation_kind, refused-IsDelivered h)
    | inl h ↦ elim (Bool-cases (elem_ℤ event.kind (get_common_kinds dir))) [
      | inl known ↦ (event.kind, known-IsDelivered h known (declared known) (same ∙ known))
      | inr unknown ↦ (undefined_kind, unknown-IsDelivered h unknown (same ∙ unknown))
    ]
  ]

atoi-text : (atoi "undefined" ≡ none) × (atoi "moderation" ≡ none)
unfolding atoi read_digits
atoi-text = (refl, refl)

itoa-ne_text : (k : ℤ) → IsInt k → (itoa k ≢ "undefined") × (itoa k ≢ "moderation")
itoa-ne_text k h = (
  λ e. ground (arith, atoi-itoa k h, ap atoi e, atoi-text.0),
  λ e. ground (arith, atoi-itoa k h, ap atoi e, atoi-text.1),
)

itoa-injective : (j k : ℤ) → IsInt j → IsInt k → itoa j ≡ itoa k → j ≡ k
itoa-injective j k hj hk e = ground (arith, atoi-itoa j hj, atoi-itoa k hk, ap atoi e)

-- The text after "kind." and after "nostr_kind_".
suffix_of : ℤ → String
suffix_of kind =
    if eq_ℤ kind undefined_kind
    then "undefined"
    else if eq_ℤ kind moderation_kind
    then "moderation"
    else itoa kind

suffix_of-injective : (j k : ℤ) → IsInt j → IsInt k → suffix_of j ≡ suffix_of k → j ≡ k
unfolding suffix_of
suffix_of-injective j k hj hk e = ground (
  arith,
  itoa-ne_text j hj,
  itoa-ne_text k hk,
  itoa-injective j k hj hk,
  eq_iff "undefined" "moderation",
)

binding_key_of_suffix : (k : ℤ) → binding_key_of k ≡ "kind." <> suffix_of k
unfolding binding_key_of suffix_of
binding_key_of_suffix k = elim (Bool-cases (eq_ℤ k undefined_kind)) [
  | inl e ↦ rw e refl
  | inr e ↦ elim (Bool-cases (eq_ℤ k moderation_kind)) [
    | inl m ↦ rw (e, m) refl
    | inr m ↦ rw (e, m) refl
  ]
]

queue_name_of_suffix : (k : ℤ) → queue_name_of k ≡ "nostr_kind_" <> suffix_of k
unfolding queue_name_of suffix_of
queue_name_of_suffix k = elim (Bool-cases (eq_ℤ k undefined_kind)) [
  | inl e ↦ rw e refl
  | inr e ↦ elim (Bool-cases (eq_ℤ k moderation_kind)) [
    | inl m ↦ rw (e, m) refl
    | inr m ↦ rw (e, m) refl
  ]
]

-- No two kinds share a key or a queue, so that the exchange delivers an event to one queue of one
-- kind, for kinds that are Go integers.
pub binding_key_of-injective :
    (j k : ℤ)
    → IsInt j
    → IsInt k
    → (binding_key_of j ≡ binding_key_of k) ⊎ (queue_name_of j ≡ queue_name_of k)
    → j ≡ k
binding_key_of-injective j k hj hk (inl e) = suffix_of-injective j k hj hk (
    append_cancel_left "kind." (suffix_of j) (suffix_of k)
      (sym (binding_key_of_suffix j) ∙ e ∙ binding_key_of_suffix k))
binding_key_of-injective j k hj hk (inr e) = suffix_of-injective j k hj hk (
    append_cancel_left "nostr_kind_" (suffix_of j) (suffix_of k)
      (sym (queue_name_of_suffix j) ∙ e ∙ queue_name_of_suffix k))

-- Consuming by kind reads the moderation queue for no kind.
pub consumed_queue-ne_moderation :
    (dir : Directory) (kind : ℤ) → IsInt kind → consumed_queue dir kind ≢ "nostr_kind_moderation"
unfolding consumed_queue
consumed_queue-ne_moderation dir kind h e = elim (Bool-cases (elem_ℤ kind (get_common_kinds dir))) [
  | inl known ↦
      (itoa-ne_text kind h).1
        (append_cancel_left "nostr_kind_" (itoa kind) "moderation" (rw known at e))
  | inr unknown ↦ ground (arith, eq_iff "nostr_kind_undefined" "nostr_kind_moderation")
]
