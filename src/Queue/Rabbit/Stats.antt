-- ===== src/Queue/Rabbit/Stats.antt =====
-- What the statistics of internal/queue/rabbitmq.go count.
use mercury_relay.Prelude.{
  ℕ, String, ◌≡◌, refl, ap, true, Option, none, some, List, [], ◌∷◌, ℤ, eq_ℤ, elem_ℤ, eq_ℤ_iff,
  if◌then◌else◌, arith, Bool-cases, Sum-cases, inl, inr,
}
use mercury_relay.Queue.Rabbit.{
  Amqp, undefined_kind, moderation_kind, queue_name_of, all_kinds, inspected_queue,
}
use mercury_relay.Queue.Rabbit.Kinds.{Directory, get_common_kinds}
use mercury_relay.Queue.Rabbit.Routing.{elem_ℤ-append}
use mercury_relay.Queue.Rabbit.Operations.{
  get_kind_queue_stats, set_stat, stats_of_kinds, get_all_kind_queue_stats,
}

-- `stats[kind]` with its second result.
unfoldable pub stat_of : ℤ → List (ℤ × ℕ) → Option ℕ
stat_of kind [] = none
stat_of kind ((k, c) ∷ stats) = if eq_ℤ k kind then some c else stat_of kind stats

inspected_queue_name :
    (dir : Directory) (kind : ℤ)
    → elem_ℤ kind (all_kinds dir) ≡ true
    → inspected_queue dir kind ≡ queue_name_of kind
unfolding inspected_queue queue_name_of all_kinds
inspected_queue_name dir kind h =
    ground
      (arith, elem_ℤ-append kind (get_common_kinds dir) (undefined_kind ∷ moderation_kind ∷ []))

module _ (A : Amqp) (dir : Directory) (st : A.State) where
  stat_of-set_stat :
      (kind k : ℤ) (count : ℕ) (stats : List (ℤ × ℕ))
      → stat_of k (set_stat A kind count stats)
        ≡ (if eq_ℤ kind k then some count else stat_of k stats)
  unfolding stat_of set_stat
  stat_of-set_stat kind k count [] = refl
  stat_of-set_stat kind k count ((j, c) ∷ stats) =
      ground (arith, stat_of-set_stat kind k count stats)

  -- What the broker answers for a queue.
  abbrev pub inspected : String → Option ℕ
  inspected queue = elim (A.queue_inspect queue st) [ inl err ↦ none | inr count ↦ some count ]

  stat_next :
      (kind k : ℤ) (kinds : List ℤ) (start stats : List (ℤ × ℕ)) (count : ℕ)
      → get_kind_queue_stats A dir kind st ≡ inr count
      → stat_of k stats ≡ (
          if elem_ℤ k kinds
          then inspected (inspected_queue dir k)
          else stat_of k (set_stat A kind count start))
      → stat_of k stats
        ≡ (if elem_ℤ k (kind ∷ kinds) then inspected (inspected_queue dir k) else stat_of k start)
  unfolding get_kind_queue_stats
  stat_next kind k kinds start stats count f ih = elim (Bool-cases (eq_ℤ k kind)) [
    | inl e ↦ ground (
      arith,
      stat_of-set_stat kind k count start,
      ap (λ x. inspected (inspected_queue dir x)) ((eq_ℤ_iff k kind).0 e),
    )
    | inr e ↦ ground (arith, stat_of-set_stat kind k count start)
  ]

  stats_of_kinds_stat :
      (kinds : List ℤ) (start stats : List (ℤ × ℕ)) (k : ℤ)
      → stats_of_kinds A dir kinds st start ≡ inr stats
      → stat_of k stats
        ≡ (if elem_ℤ k kinds then inspected (inspected_queue dir k) else stat_of k start)
  unfolding stats_of_kinds
  stats_of_kinds_stat [] start stats k e = ground arith
  stats_of_kinds_stat (kind ∷ kinds) start stats k e =
      elim (Sum-cases (get_kind_queue_stats A dir kind st)) [
        | inl (err, f) ↦ ground arith
        | inr (count, f) ↦ stat_next kind k kinds start stats count f (
            stats_of_kinds_stat kinds (set_stat A kind count start) stats k
              (rw (stats_of_kinds, f) at e))
      ]

  -- Where all statistics are had, every kind that has a queue has the count of the very queue that
  -- the constructor declared for it, and no other kind has one.
  pub get_all_kind_queue_stats_stat :
      (stats : List (ℤ × ℕ)) (k : ℤ)
      → get_all_kind_queue_stats A dir st ≡ inr stats
      → stat_of k stats ≡ (if elem_ℤ k (all_kinds dir) then inspected (queue_name_of k) else none)
  unfolding get_all_kind_queue_stats stat_of
  get_all_kind_queue_stats_stat stats k e =
      ground (arith, stats_of_kinds_stat (all_kinds dir) [] stats k e, inspected_queue_name dir k)
